-- ===== src/DecisionPrecedent/Scorer.antt =====
-- src/lumina/decision_precedent/scorer.py. Scores, thresholds
-- and penalties are millionths, on which the source's `round(…, 6)` changes nothing; subtraction that
-- stops at 0 is the source's `max(0.0, …)`. An instant is a number of microseconds.
pub mod Tiers
mod Examples
use lumina_framework.Base.{
  ℕ, ◌-◌, ◌+◌, ◌*◌, suc, String, Bool, true, false, not, ◌&&◌, ◌||◌, Option, none, some, List, [],
  ◌∷◌, ◌++◌, Result, ok, err, ◌>>=◌, str_eq, if◌then◌else◌, ltb, leb, ◌==◌, take, strip, elem,
  get_or,
}
use lumina_framework.Base.Order.{text_leb}
use lumina_framework.Base.Sorting.{sort}
use lumina_framework.ThreadRouting.Router.{one}
use lumina_framework.DecisionPrecedent.Policy.{DecisionPrecedentPolicy}

abbrev pub day : ℕ
day = 86400000000

pub data DecisionTier : Type 0 where
  suggest_only require_confirmation mandatory_escalation : DecisionTier

pub data RecencyBand : Type 0 where
  current stale : RecencyBand

pub data Error : Type 0 where
  value_error : String → Error

-- A datetime with or without a timezone.
pub data Moment : Type 0 where
  aware naive : ℕ → Moment

pub record PrecedentCandidate : Type 0 where
  pub summary_record_id : String
  pub thread_id : String
  pub similarity : ℕ
  pub created_utc : ℕ

-- The constructor with `__post_init__`.
unfoldable pub precedent_candidate : String → String → ℕ → Moment → Result Error PrecedentCandidate
precedent_candidate summary_record_id thread_id similarity created_utc =
    if str_eq summary_record_id "" || str_eq thread_id ""
    then err (value_error "precedent candidates require summary and thread identifiers")
    else if leb similarity one
    then elim created_utc [
      | naive t ↦ err (value_error "precedent candidate created_utc must include a timezone")
      | aware t ↦ ok (record {
        summary_record_id = summary_record_id;
        thread_id = thread_id;
        similarity = similarity;
        created_utc = t;
      })
    ]
    else err (value_error "precedent candidate similarity must be between 0 and 1")

pub record PrecedentMatch : Type 0 where
  pub summary_record_id : String
  pub thread_id : String
  pub similarity : ℕ
  pub created_utc : ℕ
  pub recency_band : RecencyBand
  pub rank : ℕ

pub record DecisionConfidenceScore : Type 0 where
  pub record_id : String
  pub organization_id : String
  pub site_id : String
  pub actor_id : String
  pub policy_version : ℕ
  pub risk_class : String
  pub similarity_score : ℕ
  pub recency_penalty : ℕ
  pub missing_precedent_penalty : ℕ
  pub final_score : ℕ
  pub tier : DecisionTier
  pub rationale_codes : List String
  pub precedent_matches : List PrecedentMatch

unfoldable pub require_identifier : String → String → Result Error String
unfolding strip
require_identifier value message =
    if str_eq (strip value) "" then err (value_error message) else ok (strip value)

-- The sort key: the higher similarity first, then the smaller id.
unfoldable pub precedes : PrecedentCandidate → PrecedentCandidate → Bool
unfolding text_leb
precedes a b =
    ltb b.similarity a.similarity
    || (a.similarity == b.similarity && text_leb a.summary_record_id b.summary_record_id)

-- Older than the cutoff, which is `now` less so many days.
unfoldable pub band : ℕ → ℕ → PrecedentCandidate → RecencyBand
band now stale_after_days c =
    if ltb (c.created_utc + stale_after_days * day) now then stale else current

unfoldable pub matches_from : ℕ → ℕ → ℕ → List PrecedentCandidate → List PrecedentMatch
unfolding band
matches_from rank now stale_after_days [] = []
matches_from rank now stale_after_days (c ∷ cs) =
    record {
      summary_record_id = c.summary_record_id;
      thread_id = c.thread_id;
      similarity = c.similarity;
      created_utc = c.created_utc;
      recency_band = band now stale_after_days c;
      rank = rank;
    }
    ∷ matches_from (suc rank) now stale_after_days cs

unfoldable pub ordered_matches :
    List PrecedentCandidate → DecisionPrecedentPolicy → ℕ → List PrecedentMatch
unfolding sort precedes matches_from
ordered_matches candidates policy now =
    matches_from 1 now policy.stale_after_days
      (take policy.candidate_limit (sort precedes candidates))

abbrev pub first : List PrecedentMatch → Option PrecedentMatch
first [] = none
first (m ∷ ms) = some m

abbrev pub is_stale : Option PrecedentMatch → Bool
is_stale none = false
is_stale (some m) = elim m.recency_band [ stale ↦ true | current ↦ false ]

abbrev pub similarity_of : Option PrecedentMatch → ℕ
similarity_of none = 0
similarity_of (some m) = m.similarity

abbrev pub recency_penalty_of : DecisionPrecedentPolicy → Option PrecedentMatch → ℕ
recency_penalty_of policy best = if is_stale best then policy.stale_penalty else 0

abbrev pub missing_penalty_of : DecisionPrecedentPolicy → Option PrecedentMatch → ℕ
missing_penalty_of policy none = policy.missing_precedent_penalty
missing_penalty_of policy (some _) = 0

unfoldable pub final_score_of : DecisionPrecedentPolicy → Option PrecedentMatch → ℕ
final_score_of policy best =
    similarity_of best - recency_penalty_of policy best - missing_penalty_of policy best

-- The tier and the code of its reason.
unfoldable pub decide_tier :
    DecisionPrecedentPolicy → String → Option PrecedentMatch → ℕ → DecisionTier × String
unfolding elem
decide_tier policy risk_class best final_score =
    if elem risk_class policy.high_risk_classes
    then (mandatory_escalation, "high_risk_class")
    else elim best [
      | none ↦ (mandatory_escalation, "missing_precedent")
      | some _ ↦
          if leb policy.suggest_threshold final_score
            && not (elem risk_class policy.confirmation_risk_classes)
          then (suggest_only, "high_confidence_precedent")
          else if leb policy.confirmation_threshold final_score
          then (require_confirmation, "confirmation_threshold")
          else (mandatory_escalation, "insufficient_confidence")
    ]

abbrev pub is_confirmation : DecisionTier → Bool
is_confirmation require_confirmation = true
is_confirmation _ = false

unfoldable pub rationale :
    DecisionPrecedentPolicy → String → Option PrecedentMatch → DecisionTier × String → List String
unfolding elem
rationale policy risk_class best (tier, code) =
    code ∷ (if is_stale best then "stale_precedent" ∷ [] else [])
    ++ (if elem risk_class policy.confirmation_risk_classes && is_confirmation tier
        then "confirmation_risk_class" ∷ []
        else [])

abbrev pub evaluated : ℕ → Option Moment → Result Error ℕ
evaluated clock none = ok clock
evaluated clock (some (aware t)) = ok t
evaluated clock (some (naive t)) =
    err (value_error "decision confidence evaluated_utc must include a timezone")

-- The score of a request with its names stripped, at an instant.
unfoldable pub scored :
    List PrecedentCandidate
    → DecisionPrecedentPolicy
    → String
    → String
    → ℕ
    → String
    → DecisionConfidenceScore
unfolding ordered_matches final_score_of decide_tier rationale
scored candidates policy actor_id risk_class now record_id =
    let matches = ordered_matches candidates policy now in
    let best = first matches in
    let decision = decide_tier policy risk_class best (final_score_of policy best) in
    record {
      record_id = record_id;
      organization_id = policy.organization_id;
      site_id = policy.site_id;
      actor_id = actor_id;
      policy_version = policy.policy_version;
      risk_class = risk_class;
      similarity_score = similarity_of best;
      recency_penalty = recency_penalty_of policy best;
      missing_precedent_penalty = missing_penalty_of policy best;
      final_score = final_score_of policy best;
      tier = decision.0;
      rationale_codes = rationale policy risk_class best decision;
      precedent_matches = matches;
    }

-- `record_id or uuid4()`
abbrev pub id_or : Option String → String → String
id_or none uuid = uuid
id_or (some t) uuid = if str_eq t "" then uuid else t

-- `clock` is the instant now and `uuid` a fresh id.
unfoldable pub score_decision_precedent :
    List PrecedentCandidate
    → DecisionPrecedentPolicy
    → String
    → String
    → Option Moment
    → Option String
    → ℕ
    → String
    → Result Error DecisionConfidenceScore
unfolding require_identifier scored
score_decision_precedent candidates policy actor_id risk_class evaluated_utc record_id clock uuid =
    do
      actor ← require_identifier actor_id "decision confidence requires actor_id"
      risk ← require_identifier risk_class "decision confidence requires risk_class"
      now ← evaluated clock evaluated_utc
      ok (scored candidates policy actor risk now (id_or record_id uuid))
