-- ===== src/ThreadRouting/Router.antt =====
-- src/lumina/thread_routing/router.py: deterministic decisions over scored thread candidates.
-- A score, a threshold and a margin are numbers of millionths; the source's floats are those of the
-- scores' own grid. The ids that the source would draw at random are arguments.
pub mod Ordering
pub mod Chain
pub mod Decisions
pub mod Stable
mod Examples
use lumina_framework.Base.{
  ℕ, ◌-◌, ◌+◌, zero, suc, String, Bool, true, false, not, ◌&&◌, ◌||◌, Option, none, some, List, [],
  ◌∷◌, map, Result, ok, err, ◌>>=◌, str_eq, if◌then◌else◌, ltb, leb, ◌==◌, length, take, strip,
}
use lumina_framework.Base.Order.{text_leb}
use lumina_framework.Base.Sorting.{sort}

abbrev pub one : ℕ
one = 1000000

pub data RoutingAction : Type 0 where
  attach_existing create_new fork_from : RoutingAction

pub data RationaleCode : Type 0 where
  high_confidence_match no_eligible_match topic_drift ambiguous_attach manual_policy : RationaleCode
  operator_override : RationaleCode

-- The actions that a policy may ask the operator to confirm.
pub data ConfirmationAction : Type 0 where
  attach_existing create_new fork_from ambiguous_attach : ConfirmationAction

pub data Error : Type 0 where
  value_error : String → Error

pub record ThreadRoutingPolicy : Type 0 where
  pub policy_version : ℕ
  pub attach_threshold : ℕ
  pub fork_threshold : ℕ
  pub ambiguity_margin : ℕ
  pub recap_interval_turns : ℕ
  pub candidate_limit : ℕ
  pub manual_only : Bool
  pub require_operator_confirmation_for : List ConfirmationAction
  pub organization_id : String
  pub site_id : String

pub record ThreadCandidate : Type 0 where
  pub thread_id : String
  pub summary_record_id : String
  pub score : ℕ

-- The constructor with `__post_init__`; scores below 0 have no number of millionths.
unfoldable pub thread_candidate : String → String → ℕ → Result Error ThreadCandidate
thread_candidate thread_id summary_record_id score =
    if str_eq thread_id "" || str_eq summary_record_id ""
    then err (value_error "thread candidates require thread and summary record identifiers")
    else if leb score one
    then ok (record { thread_id = thread_id; summary_record_id = summary_record_id; score = score })
    else err (value_error "thread candidate score must be between 0 and 1")

pub record ThreadRoutingDecision : Type 0 where
  pub decision_id : String
  pub organization_id : String
  pub site_id : String
  pub actor_id : String
  pub decision : RoutingAction
  pub thread_id : String
  pub source_thread_id : Option String
  pub policy_version : ℕ
  pub confidence : ℕ
  pub rationale_code : RationaleCode
  pub operator_confirmation_required : Bool
  pub candidates : List ThreadCandidate
  pub operator_override : Bool

-- `(-a.score, a.thread_id) <= (-b.score, b.thread_id)`
unfoldable pub before : ThreadCandidate → ThreadCandidate → Bool
unfolding text_leb
before a b = ltb b.score a.score || (a.score == b.score && text_leb a.thread_id b.thread_id)

unfoldable pub ordered_candidates : List ThreadCandidate → ℕ → List ThreadCandidate
unfolding sort before
ordered_candidates candidates limit = take limit (sort before candidates)

abbrev pub head? : List ThreadCandidate → Option ThreadCandidate
head? [] = none
head? (c ∷ cs) = some c

-- `next((c for c in ordered if c.thread_id == active_thread_id), None)`
unfoldable pub find_active : Option String → List ThreadCandidate → Option ThreadCandidate
find_active none cs = none
find_active (some t) [] = none
find_active (some t) (c ∷ cs) = if str_eq c.thread_id t then some c else find_active (some t) cs

-- `a or b`
abbrev pub or_else : Option String → String → String
or_else none b = b
or_else (some a) b = if str_eq a "" then b else a

-- `active is None or active.score < fork_threshold`
abbrev pub drifted : Option ThreadCandidate → ℕ → Bool
drifted none threshold = true
drifted (some c) threshold = ltb c.score threshold

-- `candidate.score if candidate else 0.0`
abbrev pub score_of : Option ThreadCandidate → ℕ
score_of none = 0
score_of (some c) = c.score

-- What the chain of conditions chooses.
pub record Choice : Type 0 where
  pub decision : RoutingAction
  pub thread_id : String
  pub source_thread_id : Option String
  pub confidence : ℕ
  pub rationale : RationaleCode

unfoldable pub create : String → ℕ → RationaleCode → Choice
create generated confidence rationale = record {
  decision = RoutingAction.create_new;
  thread_id = generated;
  source_thread_id = none;
  confidence = confidence;
  rationale = rationale;
}

-- The last two branches: fork from the active thread that the turn drifted away from, or start anew.
unfoldable pub fork_or_create :
    ThreadRoutingPolicy
    → Option ThreadCandidate
    → Option ThreadCandidate
    → Option String
    → String
    → Choice
unfolding create
fork_or_create policy best active none generated =
    create generated (score_of best) no_eligible_match
fork_or_create policy best active (some t) generated =
    if not (str_eq t "") && drifted active policy.fork_threshold
    then record {
      decision = RoutingAction.fork_from;
      thread_id = generated;
      source_thread_id = some t;
      confidence = score_of active;
      rationale = topic_drift;
    }
    else create generated (score_of best) no_eligible_match

-- The branch on the best candidate.
unfoldable pub attach_or : ThreadRoutingPolicy → Option ThreadCandidate → Choice → Choice
attach_or policy none other = other
attach_or policy (some best) other =
    if leb policy.attach_threshold best.score
    then record {
      decision = RoutingAction.attach_existing;
      thread_id = best.thread_id;
      source_thread_id = none;
      confidence = best.score;
      rationale = high_confidence_match;
    }
    else other

unfoldable pub choose : ThreadRoutingPolicy → List ThreadCandidate → Option String → String → Choice
choose policy ordered active_thread_id generated =
    if policy.manual_only
    then create generated (score_of (head? ordered)) manual_policy
    else attach_or policy (head? ordered) (
        fork_or_create policy (head? ordered) (find_active active_thread_id ordered)
          active_thread_id generated)

abbrev pub is_attach : RoutingAction → Bool
is_attach RoutingAction.attach_existing = true
is_attach _ = false

-- The runner-up is within the margin. Candidates are in order, so the difference is not negative. The difference
-- of the millionths is exact; the source's, of two floats, is rounded, and may fall on the other side where it
-- equals the margin.
unfoldable pub close_call : List ThreadCandidate → ℕ → Bool
close_call (best ∷ second ∷ cs) margin = leb (best.score - second.score) margin
close_call _ margin = false

-- `decision in policy.require_operator_confirmation_for`
unfoldable pub confirms : RoutingAction → List ConfirmationAction → Bool
confirms action [] = false
confirms RoutingAction.attach_existing (ConfirmationAction.attach_existing ∷ cs) = true
confirms RoutingAction.create_new (ConfirmationAction.create_new ∷ cs) = true
confirms RoutingAction.fork_from (ConfirmationAction.fork_from ∷ cs) = true
confirms action (_ ∷ cs) = confirms action cs

-- The decision that is returned, for an actor that is named.
unfoldable pub decided :
    List ThreadCandidate
    → ThreadRoutingPolicy
    → String
    → Option String
    → Option String
    → Option String
    → String
    → String
    → ThreadRoutingDecision
decided candidates policy actor_id active_thread_id decision_id new_thread_id uuid thread_uuid =
    let ordered : List ThreadCandidate = ordered_candidates candidates policy.candidate_limit in
    let c : Choice = choose policy ordered active_thread_id (or_else new_thread_id thread_uuid) in
    let ambiguous : Bool = is_attach c.decision && close_call ordered policy.ambiguity_margin in
    record {
      decision_id = or_else decision_id uuid;
      organization_id = policy.organization_id;
      site_id = policy.site_id;
      actor_id = strip actor_id;
      decision = c.decision;
      thread_id = c.thread_id;
      source_thread_id = c.source_thread_id;
      policy_version = policy.policy_version;
      confidence = c.confidence;
      rationale_code = if ambiguous then RationaleCode.ambiguous_attach else c.rationale;
      operator_confirmation_required =
          policy.manual_only
          || (ambiguous || confirms c.decision policy.require_operator_confirmation_for);
      candidates = ordered;
      operator_override = false;
    }

-- `uuid` and `thread_uuid` are what the source draws where no id is given.
unfoldable pub decide_thread_route :
    List ThreadCandidate
    → ThreadRoutingPolicy
    → String
    → Option String
    → Option String
    → Option String
    → String
    → String
    → Result Error ThreadRoutingDecision
decide_thread_route candidates policy actor_id active_thread_id decision_id new_thread_id uuid
      thread_uuid =
    if str_eq actor_id "" || str_eq (strip actor_id) ""
    then err (value_error "thread routing requires actor_id")
    else ok (
        decided candidates policy actor_id active_thread_id decision_id new_thread_id uuid
          thread_uuid)

-- One row of the record's `candidates`: the candidate with its rank.
pub record RankedCandidate : Type 0 where
  pub candidate : ThreadCandidate
  pub rank : ℕ

-- `enumerate(self.candidates, start=rank)`, as in `as_record`.
unfoldable pub ranked : ℕ → List ThreadCandidate → List RankedCandidate
ranked rank [] = []
ranked rank (c ∷ cs) = record { candidate = c; rank = rank } ∷ ranked (rank + 1) cs
