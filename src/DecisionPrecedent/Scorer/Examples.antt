-- ===== src/DecisionPrecedent/Scorer/Examples.antt =====
-- A test of the model of src/lumina/decision_precedent/scorer.py, and its theorems at one request.
use mathlib.Core.Path.{◌≡◌, refl}
use lumina_framework.Base.{
  ◌*◌, ◌≤◌, ◌<◌, true, false, some, List, [], ◌∷◌, Result, ◌≢◌, ◌↔◌, ◌⊎◌, elem, arith,
}
use lumina_framework.Base.Order.{text_leb}
use lumina_framework.Base.Sorting.{sort, insert}
use lumina_framework.DecisionPrecedent.Policy.{DecisionPrecedentPolicy}
use lumina_framework.DecisionPrecedent.Scorer
use lumina_framework.DecisionPrecedent.Scorer.{
  DecisionTier, suggest_only, require_confirmation, mandatory_escalation, PrecedentCandidate,
  DecisionConfidenceScore, scored, score_decision_precedent, Moment, aware, evaluated, value_error,
  day, ordered_matches, matches_from, band, precedes, final_score_of, decide_tier, rationale,
  require_identifier,
}
use lumina_framework.DecisionPrecedent.Scorer.Tiers.{scored_suggests, scored_escalates}

abbrev policy : DecisionPrecedentPolicy
policy = record {
  policy_version = 1;
  candidate_limit = 2;
  suggest_threshold = 800000;
  confirmation_threshold = 500000;
  stale_after_days = 30;
  stale_penalty = 200000;
  missing_precedent_penalty = 1000000;
  high_risk_classes = "payroll" ∷ [];
  confirmation_risk_classes = "schedule" ∷ [];
  organization_id = "acme";
  site_id = "east";
}

-- The better candidate is older than thirty days.
abbrev candidates : List PrecedentCandidate
candidates =
    record {
      summary_record_id = "s1";
      thread_id = "t1";
      similarity = 600000;
      created_utc = 39 * day;
    }
    ∷ record {
      summary_record_id = "s2";
      thread_id = "t2";
      similarity = 900000;
      created_utc = 5 * day;
    }
    ∷ []

abbrev score : DecisionConfidenceScore
score = scored candidates policy "ann" "orders" (40 * day) "r1"

score_test :
    (score.tier ≡ require_confirmation)
    × (score.final_score ≡ 700000)
    × (score.rationale_codes ≡ "confirmation_threshold" ∷ "stale_precedent" ∷ [])
unfolding scored ordered_matches matches_from band precedes sort insert text_leb final_score_of
    decide_tier rationale elem
score_test = (refl, refl, refl)

scored_suggests_example : (score.tier ≡ suggest_only) ↔ (
    (elem "orders" policy.high_risk_classes ≡ false)
    × (score.precedent_matches ≢ [])
    × (800000 ≤ score.final_score)
    × (elem "orders" policy.confirmation_risk_classes ≡ false))
scored_suggests_example = scored_suggests candidates policy "ann" "orders" (40 * day) "r1"

thresholds : policy.confirmation_threshold ≤ policy.suggest_threshold
thresholds = omega arith

scored_escalates_example : (score.tier ≡ mandatory_escalation) ↔ (
    (elem "orders" policy.high_risk_classes ≡ true)
    ⊎ ((score.precedent_matches ≡ []) ⊎ (score.final_score < 500000)))
scored_escalates_example =
    scored_escalates candidates policy "ann" "orders" (40 * day) "r1" thresholds

abbrev request : Result Scorer.Error DecisionConfidenceScore
request =
    score_decision_precedent candidates policy "ann" " orders" (some (aware (40 * day))) (some "r1")
      0 "u1"
