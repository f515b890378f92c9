-- ===== src/DecisionPrecedent/Policy/Examples.antt =====
-- A policy document for the model of src/lumina/decision_precedent/policy.py, and its theorem at it.
use lumina_framework.Base.{[], ◌∷◌, ok, ◌≡◌, refl, strip, lstrip, rstrip, is_space, elem}
use lumina_framework.Base.Dict.{Dict, get, put, merge}
use lumina_framework.ThreadRouting.Policy.{
  Value, integer, decimal, text, sequence, mapping, Items, end, item, nil, cons, require_scope,
  validate_policy_header, extra_keys, absent_keys, refuse_names, as_mapping, section, without_sites,
  field, number, positive_integer,
}
use lumina_framework.DecisionPrecedent.Policy.{
  DecisionPrecedentPolicy, resolve_decision_precedent_policy, merge_precedent_policy,
  validate_precedent_policy, risk_classes, listed, classes_in, distinct_texts, disjoint,
}
use lumina_framework.DecisionPrecedent.Policy.Valid.{IsPrecedentPolicy, resolve-IsPrecedentPolicy}

abbrev defaults : Items
defaults = item "candidate_limit" (integer 2) (
    item "suggest_threshold" (decimal 800000) (
      item "confirmation_threshold" (decimal 500000) (
        item "stale_after_days" (integer 30) (
          item "stale_penalty" (decimal 200000) (
            item "missing_precedent_penalty" (integer 1) (
              item "high_risk_classes" (sequence (cons (text " payroll ") nil))
                (item "confirmation_risk_classes" (sequence (cons (text "schedule") nil)) end)))))))

abbrev config : Dict Value
config =
    ("schema_version", text "1.0.0")
    ∷ ("policy_version", integer 1)
    ∷ ("defaults", mapping defaults)
    ∷ []

abbrev acme_east : DecisionPrecedentPolicy
acme_east = record {
  policy_version = 1;
  candidate_limit = 2;
  suggest_threshold = 800000;
  confirmation_threshold = 500000;
  stale_after_days = 30;
  stale_penalty = 200000;
  missing_precedent_penalty = 1000000;
  high_risk_classes = "payroll" ∷ [];
  confirmation_risk_classes = "schedule" ∷ [];
  organization_id = "acme";
  site_id = "east";
}

resolved : resolve_decision_precedent_policy config "acme" "east" ≡ ok acme_east
unfolding resolve_decision_precedent_policy require_scope strip lstrip rstrip is_space
    validate_policy_header extra_keys absent_keys refuse_names as_mapping section
    merge_precedent_policy without_sites validate_precedent_policy field number positive_integer
    risk_classes listed classes_in distinct_texts disjoint get put merge elem
resolved = refl

resolve-IsPrecedentPolicy_example : IsPrecedentPolicy acme_east
resolve-IsPrecedentPolicy_example = resolve-IsPrecedentPolicy config "acme" "east" resolved
