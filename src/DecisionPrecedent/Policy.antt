-- ===== src/DecisionPrecedent/Policy.antt =====
-- src/lumina/decision_precedent/policy.py. The helpers that it shares, line by line, with
-- src/lumina/thread_routing/policy.py are those of ThreadRouting/Policy.
pub mod Valid
mod Examples
use lumina_framework.Base.{
  ℕ, String, Bool, true, false, not, ◌&&◌, List, [], ◌∷◌, Result, ok, err, ◌>>=◌, str_eq,
  if◌then◌else◌, leb, get_or, elem, strip,
}
use lumina_framework.Base.Dict.{Dict, get, merge}
use lumina_framework.ThreadRouting.Policy.{
  Value, null, text, sequence, values_of, Error, unknown_fields, missing_defaults, bad_version,
  not_positive, bad_classes, repeated_classes, confirmation_above_suggest, overlapping_classes,
  extra_keys, absent_keys, refuse_names, demand, number, positive_integer, field, as_mapping,
  section, without_sites, require_scope, validate_policy_header,
}

pub record DecisionPrecedentPolicy : Type 0 where
  pub policy_version : ℕ
  pub candidate_limit : ℕ
  pub suggest_threshold : ℕ
  pub confirmation_threshold : ℕ
  pub stale_after_days : ℕ
  pub stale_penalty : ℕ
  pub missing_precedent_penalty : ℕ
  pub high_risk_classes : List String
  pub confirmation_risk_classes : List String
  pub organization_id : String
  pub site_id : String

abbrev pub precedent_fields : List String
precedent_fields =
    "candidate_limit" ∷ "suggest_threshold" ∷ "confirmation_threshold" ∷ "stale_after_days"
    ∷ "stale_penalty" ∷ "missing_precedent_penalty" ∷ "high_risk_classes"
    ∷ "confirmation_risk_classes" ∷ []

unfoldable pub merge_precedent_policy : Dict Value → Dict Value → String → Result Error (Dict Value)
unfolding extra_keys refuse_names merge
merge_precedent_policy base override field_name = do
  _ ← refuse_names (unknown_fields field_name) (extra_keys precedent_fields override)
  ok (merge base override)

-- An element that is a text with more than white space, stripped.
abbrev class_in : Value → String → Result Error String
class_in (text t) field_name =
    if str_eq (strip t) "" then err (bad_classes field_name) else ok (strip t)
class_in _ field_name = err (bad_classes field_name)

unfoldable pub classes_in : List Value → String → Result Error (List String)
unfolding strip
classes_in [] field_name = ok []
classes_in (v ∷ vs) field_name =
    let rest = classes_in vs field_name in
    do c ← class_in v field_name; classes ← rest; ok (c ∷ classes)

unfoldable pub listed : Value → String → Result Error (List String)
unfolding classes_in
listed (sequence vs) field_name = classes_in (values_of vs) field_name
listed _ field_name = err (bad_classes field_name)

-- `len(set(classes)) == len(classes)`
unfoldable pub distinct_texts : List String → Bool
unfolding elem
distinct_texts [] = true
distinct_texts (c ∷ classes) = not (elem c classes) && distinct_texts classes

-- `not set(a) & set(b)`
unfoldable pub disjoint : List String → List String → Bool
unfolding elem
disjoint [] classes = true
disjoint (c ∷ others) classes = not (elem c classes) && disjoint others classes

unfoldable pub risk_classes : Value → String → Result Error (List String)
unfolding listed distinct_texts
risk_classes value field_name = do
  normalized ← listed value field_name
  _ ← demand (distinct_texts normalized) (repeated_classes field_name)
  ok normalized

unfoldable pub validate_precedent_policy :
    Dict Value → Value → String → String → Result Error DecisionPrecedentPolicy
unfolding absent_keys refuse_names field number positive_integer risk_classes disjoint
validate_precedent_policy policy policy_version organization_id site_id = do
  _ ← refuse_names missing_defaults (absent_keys precedent_fields policy)
  version ← positive_integer policy_version bad_version
  suggest_value ← field "suggest_threshold" policy
  suggest_threshold ← number suggest_value "suggest_threshold"
  confirmation_value ← field "confirmation_threshold" policy
  confirmation_threshold ← number confirmation_value "confirmation_threshold"
  _ ← demand (leb confirmation_threshold suggest_threshold) confirmation_above_suggest
  high_value ← field "high_risk_classes" policy
  high_risk_classes ← risk_classes high_value "high_risk_classes"
  asking_value ← field "confirmation_risk_classes" policy
  confirmation_risk_classes ← risk_classes asking_value "confirmation_risk_classes"
  _ ← demand (disjoint high_risk_classes confirmation_risk_classes) overlapping_classes
  limit_value ← field "candidate_limit" policy
  candidate_limit ← positive_integer limit_value (not_positive "candidate_limit")
  days_value ← field "stale_after_days" policy
  stale_after_days ← positive_integer days_value (not_positive "stale_after_days")
  stale_value ← field "stale_penalty" policy
  stale_penalty ← number stale_value "stale_penalty"
  missing_value ← field "missing_precedent_penalty" policy
  missing_precedent_penalty ← number missing_value "missing_precedent_penalty"
  ok (record {
    policy_version = version;
    candidate_limit = candidate_limit;
    suggest_threshold = suggest_threshold;
    confirmation_threshold = confirmation_threshold;
    stale_after_days = stale_after_days;
    stale_penalty = stale_penalty;
    missing_precedent_penalty = missing_precedent_penalty;
    high_risk_classes = high_risk_classes;
    confirmation_risk_classes = confirmation_risk_classes;
    organization_id = organization_id;
    site_id = site_id;
  })

unfoldable pub resolve_decision_precedent_policy :
    Dict Value → String → String → Result Error DecisionPrecedentPolicy
unfolding require_scope validate_policy_header as_mapping merge_precedent_policy section
    without_sites validate_precedent_policy get
resolve_decision_precedent_policy config organization site = do
  organization_id ← require_scope organization "organization_id"
  site_id ← require_scope site "site_id"
  _ ← validate_policy_header config
  defaults ← as_mapping (get_or (get "defaults" config) null) "defaults"
  base ← merge_precedent_policy [] defaults "defaults"
  organizations ← section "organizations" config "organizations"
  organization_override ← section organization_id organizations "organizations.organization_id"
  sites ← section "sites" organization_override "organizations.organization_id.sites"
  with_organization ←
      merge_precedent_policy base (without_sites organization_override)
        "organizations.organization_id"
  site_override ← section site_id sites "organizations.organization_id.sites.site_id"
  resolved ←
      merge_precedent_policy with_organization site_override
        "organizations.organization_id.sites.site_id"
  validate_precedent_policy resolved (get_or (get "policy_version" config) null) organization_id
      site_id
