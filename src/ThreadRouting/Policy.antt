-- ===== src/ThreadRouting/Policy.antt =====
-- src/lumina/thread_routing/policy.py and src/lumina/core/policy_validation.py: a policy document is
-- resolved for an organization and a site. The document is the value that the YAML loader returns; a
-- mapping has text keys. Numbers between 0 and 1 are millionths, as in the router.
pub mod Valid
pub mod Routing
mod Examples
use lumina_framework.Base.{
  ℕ, ◌*◌, zero, suc, String, Bool, true, false, not, ◌&&◌, ◌||◌, Option, none, some, List, [], ◌∷◌,
  ◌++◌, map, Result, ok, err, ◌>>=◌, str_eq, if◌then◌else◌, ltb, leb, get_or, elem, strip,
}
use lumina_framework.Base.Dict.{Dict, get, merge}
use lumina_framework.Base.Order.{text_leb}
use lumina_framework.Base.Sorting.{sort}
use lumina_framework.ThreadRouting.Router.{ThreadRoutingPolicy, ConfirmationAction, one}

-- `decimal` is a finite float that is not negative, in millionths; `negative` is a number below 0 and
-- says whether it is an integer; `non_finite` is a float that is infinite or not a number.
mutual
  pub data Value : Type 0 where
    null non_finite : Value
    boolean : Bool → Value
    integer : ℕ → Value
    negative : Bool → Value
    decimal : ℕ → Value
    text : String → Value
    sequence : Values → Value
    mapping : Items → Value

  pub data Values : Type 0 where
    nil : Values
    cons : Value → Values → Values

  pub data Items : Type 0 where
    end : Items
    item : String → Value → Items → Items

abbrev pub values_of : Values → List Value
values_of nil = []
values_of (cons v vs) = v ∷ values_of vs

abbrev pub items_of : Items → Dict Value
items_of end = []
items_of (item k v is) = (k, v) ∷ items_of is

-- The errors by what they say; the texts are the names of fields, those of a nested mapping without its
-- ids. The last two lines are of src/lumina/decision_precedent/policy.py only.
pub data Error : Type 0 where
  unknown_top_level : List String → Error
  unsupported_schema : Error
  requires : String → Error
  not_mapping : String → Error
  unknown_fields : String → List String → Error
  missing_defaults : List String → Error
  not_finite not_unit not_positive : String → Error
  bad_version fork_above_attach bad_actions repeated_actions bad_manual_only : Error
  key_error : String → Error
  bad_classes repeated_classes : String → Error
  confirmation_above_suggest overlapping_classes : Error

abbrev pub policy_fields : List String
policy_fields =
    "attach_threshold" ∷ "fork_threshold" ∷ "ambiguity_margin" ∷ "recap_interval_turns"
    ∷ "candidate_limit" ∷ "manual_only" ∷ "require_operator_confirmation_for" ∷ []

abbrev pub top_level_fields : List String
top_level_fields = "schema_version" ∷ "policy_version" ∷ "defaults" ∷ "organizations" ∷ []

-- `set(d) - fields`
unfoldable pub extra_keys : List String → Dict Value → List String
unfolding elem
extra_keys fields [] = []
extra_keys fields ((k, _) ∷ d) =
    let rest = extra_keys fields d in if elem k fields then rest else k ∷ rest

-- `fields - set(d)`
unfoldable pub absent_keys : List String → Dict Value → List String
unfolding get
absent_keys [] d = []
absent_keys (f ∷ fields) d =
    let rest = absent_keys fields d in elim (get f d) [ none ↦ f ∷ rest | some _ ↦ rest ]

-- `if names: raise …(sorted(names))`
unfoldable pub refuse_names : (List String → Error) → List String → Result Error (Unit {0})
unfolding sort text_leb
refuse_names e [] = ok tt
refuse_names e (n ∷ names) = err (e (sort text_leb (n ∷ names)))

-- `if not test: raise e`
abbrev pub demand : Bool → Error → Result Error (Unit {0})
demand true e = ok tt
demand false e = err e

abbrev pub is_schema : Option Value → Bool
is_schema (some (text t)) = str_eq t "1.0.0"
is_schema _ = false

-- `validate_policy_header`
unfoldable pub validate_policy_header : Dict Value → Result Error (Unit {0})
unfolding extra_keys refuse_names get
validate_policy_header config = do
  _ ← refuse_names unknown_top_level (extra_keys top_level_fields config)
  demand (is_schema (get "schema_version" config)) unsupported_schema

unfoldable pub require_scope : String → String → Result Error String
unfolding strip
require_scope identifier field_name =
    if str_eq (strip identifier) "" then err (requires field_name) else ok (strip identifier)

unfoldable pub as_mapping : Value → String → Result Error (Dict Value)
as_mapping (mapping is) field_name = ok (items_of is)
as_mapping _ field_name = err (not_mapping field_name)

unfoldable pub merge_policy : Dict Value → Dict Value → String → Result Error (Dict Value)
unfolding extra_keys refuse_names merge
merge_policy base override field_name = do
  _ ← refuse_names (unknown_fields field_name) (extra_keys policy_fields override)
  ok (merge base override)

abbrev unit_number : ℕ → String → Result Error ℕ
unit_number n field_name = if leb n one then ok n else err (not_unit field_name)

-- `_number`
unfoldable pub number : Value → String → Result Error ℕ
number (integer n) field_name = unit_number (n * one) field_name
number (decimal n) field_name = unit_number n field_name
number (negative _) field_name = err (not_unit field_name)
number _ field_name = err (not_finite field_name)

abbrev positive : ℕ → Error → Result Error ℕ
positive zero e = err e
positive (suc n) e = ok (suc n)

-- `_positive_integer`, and the same test of the version with its own error.
unfoldable pub positive_integer : Value → Error → Result Error ℕ
positive_integer (integer n) e = positive n e
positive_integer _ e = err e

unfoldable pub action_of : String → Option ConfirmationAction
action_of t =
    if str_eq t "attach_existing"
    then some ConfirmationAction.attach_existing
    else if str_eq t "create_new"
    then some ConfirmationAction.create_new
    else if str_eq t "fork_from"
    then some ConfirmationAction.fork_from
    else if str_eq t "ambiguous_attach"
    then some ConfirmationAction.ambiguous_attach
    else none

unfoldable pub same_action : ConfirmationAction → ConfirmationAction → Bool
same_action ConfirmationAction.attach_existing ConfirmationAction.attach_existing = true
same_action ConfirmationAction.create_new ConfirmationAction.create_new = true
same_action ConfirmationAction.fork_from ConfirmationAction.fork_from = true
same_action ConfirmationAction.ambiguous_attach ConfirmationAction.ambiguous_attach = true
same_action _ _ = false

abbrev action_in : Value → Result Error ConfirmationAction
action_in (text t) = elim (action_of t) [ none ↦ err bad_actions | some a ↦ ok a ]
action_in _ = err bad_actions

unfoldable pub actions_in : List Value → Result Error (List ConfirmationAction)
unfolding action_of
actions_in [] = ok []
actions_in (v ∷ vs) =
    let rest = actions_in vs in do a ← action_in v; actions ← rest; ok (a ∷ actions)

unfoldable pub confirmation_actions : Value → Result Error (List ConfirmationAction)
unfolding actions_in
confirmation_actions (sequence vs) = actions_in (values_of vs)
confirmation_actions _ = err bad_actions

unfoldable pub has_action : ConfirmationAction → List ConfirmationAction → Bool
unfolding same_action
has_action a [] = false
has_action a (b ∷ actions) = same_action a b || has_action a actions

-- `len(set(actions)) == len(actions)`
unfoldable pub all_distinct : List ConfirmationAction → Bool
unfolding has_action
all_distinct [] = true
all_distinct (a ∷ actions) = not (has_action a actions) && all_distinct actions

unfoldable pub switch : Value → Result Error Bool
switch (boolean b) = ok b
switch _ = err bad_manual_only

-- `policy[name]`
unfoldable pub field : String → Dict Value → Result Error Value
unfolding get
field name policy = elim (get name policy) [ none ↦ err (key_error name) | some v ↦ ok v ]

unfoldable pub validate_resolved_policy :
    Dict Value → Value → String → String → Result Error ThreadRoutingPolicy
unfolding absent_keys extra_keys refuse_names field number positive_integer confirmation_actions
    all_distinct switch
validate_resolved_policy policy policy_version organization_id site_id = do
  _ ← refuse_names missing_defaults (absent_keys policy_fields policy)
  _ ← refuse_names (unknown_fields "") (extra_keys policy_fields policy)
  version ← positive_integer policy_version bad_version
  attach_value ← field "attach_threshold" policy
  attach_threshold ← number attach_value "attach_threshold"
  fork_value ← field "fork_threshold" policy
  fork_threshold ← number fork_value "fork_threshold"
  _ ← demand (leb fork_threshold attach_threshold) fork_above_attach
  actions_value ← field "require_operator_confirmation_for" policy
  actions ← confirmation_actions actions_value
  _ ← demand (all_distinct actions) repeated_actions
  manual_value ← field "manual_only" policy
  manual_only ← switch manual_value
  margin_value ← field "ambiguity_margin" policy
  ambiguity_margin ← number margin_value "ambiguity_margin"
  recap_value ← field "recap_interval_turns" policy
  recap_interval_turns ← positive_integer recap_value (not_positive "recap_interval_turns")
  limit_value ← field "candidate_limit" policy
  candidate_limit ← positive_integer limit_value (not_positive "candidate_limit")
  ok (record {
    policy_version = version;
    attach_threshold = attach_threshold;
    fork_threshold = fork_threshold;
    ambiguity_margin = ambiguity_margin;
    recap_interval_turns = recap_interval_turns;
    candidate_limit = candidate_limit;
    manual_only = manual_only;
    require_operator_confirmation_for = actions;
    organization_id = organization_id;
    site_id = site_id;
  })

-- `{key: value … if key != "sites"}`
unfoldable pub without_sites : Dict Value → Dict Value
without_sites [] = []
without_sites ((k, v) ∷ d) =
    let rest = without_sites d in if str_eq k "sites" then rest else (k, v) ∷ rest

-- `d.get(key, {})`, which must be a mapping.
unfoldable pub section : String → Dict Value → String → Result Error (Dict Value)
unfolding get as_mapping
section key d field_name = as_mapping (get_or (get key d) (mapping end)) field_name

unfoldable pub resolve_thread_routing_policy :
    Dict Value → String → String → Result Error ThreadRoutingPolicy
unfolding require_scope validate_policy_header as_mapping merge_policy section without_sites
    validate_resolved_policy get
resolve_thread_routing_policy config organization site = do
  organization_id ← require_scope organization "organization_id"
  site_id ← require_scope site "site_id"
  _ ← validate_policy_header config
  defaults ← as_mapping (get_or (get "defaults" config) null) "defaults"
  base ← merge_policy [] defaults "defaults"
  organizations ← section "organizations" config "organizations"
  organization_override ← section organization_id organizations "organizations.organization_id"
  sites ← section "sites" organization_override "organizations.organization_id.sites"
  with_organization ←
      merge_policy base (without_sites organization_override) "organizations.organization_id"
  site_override ← section site_id sites "organizations.organization_id.sites.site_id"
  resolved ←
      merge_policy with_organization site_override "organizations.organization_id.sites.site_id"
  validate_resolved_policy resolved (get_or (get "policy_version" config) null) organization_id
      site_id
