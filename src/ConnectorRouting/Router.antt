-- ===== src/ConnectorRouting/Router.antt =====
-- src/lumina/connector_routing/router.py. The fresh id and the text of the time are arguments.
pub mod Steps
pub mod Sound
pub mod Answer
pub mod Stable
mod Examples
use lumina_framework.Base.{
  ℕ, String, Bool, true, false, not, ◌&&◌, ◌||◌, Option, none, some, List, [], ◌∷◌, map, Result, ok,
  err, ◌>>=◌, str_eq, if◌then◌else◌, ltb, ◌==◌, length, strip, elem,
}
use lumina_framework.Base.Order.{text_leb}
use lumina_framework.Base.Sorting.{sort}
use lumina_framework.Base.Select.{filter, find}

pub data ActionClass : Type 0 where
  query create_draft update_draft request_commit request_cancel sync_event : ActionClass

pub data ResolutionSource : Type 0 where
  operation_override capability_route site_primary organization_default no_route : ResolutionSource

pub data ResolutionStatus : Type 0 where
  resolved error : ResolutionStatus

-- The three reasons that no path of the code gives are left in.
pub data ReasonCode : Type 0 where
  ok_reason missing_idempotency_key override_not_found override_ineligible ambiguous_route :
      ReasonCode
  capability_route_not_found site_primary_not_found organization_default_not_found : ReasonCode
  unsupported_capability unsupported_action connector_unhealthy no_eligible_connector : ReasonCode

pub data HealthStatus : Type 0 where
  healthy degraded unhealthy : HealthStatus

pub data Error : Type 0 where
  requires : String → Error

pub record ConnectorRegistryEntry : Type 0 where
  pub organization_id : String
  pub site_id : String
  pub connector_instance_id : String
  pub capability_namespaces : List String
  pub supported_action_classes : List ActionClass
  pub enabled : Bool
  pub health_status : HealthStatus
  pub is_site_primary : Bool

pub record CapabilityRoute : Type 0 where
  pub capability_namespace : String
  pub connector_instance_id : String
  pub supported_action_classes : List ActionClass
  pub priority : ℕ

pub record CapabilityRoutePolicy : Type 0 where
  pub policy_version : ℕ
  pub organization_id : String
  pub site_id : String
  pub routes : List CapabilityRoute
  pub organization_default_connector_id : Option String

pub record ConnectorResolutionResult : Type 0 where
  pub resolution_id : String
  pub request_id : String
  pub organization_id : String
  pub site_id : String
  pub actor_id : String
  pub action_class : ActionClass
  pub capability_namespace : String
  pub status : ResolutionStatus
  pub source : ResolutionSource
  pub reason_code : ReasonCode
  pub connector_instance_id : Option String
  pub idempotency_key : Option String
  pub correlation_id : Option String
  pub policy_version : ℕ
  pub candidate_connector_ids : List String
  pub evaluated_utc : String

unfoldable pub same_action : ActionClass → ActionClass → Bool
same_action ActionClass.query ActionClass.query = true
same_action ActionClass.create_draft ActionClass.create_draft = true
same_action ActionClass.update_draft ActionClass.update_draft = true
same_action ActionClass.request_commit ActionClass.request_commit = true
same_action ActionClass.request_cancel ActionClass.request_cancel = true
same_action ActionClass.sync_event ActionClass.sync_event = true
same_action _ _ = false

-- `action in actions`
unfoldable pub action_in : ActionClass → List ActionClass → Bool
unfolding same_action
action_in a [] = false
action_in a (b ∷ actions) = same_action b a || action_in a actions

-- `action in _MUTATION_ACTIONS`
abbrev pub is_mutation : ActionClass → Bool
is_mutation ActionClass.query = false
is_mutation _ = true

abbrev pub is_unhealthy : HealthStatus → Bool
is_unhealthy HealthStatus.unhealthy = true
is_unhealthy _ = false

unfoldable pub require_scope : String → String → Result Error String
unfolding strip
require_scope value field_name =
    if str_eq (strip value) "" then err (requires field_name) else ok (strip value)

unfoldable pub normalize_optional : Option String → Option String
unfolding strip
normalize_optional none = none
normalize_optional (some value) = if str_eq (strip value) "" then none else some (strip value)

-- The stripped capabilities, of those that are not blank.
unfoldable pub normalized : List String → List String
unfolding strip
normalized [] = []
normalized (c ∷ cs) =
    let rest = normalized cs in if str_eq (strip c) "" then rest else strip c ∷ rest

unfoldable pub is_entry_eligible : ConnectorRegistryEntry → ActionClass → String → Bool × ReasonCode
unfolding normalized elem action_in
is_entry_eligible entry action_class capability_namespace =
    if not entry.enabled
    then (false, ReasonCode.no_eligible_connector)
    else if is_unhealthy entry.health_status
    then (false, ReasonCode.connector_unhealthy)
    else if not (elem capability_namespace (normalized entry.capability_namespaces))
    then (false, ReasonCode.unsupported_capability)
    else if not (action_in action_class entry.supported_action_classes)
    then (false, ReasonCode.unsupported_action)
    else (true, ReasonCode.ok_reason)

-- What the branches of `resolve_connector` share: the request with its names stripped, the entries of
-- its scope in order, and what `_result` is given on every branch.
pub record Request : Type 0 where
  pub request_id : String
  pub actor_id : String
  pub action_class : ActionClass
  pub capability_namespace : String
  pub organization_id : String
  pub site_id : String
  pub override : Option String
  pub idempotency_key : Option String
  pub correlation_id : Option String
  pub resolution_id : String
  pub evaluated_utc : String
  pub policy : CapabilityRoutePolicy
  pub scoped : List ConnectorRegistryEntry

-- What a branch decides.
pub record Decision : Type 0 where
  pub status : ResolutionStatus
  pub source : ResolutionSource
  pub reason_code : ReasonCode
  pub connector_instance_id : Option String
  pub idempotency_key : Option String
  pub candidate_connector_ids : List String

unfoldable pub result : Request → Decision → ConnectorResolutionResult
unfolding sort text_leb
result r d = record {
  resolution_id = r.resolution_id;
  request_id = r.request_id;
  organization_id = r.organization_id;
  site_id = r.site_id;
  actor_id = r.actor_id;
  action_class = r.action_class;
  capability_namespace = r.capability_namespace;
  status = d.status;
  source = d.source;
  reason_code = d.reason_code;
  connector_instance_id = d.connector_instance_id;
  idempotency_key = d.idempotency_key;
  correlation_id = r.correlation_id;
  policy_version = r.policy.policy_version;
  candidate_connector_ids = sort text_leb d.candidate_connector_ids;
  evaluated_utc = r.evaluated_utc;
}

abbrev pub ids : List ConnectorRegistryEntry → List String
ids = map (λ (e : ConnectorRegistryEntry). e.connector_instance_id)

abbrev pub in_scope : String → String → ConnectorRegistryEntry → Bool
in_scope organization_id site_id e =
    str_eq e.organization_id organization_id && str_eq e.site_id site_id

abbrev pub by_id : ConnectorRegistryEntry → ConnectorRegistryEntry → Bool
by_id a b = text_leb a.connector_instance_id b.connector_instance_id

unfoldable pub scoped_entries :
    String → String → List ConnectorRegistryEntry → List ConnectorRegistryEntry
unfolding sort filter text_leb
scoped_entries organization_id site_id entries =
    sort by_id (filter (in_scope organization_id site_id) entries)

abbrev pub has_id : String → ConnectorRegistryEntry → Bool
has_id id e = str_eq e.connector_instance_id id
