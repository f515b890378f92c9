-- ===== src/ConnectorRouting/Router/Steps.antt =====
-- The branches of `resolve_connector` of src/lumina/connector_routing/router.py, in their order. A
-- branch that does not return leaves the decision to the next one.
use lumina_framework.Base.{
  ℕ, String, Bool, true, false, ◌&&◌, ◌||◌, Option, none, some, List, [], ◌∷◌, Result, ok, ◌>>=◌,
  str_eq, if◌then◌else◌, ltb, ◌==◌, length, strip, elem,
}
use lumina_framework.Base.Order.{text_leb}
use lumina_framework.Base.Sorting.{sort}
use lumina_framework.Base.Select.{filter, find}
use lumina_framework.ConnectorRouting.Router.{
  ActionClass, ResolutionSource, ResolutionStatus, ReasonCode, Error, ConnectorRegistryEntry,
  CapabilityRoute, CapabilityRoutePolicy, ConnectorResolutionResult, action_in, is_mutation,
  require_scope, normalize_optional, is_entry_eligible, Request, Decision, result, ids, by_id,
  has_id, scoped_entries,
}

abbrev pub selected : Request → ResolutionSource → ConnectorRegistryEntry → Decision
selected r source e = record {
  status = ResolutionStatus.resolved;
  source = source;
  reason_code = ReasonCode.ok_reason;
  connector_instance_id = some e.connector_instance_id;
  idempotency_key = r.idempotency_key;
  candidate_connector_ids = ids r.scoped;
}

abbrev pub failed : Request → ResolutionSource → ReasonCode → List String → Decision
failed r source reason candidates = record {
  status = ResolutionStatus.error;
  source = source;
  reason_code = reason;
  connector_instance_id = none;
  idempotency_key = r.idempotency_key;
  candidate_connector_ids = candidates;
}

abbrev pub eligible : Request → ConnectorRegistryEntry → Bool × ReasonCode
eligible r e = is_entry_eligible e r.action_class r.capability_namespace

abbrev pub is_connector_unhealthy : ReasonCode → Bool
is_connector_unhealthy ReasonCode.connector_unhealthy = true
is_connector_unhealthy _ = false

-- A mutation without a key; the decision is given no key.
unfoldable pub key_for : Request → Option String → Option Decision
key_for r (some _) = none
key_for r none =
    if is_mutation r.action_class
    then some (failed r ResolutionSource.no_route ReasonCode.missing_idempotency_key (ids r.scoped))
    else none

abbrev pub key_step : Request → Option Decision
key_step r = key_for r r.idempotency_key

unfoldable pub judge_override : Request → ConnectorRegistryEntry → Bool × ReasonCode → Decision
judge_override r e (true, _) = selected r ResolutionSource.operation_override e
judge_override r e (false, why) =
    failed r ResolutionSource.operation_override
      (if is_connector_unhealthy why
        then ReasonCode.connector_unhealthy
        else ReasonCode.override_ineligible)
      (ids r.scoped)

unfoldable pub override_found : Request → Option ConnectorRegistryEntry → Decision
unfolding judge_override is_entry_eligible
override_found r none =
    failed r ResolutionSource.operation_override ReasonCode.override_not_found (ids r.scoped)
override_found r (some e) = judge_override r e (eligible r e)

unfoldable pub override_for : Request → Option String → Option Decision
unfolding find override_found
override_for r none = none
override_for r (some id) = some (override_found r (find (has_id id) r.scoped))

abbrev pub override_step : Request → Option Decision
override_step r = override_for r r.override

-- A route or a default returns where its entry is eligible, or where it is unhealthy.
unfoldable pub judge :
    Request → ResolutionSource → ConnectorRegistryEntry → Bool × ReasonCode → Option Decision
judge r source e (true, _) = some (selected r source e)
judge r source e (false, why) =
    if is_connector_unhealthy why
    then some (failed r source ReasonCode.connector_unhealthy (ids r.scoped))
    else none

unfoldable pub judge_found :
    Request → ResolutionSource → Option ConnectorRegistryEntry → Option Decision
unfolding judge is_entry_eligible
judge_found r source none = none
judge_found r source (some e) = judge r source e (eligible r e)

abbrev pub no_actions : List ActionClass → Bool
no_actions [] = true
no_actions (_ ∷ _) = false

abbrev pub serves : Request → CapabilityRoute → Bool
serves r route =
    str_eq (strip route.capability_namespace) r.capability_namespace
    && (no_actions route.supported_action_classes
        || action_in r.action_class route.supported_action_classes)

-- `(a.priority, a.connector_instance_id) <= (b.priority, b.connector_instance_id)`
abbrev pub by_priority : CapabilityRoute → CapabilityRoute → Bool
by_priority a b =
    ltb a.priority b.priority
    || (a.priority == b.priority && text_leb a.connector_instance_id b.connector_instance_id)

unfoldable pub matching_routes : Request → List CapabilityRoute
unfolding filter sort text_leb strip action_in
matching_routes r = sort by_priority (filter (serves r) r.policy.routes)

abbrev pub has_priority : ℕ → CapabilityRoute → Bool
has_priority p route = route.priority == p

-- The set of the routes' connectors, each once.
unfoldable pub route_ids : List CapabilityRoute → List String
unfolding elem
route_ids [] = []
route_ids (route ∷ routes) =
    let rest = route_ids routes in
    if elem route.connector_instance_id rest then rest else route.connector_instance_id ∷ rest

-- The routes of the best priority: several connectors are ambiguous.
unfoldable pub top_step : Request → CapabilityRoute → List CapabilityRoute → Option Decision
unfolding route_ids find judge_found
top_step r first top =
    if ltb 1 (length (route_ids top))
    then some
        (failed r ResolutionSource.capability_route ReasonCode.ambiguous_route (route_ids top))
    else judge_found r ResolutionSource.capability_route
        (find (has_id first.connector_instance_id) r.scoped)

unfoldable pub routes_step : Request → List CapabilityRoute → Option Decision
unfolding top_step filter
routes_step r [] = none
routes_step r (first ∷ routes) =
    top_step r first (filter (has_priority first.priority) (first ∷ routes))

abbrev pub is_primary : ConnectorRegistryEntry → Bool
is_primary e = e.is_site_primary

abbrev pub is_eligible : Request → ConnectorRegistryEntry → Bool
is_eligible r e = (eligible r e).0

unfoldable pub eligible_primaries : Request → List ConnectorRegistryEntry
unfolding filter sort text_leb is_entry_eligible
eligible_primaries r = filter (is_eligible r) (sort by_id (filter is_primary r.scoped))

unfoldable pub primary_step : Request → List ConnectorRegistryEntry → Option Decision
primary_step r [] = none
primary_step r (e ∷ []) = some (selected r ResolutionSource.site_primary e)
primary_step r (e ∷ f ∷ es) =
    some (failed r ResolutionSource.site_primary ReasonCode.ambiguous_route (ids (e ∷ f ∷ es)))

unfoldable pub default_for : Request → Option String → Option Decision
unfolding find judge_found
default_for r none = none
default_for r (some id) =
    if str_eq id ""
    then none
    else judge_found r ResolutionSource.organization_default (find (has_id id) r.scoped)

abbrev pub default_step : Request → Option Decision
default_step r = default_for r r.policy.organization_default_connector_id

infixr 20 ◌orelse◌
abbrev pub ◌orelse◌ : Option Decision → Decision → Decision
none orelse d = d
some c orelse d = c

unfoldable pub decide : Request → Decision
unfolding key_for override_for matching_routes routes_step eligible_primaries primary_step
    default_for
decide r =
    key_step r
    orelse override_step r
    orelse routes_step r (matching_routes r)
    orelse primary_step r (eligible_primaries r)
    orelse default_step r
    orelse failed r ResolutionSource.no_route ReasonCode.no_eligible_connector (ids r.scoped)

-- `a or b`, for the id and for the time.
abbrev pub or_text : Option String → String → String
or_text none b = b
or_text (some a) b = if str_eq a "" then b else a

abbrev pub or_clock : Option String → String → String
or_clock none clock = clock
or_clock (some time) clock = time

unfoldable pub answer : Request → ConnectorResolutionResult
unfolding decide result
answer r = result r (decide r)

-- The request, from names that are stripped already.
abbrev pub request_of :
    List ConnectorRegistryEntry
    → CapabilityRoutePolicy
    → ActionClass
    → String × String × String × String × String
    → Option String
    → Option String
    → Option String
    → Option String
    → Option String
    → String
    → String
    → Request
request_of entries policy action_class (request, actor, capability, organization, site) override
      idempotency_key correlation_id resolution_id evaluated_utc uuid clock =
    record {
      request_id = request;
      actor_id = actor;
      action_class = action_class;
      capability_namespace = capability;
      organization_id = organization;
      site_id = site;
      override = normalize_optional override;
      idempotency_key = normalize_optional idempotency_key;
      correlation_id = normalize_optional correlation_id;
      resolution_id = or_text resolution_id uuid;
      evaluated_utc = or_clock evaluated_utc clock;
      policy = policy;
      scoped = scoped_entries organization site entries;
    }

unfoldable pub resolve_connector :
    List ConnectorRegistryEntry
    → CapabilityRoutePolicy
    → String
    → String
    → ActionClass
    → String
    → Option String
    → Option String
    → Option String
    → Option String
    → Option String
    → String
    → String
    → Result Error ConnectorResolutionResult
unfolding require_scope normalize_optional scoped_entries answer
resolve_connector entries policy request_id actor_id action_class capability_namespace override
      idempotency_key correlation_id resolution_id evaluated_utc uuid clock =
    do
      request ← require_scope request_id "request_id"
      actor ← require_scope actor_id "actor_id"
      capability ← require_scope capability_namespace "capability_namespace"
      organization ← require_scope policy.organization_id "organization_id"
      site ← require_scope policy.site_id "site_id"
      ok (
          answer (
            request_of entries policy action_class (request, actor, capability, organization, site)
              override idempotency_key correlation_id resolution_id evaluated_utc uuid clock))
