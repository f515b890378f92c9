-- ===== src/ConnectorRouting/Router/Examples.antt =====
-- Tests of the model of src/lumina/connector_routing/router.py, and its theorems at one registry.
use mathlib.Core.List.{Permᴰ}
use lumina_framework.Base.{
  String, true, false, Option, none, some, List, [], ◌∷◌, Result, ok, ◌≡◌, refl, strip, lstrip,
  rstrip, is_space, elem, if◌then◌else◌, str_eq,
}
use lumina_framework.Base.Order.{text_leb}
use lumina_framework.Base.Sorting.{sort, insert}
use lumina_framework.Base.Select.{filter, find}
use lumina_framework.ConnectorRouting
use lumina_framework.ConnectorRouting.Router.{
  ActionClass, ResolutionSource, ResolutionStatus, ReasonCode, HealthStatus, ConnectorRegistryEntry,
  CapabilityRoute, CapabilityRoutePolicy, ConnectorResolutionResult, Request, Decision,
  require_scope, normalize_optional, normalized, is_entry_eligible, action_in, same_action,
  scoped_entries, result,
}
use lumina_framework.ConnectorRouting.Router.Steps.{
  resolve_connector, answer, decide, key_for, override_for, override_found, judge_override, judge,
  judge_found, matching_routes, route_ids, top_step, routes_step, eligible_primaries, primary_step,
  default_for, request_of,
}
use lumina_framework.ConnectorRouting.Router.Answer.{IsAnswer, resolve_connector-IsAnswer}
use lumina_framework.ConnectorRouting.Router.Stable.{resolve_connector-Permᴰ}

abbrev pos : ConnectorRegistryEntry
pos = record {
  organization_id = "acme";
  site_id = "east";
  connector_instance_id = "pos";
  capability_namespaces = " orders " ∷ [];
  supported_action_classes = ActionClass.query ∷ ActionClass.create_draft ∷ [];
  enabled = true;
  health_status = HealthStatus.degraded;
  is_site_primary = false;
}

abbrev erp : ConnectorRegistryEntry
erp = record pos { connector_instance_id = "erp"; is_site_primary = true }

abbrev entries : List ConnectorRegistryEntry
entries = pos ∷ erp ∷ []

abbrev policy : CapabilityRoutePolicy
policy = record {
  policy_version = 1;
  organization_id = "acme";
  site_id = " east";
  routes =
      record {
        capability_namespace = "orders";
        connector_instance_id = "pos";
        supported_action_classes = [];
        priority = 10;
      }
      ∷ [];
  organization_default_connector_id = none;
}

abbrev routed :
    ActionClass
    → Option String
    → Option String
    → Result ConnectorRouting.Router.Error ConnectorResolutionResult
routed action override key =
    resolve_connector entries policy "q1" "ann" action "orders" override key none none none "u1"
      "noon"

abbrev expected : ConnectorResolutionResult
expected = record {
  resolution_id = "u1";
  request_id = "q1";
  organization_id = "acme";
  site_id = "east";
  actor_id = "ann";
  action_class = ActionClass.create_draft;
  capability_namespace = "orders";
  status = ResolutionStatus.resolved;
  source = ResolutionSource.capability_route;
  reason_code = ReasonCode.ok_reason;
  connector_instance_id = some "pos";
  idempotency_key = some "k1";
  correlation_id = none;
  policy_version = 1;
  candidate_connector_ids = "erp" ∷ "pos" ∷ [];
  evaluated_utc = "noon";
}

routed_test : routed ActionClass.create_draft none (some "k1") ≡ ok expected
unfolding resolve_connector answer decide key_for override_for override_found judge_override judge
    judge_found matching_routes route_ids top_step routes_step eligible_primaries primary_step
    default_for require_scope normalize_optional normalized is_entry_eligible action_in same_action
    scoped_entries result strip lstrip rstrip is_space elem text_leb sort insert filter find
routed_test = refl

resolve_connector-IsAnswer_example :
    IsAnswer entries policy ActionClass.create_draft "orders" expected
resolve_connector-IsAnswer_example =
    resolve_connector-IsAnswer entries policy "q1" "ann" ActionClass.create_draft "orders" none
      (some "k1") none none none "u1" "noon" routed_test

abbrev registry : String → ConnectorRegistryEntry
registry id = if str_eq id "pos" then pos else erp

resolve_connector-Permᴰ_example :
    resolve_connector
      (pos ∷ erp ∷ [])
      policy
      "q1"
      "ann"
      ActionClass.query
      "orders"
      none
      none
      none
      none
      none
      "u1"
      "noon"
    ≡ resolve_connector
        (erp ∷ pos ∷ [])
        policy
        "q1"
        "ann"
        ActionClass.query
        "orders"
        none
        none
        none
        none
        none
        "u1"
        "noon"
resolve_connector-Permᴰ_example =
    resolve_connector-Permᴰ registry policy "q1" "ann" ActionClass.query "orders" none none none
      none none "u1" "noon" (Permᴰ.swap refl refl) (refl, (refl, tt))

abbrev request : Request
request =
    request_of entries policy ActionClass.query ("q1", "ann", "orders", "acme", "east") (some "erp")
      none none none none "u1" "noon"

overridden : request.override ≡ some "erp"
unfolding normalize_optional strip lstrip rstrip is_space
overridden = refl
