-- ===== src/ThreadRouting/Policy/Routing.antt =====
-- A turn routed by src/lumina/thread_routing/router.py under a policy that policy.py resolved.
use mathlib.Core.List.{Memᴰ}
use lumina_framework.Base.{◌≤◌, String, false, Option, List, ok, ◌≡◌, ◌≢◌, ◌↔◌, strip, arith}
use lumina_framework.Base.Dict.{Dict}
use lumina_framework.ThreadRouting.Router.{
  ThreadRoutingPolicy, ThreadRoutingDecision, ThreadCandidate, RoutingAction, decide_thread_route,
  decided,
}
use lumina_framework.ThreadRouting.Router.Decisions.{attach_iff, route_total}
use lumina_framework.ThreadRouting.Policy.{Value, resolve_thread_routing_policy}
use lumina_framework.ThreadRouting.Policy.Valid.{resolve-IsPolicy}

-- Under a policy resolved for an organization and a site, a turn of a named actor is routed for those
-- stripped names, and it is attached exactly if the policy is not manual-only and some candidate reaches
-- the attach threshold.
pub resolved_route :
    (config : Dict Value) (organization site : String) {p : ThreadRoutingPolicy}
    (cs : List ThreadCandidate) (actor : String) (active decision_id new_thread_id : Option String)
    (uuid thread_uuid : String)
    → resolve_thread_routing_policy config organization site ≡ ok p
    → strip actor ≢ ""
    → (d : ThreadRoutingDecision) × (decide_thread_route cs p actor active decision_id new_thread_id
          uuid thread_uuid
        ≡ ok d)
      × (d.organization_id ≡ strip organization)
      × (d.site_id ≡ strip site)
      × ((d.decision ≡ RoutingAction.attach_existing) ↔ (
          (p.manual_only ≡ false)
          × ((c : ThreadCandidate) × Memᴰ c cs × (p.attach_threshold ≤ c.score))))
resolved_route config organization site {p} cs actor active decision_id new_thread_id uuid
      thread_uuid h named =
    let (valid, _, _) = resolve-IsPolicy config organization site h in
    (
      decided cs p actor active decision_id new_thread_id uuid thread_uuid,
      ((route_total cs p actor active decision_id new_thread_id uuid thread_uuid).1 named).0,
      unfold decided in valid.1,
      unfold decided in valid.2,
      attach_iff cs p actor active decision_id new_thread_id uuid thread_uuid
          (omega (arith, valid.0.has_room)),
    )
