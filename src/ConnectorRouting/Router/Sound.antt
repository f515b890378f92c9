-- ===== src/ConnectorRouting/Router/Sound.antt =====
-- Which connectors `resolve_connector` of src/lumina/connector_routing/router.py can choose.
use mathlib.Core.List.{Memᴰ}
use lumina_framework.Base.{
  String, Bool, true, false, Option, none, some, List, [], ◌∷◌, str_eq, ltb, length, strip, elem,
  ◌≡◌, ◌↔◌, refl, ap, inl, inr, arith, Bool-cases, Option-cases, eq_of_test,
}
use lumina_framework.Base.Select.{filter, find, find-Memᴰ, Memᴰ-filter, Memᴰ-sort}
use lumina_framework.ConnectorRouting.Router.{
  ActionClass, ResolutionSource, ReasonCode, ConnectorRegistryEntry, CapabilityRoute,
  CapabilityRoutePolicy, action_in, is_mutation, is_unhealthy, normalized, is_entry_eligible,
  Request, Decision, ids, by_id, has_id, in_scope, scoped_entries,
}
use lumina_framework.ConnectorRouting.Router.Steps.{
  selected, failed, eligible, key_for, judge_override, override_found, override_for,
  is_connector_unhealthy, judge, judge_found, matching_routes, top_step, routes_step, is_primary,
  is_eligible, eligible_primaries, primary_step, default_for, decide, ◌orelse◌, has_priority,
  route_ids,
}

module _ (r : Request) where
  -- The two shapes of a decision: an eligible entry of the scope, or an error without a connector.
  pub data IsSound : Decision → Type 0 where
    chosen :
        (source : ResolutionSource) (e : ConnectorRegistryEntry)
        → Memᴰ e r.scoped
        → (eligible r e).0 ≡ true
        → IsSound (selected r source e)
    refused :
        (source : ResolutionSource) (reason : ReasonCode) (candidates : List String)
        → IsSound (failed r source reason candidates)

  abbrev IsSoundStep : Option Decision → Type 0
  IsSoundStep none = Unit
  IsSoundStep (some d) = IsSound d

  orelse-IsSound :
      (o : Option Decision) (d : Decision) → IsSoundStep o → IsSound d → IsSound (o orelse d)
  orelse-IsSound none d p q = q
  orelse-IsSound (some c) d p q = p

  key_for-IsSoundStep : (key : Option String) → IsSoundStep (key_for r key)
  unfolding key_for
  key_for-IsSoundStep (some _) = tt
  key_for-IsSoundStep none = elim (Bool-cases (is_mutation r.action_class)) [
    | inl e ↦
        rw e (refused ResolutionSource.no_route ReasonCode.missing_idempotency_key (ids r.scoped))
    | inr e ↦ rw e tt
  ]

  -- A search answers nothing, or a member.
  abbrev IsMember : Option ConnectorRegistryEntry → Type 0
  IsMember none = Unit
  IsMember (some e) = Memᴰ e r.scoped

  find-IsMember : (id : String) → IsMember (find (has_id id) r.scoped)
  find-IsMember id = elim (Option-cases (find (has_id id) r.scoped)) [
    | inl f ↦ rw f tt
    | inr (x, f) ↦ rw f (find-Memᴰ (has_id id) r.scoped f).0
  ]

  judge_override-IsSound :
      (e : ConnectorRegistryEntry) (v : Bool × ReasonCode)
      → Memᴰ e r.scoped
      → eligible r e ≡ v
      → IsSound (judge_override r e v)
  unfolding judge_override
  judge_override-IsSound e (true, _) m h =
      chosen ResolutionSource.operation_override e m (ap (λ v. v.0) h)
  judge_override-IsSound e (false, why) m h =
      refused ResolutionSource.operation_override _ (ids r.scoped)

  override_found-IsSound :
      (o : Option ConnectorRegistryEntry) → IsMember o → IsSound (override_found r o)
  unfolding override_found
  override_found-IsSound none m =
      refused ResolutionSource.operation_override ReasonCode.override_not_found (ids r.scoped)
  override_found-IsSound (some e) m = judge_override-IsSound e (eligible r e) m refl

  override_for-IsSoundStep : (id : Option String) → IsSoundStep (override_for r id)
  unfolding override_for
  override_for-IsSoundStep none = tt
  override_for-IsSoundStep (some id) =
      override_found-IsSound (find (has_id id) r.scoped) (find-IsMember id)

  judge-IsSoundStep :
      (source : ResolutionSource) (e : ConnectorRegistryEntry) (v : Bool × ReasonCode)
      → Memᴰ e r.scoped
      → eligible r e ≡ v
      → IsSoundStep (judge r source e v)
  unfolding judge
  judge-IsSoundStep source e (true, _) m h = chosen source e m (ap (λ v. v.0) h)
  judge-IsSoundStep source e (false, why) m h = elim (Bool-cases (is_connector_unhealthy why)) [
    | inl u ↦ rw u (refused source ReasonCode.connector_unhealthy (ids r.scoped))
    | inr u ↦ rw u tt
  ]

  judge_found-IsSoundStep :
      (source : ResolutionSource) (o : Option ConnectorRegistryEntry)
      → IsMember o
      → IsSoundStep (judge_found r source o)
  unfolding judge_found
  judge_found-IsSoundStep source none m = tt
  judge_found-IsSoundStep source (some e) m = judge-IsSoundStep source e (eligible r e) m refl

  routes_step-IsSoundStep : (routes : List CapabilityRoute) → IsSoundStep (routes_step r routes)
  unfolding routes_step top_step
  routes_step-IsSoundStep [] = tt
  routes_step-IsSoundStep (first ∷ routes) =
      let top = filter (has_priority first.priority) (first ∷ routes) in
      elim (Bool-cases (ltb 1 (length (route_ids top)))) [
        | inl t ↦
            rw t
              (refused ResolutionSource.capability_route ReasonCode.ambiguous_route (route_ids top))
        | inr t ↦ rw t (
            judge_found-IsSoundStep ResolutionSource.capability_route
              (find (has_id first.connector_instance_id) r.scoped)
              (find-IsMember first.connector_instance_id))
      ]

  primary_step-IsSoundStep :
      (es : List ConnectorRegistryEntry)
      → ((e : ConnectorRegistryEntry) → Memᴰ e es → Memᴰ e r.scoped × (is_eligible r e ≡ true))
      → IsSoundStep (primary_step r es)
  unfolding primary_step
  primary_step-IsSoundStep [] h = tt
  primary_step-IsSoundStep (e ∷ []) h =
      let (m, t) = h e (Memᴰ.head refl) in chosen ResolutionSource.site_primary e m t
  primary_step-IsSoundStep (e ∷ f ∷ es) h =
      refused ResolutionSource.site_primary ReasonCode.ambiguous_route (ids (e ∷ f ∷ es))

  primaries_member :
      (e : ConnectorRegistryEntry)
      → Memᴰ e (eligible_primaries r)
      → Memᴰ e r.scoped × (is_eligible r e ≡ true)
  unfolding eligible_primaries
  primaries_member e m =
      let (n, t) = Memᴰ-filter (is_eligible r) _ m in
      ((Memᴰ-filter is_primary r.scoped (Memᴰ-sort by_id _ n)).0, t)

  default_for-IsSoundStep : (id : Option String) → IsSoundStep (default_for r id)
  unfolding default_for
  default_for-IsSoundStep none = tt
  default_for-IsSoundStep (some id) = elim (Bool-cases (str_eq id "")) [
    | inl e ↦ rw e tt
    | inr e ↦ rw e (
        judge_found-IsSoundStep ResolutionSource.organization_default (find (has_id id) r.scoped)
          (find-IsMember id))
  ]

  pub decide-IsSound : IsSound (decide r)
  unfolding decide
  decide-IsSound = orelse-IsSound _ _ (key_for-IsSoundStep r.idempotency_key) (
      orelse-IsSound _ _ (override_for-IsSoundStep r.override) (
        orelse-IsSound _ _ (routes_step-IsSoundStep (matching_routes r)) (
          orelse-IsSound _ _ (primary_step-IsSoundStep (eligible_primaries r) primaries_member) (
            orelse-IsSound _ _ (default_for-IsSoundStep r.policy.organization_default_connector_id)
              (refused ResolutionSource.no_route ReasonCode.no_eligible_connector
                (ids r.scoped))))))

-- What an eligible entry is.
pub is_entry_eligible_iff :
    (e : ConnectorRegistryEntry) (a : ActionClass) (capability : String)
    → ((is_entry_eligible e a capability).0 ≡ true) ↔ (
        (e.enabled ≡ true)
        × (is_unhealthy e.health_status ≡ false)
        × (elem capability (normalized e.capability_namespaces) ≡ true)
        × (action_in a e.supported_action_classes ≡ true))
unfolding is_entry_eligible
is_entry_eligible_iff e a capability = ground arith

-- An answer with a connector: it is an entry of the policy's scope that may serve the request.
pub record IsServed (entries : List ConnectorRegistryEntry) (policy : CapabilityRoutePolicy)
    (action_class : ActionClass) (capability : String) (id : String) : Type 0 where
  pub entry : ConnectorRegistryEntry
  pub member : Memᴰ entry entries
  pub chosen_id : id ≡ entry.connector_instance_id
  pub organization : entry.organization_id ≡ strip policy.organization_id
  pub site : entry.site_id ≡ strip policy.site_id
  pub enabled : entry.enabled ≡ true
  pub healthy : is_unhealthy entry.health_status ≡ false
  pub capable : elem (strip capability) (normalized entry.capability_namespaces) ≡ true
  pub supported : action_in action_class entry.supported_action_classes ≡ true

pub scoped-Memᴰ :
    (organization site : String) (entries : List ConnectorRegistryEntry)
    (e : ConnectorRegistryEntry)
    → Memᴰ e (scoped_entries organization site entries)
    → Memᴰ e entries × (e.organization_id ≡ organization) × (e.site_id ≡ site)
unfolding scoped_entries
scoped-Memᴰ organization site entries e m =
    let (n, t) = Memᴰ-filter (in_scope organization site) entries (Memᴰ-sort by_id _ m) in
    (
      n,
      eq_of_test e.organization_id organization (ground arith),
      eq_of_test e.site_id site (ground arith),
    )
