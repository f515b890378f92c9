-- ===== src/ConnectorRouting/Router/Stable.antt =====
-- An override, and the order of the entries, in src/lumina/connector_routing/router.py.
use mathlib.Core.List.{Permᴰ}
use lumina_framework.Base.{
  String, Bool, true, false, Option, none, some, List, ok, ◌≡◌, ◌⊎◌, inl, inr, refl, sym, ap, ◌∙◌,
  All, bind-cong, Bool-cases, Option-cases, eq_of_test,
}
use lumina_framework.Base.Order.{text_leb_total, text_leb_trans, text_leb_antisymm}
use lumina_framework.Base.Sorting.{sort-Permᴰ, IsTotalOrder}
use lumina_framework.Base.Select.{find, filter-Permᴰ, All-filter, find-Memᴰ, some_injective}
use lumina_framework.ConnectorRouting.Router.{
  ActionClass, ResolutionSource, ReasonCode, ConnectorRegistryEntry, CapabilityRoutePolicy,
  is_mutation, Request, Decision, by_id, has_id, in_scope, scoped_entries, require_scope,
}
use lumina_framework.ConnectorRouting.Router.Steps.{
  key_for, decide, override_for, override_found, judge_override, resolve_connector, answer,
  request_of, eligible, ◌orelse◌,
}

by_id-IsTotalOrder : IsTotalOrder by_id
by_id-IsTotalOrder = record {
  total = λ a b. text_leb_total a.connector_instance_id b.connector_instance_id;
  trans = λ a b c.
      text_leb_trans a.connector_instance_id b.connector_instance_id c.connector_instance_id;
}

-- The entries are those of a registry: one entry for an id.
abbrev pub IsRegistered : (String → ConnectorRegistryEntry) → ConnectorRegistryEntry → Type 0
IsRegistered registry e = e ≡ registry e.connector_instance_id

same_entry :
    (registry : String → ConnectorRegistryEntry) (a b : ConnectorRegistryEntry)
    → IsRegistered registry a
    → IsRegistered registry b
    → by_id a b ≡ true
    → by_id b a ≡ true
    → a ≡ b
same_entry registry a b p q h k =
    p ∙ ap registry (text_leb_antisymm a.connector_instance_id b.connector_instance_id h k) ∙ sym q

scoped_entries-Permᴰ :
    (registry : String → ConnectorRegistryEntry) {es fs : List ConnectorRegistryEntry}
    (organization site : String)
    → Permᴰ es fs
    → All (IsRegistered registry) es
    → scoped_entries organization site es ≡ scoped_entries organization site fs
unfolding scoped_entries
scoped_entries-Permᴰ registry {es} {fs} organization site p all =
    sort-Permᴰ by_id by_id-IsTotalOrder (IsRegistered registry) (same_entry registry)
      (filter-Permᴰ (in_scope organization site) p)
      (All-filter (in_scope organization site) (IsRegistered registry) es all)

-- Two lists with the same entries, of which no id has two different ones, lead to the same answer or
-- error, whatever the order of the lists.
pub resolve_connector-Permᴰ :
    (registry : String → ConnectorRegistryEntry) {es fs : List ConnectorRegistryEntry}
    (policy : CapabilityRoutePolicy) (request_id actor_id : String) (action_class : ActionClass)
    (capability : String)
    (override idempotency_key correlation_id resolution_id evaluated_utc : Option String)
    (uuid clock : String)
    → Permᴰ es fs
    → All (IsRegistered registry) es
    → resolve_connector es policy request_id actor_id action_class capability override
        idempotency_key correlation_id resolution_id evaluated_utc uuid clock
      ≡ resolve_connector fs policy request_id actor_id action_class capability override
          idempotency_key correlation_id resolution_id evaluated_utc uuid clock
unfolding resolve_connector
resolve_connector-Permᴰ registry {es} {fs} policy request_id actor_id action_class capability
      override idempotency_key correlation_id resolution_id evaluated_utc uuid clock p all =
    bind-cong (require_scope request_id "request_id") _ _ (λ t.
      bind-cong (require_scope actor_id "actor_id") _ _ (λ u.
        bind-cong (require_scope capability "capability_namespace") _ _ (λ v.
          bind-cong (require_scope policy.organization_id "organization_id") _ _ (λ o.
            bind-cong (require_scope policy.site_id "site_id") _ _ (λ s.
              ap
                (λ (xs : List ConnectorRegistryEntry). ok (
                  answer
                    (record (request_of es policy action_class (t, u, v, o, s) override
                      idempotency_key correlation_id resolution_id evaluated_utc uuid clock) {
                        scoped = xs;
                      })))
                (scoped_entries-Permᴰ registry o s p all))))))

-- The answer to an override: an error, or that connector; a mutation without a key comes first.
override_found_id :
    (r : Request) (id : String)
    → ((override_found r (find (has_id id) r.scoped)).source ≡ ResolutionSource.operation_override)
      × (((override_found r (find (has_id id) r.scoped)).connector_instance_id ≡ none)
          ⊎ ((override_found r (find (has_id id) r.scoped)).connector_instance_id ≡ some id))
unfolding override_found
override_found_id r id = elim (Option-cases (find (has_id id) r.scoped)) [
  | inl f ↦ rw f (refl, inl refl)
  | inr (e, f) ↦ rw f (
      judged e (eligible r e)
        (eq_of_test e.connector_instance_id id (find-Memᴰ (has_id id) r.scoped f).1))
]
  where
    judged :
        (e : ConnectorRegistryEntry) (v : Bool × ReasonCode)
        → e.connector_instance_id ≡ id
        → ((judge_override r e v).source ≡ ResolutionSource.operation_override)
          × (((judge_override r e v).connector_instance_id ≡ none)
              ⊎ ((judge_override r e v).connector_instance_id ≡ some id))
    judged e (true, _) same = (refl, inr (ap some same))
    judged e (false, _) same = (refl, inl refl)

abbrev pub IsOverridden : String → Decision → Type 0
IsOverridden id d =
    (d.reason_code ≡ ReasonCode.missing_idempotency_key)
    ⊎ ((d.source ≡ ResolutionSource.operation_override)
        × ((d.connector_instance_id ≡ none) ⊎ (d.connector_instance_id ≡ some id)))

first_steps :
    (r : Request) (id : String) (key override : Option String) (rest : Decision)
    → override ≡ some id
    → IsOverridden id (key_for r key orelse override_for r override orelse rest)
unfolding key_for override_for
first_steps r id key none rest given = cc
first_steps r id (some k) (some x) rest given =
    rw (some_injective given) (inr (override_found_id r id))
first_steps r id none (some x) rest given = elim (Bool-cases (is_mutation r.action_class)) [
  | inl m ↦ rw m (inl refl)
  | inr m ↦ rw (m, some_injective given) (inr (override_found_id r id))
]

-- A request with an override is answered by the missing key of a mutation, or by the override alone: the
-- source is then the override, and the connector is it or none.
pub decide_override :
    (r : Request) (id : String) → r.override ≡ some id → IsOverridden id (decide r)
unfolding decide
decide_override r id given = first_steps r id r.idempotency_key r.override _ given
