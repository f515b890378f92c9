-- ===== src/ConnectorRouting/Router/Answer.antt =====
-- What `resolve_connector` of src/lumina/connector_routing/router.py answers.
use lumina_framework.Base.{
  String, true, Option, none, some, List, ok, strip, ◌≡◌, ◌≢◌, ◌⊎◌, refl, sym, ap, ◌∙◌, inl, inr,
  Ensures, Ensures-bind, Ensures-ok, ok-injective, ok-ne-err, str_eq, Bool-cases,
}
use lumina_framework.ConnectorRouting.Router.{
  ActionClass, ResolutionSource, ResolutionStatus, ReasonCode, ConnectorRegistryEntry,
  CapabilityRoutePolicy, ConnectorResolutionResult, is_mutation, require_scope, Request, Decision,
  result, requires, scoped_entries, ids,
}
use lumina_framework.ConnectorRouting.Router.Steps.{
  failed, key_for, decide, resolve_connector, answer, request_of,
}
use lumina_framework.ConnectorRouting.Router.Sound.{
  IsSound, chosen, refused, decide-IsSound, IsServed, is_entry_eligible_iff, scoped-Memᴰ,
}

-- A resolved answer names an entry that may serve it, and a mutation has a key; any other names none.
abbrev pub IsAnswer :
    List ConnectorRegistryEntry
    → CapabilityRoutePolicy
    → ActionClass
    → String
    → ConnectorResolutionResult
    → Type 0
IsAnswer entries policy action_class capability res =
    ((res.status ≡ ResolutionStatus.resolved)
      × ((id : String) × (res.connector_instance_id ≡ some id)
          × IsServed entries policy action_class capability id)
      × (is_mutation action_class ≡ true → res.idempotency_key ≢ none))
    ⊎ ((res.status ≡ ResolutionStatus.error) × (res.connector_instance_id ≡ none))

resolved_ne_error : ResolutionStatus.resolved ≢ ResolutionStatus.error
resolved_ne_error h = cc

IsSound-key : (r : Request) (d : Decision) → IsSound r d → d.idempotency_key ≡ r.idempotency_key
IsSound-key r d (chosen source e m t) = refl
IsSound-key r d (refused source why candidates) = refl

key_for-none :
    (r : Request) (key : Option String)
    → key ≡ none
    → is_mutation r.action_class ≡ true
    → key_for r key
      ≡ some (failed r ResolutionSource.no_route ReasonCode.missing_idempotency_key (ids r.scoped))
unfolding key_for
key_for-none r none e m = rw m
key_for-none r (some k) e m = cc

-- A mutation without a key is refused before anything else.
decide_keyless :
    (r : Request)
    → r.idempotency_key ≡ none
    → is_mutation r.action_class ≡ true
    → decide r
      ≡ failed r ResolutionSource.no_route ReasonCode.missing_idempotency_key (ids r.scoped)
unfolding decide
decide_keyless r e m = rw (key_for-none r r.idempotency_key e m)

decide_keyed :
    (r : Request)
    → (decide r).status ≡ ResolutionStatus.resolved
    → is_mutation r.action_class ≡ true
    → (decide r).idempotency_key ≢ none
decide_keyed r h m gone =
    let keyless = sym (IsSound-key r (decide r) (decide-IsSound r)) ∙ gone in
    resolved_ne_error (sym h ∙ ap (λ (d : Decision). d.status) (decide_keyless r keyless m))

result-IsAnswer :
    (r : Request) (entries : List ConnectorRegistryEntry) (capability : String)
    → r.scoped ≡ scoped_entries (strip r.policy.organization_id) (strip r.policy.site_id) entries
    → r.capability_namespace ≡ strip capability
    → IsAnswer entries r.policy r.action_class capability (answer r)
unfolding answer result
result-IsAnswer r entries capability scoped named =
    judged (decide r) (decide-IsSound r) (decide_keyed r)
  where
    judged :
        (d : Decision)
        → IsSound r d
        → (d.status ≡ ResolutionStatus.resolved
            → is_mutation r.action_class ≡ true
            → d.idempotency_key ≢ none)
        → IsAnswer entries r.policy r.action_class capability (result r d)
    judged d (refused source why candidates) keyed = inr (refl, refl)
    judged d (chosen source e m t) keyed =
        let (n, o, s) = scoped-Memᴰ _ _ entries e (rw scoped at m) in
        let (on, well, able, acts) =
          (is_entry_eligible_iff e r.action_class r.capability_namespace).0 t in
        inl (
          refl,
          (
            e.connector_instance_id,
            refl,
            record {
              entry = e;
              member = n;
              chosen_id = refl;
              organization = o;
              site = s;
              enabled = on;
              healthy = well;
              capable = rw named at able;
              supported = acts;
            },
          ),
          keyed refl,
        )

require_scope_ok : (value name t : String) → require_scope value name ≡ ok t → t ≡ strip value
unfolding require_scope
require_scope_ok value name t h = elim (Bool-cases (str_eq (strip value) "")) [
  | inl e ↦ absurd (ok-ne-err {e = requires name} (sym h ∙ rw e))
  | inr e ↦ ok-injective (sym h ∙ rw e)
]

answered :
    (entries : List ConnectorRegistryEntry) (policy : CapabilityRoutePolicy)
    (request_id actor_id : String) (action_class : ActionClass) (capability : String)
    (override idempotency_key correlation_id resolution_id evaluated_utc : Option String)
    (uuid clock : String)
    → Ensures (IsAnswer entries policy action_class capability) (
        resolve_connector entries policy request_id actor_id action_class capability override
          idempotency_key correlation_id resolution_id evaluated_utc uuid clock)
unfolding resolve_connector
answered entries policy request_id actor_id action_class capability override idempotency_key
      correlation_id resolution_id evaluated_utc uuid clock =
    Ensures-bind (require_scope request_id "request_id") _ (λ t _.
      Ensures-bind (require_scope actor_id "actor_id") _ (λ u _.
        Ensures-bind (require_scope capability "capability_namespace") _ (λ v named.
          Ensures-bind (require_scope policy.organization_id "organization_id") _ (λ o owned.
            Ensures-bind (require_scope policy.site_id "site_id") _ (λ s sited.
              let r : Request =
                request_of entries policy action_class (t, u, v, o, s) override idempotency_key
                  correlation_id resolution_id evaluated_utc uuid clock in
              let a = require_scope_ok policy.organization_id "organization_id" o owned in
              let b = require_scope_ok policy.site_id "site_id" s sited in
              Ensures-ok (answer r) (
                result-IsAnswer r entries capability
                  (ap (λ x. scoped_entries x s entries) a
                    ∙ ap (λ x. scoped_entries (strip policy.organization_id) x entries) b)
                  (require_scope_ok capability "capability_namespace" v named)))))))

-- Where the routing returns, its answer is resolved or an error. A resolved one names the connector of an
-- entry that was given, of the policy's stripped organization and site, that is enabled, not unhealthy,
-- has the stripped capability and supports the action, and a mutation has an idempotency key; an error
-- names no connector.
pub resolve_connector-IsAnswer :
    (entries : List ConnectorRegistryEntry) (policy : CapabilityRoutePolicy)
    (request_id actor_id : String) (action_class : ActionClass) (capability : String)
    (override idempotency_key correlation_id resolution_id evaluated_utc : Option String)
    (uuid clock : String) {res : ConnectorResolutionResult}
    → resolve_connector entries policy request_id actor_id action_class capability override
        idempotency_key correlation_id resolution_id evaluated_utc uuid clock
      ≡ ok res
    → IsAnswer entries policy action_class capability res
resolve_connector-IsAnswer entries policy request_id actor_id action_class capability override
      idempotency_key correlation_id resolution_id evaluated_utc uuid clock h =
    (answered entries policy request_id actor_id action_class capability override idempotency_key
        correlation_id resolution_id evaluated_utc uuid clock).returned
      _ h
