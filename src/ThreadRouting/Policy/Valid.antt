-- ===== src/ThreadRouting/Policy/Valid.antt =====
-- What a resolved policy of src/lumina/thread_routing/policy.py satisfies.
use mathlib.Core.Path.{subst}
use mathlib.Core.Bool.{false≢true}
use lumina_framework.Base.{
  ◌||◌, ℕ, false, List, ◌∷◌, All, get_or, ◌≤◌, zero, suc, String, Bool, true, [], ok, leb, ◌≡◌, ◌≢◌,
  refl, sym, ◌∙◌, arith, Ensures, Ensures-bind, Ensures-ok, Bool-cases, inl, inr, ok-injective,
  ok-ne-err, strip, str_eq, ne_of_test,
}
use lumina_framework.Base.Dict.{Dict, get}
use lumina_framework.ThreadRouting.Router.{ThreadRoutingPolicy, ConfirmationAction, one}
use lumina_framework.ThreadRouting.Policy.{
  requires, Value, integer, decimal, negative, null, non_finite, boolean, text, sequence, mapping,
  Error, demand, number, positive_integer, same_action, has_action, all_distinct,
  validate_resolved_policy, resolve_thread_routing_policy, require_scope, refuse_names,
  missing_defaults, absent_keys, extra_keys, policy_fields, unknown_fields, bad_version, field,
  fork_above_attach, confirmation_actions, repeated_actions, switch, not_positive,
  validate_policy_header, as_mapping, merge_policy, section, without_sites,
}

-- No action stands twice.
abbrev pub AreDistinct : List ConfirmationAction → Type 0
AreDistinct [] = Unit
AreDistinct (a ∷ actions) = All (λ b. a ≢ b) actions × AreDistinct actions

-- The bounds that every user of a policy relies on.
pub record IsPolicy (p : ThreadRoutingPolicy) : Type 0 where
  pub fork_le_attach : p.fork_threshold ≤ p.attach_threshold
  pub attach_le_one : p.attach_threshold ≤ one
  pub margin_le_one : p.ambiguity_margin ≤ one
  pub has_version : 1 ≤ p.policy_version
  pub has_recap : 1 ≤ p.recap_interval_turns
  pub has_room : 1 ≤ p.candidate_limit
  pub distinct : AreDistinct p.require_operator_confirmation_for

same_action_refl : (a : ConfirmationAction) → same_action a a ≡ true
unfolding same_action
same_action_refl ConfirmationAction.attach_existing = refl
same_action_refl ConfirmationAction.create_new = refl
same_action_refl ConfirmationAction.fork_from = refl
same_action_refl ConfirmationAction.ambiguous_attach = refl

or_false : (a b : Bool) → (a || b) ≡ false → (a ≡ false) × (b ≡ false)
or_false true b h = cc
or_false false b h = (refl, h)

has_action-All :
    (a : ConfirmationAction) (actions : List ConfirmationAction)
    → has_action a actions ≡ false
    → All (λ b. a ≢ b) actions
unfolding has_action
has_action-All a [] h = tt
has_action-All a (b ∷ actions) h = (
  λ e. false≢true (
      sym (or_false (same_action a b) (has_action a actions) h).0
      ∙ (subst (λ x. same_action a x ≡ true) e (same_action_refl a))),
  has_action-All a actions (or_false (same_action a b) (has_action a actions) h).1,
)

all_distinct-AreDistinct :
    (actions : List ConfirmationAction) → all_distinct actions ≡ true → AreDistinct actions
unfolding all_distinct
all_distinct-AreDistinct [] h = tt
all_distinct-AreDistinct (a ∷ actions) h =
    (has_action-All a actions (ground arith), all_distinct-AreDistinct actions (ground arith))

pub number-le : (v : Value) (name : String) (n : ℕ) → number v name ≡ ok n → n ≤ one
unfolding number
number-le (integer m) name n h = ground arith
number-le (decimal m) name n h = ground arith
number-le (negative b) name n h = ground arith
number-le null name n h = ground arith
number-le non_finite name n h = ground arith
number-le (boolean b) name n h = ground arith
number-le (text t) name n h = ground arith
number-le (sequence t) name n h = ground arith
number-le (mapping t) name n h = ground arith

pub positive_integer-le : (v : Value) (e : Error) (n : ℕ) → positive_integer v e ≡ ok n → 1 ≤ n
unfolding positive_integer
positive_integer-le (integer zero) e n h = ground arith
positive_integer-le (integer (suc m)) e n h = ground arith
positive_integer-le (decimal m) e n h = ground arith
positive_integer-le (negative b) e n h = ground arith
positive_integer-le null e n h = ground arith
positive_integer-le non_finite e n h = ground arith
positive_integer-le (boolean b) e n h = ground arith
positive_integer-le (text t) e n h = ground arith
positive_integer-le (sequence t) e n h = ground arith
positive_integer-le (mapping t) e n h = ground arith

pub demand_ok : (b : Bool) (e : Error) {u : Unit {0}} → demand b e ≡ ok u → b ≡ true
demand_ok true e h = refl
demand_ok false e h = absurd (ok-ne-err (sym h))

pub leb_le : (m n : ℕ) → leb m n ≡ true → m ≤ n
leb_le m n h = ground arith

-- A policy within the bounds, for an organization and a site.
abbrev pub IsPolicyOf : String → String → ThreadRoutingPolicy → Type 0
IsPolicyOf organization site p =
    IsPolicy p × (p.organization_id ≡ organization) × (p.site_id ≡ site)

validate_resolved_policy-IsPolicyOf :
    (policy : Dict Value) (version : Value) (organization site : String)
    → Ensures
        (IsPolicyOf organization site)
        (validate_resolved_policy policy version organization site)
unfolding validate_resolved_policy
validate_resolved_policy-IsPolicyOf policy version organization site =
    Ensures-bind (refuse_names missing_defaults (absent_keys policy_fields policy)) _ (λ _ _.
      Ensures-bind (refuse_names (unknown_fields "") (extra_keys policy_fields policy)) _ (λ _ _.
        Ensures-bind (positive_integer version bad_version) _ (λ v versioned.
          Ensures-bind (field "attach_threshold" policy) _ (λ attach_value _.
            Ensures-bind (number attach_value "attach_threshold") _ (λ attach attached.
              Ensures-bind (field "fork_threshold" policy) _ (λ fork_value _.
                Ensures-bind (number fork_value "fork_threshold") _ (λ fork _.
                  Ensures-bind (demand (leb fork attach) fork_above_attach) _ (λ _ below.
                    Ensures-bind (field "require_operator_confirmation_for" policy) _
                      (λ actions_value _.
                        Ensures-bind (confirmation_actions actions_value) _ (λ actions _.
                          Ensures-bind (demand (all_distinct actions) repeated_actions) _
                            (λ _ distinct.
                              Ensures-bind (field "manual_only" policy) _ (λ manual_value _.
                                Ensures-bind (switch manual_value) _ (λ manual _.
                                  Ensures-bind (field "ambiguity_margin" policy) _
                                    (λ margin_value _.
                                      Ensures-bind (number margin_value "ambiguity_margin") _
                                        (λ margin margined.
                                          Ensures-bind (field "recap_interval_turns" policy) _
                                            (λ recap_value _.
                                              Ensures-bind
                                                (positive_integer recap_value
                                                  (not_positive "recap_interval_turns"))
                                                _
                                                (λ recap recapped.
                                                  Ensures-bind (field "candidate_limit" policy) _
                                                    (λ limit_value _.
                                                      Ensures-bind
                                                        (positive_integer limit_value
                                                          (not_positive "candidate_limit"))
                                                        _
                                                        (λ limit limited. Ensures-ok _ (
                                                          record {
                                                            fork_le_attach = leb_le fork attach (
                                                            demand_ok (leb fork attach)
                                                            fork_above_attach below);
                                                            attach_le_one =
                                                            number-le attach_value
                                                            "attach_threshold" attach attached;
                                                            margin_le_one =
                                                            number-le margin_value
                                                            "ambiguity_margin" margin margined;
                                                            has_version =
                                                            positive_integer-le version bad_version
                                                            v versioned;
                                                            has_recap =
                                                            positive_integer-le recap_value
                                                            (not_positive "recap_interval_turns")
                                                            recap recapped;
                                                            has_room =
                                                            positive_integer-le limit_value
                                                            (not_positive "candidate_limit") limit
                                                            limited;
                                                            distinct =
                                                            all_distinct-AreDistinct actions (
                                                            demand_ok (all_distinct actions)
                                                            repeated_actions distinct);
                                                          },
                                                          refl,
                                                          refl,
                                                        ))))))))))))))))))))

require_scope_ok :
    (identifier name : String) (t : String)
    → require_scope identifier name ≡ ok t
    → (t ≡ strip identifier) × (strip identifier ≢ "")
unfolding require_scope
require_scope_ok identifier name t h = elim (Bool-cases (str_eq (strip identifier) "")) [
  | inl e ↦ absurd (ok-ne-err {e = requires name} (sym h ∙ rw e))
  | inr e ↦ (ok-injective (sym h ∙ rw e), ne_of_test _ _ e)
]

resolve-Ensures :
    (config : Dict Value) (organization site : String)
    → Ensures
        (λ p.
          IsPolicyOf (strip organization) (strip site) p
          × (strip organization ≢ "")
          × (strip site ≢ ""))
        (resolve_thread_routing_policy config organization site)
unfolding resolve_thread_routing_policy
resolve-Ensures config organization site =
    Ensures-bind (require_scope organization "organization_id") _ (λ o scoped.
      Ensures-bind (require_scope site "site_id") _ (λ t sited.
        Ensures-bind (validate_policy_header config) _ (λ _ _.
          Ensures-bind (as_mapping (get_or (get "defaults" config) null) "defaults") _
            (λ defaults _. Ensures-bind (merge_policy [] defaults "defaults") _ (λ base _.
              Ensures-bind (section "organizations" config "organizations") _ (λ organizations _.
                Ensures-bind (section o organizations "organizations.organization_id") _ (λ over _.
                  Ensures-bind (section "sites" over "organizations.organization_id.sites") _
                    (λ sites _.
                      Ensures-bind
                        (merge_policy base (without_sites over) "organizations.organization_id") _
                        (λ wide _.
                          Ensures-bind
                            (section t sites "organizations.organization_id.sites.site_id") _
                            (λ local _.
                              Ensures-bind
                                (merge_policy wide local
                                  "organizations.organization_id.sites.site_id")
                                _
                                (λ resolved _.
                                  let a =
                                    require_scope_ok organization "organization_id" o scoped in
                                  let b = require_scope_ok site "site_id" t sited in
                                  record {
                                    returned = λ p made.
                                        let h =
                                          (validate_resolved_policy-IsPolicyOf resolved
                                              (get_or (get "policy_version" config) null) o
                                              t).returned
                                            p made in
                                        ((h.0, h.1 ∙ a.0, h.2 ∙ b.0), a.1, b.1);
                                  })))))))))))

-- A policy that is resolved for an organization and a site is for those names, stripped and not empty;
-- its fork threshold is at most its attach threshold, its thresholds and margin are at most 1, its
-- version, recap interval and candidate limit are at least 1, and its confirmation actions are distinct.
pub resolve-IsPolicy :
    (config : Dict Value) (organization site : String) {p : ThreadRoutingPolicy}
    → resolve_thread_routing_policy config organization site ≡ ok p
    → IsPolicyOf (strip organization) (strip site) p × (strip organization ≢ "") × (strip site ≢ "")
resolve-IsPolicy config organization site h =
    (resolve-Ensures config organization site).returned _ h
