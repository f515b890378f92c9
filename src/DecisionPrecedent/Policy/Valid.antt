-- ===== src/DecisionPrecedent/Policy/Valid.antt =====
-- What a resolved policy of src/lumina/decision_precedent/policy.py satisfies.
use mathlib.Core.Path.{subst}
use mathlib.Core.List.{Memᴰ}
use lumina_framework.Base.{
  List, ◌∷◌, sym, arith, eq_iff, elem, ◌≤◌, String, true, [], ok, ◌≡◌, leb, get_or, Ensures,
  Ensures-bind, Ensures-ok,
}
use lumina_framework.Base.Dict.{Dict, get}
use lumina_framework.ThreadRouting.Router.{one}
use lumina_framework.ThreadRouting.Policy.{
  Value, null, missing_defaults, bad_version, not_positive, confirmation_above_suggest,
  overlapping_classes, absent_keys, refuse_names, demand, number, positive_integer, field,
  as_mapping, section, without_sites, require_scope, validate_policy_header,
}
use lumina_framework.ThreadRouting.Policy.Valid.{number-le, positive_integer-le, demand_ok, leb_le}
use lumina_framework.DecisionPrecedent.Policy.{
  DecisionPrecedentPolicy, precedent_fields, risk_classes, disjoint, merge_precedent_policy,
  validate_precedent_policy, resolve_decision_precedent_policy,
}

-- The bounds that the scorer relies on.
pub record IsPrecedentPolicy (p : DecisionPrecedentPolicy) : Type 0 where
  pub confirmation_le_suggest : p.confirmation_threshold ≤ p.suggest_threshold
  pub suggest_le_one : p.suggest_threshold ≤ one
  pub stale_le_one : p.stale_penalty ≤ one
  pub missing_le_one : p.missing_precedent_penalty ≤ one
  pub has_version : 1 ≤ p.policy_version
  pub has_room : 1 ≤ p.candidate_limit
  pub has_days : 1 ≤ p.stale_after_days
  pub disjoint_classes :
      (c : String) → Memᴰ c p.high_risk_classes → ¬ Memᴰ c p.confirmation_risk_classes

Memᴰ-elem : (c : String) (cs : List String) → Memᴰ c cs → elem c cs ≡ true
unfolding elem
Memᴰ-elem c [] m = elim m [ ]
Memᴰ-elem c (d ∷ cs) (Memᴰ.head e) = rw ((eq_iff d c).1 (sym e))
Memᴰ-elem c (d ∷ cs) (Memᴰ.tail m) = ground (arith, Memᴰ-elem c cs m)

disjoint-Memᴰ :
    (high asking : List String)
    → disjoint high asking ≡ true
    → (c : String) → Memᴰ c high
    → ¬ Memᴰ c asking
unfolding disjoint
disjoint-Memᴰ [] asking h c m n = elim m [ ]
disjoint-Memᴰ (d ∷ high) asking h c (Memᴰ.head e) n =
    let there = subst (λ x. elem x asking ≡ true) e (Memᴰ-elem c asking n) in ground (arith, there)
disjoint-Memᴰ (d ∷ high) asking h c (Memᴰ.tail m) n = disjoint-Memᴰ high asking (ground arith) c m n

validate-IsPrecedentPolicy :
    (policy : Dict Value) (version : Value) (organization site : String)
    → Ensures IsPrecedentPolicy (validate_precedent_policy policy version organization site)
unfolding validate_precedent_policy
validate-IsPrecedentPolicy policy version organization site =
    Ensures-bind (refuse_names missing_defaults (absent_keys precedent_fields policy)) _ (λ _ _.
      Ensures-bind (positive_integer version bad_version) _ (λ v versioned.
        Ensures-bind (field "suggest_threshold" policy) _ (λ a _.
          Ensures-bind (number a "suggest_threshold") _ (λ suggest suggested.
            Ensures-bind (field "confirmation_threshold" policy) _ (λ b _.
              Ensures-bind (number b "confirmation_threshold") _ (λ confirm _.
                Ensures-bind (demand (leb confirm suggest) confirmation_above_suggest) _ (λ _ below.
                  Ensures-bind (field "high_risk_classes" policy) _ (λ c _.
                    Ensures-bind (risk_classes c "high_risk_classes") _ (λ high _.
                      Ensures-bind (field "confirmation_risk_classes" policy) _ (λ d _.
                        Ensures-bind (risk_classes d "confirmation_risk_classes") _ (λ asking _.
                          Ensures-bind (demand (disjoint high asking) overlapping_classes) _
                            (λ _ apart. Ensures-bind (field "candidate_limit" policy) _ (λ e _.
                              Ensures-bind (positive_integer e (not_positive "candidate_limit")) _
                                (λ limit limited.
                                  Ensures-bind (field "stale_after_days" policy) _ (λ f _.
                                    Ensures-bind
                                      (positive_integer f (not_positive "stale_after_days")) _
                                      (λ days aged.
                                        Ensures-bind (field "stale_penalty" policy) _ (λ g _.
                                          Ensures-bind (number g "stale_penalty") _ (λ stale staled.
                                            Ensures-bind (field "missing_precedent_penalty" policy)
                                              _
                                              (λ h _.
                                                Ensures-bind (number h "missing_precedent_penalty")
                                                  _
                                                  (λ missing missed. Ensures-ok _ (record {
                                                    confirmation_le_suggest =
                                                        leb_le confirm suggest (
                                                          demand_ok (leb confirm suggest)
                                                            confirmation_above_suggest below);
                                                    suggest_le_one =
                                                        number-le a "suggest_threshold" suggest
                                                          suggested;
                                                    stale_le_one =
                                                        number-le g "stale_penalty" stale staled;
                                                    missing_le_one =
                                                        number-le h "missing_precedent_penalty"
                                                          missing missed;
                                                    has_version =
                                                        positive_integer-le version bad_version v
                                                          versioned;
                                                    has_room =
                                                        positive_integer-le e
                                                          (not_positive "candidate_limit") limit
                                                          limited;
                                                    has_days =
                                                        positive_integer-le f
                                                          (not_positive "stale_after_days") days
                                                          aged;
                                                    disjoint_classes = disjoint-Memᴰ high asking (
                                                        demand_ok (disjoint high asking)
                                                          overlapping_classes apart);
                                                  })))))))))))))))))))))

resolve-Ensures :
    (config : Dict Value) (organization site : String)
    → Ensures IsPrecedentPolicy (resolve_decision_precedent_policy config organization site)
unfolding resolve_decision_precedent_policy
resolve-Ensures config organization site =
    Ensures-bind (require_scope organization "organization_id") _ (λ o _.
      Ensures-bind (require_scope site "site_id") _ (λ t _.
        Ensures-bind (validate_policy_header config) _ (λ _ _.
          Ensures-bind (as_mapping (get_or (get "defaults" config) null) "defaults") _
            (λ defaults _. Ensures-bind (merge_precedent_policy [] defaults "defaults") _ (λ base _.
              Ensures-bind (section "organizations" config "organizations") _ (λ organizations _.
                Ensures-bind (section o organizations "organizations.organization_id") _ (λ over _.
                  Ensures-bind (section "sites" over "organizations.organization_id.sites") _
                    (λ sites _.
                      Ensures-bind
                        (merge_precedent_policy base (without_sites over)
                          "organizations.organization_id")
                        _
                        (λ wide _.
                          Ensures-bind
                            (section t sites "organizations.organization_id.sites.site_id") _
                            (λ local _.
                              Ensures-bind
                                (merge_precedent_policy wide local
                                  "organizations.organization_id.sites.site_id")
                                _
                                (λ resolved _.
                                  validate-IsPrecedentPolicy resolved
                                    (get_or (get "policy_version" config) null) o t)))))))))))

-- A resolved precedent policy has a confirmation threshold of at most its suggest threshold, which is at
-- most 1 as its penalties are; its version, candidate limit and days are at least 1, and no risk class
-- is both high and one that asks for confirmation.
pub resolve-IsPrecedentPolicy :
    (config : Dict Value) (organization site : String) {p : DecisionPrecedentPolicy}
    → resolve_decision_precedent_policy config organization site ≡ ok p
    → IsPrecedentPolicy p
resolve-IsPrecedentPolicy config organization site h =
    (resolve-Ensures config organization site).returned _ h
