-- ===== src/CodingAgent/Dag/Ready/Valid.antt =====
-- When `validate_dag` of model-packs/coding-agent/domain-lib/dag_validator.py finds nothing.
use mathlib.Core.Bool.{false≢true}
use lumina_framework.Base.{
  ◌≤◌, String, true, false, List, [], ◌∷◌, ◌++◌, ok, err, ◌≡◌, ◌↔◌, refl, sym, ap, ◌∙◌, arith,
  eq_iff, Bool-cases, inl, inr, elem, All, ok-ne-err, Result-cases, cons_ne_nil, append_nil,
}
use lumina_framework.Base.Counting.{count}
use lumina_framework.CodingAgent.Dag.{
  PlanNode, PlanDag, sorted_ids, nodes_of, stable_topological_sort, Error,
}
use lumina_framework.CodingAgent.Dag.Spec.{IsOrder}
use lumina_framework.CodingAgent.Dag.Sorted.{sorted_ids_iff}
use lumina_framework.CodingAgent.Dag.Ready.{
  Problem, ids_of, duplicates, unknown, dangling, sort_problem, validate_dag, dangling_depends_on,
}

not_in_nil : (c : String) → elem c [] ≡ true → ⊥
unfolding elem
not_in_nil c h = cc

duplicates_clean :
    (seen ids : List String)
    → duplicates seen ids ≡ []
    → (c : String) → (count c ids ≤ 1) × (elem c seen ≡ true → count c ids ≡ 0)
unfolding duplicates count elem
duplicates_clean seen [] h c = ground arith
duplicates_clean seen (id ∷ ids) h c = elim (Bool-cases (elem id seen)) [
  | inl t ↦ absurd (cons_ne_nil (rw t at h))
  | inr t ↦
      let (few, late) = duplicates_clean (id ∷ seen) ids (rw t at h) c in
      ground (arith, few, late, t, eq_iff id c)
]

clean_duplicates :
    (seen ids : List String)
    → ((c : String) → (count c ids ≤ 1) × (elem c seen ≡ true → count c ids ≡ 0))
    → duplicates seen ids ≡ []
unfolding duplicates count elem
clean_duplicates seen [] h = refl
clean_duplicates seen (id ∷ ids) h =
    let fresh : elem id seen ≡ false = ground (arith, h id, eq_iff id id) in
    rw fresh (clean_duplicates (id ∷ seen) ids (λ c. ground (arith, h c, eq_iff id c)))

unknown_clean :
    (problem : String → Problem) (ids deps : List String)
    → (unknown problem ids deps ≡ []) ↔ All (λ d. elem d ids ≡ true) deps
unfolding unknown
unknown_clean problem ids [] = (λ _. tt, λ _. refl)
unknown_clean problem ids (d ∷ deps) =
    let (f, g) = unknown_clean problem ids deps in
    elim (Bool-cases (elem d ids)) [
      | inl t ↦ rw t (λ h. (refl, f h), λ h. g h.1)
      | inr t ↦ rw t (λ h. absurd (cons_ne_nil h), λ h. absurd (false≢true h.0))
    ]

-- Every dependency of a node is among `ids`.
abbrev pub IsKnown : List String → PlanNode → Type 0
IsKnown ids n = All (λ d. elem d ids ≡ true) n.depends_on

dangling_clean :
    (ids : List String) (ns : List PlanNode) → (dangling ids ns ≡ []) ↔ All (IsKnown ids) ns
unfolding dangling
dangling_clean ids [] = (λ _. tt, λ _. refl)
dangling_clean ids (n ∷ ns) =
    let (f, g) = unknown_clean (dangling_depends_on n.node_id) ids n.depends_on in
    let (p, q) = dangling_clean ids ns in
    (
      λ h.
          let (a, b) =
            append_nil (unknown (dangling_depends_on n.node_id) ids n.depends_on) (dangling ids ns)
              h in
          (f a, p b),
      λ h. rw (g h.0) (q h.1),
    )

pub sort_returns :
    (dag : PlanDag) (ids : List String)
    → sorted_ids dag.nodes ≡ ok ids
    → stable_topological_sort dag ≡ ok (nodes_of dag.nodes ids)
unfolding stable_topological_sort
sort_returns dag ids h = rw h

sort_raises :
    (dag : PlanDag) (e : Error) → sorted_ids dag.nodes ≡ err e → stable_topological_sort dag ≡ err e
unfolding stable_topological_sort
sort_raises dag e h = rw h

sort_clean :
    (dag : PlanDag)
    → (sort_problem (stable_topological_sort dag) ≡ [])
      ↔ ((xs : List String) × IsOrder dag.nodes xs)
sort_clean dag =
    let ((f, g), _) = sorted_ids_iff dag.nodes in
    elim (Result-cases (sorted_ids dag.nodes)) [
      | inl (ids, made) ↦ (λ _. f (ids, made), λ _. ap sort_problem (sort_returns dag ids made))
      | inr (e, raised) ↦ (
        λ h. absurd (cons_ne_nil (sym (ap sort_problem (sort_raises dag e raised)) ∙ h)),
        λ o. let (ids, made) = g o in absurd (ok-ne-err (sym made ∙ raised)),
      )
    ]

-- The validation of a plan finds nothing exactly if no two nodes have one id, every dependency is a node,
-- and the nodes have a topological order.
pub validate_dag_clean :
    (dag : PlanDag)
    → (validate_dag dag ≡ []) ↔ (
        ((c : String) → count c (ids_of dag.nodes) ≤ 1)
        × All (IsKnown (ids_of dag.nodes)) dag.nodes
        × ((xs : List String) × IsOrder dag.nodes xs))
unfolding validate_dag
validate_dag_clean dag =
    let ids = ids_of dag.nodes in
    let (p, q) = dangling_clean ids dag.nodes in
    let (f, g) = sort_clean dag in
    (
      λ h.
          let (b, c) =
            append_nil (duplicates [] ids ++ dangling ids dag.nodes)
              (sort_problem (stable_topological_sort dag)) h in
          let (a, d) = append_nil (duplicates [] ids) (dangling ids dag.nodes) b in
          (λ x. (duplicates_clean [] ids a x).0, p d, f c),
      λ h. rw (clean_duplicates [] ids (λ c. (h.0 c, λ e. absurd (not_in_nil c e))), q h.1) (g h.2),
    )
