-- ===== src/CodingAgent/Dag/Sorted.antt =====
-- What `stable_topological_sort` of model-packs/coding-agent/domain-lib/dag_validator.py returns.
use mathlib.Core.Path.{subst}
use mathlib.Core.Bool.{false≢true}
use lumina_framework.Base.{
  ℕ, ◌≤◌, ◌<◌, String, true, List, [], ok, err, ◌≡◌, ◌↔◌, refl, sym, ap, ◌∙◌, str_eq, if◌then◌else◌,
  ◌==◌, arith, eq_iff, Bool-cases, eq_of_test, inl, inr, length, ok-injective, ok-ne-err,
}
use lumina_framework.Base.Counting.{count, count-snoc, IsWithin, length-IsWithin, IsWithin-full}
use lumina_framework.CodingAgent.Dag.{PlanNode, node_ids, Run, cycle_detected, finish, sorted_ids}
use lumina_framework.CodingAgent.Dag.Spec.{
  IsTopological, nil, snoc, IsOrder, pending_zero, count-node_ids,
}
use lumina_framework.CodingAgent.Dag.Loop.{es, due, Inv, loop-done}

module _ (nodes : List PlanNode) where
  -- The run that the loop ends in, with the answer it leads to.
  sorted_run :
      (t : Run) × Inv nodes t
      × (t.ready ≡ [])
      × (sorted_ids nodes ≡ (
          if length t.ordered == length (node_ids nodes) then ok t.ordered else err cycle_detected))
  unfolding sorted_ids finish
  sorted_run = let (t, ends, inv, empty) = loop-done nodes in (t, inv, empty, rw ends)

  -- With an empty queue, every id of an order was visited: else the first that was not would be due.
  all_visited :
      (t : Run)
      → Inv nodes t
      → t.ready ≡ []
      → {xs : List String} → IsTopological (es nodes) xs
      → IsWithin xs (node_ids nodes)
      → (c : String) → 0 < count c xs
      → 0 < count c t.ordered
  unfolding count
  all_visited t inv empty nil inside c h = absurd (omega arith)
  all_visited t inv empty (snoc {xs} last order fresh sources) inside c h =
      let earlier =
        all_visited t inv empty order (λ d. ground (arith, count-snoc d last xs, inside d)) in
      let calm = pending_zero (es nodes) t.ordered last (λ dep m. earlier dep (sources dep m)) in
      let idle = inv.queue last ∙ ap (due nodes t.ordered) refl in
      let nothing = ap (count last) empty in
      let known = inside last in
      elim (Bool-cases (str_eq last c)) [
        | inl u ↦
            let same = ap (λ x. count x t.ordered) (eq_of_test last c u) in
            ground (
              arith,
              same,
              nothing,
              inv.queue last,
              calm,
              known,
              count-snoc last last xs,
              eq_iff last last,
            )
        | inr u ↦ ground (arith, u, count-snoc c last xs, earlier c)
      ]

le_of_eq : {m n : ℕ} → m ≡ n → m ≤ n
le_of_eq h = omega arith

-- Where some order exists, the loop has visited as many ids as there are.
order_full :
    (nodes : List PlanNode) (t : Run)
    → Inv nodes t
    → t.ready ≡ []
    → ((xs : List String) × IsOrder nodes xs)
    → (length t.ordered == length (node_ids nodes)) ≡ true
order_full nodes t inv empty (xs, order) =
    let inside = λ (c : String). le_of_eq (order.complete c) in
    let seen = all_visited nodes t inv empty order.topological inside in
    let short = length-IsWithin t.ordered (node_ids nodes) inv.within in
    let long =
      length-IsWithin (node_ids nodes) t.ordered
        (λ c. ground (arith, seen c, order.complete c, count-node_ids c nodes)) in
    ground (arith, short, long)

-- Where the sort returns, its order has each node's id once, after those of its dependencies that are
-- nodes.
pub sorted_ids-IsOrder :
    (nodes : List PlanNode) (ids : List String) → sorted_ids nodes ≡ ok ids → IsOrder nodes ids
sorted_ids-IsOrder nodes ids h =
    let (t, inv, empty, made) = sorted_run nodes in
    elim (Bool-cases (length t.ordered == length (node_ids nodes))) [
      | inl full ↦
          let same : t.ordered ≡ ids = ok-injective (rw full at (sym made ∙ h)) in
          let order : IsOrder nodes t.ordered = record {
            topological = inv.order;
            complete = IsWithin-full t.ordered (node_ids nodes) inv.within (ground (arith, full));
          } in
          subst (IsOrder nodes) same order
      | inr partial ↦ absurd (ok-ne-err (rw partial at (sym h ∙ made)))
    ]

-- The sort returns exactly where the nodes have a topological order, and raises the cycle error exactly
-- where they have none.
pub sorted_ids_iff :
    (nodes : List PlanNode)
    → (((ids : List String) × (sorted_ids nodes ≡ ok ids))
        ↔ ((xs : List String) × IsOrder nodes xs))
      × ((sorted_ids nodes ≡ err cycle_detected) ↔ ¬ ((xs : List String) × IsOrder nodes xs))
sorted_ids_iff nodes =
    let (t, inv, empty, made) = sorted_run nodes in
    let complete = order_full nodes t inv empty in
    elim (Bool-cases (length t.ordered == length (node_ids nodes))) [
      | inl full ↦
          let returns = rw full at made in
          let order = sorted_ids-IsOrder nodes t.ordered returns in
          (
            (λ _. (t.ordered, order), λ _. (t.ordered, returns)),
            (
              λ raised. absurd (ok-ne-err (sym returns ∙ raised)),
              λ no_order. absurd (no_order (t.ordered, order)),
            ),
          )
      | inr partial ↦
          let raises = rw partial at made in
          let no_order =
            λ (o : (xs : List String) × IsOrder nodes xs). false≢true (sym partial ∙ complete o) in
          (
            (λ r. absurd (ok-ne-err (sym r.1 ∙ raises)), λ o. absurd (no_order o)),
            (λ _. no_order, λ _. raises),
          )
    ]
