-- ===== src/CodingAgent/Dag/Ready/Progress.antt =====
-- A plan that validates never gets stuck: model-packs/coding-agent/domain-lib/dag_validator.py.
use mathlib.Core.Path.{subst}
use mathlib.Core.Bool.{false≢true}
use mathlib.Core.List.{Memᴰ}
use lumina_framework.Base.{
  ◌<◌, String, true, false, none, some, List, [], ◌∷◌, ◌++◌, ok, ◌≡◌, ◌≢◌, refl, sym, ap, ◌∙◌,
  str_eq, arith, eq_iff, Bool-cases, Option-cases, inl, inr, elem, All, All-mem, All-map, All-Memᴰ,
  eq_of_test, cons_ne_nil, append_nil,
}
use lumina_framework.Base.Select.{some_injective}
use lumina_framework.Base.Counting.{count, elem-count, count-elem, count-snoc}
use lumina_framework.CodingAgent.Dag.{
  PlanNode, PlanDag, node_ids, node_of, nodes_of, edges_to, edges_of,
}
use lumina_framework.CodingAgent.Dag.Spec.{IsTopological, nil, snoc, count-without}
use lumina_framework.CodingAgent.Dag.Sorted.{sorted_ids_iff, sorted_ids-IsOrder}
use lumina_framework.CodingAgent.Dag.Ready.{ids_of, all_in, ready_in, ready_node_ids, validate_dag}
use lumina_framework.CodingAgent.Dag.Ready.Valid.{IsKnown, validate_dag_clean, sort_returns}

pub some_ne_none : {A : Type 0} {a : A} → some a ≢ none
some_ne_none h = cc

pub node_of-some :
    (ns : List PlanNode) (id : String) {n : PlanNode}
    → node_of ns id ≡ some n
    → Memᴰ n ns × (n.node_id ≡ id)
unfolding node_of
node_of-some [] id h = cc
node_of-some (m ∷ ns) id h = elim (Option-cases (node_of ns id)) [
  | inr (k, e) ↦ let (a, b) = node_of-some ns id (e ∙ (rw e at h)) in (Memᴰ.tail a, b)
  | inl e ↦ elim (Bool-cases (str_eq m.node_id id)) [
    | inl t ↦
        let same = some_injective (rw (e, t) at h) in
        (
          Memᴰ.head (sym same),
          ap (λ (x : PlanNode). x.node_id) (sym same) ∙ eq_of_test m.node_id id t,
        )
    | inr t ↦ absurd (some_ne_none (sym (rw (e, t) at h)))
  ]
]

node_of_known :
    (ns : List PlanNode) (id : String)
    → 0 < count id (node_ids ns)
    → (n : PlanNode) × (node_of ns id ≡ some n)
unfolding node_of node_ids count
node_of_known [] id h = absurd (omega arith)
node_of_known (m ∷ ns) id h = elim (Option-cases (node_of ns id)) [
  | inr (k, e) ↦ (k, rw e)
  | inl e ↦ elim (Bool-cases (str_eq m.node_id id)) [
    | inl t ↦ (m, rw (e, t))
    | inr t ↦
        let (k, f) =
          node_of_known ns id (ground (arith, t, count-without id m.node_id (node_ids ns))) in
        (k, rw f)
  ]
]

edges_to_known :
    (ids : List String) (child : String) (deps : List String) (d : String)
    → Memᴰ d deps
    → elem d ids ≡ true
    → Memᴰ (d, child) (edges_to ids child deps)
unfolding edges_to
edges_to_known ids child [] d m t = elim m [ ]
edges_to_known ids child (dep ∷ deps) d (Memᴰ.head e) t =
    rw (subst (λ x. elem x ids ≡ true) e t) (Memᴰ.head (ap (λ x. (x, child)) e))
edges_to_known ids child (dep ∷ deps) d (Memᴰ.tail m) t = elim (Bool-cases (elem dep ids)) [
  | inl u ↦ rw u (Memᴰ.tail (edges_to_known ids child deps d m t))
  | inr u ↦ rw u (edges_to_known ids child deps d m t)
]

Memᴰ-left : {A : Type 0} {a : A} (xs ys : List A) → Memᴰ a xs → Memᴰ a (xs ++ ys)
Memᴰ-left [] ys m = elim m [ ]
Memᴰ-left (x ∷ xs) ys (Memᴰ.head e) = Memᴰ.head e
Memᴰ-left (x ∷ xs) ys (Memᴰ.tail m) = Memᴰ.tail (Memᴰ-left xs ys m)

Memᴰ-right : {A : Type 0} {a : A} (xs ys : List A) → Memᴰ a ys → Memᴰ a (xs ++ ys)
Memᴰ-right [] ys m = m
Memᴰ-right (x ∷ xs) ys m = Memᴰ.tail (Memᴰ-right xs ys m)

edges_of_known :
    (ids : List String) (ns : List PlanNode) (n : PlanNode) (d : String)
    → Memᴰ n ns
    → Memᴰ d n.depends_on
    → elem d ids ≡ true
    → Memᴰ (d, n.node_id) (edges_of ids ns)
unfolding edges_of
edges_of_known ids [] n d m k t = elim m [ ]
edges_of_known ids (x ∷ ns) n d (Memᴰ.head e) k t =
    Memᴰ-left (edges_to ids x.node_id x.depends_on) (edges_of ids ns) (
      subst (λ y. Memᴰ (d, y.node_id) (edges_to ids x.node_id x.depends_on)) (sym e)
        (edges_to_known ids x.node_id x.depends_on d (subst (λ y. Memᴰ d y.depends_on) e k) t))
edges_of_known ids (x ∷ ns) n d (Memᴰ.tail m) k t =
    Memᴰ-right (edges_to ids x.node_id x.depends_on) (edges_of ids ns)
      (edges_of_known ids ns n d m k t)

ids_of_known :
    (ns : List PlanNode) (c : String) → 0 < count c (ids_of ns) → 0 < count c (node_ids ns)
unfolding count node_ids
ids_of_known [] c h = h
ids_of_known (n ∷ ns) c h =
    ground (arith, count-without c n.node_id (node_ids ns), ids_of_known ns c)

pub nodes_of-append :
    (nodes : List PlanNode) (xs ys : List String)
    → nodes_of nodes (xs ++ ys) ≡ nodes_of nodes xs ++ nodes_of nodes ys
unfolding nodes_of
nodes_of-append nodes [] ys = refl
nodes_of-append nodes (x ∷ xs) ys = elim (Option-cases (node_of nodes x)) [
  | inl e ↦ rw e (nodes_of-append nodes xs ys)
  | inr (n, e) ↦ rw e (ap (λ l. n ∷ l) (nodes_of-append nodes xs ys))
]

ready_in-append :
    (completed : List String) (xs ys : List PlanNode)
    → ready_in completed (xs ++ ys) ≡ ready_in completed xs ++ ready_in completed ys
unfolding ready_in
ready_in-append completed [] ys = refl
ready_in-append completed (x ∷ xs) ys = ground (arith, ready_in-append completed xs ys)

all_in-All : (xs ys : List String) → All (λ d. elem d ys ≡ true) xs → all_in xs ys ≡ true
unfolding all_in
all_in-All [] ys h = refl
all_in-All (x ∷ xs) ys h = ground (arith, h.0, all_in-All xs ys h.1)

-- A node that is not ready, with all it depends on completed, is completed itself.
last_completed :
    (completed : List String) (n : PlanNode)
    → ready_in completed (n ∷ []) ≡ []
    → All (λ d. elem d completed ≡ true) n.depends_on
    → elem n.node_id completed ≡ true
unfolding ready_in
last_completed completed n h known = elim (Bool-cases (elem n.node_id completed)) [
  | inl t ↦ t
  | inr t ↦ absurd (cons_ne_nil (rw (t, all_in-All n.depends_on completed known) at h))
]

only :
    (nodes : List PlanNode) (id : String) (n : PlanNode)
    → node_of nodes id ≡ some n
    → nodes_of nodes (id ∷ []) ≡ n ∷ []
unfolding nodes_of
only nodes id n found = rw found

module _ (nodes : List PlanNode) (completed : List String)
    (known : All (IsKnown (ids_of nodes)) nodes) where
  -- What a node of the plan depends on stands before it in an order.
  deps_before :
      (n : PlanNode) (c : String) (xs : List String)
      → Memᴰ n nodes
      → n.node_id ≡ c
      → ((dep : String) → Memᴰ (dep, c) (edges_of (node_ids nodes) nodes) → 0 < count dep xs)
      → ((dep : String) → 0 < count dep xs → elem dep completed ≡ true)
      → All (λ d. elem d completed ≡ true) n.depends_on
  deps_before n c xs m same sources earlier =
      All-map (λ d. elem d completed ≡ true) n.depends_on
        (λ d k.
          let listed = ids_of_known nodes d (
            elem-count d (ids_of nodes) (
              All-mem (λ d. elem d (ids_of nodes) ≡ true) (All-mem (IsKnown (ids_of nodes)) known m)
                k)) in
          earlier d (
            sources d (
              subst (λ x. Memᴰ (d, x) (edges_of (node_ids nodes) nodes)) same
                (edges_of_known (node_ids nodes) nodes n d m k
                  (count-elem d (node_ids nodes) listed)))))
        (All-Memᴰ n.depends_on)

  stuck :
      {xs : List String}
      → IsTopological (edges_of (node_ids nodes) nodes) xs
      → ((c : String) → 0 < count c xs → 0 < count c (node_ids nodes))
      → ready_in completed (nodes_of nodes xs) ≡ []
      → (c : String) → 0 < count c xs
      → elem c completed ≡ true
  unfolding count
  stuck nil inside idle c h = absurd (omega arith)
  stuck (snoc {xs} last order fresh sources) inside idle c h =
      let (n, found) =
        node_of_known nodes last
          (inside last (ground (arith, count-snoc last last xs, eq_iff last last))) in
      let (m, same) = node_of-some nodes last found in
      let parts =
        sym (ready_in-append completed (nodes_of nodes xs) (nodes_of nodes (last ∷ [])))
        ∙ ap (ready_in completed) (sym (nodes_of-append nodes xs (last ∷ [])))
        ∙ idle in
      let (before, here) = append_nil (ready_in completed (nodes_of nodes xs)) _ parts in
      let earlier =
        stuck order (λ d k. inside d (ground (arith, count-snoc d last xs, k))) before in
      let done_last =
        last_completed completed n (ap (ready_in completed) (sym (only nodes last n found)) ∙ here)
          (deps_before n last xs m same sources earlier) in
      elim (Bool-cases (str_eq last c)) [
        | inl t ↦ subst (λ x. elem x completed ≡ true) (same ∙ eq_of_test last c t) done_last
        | inr t ↦ earlier c (ground (arith, t, count-snoc c last xs, h))
      ]

-- In a plan that validates with no problem, where some node is not completed, the ready nodes are computed
-- and there is one.
pub ready_progress :
    (dag : PlanDag) (completed : List String) (c : String)
    → validate_dag dag ≡ []
    → elem c (ids_of dag.nodes) ≡ true
    → elem c completed ≡ false
    → (ready : List String) × (ready_node_ids dag completed ≡ ok ready) × (ready ≢ [])
unfolding ready_node_ids
ready_progress dag completed c clean member waits =
    let (_, known, order) = (validate_dag_clean dag).0 clean in
    let (ids, made) = (sorted_ids_iff dag.nodes).0.1 order in
    let sorted = sorted_ids-IsOrder dag.nodes ids made in
    let listed = ids_of_known dag.nodes c (elem-count c (ids_of dag.nodes) member) in
    (
      ready_in completed (nodes_of dag.nodes ids),
      rw (sort_returns dag ids made),
      λ idle.
          let finished =
            stuck dag.nodes completed known sorted.topological
              (λ d h. ground (arith, sorted.complete d, h)) idle c
              (ground (arith, sorted.complete c, listed)) in
          false≢true (sym waits ∙ finished),
    )
