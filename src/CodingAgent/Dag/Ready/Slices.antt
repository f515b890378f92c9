-- ===== src/CodingAgent/Dag/Ready/Slices.antt =====
-- Which slices model-packs/coding-agent/domain-lib/tier3_ready_scheduler.py lets run.
use mathlib.Core.Path.{subst}
use mathlib.Core.List.{Memᴰ}
use lumina_framework.Base.{
  String, Bool, true, false, ◌||◌, Option, none, some, List, [], ◌∷◌, ok, ◌⊎◌, ◌≡◌, refl, sym, ap,
  ◌∙◌, str_eq, Bool-cases, Option-cases, inl, inr, elem, All, eq_of_test, Ensures, Ensures-bind,
  Ensures-ok,
}
use lumina_framework.Base.Select.{some_injective}
use lumina_framework.CodingAgent.Dag.{
  PlanNode, PlanDag, node_of, nodes_of, add_node, sorted_ids, stable_topological_sort,
}
use lumina_framework.CodingAgent.Dag.Ready.{
  TaskSlice, ExecutionContext, all_in, ready_in, ready_node_ids, slice_of, slices_in, add_slice,
  next_ready_slices,
}
use lumina_framework.CodingAgent.Dag.Ready.Progress.{node_of-some, some_ne_none}

-- Some node of the id has all its dependencies completed.
abbrev pub IsUnblocked : List PlanNode → List String → String → Type 0
IsUnblocked nodes completed id =
    (n : PlanNode) × Memᴰ n nodes × (n.node_id ≡ id) × (all_in n.depends_on completed ≡ true)

IsUnblocked-tail :
    (completed : List String) (n : PlanNode) (ns : List PlanNode) (id : String)
    → IsUnblocked ns completed id
    → IsUnblocked (n ∷ ns) completed id
IsUnblocked-tail completed n ns id (m, mem, e, u) = (m, Memᴰ.tail mem, e, u)

pub ready_in-IsUnblocked :
    (completed : List String) (ns : List PlanNode) (id : String)
    → elem id (ready_in completed ns) ≡ true
    → IsUnblocked ns completed id
unfolding ready_in elem
ready_in-IsUnblocked completed [] id h = cc
ready_in-IsUnblocked completed (n ∷ ns) id h =
    let rest = λ (k : elem id (ready_in completed ns) ≡ true).
      IsUnblocked-tail completed n ns id (ready_in-IsUnblocked completed ns id k) in
    elim (Bool-cases (elem n.node_id completed)) [
      | inl t ↦ rest (rw t at h)
      | inr t ↦ elim (Bool-cases (all_in n.depends_on completed)) [
        | inr u ↦ rest (rw (t, u) at h)
        | inl u ↦ elim (Bool-cases (str_eq n.node_id id)) [
          | inl v ↦ (n, Memᴰ.head refl, eq_of_test n.node_id id v, u)
          | inr v ↦ rest (rw (t, u, v) at h)
        ]
      ]
    ]

slice_of-some :
    (ss : List TaskSlice) (id : String) {s : TaskSlice}
    → slice_of ss id ≡ some s
    → Memᴰ s ss × (s.node_id ≡ id)
unfolding slice_of
slice_of-some [] id h = cc
slice_of-some (m ∷ ss) id h = elim (Option-cases (slice_of ss id)) [
  | inr (k, e) ↦ let (a, b) = slice_of-some ss id (e ∙ (rw e at h)) in (Memᴰ.tail a, b)
  | inl e ↦ elim (Bool-cases (str_eq m.node_id id)) [
    | inl t ↦
        let same = some_injective (rw (e, t) at h) in
        (
          Memᴰ.head (sym same),
          ap (λ (x : TaskSlice). x.node_id) (sym same) ∙ eq_of_test m.node_id id t,
        )
    | inr t ↦ absurd (some_ne_none (sym (rw (e, t) at h)))
  ]
]

add_node-Memᴰ :
    (o : Option PlanNode) (ns : List PlanNode) (n : PlanNode)
    → Memᴰ n (add_node o ns)
    → (o ≡ some n) ⊎ Memᴰ n ns
add_node-Memᴰ none ns n m = inr m
add_node-Memᴰ (some k) ns n (Memᴰ.head same) = inl (ap some (sym same))
add_node-Memᴰ (some k) ns n (Memᴰ.tail m) = inr m

nodes_of-Memᴰ :
    (nodes : List PlanNode) (ids : List String) (n : PlanNode)
    → Memᴰ n (nodes_of nodes ids)
    → Memᴰ n nodes
unfolding nodes_of
nodes_of-Memᴰ nodes [] n m = elim m [ ]
nodes_of-Memᴰ nodes (id ∷ ids) n m =
    elim (add_node-Memᴰ (node_of nodes id) (nodes_of nodes ids) n m) [
      | inl e ↦ (node_of-some nodes id e).0
      | inr k ↦ nodes_of-Memᴰ nodes ids n k
    ]

-- A slice that may run now.
pub record IsRunnable (dag : PlanDag) (slices : List TaskSlice) (context : ExecutionContext)
    (s : TaskSlice) : Type 0 where
  pub listed : Memᴰ s slices
  pub waiting : elem s.node_id context.completed_node_ids ≡ false
  pub not_failed : elem s.node_id context.failed_node_ids ≡ false
  pub unblocked : IsUnblocked dag.nodes context.completed_node_ids s.node_id

IsRunnable-add :
    (dag : PlanDag) (slices : List TaskSlice) (context : ExecutionContext) (o : Option TaskSlice)
    (ss : List TaskSlice)
    → ((s : TaskSlice) → o ≡ some s → IsRunnable dag slices context s)
    → All (IsRunnable dag slices context) ss
    → All (IsRunnable dag slices context) (add_slice o ss)
IsRunnable-add dag slices context none ss here rest = rest
IsRunnable-add dag slices context (some s) ss here rest = (here s refl, rest)

or_false : (a b : Bool) → (a || b) ≡ false → (a ≡ false) × (b ≡ false)
or_false true b h = cc
or_false false b h = (refl, h)

-- What `ready` holds is unblocked in the plan.
abbrev IsSound : PlanDag → ExecutionContext → List String → Type 0
IsSound dag context ready =
    (id : String) → elem id ready ≡ true → IsUnblocked dag.nodes context.completed_node_ids id

-- What is known of the node that the loop takes.
waiting_slice :
    (dag : PlanDag) (slices : List TaskSlice) (context : ExecutionContext) (ready : List String)
    (id : String)
    → IsSound dag context ready
    → (elem id context.completed_node_ids || elem id context.failed_node_ids) ≡ false
    → elem id ready ≡ true
    → (s : TaskSlice) → slice_of slices id ≡ some s
    → IsRunnable dag slices context s
waiting_slice dag slices context ready id sound open_now u s found =
    let (mem, same) = slice_of-some slices id found in
    let (a, b) = or_false _ _ open_now in
    record {
      listed = mem;
      waiting = ap (λ x. elem x context.completed_node_ids) same ∙ a;
      not_failed = ap (λ x. elem x context.failed_node_ids) same ∙ b;
      unblocked = subst (IsUnblocked dag.nodes context.completed_node_ids) (sym same) (sound id u);
    }

slices_in-IsRunnable :
    (dag : PlanDag) (slices : List TaskSlice) (context : ExecutionContext) (ready : List String)
    (ns : List PlanNode)
    → IsSound dag context ready
    → All (IsRunnable dag slices context) (slices_in slices context ready ns)
unfolding slices_in
slices_in-IsRunnable dag slices context ready [] sound = tt
slices_in-IsRunnable dag slices context ready (n ∷ ns) sound =
    let rest = slices_in-IsRunnable dag slices context ready ns sound in
    elim (Bool-cases
      (elem n.node_id context.completed_node_ids || elem n.node_id context.failed_node_ids)) [
        | inl t ↦ rw t rest
        | inr t ↦ elim (Bool-cases (elem n.node_id ready)) [
          | inr u ↦ rw (t, u) rest
          | inl u ↦
              rw (t, u)
                (IsRunnable-add dag slices context (slice_of slices n.node_id)
                  (slices_in slices context ready ns)
                  (waiting_slice dag slices context ready n.node_id sound t u) rest)
        ]
      ]

abbrev IsPart : PlanDag → List PlanNode → Type 0
IsPart dag ordered = (n : PlanNode) → Memᴰ n ordered → Memᴰ n dag.nodes

stable_topological_sort-IsPart :
    (dag : PlanDag) → Ensures (IsPart dag) (stable_topological_sort dag)
unfolding stable_topological_sort
stable_topological_sort-IsPart dag =
    Ensures-bind (sorted_ids dag.nodes) _
      (λ ids e. Ensures-ok {P = IsPart dag} (nodes_of dag.nodes ids) (nodes_of-Memᴰ dag.nodes ids))

ready_node_ids-IsSound :
    (dag : PlanDag) (context : ExecutionContext)
    → Ensures (IsSound dag context) (ready_node_ids dag context.completed_node_ids)
unfolding ready_node_ids
ready_node_ids-IsSound dag context = Ensures-bind (stable_topological_sort dag) _ (λ ordered e.
    Ensures-ok {P = IsSound dag context} (ready_in context.completed_node_ids ordered) (λ id h.
      let (n, m, same, free) = ready_in-IsUnblocked context.completed_node_ids ordered id h in
      (n, (stable_topological_sort-IsPart dag).returned ordered e n m, same, free)))

-- Each slice that may run next is one of the given slices, of a node that is neither completed nor failed, and
-- some node of the plan with that id has all its dependencies completed.
pub next_ready_slices-IsRunnable :
    (dag : PlanDag) (slices : List TaskSlice) (context : ExecutionContext) (ss : List TaskSlice)
    → next_ready_slices dag slices context ≡ ok ss
    → All (IsRunnable dag slices context) ss
unfolding next_ready_slices
next_ready_slices-IsRunnable dag slices context ss h =
    let runs : Ensures (All (IsRunnable dag slices context))
        (next_ready_slices dag slices context) =
      Ensures-bind (ready_node_ids dag context.completed_node_ids) _ (λ ready e.
        Ensures-bind (stable_topological_sort dag) _ (λ ordered f.
          Ensures-ok {P = All (IsRunnable dag slices context)}
            (slices_in slices context ready ordered)
            (slices_in-IsRunnable dag slices context ready ordered
              ((ready_node_ids-IsSound dag context).returned ready e)))) in
    runs.returned ss h
