-- ===== src/CodingAgent/Dag/Spec.antt =====
-- What a topological order is, apart from the algorithm of model-packs/coding-agent/domain-lib/dag_validator.py.
use mathlib.Core.List.{Memᴰ}
use lumina_framework.Base.{
  ℕ, ◌+◌, ◌≤◌, ◌<◌, suc, String, true, List, [], ◌∷◌, ◌++◌, ◌⊎◌, ◌≡◌, refl, sym, ap, ◌∙◌, str_eq,
  if◌then◌else◌, ◌==◌, arith, eq_iff, Bool-cases, eq_of_test, inl, inr, elem,
}
use lumina_framework.Base.Counting.{count, count-snoc}
use lumina_framework.CodingAgent.Dag.{
  PlanNode, Edge, without, node_ids, edges_to, edges_of, indegree, children,
}

-- An order in which each id stands once, after the sources of all its edges.
pub data IsTopological (es : List Edge) : List String → Type 0 where
  nil : IsTopological es []
  snoc :
      {xs : List String} (c : String)
      → IsTopological es xs
      → count c xs ≡ 0
      → ((dep : String) → Memᴰ (dep, c) es → 0 < count dep xs)
      → IsTopological es (xs ++ c ∷ [])

-- An order of all the nodes.
pub record IsOrder (nodes : List PlanNode) (ids : List String) : Type 0 where
  pub topological : IsTopological (edges_of (node_ids nodes) nodes) ids
  pub complete : (c : String) → count c ids ≡ count c (node_ids nodes)

-- The edges to `c` from ids that are not among `xs`.
unfoldable pub pending : List Edge → List String → String → ℕ
unfolding count
pending [] xs c = 0
pending ((dep, child) ∷ es) xs c =
    let rest = pending es xs c in
    if str_eq child c then (if count dep xs == 0 then suc rest else rest) else rest

pub indegree-pending : (es : List Edge) (c : String) → indegree es c ≡ pending es [] c
unfolding indegree pending count
indegree-pending [] c = refl
indegree-pending ((dep, child) ∷ es) c = ground (arith, indegree-pending es c)

pub pending_none :
    (es : List Edge) (xs : List String) (c dep : String)
    → pending es xs c ≡ 0
    → Memᴰ (dep, c) es
    → 0 < count dep xs
unfolding pending
pending_none [] xs c dep h m = elim m [ ]
pending_none ((d, child) ∷ es) xs c dep h (Memᴰ.head e) =
    ground (arith, eq_iff child c, ap (λ p. p.0) e, ap (λ p. p.1) e)
pending_none ((d, child) ∷ es) xs c dep h (Memᴰ.tail m) =
    ground (arith, pending_none es xs c dep, m)

pub pending_zero :
    (es : List Edge) (xs : List String) (c : String)
    → ((dep : String) → Memᴰ (dep, c) es → 0 < count dep xs)
    → pending es xs c ≡ 0
unfolding pending
pending_zero [] xs c h = refl
pending_zero ((d, child) ∷ es) xs c h = elim (Bool-cases (str_eq child c)) [
  | inl t ↦
      let here = h d (Memᴰ.head (ap (λ x. (d, x)) (sym (eq_of_test child c t)))) in
      ground (arith, pending_zero es xs c (λ dep m. h dep (Memᴰ.tail m)))
  | inr t ↦ rw t (pending_zero es xs c (λ dep m. h dep (Memᴰ.tail m)))
]

-- After one more id, the edges from it are no longer pending.
pub pending-snoc :
    (es : List Edge) (xs : List String) (cur c : String)
    → count cur xs ≡ 0
    → pending es (xs ++ cur ∷ []) c + count c (children es cur) ≡ pending es xs c
unfolding pending children count
pending-snoc [] xs cur c h = refl
pending-snoc ((dep, child) ∷ es) xs cur c h = ground (
  arith,
  eq_iff dep cur,
  eq_iff cur dep,
  eq_iff child c,
  count-snoc dep cur xs,
  pending-snoc es xs cur c h,
)

pub count-without :
    (c x : String) (xs : List String)
    → count c (without x xs) ≡ (if str_eq x c then 0 else count c xs)
unfolding count without
count-without c x [] = ground arith
count-without c x (y ∷ ys) =
    ground (arith, eq_iff y x, eq_iff x c, eq_iff y c, count-without c x ys)

-- Each id of a node is a key once.
pub count-node_ids : (c : String) (ns : List PlanNode) → count c (node_ids ns) ≤ 1
unfolding count node_ids
count-node_ids c [] = omega arith
count-node_ids c (n ∷ ns) =
    ground (arith, count-without c n.node_id (node_ids ns), count-node_ids c ns)

Memᴰ-append : {A : Type 0} {a : A} (xs ys : List A) → Memᴰ a (xs ++ ys) → Memᴰ a xs ⊎ Memᴰ a ys
Memᴰ-append [] ys m = inr m
Memᴰ-append (x ∷ xs) ys (Memᴰ.head e) = inl (Memᴰ.head e)
Memᴰ-append (x ∷ xs) ys (Memᴰ.tail m) = elim (Memᴰ-append xs ys m) [
  | inl n ↦ inl (Memᴰ.tail n)
  | inr n ↦ inr n
]

kept_edge :
    (ids : List String) {child dep d c : String} {deps : List String} {es : List Edge}
    → elem dep ids ≡ true
    → (Memᴰ (d, c) es → (c ≡ child) × Memᴰ d deps × (elem d ids ≡ true))
    → Memᴰ (d, c) ((dep, child) ∷ es)
    → (c ≡ child) × Memᴰ d (dep ∷ deps) × (elem d ids ≡ true)
kept_edge ids t rest (Memᴰ.head e) =
    let same = ap (λ p. p.0) e in (ap (λ p. p.1) e, Memᴰ.head same, ap (λ x. elem x ids) same ∙ t)
kept_edge ids t rest (Memᴰ.tail m) = let (a, b, e) = rest m in (a, Memᴰ.tail b, e)

edges_to-Memᴰ :
    (ids : List String) (child : String) (deps : List String) (d c : String)
    → Memᴰ (d, c) (edges_to ids child deps)
    → (c ≡ child) × Memᴰ d deps × (elem d ids ≡ true)
unfolding edges_to
edges_to-Memᴰ ids child [] d c m = elim m [ ]
edges_to-Memᴰ ids child (dep ∷ deps) d c m = elim (Bool-cases (elem dep ids)) [
  | inl t ↦ kept_edge ids t (edges_to-Memᴰ ids child deps d c) (rw t at m)
  | inr t ↦ let (a, b, e) = edges_to-Memᴰ ids child deps d c (rw t at m) in (a, Memᴰ.tail b, e)
]

edges_of-Memᴰ :
    (ids : List String) (ns : List PlanNode) (d c : String)
    → Memᴰ (d, c) (edges_of ids ns)
    → 0 < count c (node_ids ns)
unfolding edges_of node_ids count
edges_of-Memᴰ ids [] d c m = elim m [ ]
edges_of-Memᴰ ids (n ∷ ns) d c m =
    elim (Memᴰ-append (edges_to ids n.node_id n.depends_on) (edges_of ids ns) m) [
      | inl k ↦
          let (e, _, _) = edges_to-Memᴰ ids n.node_id n.depends_on d c k in
          ground (arith, eq_iff n.node_id c)
      | inr k ↦ ground (arith, count-without c n.node_id (node_ids ns), edges_of-Memᴰ ids ns d c k)
    ]

-- An id that is no node has no edges to it.
pub pending_foreign :
    (nodes : List PlanNode) (xs : List String) (c : String)
    → count c (node_ids nodes) ≡ 0
    → pending (edges_of (node_ids nodes) nodes) xs c ≡ 0
pending_foreign nodes xs c h =
    pending_zero (edges_of (node_ids nodes) nodes) xs c
      (λ dep m. absurd (omega (arith, edges_of-Memᴰ (node_ids nodes) nodes dep c m)))
