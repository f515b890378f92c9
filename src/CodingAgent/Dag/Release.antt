-- ===== src/CodingAgent/Dag/Release.antt =====
-- The loop over the children of a visited node, in model-packs/coding-agent/domain-lib/dag_validator.py.
use lumina_framework.Base.{
  ℕ, ◌+◌, ◌-◌, ◌≤◌, String, Bool, true, false, ◌&&◌, List, [], ◌∷◌, ◌++◌, ◌≡◌, refl, str_eq,
  if◌then◌else◌, ltb, ◌==◌, arith, Bool-cases, ap, eq_of_test, inl, inr,
}
use lumina_framework.Base.Counting.{count, count-snoc}
use lumina_framework.CodingAgent.Dag.{Run, set, release}

-- A child whose degree the loop uses up joins the queue, once.
abbrev pub joins : ℕ → ℕ → ℕ
joins degree visits = if ltb 0 visits && degree == visits then 1 else 0

pub release-ordered : (cs : List String) (s : Run) → (release cs s).ordered ≡ s.ordered
unfolding release
release-ordered [] s = refl
release-ordered (k ∷ cs) s = release-ordered cs (record s {
  indeg = set s.indeg k (s.indeg k - 1);
  ready = if s.indeg k == 1 then s.ready ++ k ∷ [] else s.ready;
})

count-queued :
    (b : Bool) (c k : String) (xs : List String)
    → count c (if b then xs ++ k ∷ [] else xs) ≡ count c xs + (if b && str_eq k c then 1 else 0)
count-queued true c k xs = count-snoc c k xs
count-queued false c k xs = omega arith

pub release_counts :
    (cs : List String) (s : Run) (c : String)
    → count c cs ≤ s.indeg c
    → ((release cs s).indeg c + count c cs ≡ s.indeg c)
      × (count c (release cs s).ready ≡ count c s.ready + joins (s.indeg c) (count c cs))
unfolding release count
release_counts [] s c h = ground arith
release_counts (k ∷ cs) s c h =
    let t : Run = record s {
      indeg = set s.indeg k (s.indeg k - 1);
      ready = if s.indeg k == 1 then s.ready ++ k ∷ [] else s.ready;
    } in
    let queued = count-queued (s.indeg k == 1) c k s.ready in
    elim (Bool-cases (str_eq k c)) [
      | inl same ↦
          let e = ap s.indeg (eq_of_test k c same) in
          ground (arith, release_counts cs t c (ground (arith, same, e)), queued, same, e)
      | inr other ↦ ground (arith, release_counts cs t c (ground (arith, other)), queued, other)
    ]
