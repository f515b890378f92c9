-- ===== src/CodingAgent/Dag/Loop.antt =====
-- The main loop of `stable_topological_sort` in model-packs/coding-agent/domain-lib/dag_validator.py.
use lumina_framework.Base.{
  ℕ, ◌+◌, ◌≤◌, ◌<◌, zero, suc, String, ◌&&◌, List, [], ◌∷◌, ◌++◌, ◌≡◌, refl, ap, ◌∙◌, ◌⊎◌, str_eq,
  if◌then◌else◌, ltb, ◌==◌, arith, eq_iff, Bool-cases, eq_of_test, inl, inr, length, length-append,
}
use lumina_framework.Base.Order.{text_leb}
use lumina_framework.Base.Sorting.{sort}
use lumina_framework.Base.Counting.{count, count-snoc, count-sort, IsWithin, length-IsWithin}
use lumina_framework.CodingAgent.Dag.{
  PlanNode, Edge, node_ids, edges_of, indegree, children, Run, visit, done, loop, roots, start,
}
use lumina_framework.CodingAgent.Dag.Spec.{
  IsTopological, pending, pending_none, pending-snoc, pending_foreign, indegree-pending,
  count-node_ids,
}
use lumina_framework.CodingAgent.Dag.Release.{joins, release-ordered, release_counts}

pub List-cases :
    {A : Type 0} (xs : List A) → (xs ≡ []) ⊎ ((x : A) × (rest : List A) × (xs ≡ x ∷ rest))
List-cases [] = inl refl
List-cases (x ∷ xs) = inr (x, xs, refl)

module _ (nodes : List PlanNode) where
  abbrev pub es : List Edge
  es = edges_of (node_ids nodes) nodes

  -- Whether an id waits in the queue, once `xs` are visited.
  abbrev pub due : List String → String → ℕ
  due xs c =
      if ltb 0 (count c (node_ids nodes)) && (count c xs == 0 && pending es xs c == 0) then 1 else 0

  pub record Inv (s : Run) : Type 0 where
    pub degrees : (c : String) → s.indeg c ≡ pending es s.ordered c
    pub queue : (c : String) → count c s.ready ≡ due s.ordered c
    pub settled : (c : String) → 0 < count c s.ordered → pending es s.ordered c ≡ 0
    pub within : IsWithin s.ordered (node_ids nodes)
    pub order : IsTopological es s.ordered

  abbrev cleared : Run → String → List String → Run
  cleared s cur rest = record s { ready = rest; ordered = s.ordered ++ cur ∷ [] }

  abbrev visits : String → String → ℕ
  visits cur c = count c (sort text_leb (children es cur))

  -- What is due at the head of the queue.
  head_due :
      (s : Run) (cur : String) (rest : List String)
      → s.ready ≡ cur ∷ rest
      → Inv s
      → (count cur s.ordered ≡ 0)
        × (pending es s.ordered cur ≡ 0)
        × (0 < count cur (node_ids nodes))
        × (count cur rest ≡ 0)
  unfolding count
  head_due s cur rest e h =
      let here : suc (count cur rest) ≡ due s.ordered cur =
        ground (arith, eq_iff cur cur, ap (count cur) e, h.queue cur) in
      ground (arith, here)

  -- The degree and the queue after a visit, for one id.
  visited :
      (s : Run) (cur : String) (rest : List String) (c : String)
      → s.ready ≡ cur ∷ rest
      → Inv s
      → ((visit es s cur rest).indeg c ≡ pending es (s.ordered ++ cur ∷ []) c)
        × (count c (visit es s cur rest).ready
            ≡ count c rest + joins (pending es s.ordered c) (count c (children es cur)))
        × (pending es (s.ordered ++ cur ∷ []) c + count c (children es cur)
            ≡ pending es s.ordered c)
  unfolding visit
  visited s cur rest c e h =
      let (fresh, _, _, _) = head_due s cur rest e h in
      let less = pending-snoc es s.ordered cur c fresh in
      let same = count-sort text_leb c (children es cur) in
      let degree = h.degrees c in
      let (falls, joins_queue) =
        release_counts (sort text_leb (children es cur)) (cleared s cur rest) c
          (omega (arith, less, same, degree)) in
      (
        omega (arith, falls, same, degree, less),
        count-sort text_leb c _
            ∙ joins_queue
            ∙ ap (λ d. count c rest + joins d (visits cur c)) degree
            ∙ ap (λ v. count c rest + joins (pending es s.ordered c) v) same,
        less,
      )

  visit-ordered :
      (s : Run) (cur : String) (rest : List String)
      → (visit es s cur rest).ordered ≡ s.ordered ++ cur ∷ []
  unfolding visit
  visit-ordered s cur rest = release-ordered (sort text_leb (children es cur)) (cleared s cur rest)

  count-rest :
      (s : Run) (cur : String) (rest : List String) (c : String)
      → s.ready ≡ cur ∷ rest
      → Inv s
      → count c rest + (if str_eq cur c then 1 else 0) ≡ due s.ordered c
  unfolding count
  count-rest s cur rest c e h = ground (arith, ap (count c) e, h.queue c)

  next_due :
      (s : Run) (cur : String) (rest : List String) (c : String)
      → s.ready ≡ cur ∷ rest
      → Inv s
      → count c rest + joins (pending es s.ordered c) (count c (children es cur))
        ≡ due (s.ordered ++ cur ∷ []) c
  next_due s cur rest c e h =
      let (fresh, none_pending, known, last) = head_due s cur rest e h in
      let (_, _, less) = visited s cur rest c e h in
      let here = count-rest s cur rest c e h in
      let longer = count-snoc c cur s.ordered in
      let foreign = pending_foreign nodes s.ordered c in
      let calm = h.settled c in
      elim (Bool-cases (str_eq cur c)) [
        | inl t ↦
            let same = eq_of_test cur c t in
            let p = ap (pending es s.ordered) same in
            let q = ap (λ x. count x rest) same in
            ground (arith, t, p, q, none_pending, last, longer, less)
        | inr t ↦ ground (arith, t, less, here, longer, foreign, calm)
      ]

  settled_next :
      (s : Run) (cur : String) (rest : List String) (c : String)
      → s.ready ≡ cur ∷ rest
      → Inv s
      → 0 < count c (s.ordered ++ cur ∷ [])
      → pending es (s.ordered ++ cur ∷ []) c ≡ 0
  settled_next s cur rest c e h some_visit =
      let (fresh, none_pending, _, _) = head_due s cur rest e h in
      let (_, _, less) = visited s cur rest c e h in
      let longer = count-snoc c cur s.ordered in
      let calm = h.settled c in
      elim (Bool-cases (str_eq cur c)) [
        | inl t ↦ ground (arith, less, none_pending, ap (pending es s.ordered) (eq_of_test cur c t))
        | inr t ↦ ground (arith, t, less, longer, calm, some_visit)
      ]

  within_next :
      (s : Run) (cur : String) (rest : List String) (c : String)
      → s.ready ≡ cur ∷ rest
      → Inv s
      → count c (s.ordered ++ cur ∷ []) ≤ count c (node_ids nodes)
  within_next s cur rest c e h =
      let (fresh, _, known, _) = head_due s cur rest e h in
      let longer = count-snoc c cur s.ordered in
      let inside = h.within c in
      elim (Bool-cases (str_eq cur c)) [
        | inl t ↦
            let same = eq_of_test cur c t in
            ground (
              arith,
              t,
              longer,
              fresh,
              known,
              ap (λ x. count x s.ordered) same,
              ap (λ x. count x (node_ids nodes)) same,
            )
        | inr t ↦ ground (arith, t, longer, inside)
      ]

  pub Inv-visit :
      (s : Run) (cur : String) (rest : List String)
      → s.ready ≡ cur ∷ rest
      → Inv s
      → Inv (visit es s cur rest)
  Inv-visit s cur rest e h =
      let (fresh, none_pending, known, last) = head_due s cur rest e h in
      let ordered = visit-ordered s cur rest in
      let on = λ (c : String). visited s cur rest c e h in
      let longer = λ (c : String). count-snoc c cur s.ordered in
      record {
        degrees = λ c. rw ordered (on c).0;
        queue = λ c. rw ordered ((on c).1 ∙ next_due s cur rest c e h);
        settled = λ c. rw ordered (settled_next s cur rest c e h);
        within = λ c. rw ordered (within_next s cur rest c e h);
        order = rw ordered (
            IsTopological.snoc cur h.order fresh
              (λ dep m. pending_none es s.ordered cur dep none_pending m));
      }

  count-roots :
      (c : String) (ids : List String)
      → count c (roots es ids) ≡ (if indegree es c == 0 then count c ids else 0)
  unfolding count roots
  count-roots c [] = ground arith
  count-roots c (x ∷ xs) = elim (Bool-cases (str_eq x c)) [
    | inl t ↦ ground (arith, t, count-roots c xs, ap (indegree es) (eq_of_test x c t))
    | inr t ↦ ground (arith, t, count-roots c xs)
  ]

  Inv-start : Inv (start es (node_ids nodes))
  unfolding start count
  Inv-start = record {
    degrees = λ c. indegree-pending es c;
    queue = λ c. ground (
      arith,
      count-sort text_leb c (roots es (node_ids nodes)),
      count-roots c (node_ids nodes),
      indegree-pending es c,
      count-node_ids c nodes,
    );
    settled = λ c h. absurd (omega arith);
    within = λ c. omega arith;
    order = IsTopological.nil;
  }

  loop_step :
      (fuel : ℕ) (s : Run) (cur : String) (rest : List String)
      → s.ready ≡ cur ∷ rest
      → loop es (suc fuel) s ≡ loop es fuel (visit es s cur rest)
  unfolding loop
  loop_step fuel s cur rest e =
      ap (λ r. elim r [ [] ↦ done s | x ∷ xs ↦ loop es fuel (visit es s x xs) ]) e

  -- Each round visits one more id, so that a round for each id is enough.
  loop_ends :
      (fuel : ℕ) (s : Run)
      → Inv s
      → length (node_ids nodes) ≤ length s.ordered + fuel
      → (t : Run) × (loop es fuel s ≡ done t) × Inv t × (t.ready ≡ [])
  unfolding loop
  loop_ends zero s h n = elim (List-cases s.ready) [
    | inl e ↦ (s, rw e, h, e)
    | inr (cur, rest, e) ↦
        let next = length-IsWithin _ _ (Inv-visit s cur rest e h).within in
        absurd (
          omega
            (arith, next, ap length (visit-ordered s cur rest), length-append s.ordered (cur ∷ [])))
  ]
  loop_ends (suc fuel) s h n = elim (List-cases s.ready) [
    | inl e ↦ (s, rw e, h, e)
    | inr (cur, rest, e) ↦
        let longer = ap length (visit-ordered s cur rest) in
        let (t, ends, inv, empty) =
          loop_ends fuel (visit es s cur rest) (Inv-visit s cur rest e h)
            (omega (arith, longer, length-append s.ordered (cur ∷ []))) in
        (t, loop_step fuel s cur rest e ∙ ends, inv, empty)
  ]

  pub loop-done :
      (t : Run) × (loop es (length (node_ids nodes)) (start es (node_ids nodes)) ≡ done t)
      × Inv t
      × (t.ready ≡ [])
  loop-done =
      loop_ends (length (node_ids nodes)) (start es (node_ids nodes)) Inv-start (omega arith)
