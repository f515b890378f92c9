-- ===== src/Daemon/Scheduler/Flat.antt =====
-- The nested loops of src/lumina/daemon/scheduler.py over proposals are loops over all of them in order.
use mathlib.Core.List.{Memᴰ}
use mathlib.Core.Bool.{false≢true}
use lumina_framework.Base.{
  suc, length, String, Bool, true, false, Option, List, [], ◌∷◌, ◌++◌, ◌≡◌, ◌↔◌, ◌⊎◌, refl, sym, ap,
  ◌∙◌, str_eq, if◌then◌else◌, arith, eq_iff, Bool-cases, inl, inr, eq_of_test,
}
use lumina_framework.Base.Select.{filter}
use lumina_framework.Daemon.Report.{Proposal, TaskResult, DaemonReport}
use lumina_framework.Daemon.Scheduler.Review.{
  is_pending, pending_in_results, pending_in_runs, resolve_in, resolve_in_results, resolve_in_runs,
}

module _ {A : Type 0} where
  Memᴰ-append_iff : {a : A} (xs ys : List A) → Memᴰ a (xs ++ ys) ↔ (Memᴰ a xs ⊎ Memᴰ a ys)
  Memᴰ-append_iff [] ys = (λ m. inr m, λ e. elim e [ inl m ↦ elim m [ ] | inr m ↦ m ])
  Memᴰ-append_iff (x ∷ xs) ys = let (to, from) = Memᴰ-append_iff xs ys in (split to, join from)
    where
      split :
          {a : A}
          → (Memᴰ a (xs ++ ys) → Memᴰ a xs ⊎ Memᴰ a ys)
          → Memᴰ a (x ∷ xs ++ ys)
          → Memᴰ a (x ∷ xs) ⊎ Memᴰ a ys
      split to (Memᴰ.head e) = inl (Memᴰ.head e)
      split to (Memᴰ.tail m) = elim (to m) [ inl k ↦ inl (Memᴰ.tail k) | inr k ↦ inr k ]

      join :
          {a : A}
          → (Memᴰ a xs ⊎ Memᴰ a ys → Memᴰ a (xs ++ ys))
          → Memᴰ a (x ∷ xs) ⊎ Memᴰ a ys
          → Memᴰ a (x ∷ xs ++ ys)
      join from (inl (Memᴰ.head e)) = Memᴰ.head e
      join from (inl (Memᴰ.tail m)) = Memᴰ.tail (from (inl m))
      join from (inr m) = Memᴰ.tail (from (inr m))

  filter-append :
      (test : A → Bool) (xs ys : List A) → filter test (xs ++ ys) ≡ filter test xs ++ filter test ys
  unfolding filter
  filter-append test [] ys = refl
  filter-append test (x ∷ xs) ys = ground (arith, filter-append test xs ys)

module _ {J : Type 0} where
  -- All proposals of the results and of the runs, in order.
  unfoldable pub proposals_in : List (TaskResult J) → List (Proposal J)
  proposals_in [] = []
  proposals_in (r ∷ rs) = r.proposals ++ proposals_in rs

  unfoldable pub proposals_of : List (DaemonReport J) → List (Proposal J)
  unfolding proposals_in
  proposals_of [] = []
  proposals_of (r ∷ rs) = proposals_in r.task_results ++ proposals_of rs

  pending_in_results-flat :
      (d : Option String) (rs : List (TaskResult J))
      → pending_in_results d rs ≡ filter (is_pending d) (proposals_in rs)
  unfolding pending_in_results proposals_in filter
  pending_in_results-flat d [] = refl
  pending_in_results-flat d (r ∷ rs) =
      ap (λ l. filter (is_pending d) r.proposals ++ l) (pending_in_results-flat d rs)
      ∙ sym (filter-append (is_pending d) r.proposals (proposals_in rs))

  pub pending_in_runs-flat :
      (d : Option String) (rs : List (DaemonReport J))
      → pending_in_runs d rs ≡ filter (is_pending d) (proposals_of rs)
  unfolding pending_in_runs proposals_of filter
  pending_in_runs-flat d [] = refl
  pending_in_runs-flat d (r ∷ rs) =
      ap (λ l. pending_in_results d r.task_results ++ l) (pending_in_runs-flat d rs)
      ∙ ap (λ l. l ++ filter (is_pending d) (proposals_of rs))
          (pending_in_results-flat d r.task_results)
      ∙ sym (filter-append (is_pending d) (proposals_in r.task_results) (proposals_of rs))

  module _ (id action : String) (d : Option String) where
    resolve_in-append :
        (xs ys : List (Proposal J))
        → resolve_in id action d (xs ++ ys) ≡ (
            if (resolve_in id action d xs).1
            then ((resolve_in id action d xs).0 ++ ys, true)
            else (xs ++ (resolve_in id action d ys).0, (resolve_in id action d ys).1))
    unfolding resolve_in
    resolve_in-append [] ys = refl
    resolve_in-append (x ∷ xs) ys = elim (Bool-cases (str_eq x.proposal_id id)) [
      | inl t ↦ rw t
      | inr t ↦ elim (Bool-cases (resolve_in id action d xs).1) [
        | inl u ↦ rw (t, resolve_in-append xs ys, u)
        | inr u ↦ rw (t, resolve_in-append xs ys, u)
      ]
    ]

    resolve_in_results-flat :
        (rs : List (TaskResult J))
        → (
          proposals_in (resolve_in_results id action d rs).0,
          (resolve_in_results id action d rs).1,
        )
          ≡ resolve_in id action d (proposals_in rs)
    unfolding resolve_in_results proposals_in resolve_in
    resolve_in_results-flat [] = refl
    resolve_in_results-flat (r ∷ rs) = elim (Bool-cases (resolve_in id action d r.proposals).1) [
      | inl t ↦ rw (resolve_in-append r.proposals (proposals_in rs), t)
      | inr t ↦
          rw (resolve_in-append r.proposals (proposals_in rs), t)
            (ap (λ x. (r.proposals ++ x.0, x.1)) (resolve_in_results-flat rs))
    ]

    pub resolve_in_runs-flat :
        (rs : List (DaemonReport J))
        → (proposals_of (resolve_in_runs id action d rs).0, (resolve_in_runs id action d rs).1)
          ≡ resolve_in id action d (proposals_of rs)
    unfolding resolve_in_runs proposals_of resolve_in
    resolve_in_runs-flat [] = refl
    resolve_in_runs-flat (r ∷ rs) =
        let here = resolve_in_results-flat r.task_results in
        elim (Bool-cases (resolve_in_results id action d r.task_results).1) [
          | inl t ↦
              rw (resolve_in-append (proposals_in r.task_results) (proposals_of rs), sym here, t)
          | inr t ↦
              rw (resolve_in-append (proposals_in r.task_results) (proposals_of rs), sym here, t)
                (ap (λ x. (proposals_in r.task_results ++ x.0, x.1)) (resolve_in_runs-flat rs))
        ]

    -- A proposal is found exactly where one has the id.
    pub resolve_in_iff :
        (ps : List (Proposal J))
        → ((resolve_in id action d ps).1 ≡ true)
          ↔ ((p : Proposal J) × Memᴰ p ps × (p.proposal_id ≡ id))
    unfolding resolve_in
    resolve_in_iff [] = (λ h. cc, λ (p, m, e). elim m [ ])
    resolve_in_iff (p ∷ ps) =
        let (to, from) = resolve_in_iff ps in
        elim (Bool-cases (str_eq p.proposal_id id)) [
          | inl t ↦ (λ h. (p, Memᴰ.head refl, eq_of_test p.proposal_id id t), λ h. rw t)
          | inr t ↦ (
            λ h. let (q, m, e) = to (rw t at h) in (q, Memᴰ.tail m, e),
            λ (q, m, e). rw t (from (other q m e t)),
          )
        ]
      where
        other :
            (q : Proposal J)
            → Memᴰ q (p ∷ ps)
            → q.proposal_id ≡ id
            → str_eq p.proposal_id id ≡ false
            → (p : Proposal J) × Memᴰ p ps × (p.proposal_id ≡ id)
        other q (Memᴰ.head e) same t = absurd (
            false≢true (
              sym t
              ∙ (eq_iff p.proposal_id id).1
                  (ap (λ (x : Proposal J). x.proposal_id) (sym e) ∙ same)))
        other q (Memᴰ.tail m) same t = (q, m, same)

    resolve_in_results_none :
        (rs : List (TaskResult J))
        → (resolve_in_results id action d rs).1 ≡ false
        → (resolve_in_results id action d rs).0 ≡ rs
    unfolding resolve_in_results
    resolve_in_results_none [] h = refl
    resolve_in_results_none (r ∷ rs) h = elim (Bool-cases (resolve_in id action d r.proposals).1) [
      | inl t ↦ absurd (false≢true (sym (rw t at h)))
      | inr t ↦ rw t (ap (λ l. r ∷ l) (resolve_in_results_none rs (rw t at h)))
    ]

    pub resolve_in_runs_none :
        (rs : List (DaemonReport J))
        → (resolve_in_runs id action d rs).1 ≡ false
        → (resolve_in_runs id action d rs).0 ≡ rs
    unfolding resolve_in_runs
    resolve_in_runs_none [] h = refl
    resolve_in_runs_none (r ∷ rs) h =
        elim (Bool-cases (resolve_in_results id action d r.task_results).1) [
          | inl t ↦ absurd (false≢true (sym (rw t at h)))
          | inr t ↦ rw t (ap (λ l. r ∷ l) (resolve_in_runs_none rs (rw t at h)))
        ]

    pub length-resolve_in_runs :
        (rs : List (DaemonReport J)) → length (resolve_in_runs id action d rs).0 ≡ length rs
    unfolding resolve_in_runs
    length-resolve_in_runs [] = refl
    length-resolve_in_runs (r ∷ rs) =
        elim (Bool-cases (resolve_in_results id action d r.task_results).1) [
          | inl t ↦ rw t
          | inr t ↦ rw t (ap suc (length-resolve_in_runs rs))
        ]
