-- ===== src/Daemon/Scheduler/Prefix.antt =====
-- Which tasks a run of src/lumina/daemon/scheduler.py gets to before its deadline.
use mathlib.Core.Path.{subst}
use lumina_framework.Base.{
  ltb→le, ltb→lt, ℕ, zero, suc, ◌+◌, ◌≤◌, ◌<◌, String, Option, none, some, List, [], ◌∷◌, ◌++◌, ok,
  ◌≡◌, ◌≢◌, refl, sym, ap, ◌∙◌, if◌then◌else◌, ltb, leb, arith, Bool-cases, Result-cases, inl, inr,
  length, take, ok-injective, ok-ne-err,
}
use lumina_framework.Daemon.Report.{TaskResult}
use lumina_framework.Daemon.Scheduler.{Domain, Env, keys}
use lumina_framework.Daemon.Scheduler.Loaded.{AreLoaded, load_domains-AreLoaded}
use lumina_framework.Daemon.Scheduler.Results.{
  OfTasks, OfCrossTasks, each, each-OfTasks, each-OfCrossTasks,
}
use lumina_framework.Daemon.Scheduler.Batch.{
  until, per_domain, across, cross_results, all_results, load_domains, batch,
}

-- A loop got to the first `count` names: it was in time for each of them and too late for the next, if any.
-- Reading `i` was the one before the first name.
pub record IsPrefix (clock : ℕ → ℕ) (deadline i : ℕ) (names : List String) (count : ℕ)
    : Type 0 where
  pub within : count ≤ length names
  pub in_time : (j : ℕ) → j < count → clock (i + j) ≤ deadline
  pub too_late : count < length names → deadline < clock (i + count)

IsPrefix-next :
    (clock : ℕ → ℕ) (deadline i : ℕ) (name : String) (names : List String) (count : ℕ)
    → clock i ≤ deadline
    → IsPrefix clock deadline (suc i) names count
    → IsPrefix clock deadline i (name ∷ names) (suc count)
IsPrefix-next clock deadline i name names count now p = record {
  within = omega (arith, p.within);
  in_time = at;
  too_late = λ h.
      subst (λ x. deadline < clock x) {x = suc i + count} (omega arith)
        (p.too_late (omega (arith, h)));
}
  where
    at : (j : ℕ) → j < suc count → clock (i + j) ≤ deadline
    at zero h = subst (λ x. clock x ≤ deadline) {x = i} (omega arith) now
    at (suc j) h =
        subst (λ x. clock x ≤ deadline) {x = suc i + j} (omega arith)
          (p.in_time j (omega (arith, h)))

nothing_left : (clock : ℕ → ℕ) (deadline i : ℕ) → IsPrefix clock deadline i [] 0
nothing_left clock deadline i = record {
  within = omega arith;
  in_time = λ j h. absurd (omega (arith, h));
  too_late = λ h. absurd (omega (arith, h));
}

none_ne_chosen : {l : List String} → ◌≢◌ {A = Option (List String)} (some l) none
none_ne_chosen e = cc

-- The reading after a loop that was not cut off.
next_reading :
    {i count n : ℕ}
    → i ≡ (if ltb count n then suc (1 + count) else 1 + count)
    → count ≡ n
    → i ≡ suc count
next_reading e h = ground (arith, e, h)

stopped :
    (clock : ℕ → ℕ) (deadline i : ℕ) (name : String) (names : List String)
    → deadline < clock i
    → IsPrefix clock deadline i (name ∷ names) 0
stopped clock deadline i name names late = record {
  within = omega arith;
  in_time = λ j h. absurd (omega (arith, h));
  too_late = λ h. subst (λ x. deadline < clock x) {x = i} (omega arith) late;
}

module _ {J : Type 0} where
  until-IsPrefix :
      (clock : ℕ → ℕ) (deadline : ℕ) (run : String → List (TaskResult J)) (i : ℕ)
      (names : List String)
      → (count : ℕ) × IsPrefix clock deadline i names count
        × ((until clock deadline run i names).0 ≡ each run (take count names))
        × ((until clock deadline run i names).1
            ≡ (if ltb count (length names) then suc (i + count) else i + count))
  unfolding until each
  until-IsPrefix clock deadline run i [] = (0, nothing_left clock deadline i, refl, omega arith)
  until-IsPrefix clock deadline run i (name ∷ names) = elim (Bool-cases (ltb deadline (clock i))) [
    | inl t ↦ (0, stopped clock deadline i name names (ltb→lt _ _ t), rw t, rw t (ground arith))
    | inr t ↦
        let (count, p, same, next) = until-IsPrefix clock deadline run (suc i) names in
        (
          suc count,
          IsPrefix-next clock deadline i name names count (ltb→le _ _ t) p,
          rw t (ap (λ l. run name ++ l) same),
          rw t (next ∙ ground arith),
        )
  ]

  -- The results are those of the first `count` tasks, each that is known on each domain in order, then those of the
  -- first `crossed` cross-domain tasks; a run of chosen domains, and one that was cut off, has none of these.
  pub record IsBatch (env : Env J) (duration : ℕ) (names : List String) (ids : Option (List String))
      (results : List (TaskResult J)) : Type 0 where
    pub domains : List (Domain J)
    pub count : ℕ
    pub crossed : ℕ
    pub domains_loaded : AreLoaded env ids domains
    pub prefix : IsPrefix env.clock (env.clock 0 + duration) 1 names count
    pub on_domains : List (TaskResult J)
    pub across_domains : List (TaskResult J)
    pub parts : results ≡ on_domains ++ across_domains
    pub of_tasks : OfTasks env domains (take count names) on_domains
    pub of_cross_tasks :
        OfCrossTasks env domains (take crossed (keys env.cross_domain_tasks)) across_domains
    pub crossing :
        ids ≡ none
        → count ≡ length names
        → env.clock (suc count) ≤ env.clock 0 + duration
        → IsPrefix env.clock
            (env.clock 0 + duration)
            (suc (suc count))
            (keys env.cross_domain_tasks)
            crossed
    pub too_late :
        count ≡ length names → env.clock 0 + duration < env.clock (suc count) → crossed ≡ 0
    pub chosen : (l : List String) → ids ≡ some l → crossed ≡ 0
    pub cut_off : ((i : ℕ) → env.clock i ≤ env.clock (suc i)) → count < length names → crossed ≡ 0

  -- The cross-domain part: its results are those of the first `crossed` tasks, as far as the readings after `i` let
  -- it get, none for chosen domains or where reading `i` is past the deadline.
  cross_results-each :
      (env : Env J) (domains : List (Domain J)) (ids : Option (List String)) (deadline i : ℕ)
      (names : List String)
      → (crossed : ℕ) × (cross_results env domains ids deadline i names
          ≡ each (across env domains) (take crossed names))
        × ((l : List String) → ids ≡ some l → crossed ≡ 0)
        × (deadline < env.clock i → crossed ≡ 0)
        × (ids ≡ none → env.clock i ≤ deadline → IsPrefix env.clock deadline (suc i) names crossed)
  unfolding cross_results each
  cross_results-each env domains ids deadline i [] =
      (0, refl, λ l e. refl, λ h. refl, λ e h. nothing_left env.clock deadline (suc i))
  cross_results-each env domains (some l) deadline i (name ∷ names) =
      (0, refl, λ l e. refl, λ h. refl, λ e h. absurd (none_ne_chosen e))
  cross_results-each env domains none deadline i (name ∷ names) =
      elim (Bool-cases (leb (env.clock i) deadline)) [
        | inr t ↦ (0, rw t, λ l e. cc, λ h. refl, λ e h. absurd (ground (arith, t, h)))
        | inl t ↦
            let (count, p, same, _) =
              until-IsPrefix env.clock deadline (across env domains) (suc i) (name ∷ names) in
            (count, rw t same, λ l e. cc, λ h. absurd (ground (arith, t, h)), λ e h. p)
      ]

  -- The readings of a loop that was cut off: the next one is late too.
  next_late :
      (env : Env J) (deadline count : ℕ) (names : List String)
      → ((i : ℕ) → env.clock i ≤ env.clock (suc i))
      → IsPrefix env.clock deadline 1 names count
      → count < length names
      → deadline < env.clock (if ltb count (length names) then suc (1 + count) else 1 + count)
  next_late env deadline count names grows p h = ground (arith, p.too_late h, grows (1 + count), h)

  -- Where a run returns results, its domains are those of the loader that it is about, or else the default one; the
  -- results are those of a prefix of its tasks on each domain, as far as the clock let it get, then, where it got
  -- through, those of a prefix of the cross-domain tasks, again as far as the clock let it get, none of them for
  -- chosen domains, nor, on a clock that does not go back, after a cut.
  pub batch-IsBatch :
      (env : Env J) (duration : ℕ) (names : List String) (ids : Option (List String))
      (results : List (TaskResult J))
      → batch env duration names ids ≡ ok results
      → IsBatch env duration names ids results
  unfolding batch all_results
  batch-IsBatch env duration names ids results h = elim (Result-cases (load_domains env ids)) [
    | inr (e, t) ↦ absurd (ok-ne-err (sym (rw t at h)))
    | inl (domains, t) ↦
        let deadline = env.clock 0 + duration in
        let (count, p, same, next) =
          until-IsPrefix env.clock deadline (per_domain env domains) 1 names in
        let i = (until env.clock deadline (per_domain env domains) 1 names).1 in
        let (crossed, rest, chosen, late, crossing) =
          cross_results-each env domains ids deadline i (keys env.cross_domain_tasks) in
        record {
          domains = domains;
          count = count;
          crossed = crossed;
          domains_loaded = load_domains-AreLoaded env ids t;
          prefix = p;
          parts =
              sym (ok-injective (rw t at h))
              ∙ ap
                  (λ l. l ++ cross_results env domains ids deadline i (keys env.cross_domain_tasks))
                  same
              ∙ ap (λ l. each (per_domain env domains) (take count names) ++ l) rest;
          on_domains = each (per_domain env domains) (take count names);
          across_domains = each (across env domains) (take crossed (keys env.cross_domain_tasks));
          of_tasks = each-OfTasks env domains (take count names);
          of_cross_tasks =
              each-OfCrossTasks env domains (take crossed (keys env.cross_domain_tasks));
          crossing = λ all done now.
              let at = next_reading next done in
              subst (λ x. IsPrefix env.clock deadline (suc x) (keys env.cross_domain_tasks) crossed)
                at (crossing all (subst (λ x. env.clock x ≤ deadline) (sym at) now));
          too_late = λ done over.
              late (subst (λ x. deadline < env.clock x) (sym (next_reading next done)) over);
          chosen = chosen;
          cut_off = λ grows cut. late (
              subst (λ x. deadline < env.clock x) (sym next)
                (next_late env deadline count names grows p cut));
        }
  ]
