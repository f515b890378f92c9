-- ===== src/Daemon/Scheduler/Results.antt =====
-- What the results of a run of src/lumina/daemon/scheduler.py are, apart from its loops.
use lumina_framework.Base.{
  String, false, none, some, List, [], ◌∷◌, ◌++◌, map, Result, ok, err, ◌≡◌, refl, get_or,
  Option-cases, inl, inr,
}
use lumina_framework.Base.Dict.{get}
use lumina_framework.Daemon.Report.{TaskResult}
use lumina_framework.Daemon.Scheduler.{Domain, Env}
use lumina_framework.Daemon.Scheduler.Batch.{
  caught, run_for, run_task, run_cross, per_domain, across,
}

module _ {J : Type 0} where
  -- The result of a task that answered: what it returned, or a failure with its error and no proposals.
  pub data IsAnswerOf (task domain_id : String)
      : Result String (TaskResult J) → TaskResult J → Type 0 where
    returned : (r : TaskResult J) → IsAnswerOf task domain_id (ok r) r
    failed :
        (e : String) (r : TaskResult J)
        → r.task ≡ task
        → r.domain_id ≡ domain_id
        → r.success ≡ false
        → r.error ≡ some e
        → r.proposals ≡ []
        → IsAnswerOf task domain_id (err e) r

  -- The results of a task on domains: one for each of them, in order.
  pub data OnDomains (env : Env J) (name : String)
      (task : String → J → Result String (TaskResult J))
      : List (Domain J) → List (TaskResult J) → Type 0 where
    no_domain : OnDomains env name task [] []
    next_domain :
        {d : Domain J} {ds : List (Domain J)} {r : TaskResult J} {rs : List (TaskResult J)}
        → IsAnswerOf name
            (get_or d.domain_id "unknown")
            (task (get_or d.domain_id "unknown") (get_or d.physics env.empty))
            r
        → OnDomains env name task ds rs
        → OnDomains env name task (d ∷ ds) (r ∷ rs)

  -- The results of tasks by name, in order: an unknown one has none.
  pub data OfTasks (env : Env J) (domains : List (Domain J))
      : List String → List (TaskResult J) → Type 0 where
    no_task : OfTasks env domains [] []
    unknown_task :
        {name : String} {names : List String} {rs : List (TaskResult J)}
        → get name env.tasks ≡ none
        → OfTasks env domains names rs
        → OfTasks env domains (name ∷ names) rs
    known_task :
        {name : String} {names : List String} {rs ss : List (TaskResult J)}
        (task : String → J → Result String (TaskResult J))
        → get name env.tasks ≡ some task
        → OnDomains env name task domains rs
        → OfTasks env domains names ss
        → OfTasks env domains (name ∷ names) (rs ++ ss)

  -- The results of cross-domain tasks: one for each that is known, over all domains.
  pub data OfCrossTasks (env : Env J) (domains : List (Domain J))
      : List String → List (TaskResult J) → Type 0 where
    no_task : OfCrossTasks env domains [] []
    unknown_task :
        {name : String} {names : List String} {rs : List (TaskResult J)}
        → get name env.cross_domain_tasks ≡ none
        → OfCrossTasks env domains names rs
        → OfCrossTasks env domains (name ∷ names) rs
    known_task :
        {name : String} {names : List String} {r : TaskResult J} {rs : List (TaskResult J)}
        (task : List (Domain J) → Result String (TaskResult J))
        → get name env.cross_domain_tasks ≡ some task
        → IsAnswerOf name "cross_domain" (task domains) r
        → OfCrossTasks env domains names rs
        → OfCrossTasks env domains (name ∷ names) (r ∷ rs)

  -- The results of each name, one after the other.
  unfoldable pub each : (String → List (TaskResult J)) → List String → List (TaskResult J)
  each run [] = []
  each run (name ∷ names) = run name ++ each run names

  caught-IsAnswerOf :
      (task domain_id : String) (o : Result String (TaskResult J))
      → IsAnswerOf task domain_id o (caught task domain_id o)
  unfolding caught
  caught-IsAnswerOf task domain_id (ok r) = returned r
  caught-IsAnswerOf task domain_id (err e) = failed e _ refl refl refl refl refl

  run_for-OnDomains :
      (env : Env J) (name : String) (task : String → J → Result String (TaskResult J))
      (ds : List (Domain J))
      → OnDomains env name task ds (map (run_for env name task) ds)
  run_for-OnDomains env name task [] = no_domain
  run_for-OnDomains env name task (d ∷ ds) =
      next_domain (caught-IsAnswerOf name _ _) (run_for-OnDomains env name task ds)

  pub each-OfTasks :
      (env : Env J) (domains : List (Domain J)) (names : List String)
      → OfTasks env domains names (each (per_domain env domains) names)
  unfolding each run_task
  each-OfTasks env domains [] = no_task
  each-OfTasks env domains (name ∷ names) = elim (Option-cases (get name env.tasks)) [
    | inl e ↦ rw e (OfTasks.unknown_task e (each-OfTasks env domains names))
    | inr (task, e) ↦ rw e (
        OfTasks.known_task task e (run_for-OnDomains env name task domains)
          (each-OfTasks env domains names))
  ]

  pub each-OfCrossTasks :
      (env : Env J) (domains : List (Domain J)) (names : List String)
      → OfCrossTasks env domains names (each (across env domains) names)
  unfolding each run_cross
  each-OfCrossTasks env domains [] = no_task
  each-OfCrossTasks env domains (name ∷ names) =
      elim (Option-cases (get name env.cross_domain_tasks)) [
        | inl e ↦ rw e (OfCrossTasks.unknown_task e (each-OfCrossTasks env domains names))
        | inr (task, e) ↦ rw e (
            OfCrossTasks.known_task task e (caught-IsAnswerOf name "cross_domain" (task domains))
              (each-OfCrossTasks env domains names))
      ]
