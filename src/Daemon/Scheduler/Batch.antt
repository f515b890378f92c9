-- ===== src/Daemon/Scheduler/Batch.antt =====
-- The batch of a run in src/lumina/daemon/scheduler.py: its domains, its tasks, its deadline.
use lumina_framework.Base.{
  ℕ, ◌+◌, suc, String, false, Option, none, some, List, [], ◌∷◌, ◌++◌, map, Result, ok, err, ◌>>=◌,
  if◌then◌else◌, ltb, leb, get_or,
}
use lumina_framework.Base.Dict.{get}
use lumina_framework.Base.Select.{filter}
use lumina_framework.Daemon.Report.{TaskResult}
use lumina_framework.Daemon.Scheduler.{Domain, Env, keys, elem_option}

module _ {J : Type 0} where
  abbrev pub fallback : Env J → List (Domain J)
  fallback env = record { domain_id = some "default"; physics = some env.empty } ∷ []

  unfoldable pub selected_domains : Option (List String) → List (Domain J) → List (Domain J)
  unfolding filter elem_option
  selected_domains none ds = ds
  selected_domains (some []) ds = ds
  selected_domains (some (id ∷ ids)) ds =
      filter (λ (d : Domain J). elem_option d.domain_id (id ∷ ids)) ds

  unfoldable pub domains_or : Env J → List (Domain J) → List (Domain J)
  domains_or env [] = fallback env
  domains_or env (d ∷ ds) = d ∷ ds

  unfoldable pub loaded :
      Env J
      → Option (List String)
      → Option (Result String (List (Domain J)))
      → Result String (List (Domain J))
  unfolding selected_domains domains_or
  loaded env ids none = ok (fallback env)
  loaded env ids (some (err e)) = err e
  loaded env ids (some (ok ds)) = ok (domains_or env (selected_domains ids ds))

  unfoldable pub load_domains : Env J → Option (List String) → Result String (List (Domain J))
  unfolding loaded
  load_domains env ids = loaded env ids env.loader

  -- A task that raises leaves a failed result.
  unfoldable pub caught : String → String → Result String (TaskResult J) → TaskResult J
  caught task domain_id (ok r) = r
  caught task domain_id (err e) = record {
    task = task;
    domain_id = domain_id;
    success = false;
    duration = 0;
    error = some e;
    proposals = [];
    metadata = [];
  }

  abbrev pub domain_name : Domain J → String
  domain_name d = get_or d.domain_id "unknown"

  abbrev pub run_for :
      Env J → String → (String → J → Result String (TaskResult J)) → Domain J → TaskResult J
  run_for env name task d =
      caught name (domain_name d) (task (domain_name d) (get_or d.physics env.empty))

  -- An unknown task is passed over.
  unfoldable pub run_task :
      Env J
      → List (Domain J)
      → String
      → Option (String → J → Result String (TaskResult J))
      → List (TaskResult J)
  unfolding caught
  run_task env domains name none = []
  run_task env domains name (some task) = map (run_for env name task) domains

  unfoldable pub run_cross :
      List (Domain J)
      → String
      → Option (List (Domain J) → Result String (TaskResult J))
      → List (TaskResult J)
  unfolding caught
  run_cross domains name none = []
  run_cross domains name (some task) = caught name "cross_domain" (task domains) ∷ []

  -- The loop over task names, each after a reading of the clock that ends it past the deadline: its
  -- results and the number of the next reading.
  unfoldable pub until :
      (ℕ → ℕ) → ℕ → (String → List (TaskResult J)) → ℕ → List String → List (TaskResult J) × ℕ
  until clock deadline run i [] = ([], i)
  until clock deadline run i (name ∷ names) =
      let rest = until clock deadline run (suc i) names in
      if ltb deadline (clock i) then ([], suc i) else (run name ++ rest.0, rest.1)

  abbrev pub per_domain : Env J → List (Domain J) → String → List (TaskResult J)
  per_domain env domains name = run_task env domains name (get name env.tasks)

  abbrev pub across : Env J → List (Domain J) → String → List (TaskResult J)
  across env domains name = run_cross domains name (get name env.cross_domain_tasks)

  -- The cross-domain tasks, for a run of all domains that is not past its deadline.
  unfoldable pub cross_results :
      Env J → List (Domain J) → Option (List String) → ℕ → ℕ → List String → List (TaskResult J)
  unfolding until run_cross get
  cross_results env domains ids deadline i [] = []
  cross_results env domains (some ids) deadline i (name ∷ names) = []
  cross_results env domains none deadline i (name ∷ names) =
      if leb (env.clock i) deadline
      then (until env.clock deadline (across env domains) (suc i) (name ∷ names)).0
      else []

  -- The results of a run over its domains; the deadline is counted from reading 0.
  unfoldable pub all_results :
      Env J → ℕ → List String → Option (List String) → List (Domain J) → List (TaskResult J)
  unfolding until run_task cross_results get
  all_results env deadline names ids domains =
      let (results, i) = until env.clock deadline (per_domain env domains) 1 names in
      results ++ cross_results env domains ids deadline i (keys env.cross_domain_tasks)

  -- The results in the block that `finally` closes.
  unfoldable pub batch :
      Env J → ℕ → List String → Option (List String) → Result String (List (TaskResult J))
  unfolding load_domains all_results
  batch env duration names ids = do
    domains ← load_domains env ids
    ok (all_results env (env.clock 0 + duration) names ids domains)
