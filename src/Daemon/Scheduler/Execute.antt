-- ===== src/Daemon/Scheduler/Execute.antt =====
-- `_execute` of src/lumina/daemon/scheduler.py, its triggers and the lookup of a report.
use lumina_framework.Base.{
  ℕ, true, false, String, Bool, Option, none, some, List, [], ◌∷◌, ◌++◌, Result, ok, err, str_eq,
  if◌then◌else◌, ltb, length, take,
}
use lumina_framework.Base.Select.{find}
use lumina_framework.Daemon.Report.{TaskResult, DaemonReport, new_report, finish}
use lumina_framework.Daemon.Scheduler.{
  enabled, schedule, Scheduler, Env, max_history, or_list, configured_tasks, max_duration,
}
use lumina_framework.Daemon.Scheduler.Batch.{batch}

pub record Status (J : Type 0) : Type 0 where
  pub is_enabled : Bool
  pub cron : String
  pub is_running : Bool
  pub current_run_id : Option String
  pub last_run : Option (DaemonReport J)
  pub run_count : ℕ

abbrev is_some : {A : Type 0} → Option A → Bool
is_some none = false
is_some (some _) = true

abbrev first : {A : Type 0} → List A → Option A
first [] = none
first (x ∷ _) = some x

abbrev run_id_of : {J : Type 0} → Option (DaemonReport J) → Option String
run_id_of none = none
run_id_of (some r) = some r.run_id

module _ {J : Type 0} where
  -- The slice of the history.
  unfoldable pub shorten : List (DaemonReport J) → List (DaemonReport J)
  shorten runs = if ltb max_history (length runs) then take max_history runs else runs

  -- What `finally` does.
  unfoldable pub release_run : DaemonReport J → Scheduler J → Scheduler J
  unfolding shorten
  release_run report s = record s { current_run = none; runs = shorten (report ∷ s.runs) }

  -- An exception of the loader leaves the report as it is.
  unfoldable pub conclude :
      Env J
      → DaemonReport J
      → Scheduler J
      → Result String (List (TaskResult J))
      → Scheduler J × Result String (DaemonReport J)
  unfolding release_run finish
  conclude env report s (err e) = (release_run report s, err e)
  conclude env report s (ok results) =
      let done =
        finish env.finished_at (record report { task_results = report.task_results ++ results }) in
      (release_run done s, ok done)

  unfoldable pub execute_when :
      Option (DaemonReport J)
      → Env J
      → DaemonReport J
      → List String
      → Option (List String)
      → Scheduler J
      → Scheduler J × Result String (DaemonReport J)
  unfolding batch conclude finish max_duration
  execute_when (some _) env report names ids s =
      (s, ok (finish env.finished_at (record report { status = "failed" })))
  execute_when none env report names ids s =
      conclude env report (record s { current_run = some report })
        (batch env (max_duration s) names ids)

  unfoldable pub execute :
      Env J
      → DaemonReport J
      → List String
      → Option (List String)
      → Scheduler J
      → Scheduler J × Result String (DaemonReport J)
  unfolding execute_when
  execute env report names ids s = execute_when s.current_run env report names ids s

  unfoldable pub trigger_manual :
      Env J
      → String
      → String
      → String
      → Option (List String)
      → Option (List String)
      → Scheduler J
      → Scheduler J × Result String (DaemonReport J)
  unfolding execute configured_tasks new_report
  trigger_manual env run_id started_at actor_id names ids s =
      execute env (new_report run_id started_at actor_id) (or_list names (configured_tasks env s))
        ids s

  -- The id that is returned at once, and what the thread does with the scheduler.
  unfoldable pub trigger_async :
      Env J
      → String
      → String
      → String
      → Option (List String)
      → Option (List String)
      → String × (Scheduler J → Scheduler J × Result String (DaemonReport J))
  unfolding trigger_manual
  trigger_async env run_id started_at actor_id names ids =
      (run_id, trigger_manual env run_id started_at actor_id names ids)

  unfoldable pub trigger_scheduled :
      Env J → String → String → Scheduler J → Scheduler J × Result String (DaemonReport J)
  unfolding execute configured_tasks new_report
  trigger_scheduled env run_id started_at s =
      execute env (new_report run_id started_at "scheduler") (configured_tasks env s) none s

  unfoldable pub trigger_opportunistic :
      Env J
      → String
      → String
      → String
      → Option (List String)
      → Scheduler J
      → Scheduler J × Result String (DaemonReport J)
  unfolding execute new_report
  trigger_opportunistic env run_id started_at name ids s =
      execute env (new_report run_id started_at "daemon") (name ∷ []) ids s

  abbrev pub has_run_id : String → DaemonReport J → Bool
  has_run_id id r = str_eq r.run_id id

  unfoldable pub report_in :
      String → Option (DaemonReport J) → List (DaemonReport J) → Option (DaemonReport J)
  unfolding find
  report_in id none runs = find (has_run_id id) runs
  report_in id (some r) runs = if has_run_id id r then some r else find (has_run_id id) runs

  unfoldable pub get_report : String → Scheduler J → Option (DaemonReport J)
  unfolding report_in
  get_report id s = report_in id s.current_run s.runs

  unfoldable pub get_status : Scheduler J → Status J
  unfolding enabled schedule
  get_status s = record {
    is_enabled = enabled s;
    cron = schedule s;
    is_running = is_some s.current_run;
    current_run_id = run_id_of s.current_run;
    last_run = first s.runs;
    run_count = length s.runs;
  }
