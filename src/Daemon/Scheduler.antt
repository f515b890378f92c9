-- ===== src/Daemon/Scheduler.antt =====
-- src/lumina/daemon/scheduler.py. A task is what it returns or raises for a domain; the registries of
-- src/lumina/daemon/tasks.py, the loader's answer and the clock's readings are arguments. `clock i` is the
-- i-th reading of a run, in microseconds. A report is the value that its dictionary is made of.
pub mod Batch
pub mod Execute
pub mod Review
pub mod Loaded
pub mod Results
pub mod Prefix
pub mod History
pub mod Flat
pub mod Found
mod Examples
use lumina_framework.Base.{
  ℕ, ◌+◌, ◌*◌, zero, suc, String, Bool, true, false, not, ◌&&◌, ◌||◌, Option, none, some, List, [],
  ◌∷◌, ◌++◌, map, Result, ok, err, ◌>>=◌, str_eq, if◌then◌else◌, ltb, leb, length, take, get_or,
  elem,
}
use lumina_framework.Base.Dict.{Dict, get}
use lumina_framework.Base.Select.{filter, find}
use lumina_framework.Daemon.Report.{
  Proposal, TaskResult, DaemonReport, is_decision, decide, new_report, finish,
}

pub record Config : Type 0 where
  pub enabled : Option Bool
  pub tasks : Option (List String)
  pub max_duration_minutes : Option ℕ
  pub schedule : Option String

pub record Domain (J : Type 0) : Type 0 where
  pub domain_id : Option String
  pub physics : Option J

pub record Scheduler (J : Type 0) : Type 0 where
  pub config : Config
  pub runs : List (DaemonReport J)
  pub current_run : Option (DaemonReport J)

-- What a run gets from outside: `loader` is `none` where the scheduler has none, and `empty` is `{}`.
pub record Env (J : Type 0) : Type 0 where
  pub tasks : Dict (String → J → Result String (TaskResult J))
  pub cross_domain_tasks : Dict (List (Domain J) → Result String (TaskResult J))
  pub loader : Option (Result String (List (Domain J)))
  pub clock : ℕ → ℕ
  pub finished_at : String
  pub empty : J

abbrev pub max_history : ℕ
max_history = 50

abbrev pub keys : {V : Type 0} → Dict V → List String
keys = map (λ e. e.0)

-- `xs or default`
abbrev pub or_list : {A : Type 0} → Option (List A) → List A → List A
or_list none default = default
or_list (some []) default = default
or_list (some (x ∷ xs)) default = x ∷ xs

unfoldable pub elem_option : Option String → List String → Bool
unfolding elem
elem_option none ids = false
elem_option (some id) ids = elem id ids

module _ {J : Type 0} where
  unfoldable pub enabled : Scheduler J → Bool
  enabled s = get_or s.config.enabled false

  unfoldable pub schedule : Scheduler J → String
  schedule s = get_or s.config.schedule "0 2 * * *"

  unfoldable pub configured_tasks : Env J → Scheduler J → List String
  configured_tasks env s = or_list s.config.tasks (keys env.tasks)

  -- The deadline's distance from the start, in microseconds.
  unfoldable pub max_duration : Scheduler J → ℕ
  max_duration s = get_or s.config.max_duration_minutes 240 * 60000000
