-- ===== src/Daemon/Monitor.antt =====
-- src/lumina/daemon/resource_monitor.py and src/lumina/daemon/preemption.py. Each step runs between two
-- suspensions of the event loop; `stop`, which waits twice, is `stop_loop` and `stop_rest`. A load score is a number of millionths, a time a number of ticks of the
-- monotonic clock, and each reading is an argument. `requested` is the flag of each token that was made; the
-- n-th token is the number n. The triggers of the black box, which a poll fires first and whose errors it
-- drops, are not modelled.
pub mod States
pub mod Consistent
pub mod Preemption
pub mod IdleTime
pub mod Idle
mod Examples
use Prim.Native.Nat.{◌%◌}
use lumina_framework.Base.{
  ℕ, zero, suc, ◌+◌, ◌-◌, String, Bool, true, false, Option, none, some, List, [], ◌∷◌, Result, ok,
  err, if◌then◌else◌, ltb, leb, ◌==◌, length, get_or,
}

pub data DaemonState : Type 0 where
  stopped_state starting monitoring idle_detected dispatching preempting : DaemonState

pub data TaskPreempted : Type 0 where
  task_preempted : TaskPreempted

pub record LoadSnapshot : Type 0 where
  pub load_score : ℕ
  pub is_idle : Bool

pub record Settings : Type 0 where
  pub task_priority : List String
  pub has_runner : Bool
  pub idle_sustain : ℕ
  pub busy_threshold : ℕ
  pub grace_period : ℕ
  pub is_enabled : Bool

-- A dispatched task: its name and its token.
pub record Dispatch : Type 0 where
  pub name : String
  pub token : ℕ

pub record Monitor : Type 0 where
  pub settings : Settings
  pub state : DaemonState
  pub has_task : Bool
  pub dispatch_task : Option Dispatch
  pub last_snapshot : Option LoadSnapshot
  pub idle_since : Option ℕ
  pub current_token : Option ℕ
  pub current_task_name : Option String
  pub started_at : ℕ
  pub task_index : ℕ
  pub requested : ℕ → Bool
  pub next_token : ℕ

-- `PreemptionToken()`: its flag is down.
abbrev pub new_token : Monitor → Monitor
new_token m = record m {
  requested = λ t. if t == m.next_token then false else m.requested t;
  next_token = suc m.next_token;
}

-- `token.request_yield()`
unfoldable pub request_yield : ℕ → Monitor → Monitor
request_yield token m = record m { requested = λ t. if t == token then true else m.requested t }

-- `token.reset()`
unfoldable pub reset : ℕ → Monitor → Monitor
reset token m = record m { requested = λ t. if t == token then false else m.requested t }

-- `token.checkpoint()` and `token.checkpoint_sync()`
unfoldable pub checkpoint : ℕ → Monitor → Result TaskPreempted (Unit {0})
checkpoint token m = if m.requested token then err task_preempted else ok tt

unfoldable pub init : Settings → Monitor
init settings = record {
  settings = settings;
  state = stopped_state;
  has_task = false;
  dispatch_task = none;
  last_snapshot = none;
  idle_since = none;
  current_token = none;
  current_task_name = none;
  started_at = 0;
  task_index = 0;
  requested = λ t. false;
  next_token = 0;
}

unfoldable pub start : ℕ → Monitor → Monitor
start now m =
    if m.has_task
    then m
    else if m.settings.is_enabled
    then record m { state = starting; started_at = now; has_task = true }
    else m

-- What the loop does before its first poll.
unfoldable pub begin_loop : Monitor → Monitor
begin_loop m = record m { state = monitoring }

-- The `finally` of `_run_dispatched`.
unfoldable pub end_dispatched : Monitor → Monitor
end_dispatched m = record m {
  current_token = none;
  current_task_name = none;
  dispatch_task = none;
  idle_since = none;
  state = monitoring;
}

-- `stop` up to its second suspension: the loop was cancelled and awaited before. Where a task is out, it is
-- cancelled and awaited; it runs its `finally` in that time if it had begun to run.
unfoldable pub stop_loop : Monitor → Monitor
stop_loop m = record m { has_task = false }

-- The rest of `stop`, after the task, if one was out, was awaited.
unfoldable pub stop_rest : Monitor → Monitor
stop_rest m = record m { dispatch_task = none; state = stopped_state }

-- `xs[i]`
unfoldable pub get_elem? : List String → ℕ → Option String
get_elem? [] i = none
get_elem? (x ∷ xs) zero = some x
get_elem? (x ∷ xs) (suc i) = get_elem? xs i

unfoldable pub dispatch : Option String → Monitor → Monitor
dispatch none m = m
dispatch (some name) m = record (new_token m) {
  task_index = (m.task_index + 1) % length m.settings.task_priority;
  current_token = some m.next_token;
  current_task_name = some name;
  state = dispatching;
  dispatch_task = some (record { name = name; token = m.next_token });
}

-- The index is in the range of the list, so that the reading of the list does not fail.
unfoldable pub dispatch_of : List String → Bool → Monitor → Monitor
unfolding dispatch get_elem?
dispatch_of [] runner m = record m { state = monitoring }
dispatch_of (x ∷ xs) false m = record m { state = monitoring }
dispatch_of (x ∷ xs) true m = dispatch (get_elem? (x ∷ xs) (m.task_index % length (x ∷ xs))) m

unfoldable pub dispatch_next_task : Monitor → Monitor
unfolding dispatch_of
dispatch_next_task m = dispatch_of m.settings.task_priority m.settings.has_runner m

-- An idle snapshot; `t` and `u` are the readings for the start and for the duration of the idle time.
unfoldable pub track_idle : ℕ → ℕ → Monitor → Monitor
unfolding dispatch_next_task
track_idle t u m =
    let since = get_or m.idle_since t in
    if leb m.settings.idle_sustain (u - since)
    then dispatch_next_task (record m { idle_since = some since; state = idle_detected })
    else record m { idle_since = some since }

unfoldable pub track_busy : DaemonState → Monitor → Monitor
track_busy dispatching m = record m { idle_since = none }
track_busy preempting m = record m { idle_since = none }
track_busy _ m = record m { idle_since = none; state = monitoring }

unfoldable pub track : ℕ → ℕ → LoadSnapshot → Monitor → Monitor
unfolding track_idle track_busy
track t u snap m = if snap.is_idle then track_idle t u m else track_busy m.state m

-- A load at or above the threshold asks the task to yield.
unfoldable pub preempt : ℕ → LoadSnapshot → Monitor → Monitor
unfolding request_yield
preempt token snap m =
    if leb m.settings.busy_threshold snap.load_score
    then request_yield token (record m { state = preempting })
    else m

unfoldable pub poll_in : DaemonState → Option ℕ → ℕ → ℕ → LoadSnapshot → Monitor → Monitor
unfolding track preempt
poll_in dispatching (some token) t u snap m = preempt token snap m
poll_in preempting token t u snap m = m
poll_in state token t u snap m = track t u snap m

-- A poll after its sample. `now` is not before the start, and a truncated difference is the difference.
unfoldable pub poll_once : ℕ → ℕ → ℕ → LoadSnapshot → Monitor → Monitor
unfolding poll_in
poll_once now t u snap m =
    let sampled = record m { last_snapshot = some snap } in
    if ltb (now - m.started_at) m.settings.grace_period
    then sampled
    else poll_in m.state m.current_token t u snap sampled

unfoldable pub is_running : Option Monitor → Bool
is_running none = false
is_running (some m) = elim m.state [ stopped_state ↦ false | _ ↦ true ]
