-- ===== src/Daemon/Monitor/States.antt =====
-- The steps of src/lumina/daemon/resource_monitor.py but for the poll, and the states they lead to.
use Prim.Native.Nat.{◌-◌, ◌%◌}
use mathlib.Core.Path.{subst}
use mathlib.Core.Bool.{false≢true}
use lumina_framework.Base.{
  ℕ, String, Bool, true, false, Option, none, some, List, [], ◌∷◌, ◌≡◌, refl, sym, ◌∙◌,
  if◌then◌else◌, leb, length, get_or, ◌==◌, arith,
}
use lumina_framework.Daemon.Monitor.{
  DaemonState, stopped_state, starting, monitoring, idle_detected, dispatching, preempting,
  LoadSnapshot, Settings, Dispatch, Monitor, init, start, begin_loop, end_dispatched, stop_loop,
  stop_rest, get_elem?, dispatch, dispatch_of, dispatch_next_task, track_idle, track_busy,
  poll_once,
}

-- Whether a call of `stop` waits for the task that it cancelled. Its first wait, for the loop, comes before it
-- has changed anything, and is part of `running`.
pub data Phase : Type 0 where
  running stopping : Phase

abbrev pub loop_runs : Phase → Bool
loop_runs running = true
loop_runs stopping = false

-- The monitors that are reached: a poll needs the loop, and the end of a task needs a task. While `stop` waits for
-- the task that it cancelled, the task may end, and nothing else runs: `start` and another `stop` are called
-- before or after it.
pub data Reached : Phase → Monitor → Type 0 where
  created : (settings : Settings) → Reached running (init settings)
  started : {m : Monitor} (now : ℕ) → Reached running m → Reached running (start now m)
  looped : {m : Monitor} → Reached running m → m.state ≡ starting → Reached running (begin_loop m)
  polled :
      {m : Monitor} (now t u : ℕ) (snap : LoadSnapshot)
      → Reached running m
      → m.has_task ≡ true
      → Reached running (poll_once now t u snap m)
  ended :
      {phase : Phase} {m : Monitor} (d : Dispatch)
      → Reached phase m
      → m.dispatch_task ≡ some d
      → Reached phase (end_dispatched m)
  stop_called :
      {m : Monitor} → Reached running m → m.has_task ≡ true → Reached stopping (stop_loop m)
  stop_returned : {m : Monitor} → Reached stopping m → Reached running (stop_rest m)

-- The state of the daemon and of the flag of its token where a task is out, and where none is.
pub data IsFlagged : DaemonState → Bool → Type 0 where
  going : IsFlagged dispatching false
  yielding : IsFlagged preempting true

pub data IsQuiet : DaemonState → Type 0 where
  is_stopped : IsQuiet stopped_state
  is_starting : IsQuiet starting
  is_monitoring : IsQuiet monitoring
  is_idle_detected : IsQuiet idle_detected

-- A task is out while the loop runs or, cancelled, while `stop` waits for it.
abbrev pub Fits : Phase → Monitor → Option Dispatch → Type 0
Fits phase m none = IsQuiet m.state
Fits phase m (some d) =
    (m.current_token ≡ some d.token)
    × (m.current_task_name ≡ some d.name)
    × IsFlagged m.state (m.requested d.token)
    × (m.has_task ≡ loop_runs phase)

abbrev pub IsConsistent : Phase → Monitor → Type 0
IsConsistent phase m = Fits phase m m.dispatch_task

-- What is known of the task that is out gives the fit.
pub fits :
    (m : Monitor) {o : Option Dispatch}
    → m.dispatch_task ≡ o
    → Fits running m o
    → IsConsistent running m
fits m e f = subst (Fits running m) (sym e) f

start-Fits :
    (now : ℕ) (m : Monitor) (has enabled : Bool) (o : Option Dispatch)
    → m.has_task ≡ has
    → Fits running m o
    → Fits running
        (if has
          then m
          else if enabled
          then record m { state = starting; started_at = now; has_task = true }
          else m)
        o
start-Fits now m true enabled o e f = f
start-Fits now m false false o e f = f
start-Fits now m false true none e f = is_starting
start-Fits now m false true (some d) e (a, b, c, on) = absurd (false≢true (sym e ∙ on))

dispatch_if :
    (m : Monitor) (has enabled : Bool) (now : ℕ)
    → (if has
        then m
        else if enabled
        then record m { state = starting; started_at = now; has_task = true }
        else m).dispatch_task
      ≡ m.dispatch_task
dispatch_if m true enabled now = refl
dispatch_if m false true now = refl
dispatch_if m false false now = refl

pub start-IsConsistent :
    (now : ℕ) (m : Monitor) → IsConsistent running m → IsConsistent running (start now m)
unfolding start
start-IsConsistent now m f =
    fits (start now m) (dispatch_if m m.has_task m.settings.is_enabled now)
      (start-Fits now m m.has_task m.settings.is_enabled m.dispatch_task refl f)

stop_loop-Fits :
    (m : Monitor) (o : Option Dispatch) → Fits running m o → Fits stopping (stop_loop m) o
unfolding stop_loop
stop_loop-Fits m none f = f
stop_loop-Fits m (some d) (a, b, c, on) = (a, b, c, refl)

pub stop_loop-IsConsistent :
    (m : Monitor) → IsConsistent running m → IsConsistent stopping (stop_loop m)
unfolding stop_loop
stop_loop-IsConsistent m f = stop_loop-Fits m m.dispatch_task f

pub looped-Fits :
    (m : Monitor) (o : Option Dispatch)
    → m.state ≡ starting
    → Fits running m o
    → Fits running (begin_loop m) o
unfolding begin_loop
looped-Fits m none e f = is_monitoring
looped-Fits m (some d) e (a, b, flagged, on) =
    elim (subst (λ s. IsFlagged s (m.requested d.token)) e flagged) [ ]

new_flag : (t : ℕ) (old : Bool) → false ≡ (if t == t then false else old)
new_flag t old = ground arith

pub raised_flag : (t : ℕ) (old : Bool) → true ≡ (if t == t then true else old)
raised_flag t old = ground arith

-- A new task, where none was out.
dispatch-IsConsistent :
    (name : Option String) (m : Monitor)
    → m.dispatch_task ≡ none
    → IsQuiet m.state
    → m.has_task ≡ true
    → IsConsistent running (dispatch name m)
unfolding dispatch
dispatch-IsConsistent none m e q on = fits m e q
dispatch-IsConsistent (some name) m e q on = (
  refl,
  refl,
  subst (IsFlagged dispatching) (new_flag (m.next_token) (m.requested m.next_token)) going,
  on,
)

dispatch_of-IsConsistent :
    (names : List String) (runner : Bool) (m : Monitor)
    → m.dispatch_task ≡ none
    → IsQuiet m.state
    → m.has_task ≡ true
    → IsConsistent running (dispatch_of names runner m)
unfolding dispatch_of
dispatch_of-IsConsistent [] runner m e q on = fits (record m { state = monitoring }) e is_monitoring
dispatch_of-IsConsistent (x ∷ xs) false m e q on =
    fits (record m { state = monitoring }) e is_monitoring
dispatch_of-IsConsistent (x ∷ xs) true m e q on =
    dispatch-IsConsistent (get_elem? (x ∷ xs) (m.task_index % length (x ∷ xs))) m e q on

track_idle-IsConsistent :
    (t u : ℕ) (m : Monitor)
    → m.dispatch_task ≡ none
    → IsQuiet m.state
    → m.has_task ≡ true
    → IsConsistent running (track_idle t u m)
unfolding track_idle dispatch_next_task
track_idle-IsConsistent t u m e q on = go (leb m.settings.idle_sustain (u - get_or m.idle_since t))
  where
    go :
        (long : Bool)
        → IsConsistent running (
            if long
            then dispatch_next_task
                (record m { idle_since = some (get_or m.idle_since t); state = idle_detected })
            else record m { idle_since = some (get_or m.idle_since t) })
    go true =
        dispatch_of-IsConsistent m.settings.task_priority m.settings.has_runner
          (record m { idle_since = some (get_or m.idle_since t); state = idle_detected }) e
          is_idle_detected on
    go false = fits (record m { idle_since = some (get_or m.idle_since t) }) e q

pub track-IsConsistent :
    (t u : ℕ) (snap : LoadSnapshot) (m : Monitor) (s : DaemonState)
    → s ≡ m.state
    → m.dispatch_task ≡ none
    → IsQuiet s
    → m.has_task ≡ true
    → IsConsistent running (if snap.is_idle then track_idle t u m else track_busy s m)
unfolding track_busy
track-IsConsistent t u snap m s same e q on = go snap.is_idle s q same
  where
    go :
        (idle : Bool) (s : DaemonState)
        → IsQuiet s
        → s ≡ m.state
        → IsConsistent running (if idle then track_idle t u m else track_busy s m)
    go true s q same = track_idle-IsConsistent t u m e (subst IsQuiet same q) on
    go false stopped_state q same =
        fits (record m { idle_since = none; state = monitoring }) e is_monitoring
    go false starting q same =
        fits (record m { idle_since = none; state = monitoring }) e is_monitoring
    go false monitoring q same =
        fits (record m { idle_since = none; state = monitoring }) e is_monitoring
    go false idle_detected q same =
        fits (record m { idle_since = none; state = monitoring }) e is_monitoring
    go false dispatching q same = elim q [ ]
    go false preempting q same = elim q [ ]
