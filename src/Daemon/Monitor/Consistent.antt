-- ===== src/Daemon/Monitor/Consistent.antt =====
-- The states that the steps of src/lumina/daemon/resource_monitor.py reach.
use Prim.Native.Nat.{◌-◌}
use mathlib.Core.Path.{subst}
use lumina_framework.Base.{
  ℕ, Bool, true, false, Option, none, some, ◌≡◌, refl, sym, ap, ◌∙◌, if◌then◌else◌, ltb, leb,
}
use lumina_framework.Daemon.Monitor.{
  DaemonState, stopped_state, starting, monitoring, idle_detected, dispatching, preempting,
  LoadSnapshot, Dispatch, Monitor, init, begin_loop, end_dispatched, stop_rest, track_idle,
  track_busy, track, preempt, poll_in, poll_once, request_yield,
}
use lumina_framework.Daemon.Monitor.States.{
  Phase, running, Reached, created, started, looped, polled, ended, stop_called, stop_returned,
  IsFlagged, going, yielding, IsQuiet, is_stopped, is_monitoring, Fits, IsConsistent, fits,
  start-IsConsistent, stop_loop-IsConsistent, looped-Fits, raised_flag, track-IsConsistent,
}

-- A task that is out stays out, and is told to yield where the load is above the threshold.
preempt-Fits :
    (snap : LoadSnapshot) (m : Monitor) (d : Dispatch) (long : Bool)
    → Fits running m (some d)
    → m.state ≡ dispatching
    → Fits running
        (if long then request_yield d.token (record m { state = preempting }) else m)
        (some d)
unfolding request_yield
preempt-Fits snap m d true (a, b, c, on) e =
    (a, b, subst (IsFlagged preempting) (raised_flag d.token (m.requested d.token)) yielding, on)
preempt-Fits snap m d false f e = f

pub preempt-out :
    (token : ℕ) (m : Monitor) (long : Bool)
    → (if long then request_yield token (record m { state = preempting }) else m).dispatch_task
      ≡ m.dispatch_task
unfolding request_yield
preempt-out token m true = refl
preempt-out token m false = refl

poll_out-IsConsistent :
    (t u : ℕ) (snap : LoadSnapshot) (m : Monitor) (d : Dispatch) (s : DaemonState) (flag : Bool)
    → IsFlagged s flag
    → s ≡ m.state
    → m.dispatch_task ≡ some d
    → Fits running m (some d)
    → IsConsistent running (poll_in s (some d.token) t u snap m)
unfolding poll_in preempt
poll_out-IsConsistent t u snap m d dispatching false going same e f =
    let long = leb m.settings.busy_threshold snap.load_score in
    fits (if long then request_yield d.token (record m { state = preempting }) else m)
      (preempt-out d.token m long ∙ e) (preempt-Fits snap m d long f (sym same))
poll_out-IsConsistent t u snap m d preempting true yielding same e f = fits m e f
poll_out-IsConsistent t u snap m d stopped_state flag x same e f = elim x [ ]
poll_out-IsConsistent t u snap m d starting flag x same e f = elim x [ ]
poll_out-IsConsistent t u snap m d monitoring flag x same e f = elim x [ ]
poll_out-IsConsistent t u snap m d idle_detected flag x same e f = elim x [ ]
poll_out-IsConsistent t u snap m d dispatching true x same e f = elim x [ ]
poll_out-IsConsistent t u snap m d preempting false x same e f = elim x [ ]

-- The polls of a quiet state track the idle time.
pub quiet_tracks :
    (t u : ℕ) (snap : LoadSnapshot) (m : Monitor) (s : DaemonState) (token : Option ℕ)
    → IsQuiet s
    → s ≡ m.state
    → (if snap.is_idle then track_idle t u m else track_busy s m) ≡ poll_in s token t u snap m
unfolding poll_in track
quiet_tracks t u snap m stopped_state token q same =
    ap (λ s. if snap.is_idle then track_idle t u m else track_busy s m) same
quiet_tracks t u snap m starting token q same =
    ap (λ s. if snap.is_idle then track_idle t u m else track_busy s m) same
quiet_tracks t u snap m monitoring token q same =
    ap (λ s. if snap.is_idle then track_idle t u m else track_busy s m) same
quiet_tracks t u snap m idle_detected token q same =
    ap (λ s. if snap.is_idle then track_idle t u m else track_busy s m) same
quiet_tracks t u snap m dispatching token q same = elim q [ ]
quiet_tracks t u snap m preempting token q same = elim q [ ]

poll_quiet-IsConsistent :
    (t u : ℕ) (snap : LoadSnapshot) (m : Monitor) (s : DaemonState) (token : Option ℕ)
    → s ≡ m.state
    → m.dispatch_task ≡ none
    → IsQuiet s
    → m.has_task ≡ true
    → IsConsistent running (poll_in s token t u snap m)
unfolding poll_in track
poll_quiet-IsConsistent t u snap m s token same e q on =
    subst (IsConsistent running) (quiet_tracks t u snap m s token q same)
      (track-IsConsistent t u snap m s same e q on)

poll_in-IsConsistent :
    (t u : ℕ) (snap : LoadSnapshot) (m : Monitor) (o : Option Dispatch)
    → m.dispatch_task ≡ o
    → Fits running m o
    → m.has_task ≡ true
    → IsConsistent running (poll_in m.state m.current_token t u snap m)
poll_in-IsConsistent t u snap m none e f on =
    poll_quiet-IsConsistent t u snap m m.state m.current_token refl e f on
poll_in-IsConsistent t u snap m (some d) e f on =
    subst (λ token. IsConsistent running (poll_in m.state token t u snap m)) (sym f.0)
      (poll_out-IsConsistent t u snap m d m.state (m.requested d.token) f.2 refl e f)

poll_once-IsConsistent :
    (now t u : ℕ) (snap : LoadSnapshot) (m : Monitor)
    → m.has_task ≡ true
    → IsConsistent running m
    → IsConsistent running (poll_once now t u snap m)
unfolding poll_once
poll_once-IsConsistent now t u snap m on f = go (ltb (now - m.started_at) m.settings.grace_period)
  where
    go :
        (early : Bool)
        → IsConsistent running (
            if early
            then record m { last_snapshot = some snap }
            else poll_in m.state m.current_token t u snap (record m { last_snapshot = some snap }))
    go true = f
    go false =
        poll_in-IsConsistent t u snap (record m { last_snapshot = some snap }) m.dispatch_task refl
          f on

-- The end of `stop` leaves no task.
ended-Fits : (phase : Phase) (m : Monitor) → IsConsistent phase (end_dispatched m)
unfolding end_dispatched
ended-Fits phase m = is_monitoring

-- In every state that is reached, also while a call of `stop` waits for the task that it cancelled, a task is out
-- exactly while the daemon is dispatching or preempting; its token is the current one, its flag is up exactly
-- while the daemon is preempting, and while a task is out the loop runs exactly if no such call waits. Neither
-- `start` nor another `stop` is called during that wait.
pub Reached-IsConsistent : {phase : Phase} {m : Monitor} → Reached phase m → IsConsistent phase m
unfolding init begin_loop stop_rest
Reached-IsConsistent (created settings) = is_stopped
Reached-IsConsistent (started {m} now r) = start-IsConsistent now m (Reached-IsConsistent r)
Reached-IsConsistent (looped {m} r e) =
    fits (begin_loop m) refl (looped-Fits m m.dispatch_task e (Reached-IsConsistent r))
Reached-IsConsistent (polled {m} now t u snap r on) =
    poll_once-IsConsistent now t u snap m on (Reached-IsConsistent r)
Reached-IsConsistent (ended {phase} {m} d r e) = ended-Fits phase m
Reached-IsConsistent (stop_called {m} r on) = stop_loop-IsConsistent m (Reached-IsConsistent r)
Reached-IsConsistent (stop_returned r) = is_stopped
