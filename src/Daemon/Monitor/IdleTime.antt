-- ===== src/Daemon/Monitor/IdleTime.antt =====
-- The idle time of src/lumina/daemon/resource_monitor.py: what begins it and what ends it, and that the stored start is
-- the start of it.
use Prim.Native.Nat.{◌-◌, ◌%◌}
use mathlib.Core.Path.{subst}
use lumina_framework.Base.{
  ℕ, ◌≤◌, ◌<◌, String, Bool, true, false, Option, none, some, List, [], ◌∷◌, ◌≡◌, ◌≢◌, ◌⊎◌, refl,
  sym, ap, ◌∙◌, if◌then◌else◌, ltb, leb, length, get_or, arith, inl, inr,
}
use lumina_framework.Base.Select.{some_injective}
use lumina_framework.Daemon.Monitor.{
  DaemonState, stopped_state, starting, monitoring, idle_detected, dispatching, preempting,
  LoadSnapshot, Dispatch, Monitor, init, start, begin_loop, end_dispatched, stop_loop, stop_rest,
  get_elem?, dispatch, dispatch_of, dispatch_next_task, track_idle, track_busy, preempt, poll_in,
  poll_once, request_yield,
}
use lumina_framework.Daemon.Monitor.States.{
  Phase, running, stopping, Reached, created, started, looped, polled, ended, stop_called,
  stop_returned, IsFlagged, going, yielding, Fits, IsConsistent,
}
use lumina_framework.Daemon.Monitor.Consistent.{Reached-IsConsistent, quiet_tracks}

-- A poll that does not look at whether its snapshot is idle: within the grace period, or with a task out.
abbrev pub IsBlind : ℕ → Monitor → Type 0
IsBlind now m =
    (now - m.started_at < m.settings.grace_period) ⊎ ((d : Dispatch) × (m.dispatch_task ≡ some d))

-- The idle time that began at the reading `v`, by an idle poll where none had begun, and was ended neither by the end
-- of a task nor by a poll that looked and was not idle; a stop and a start do not end it.
pub data IdleSince : ℕ → Phase → Monitor → Type 0 where
  began :
      (m : Monitor) (now t u : ℕ) (snap : LoadSnapshot)
      → m.settings.grace_period ≤ now - m.started_at
      → m.dispatch_task ≡ none
      → m.idle_since ≡ none
      → snap.is_idle ≡ true
      → IdleSince t running (poll_once now t u snap m)
  idle_poll :
      {v : ℕ} (m : Monitor) (now t u : ℕ) (snap : LoadSnapshot)
      → IdleSince v running m
      → snap.is_idle ≡ true
      → IdleSince v running (poll_once now t u snap m)
  blind_poll :
      {v : ℕ} (m : Monitor) (now t u : ℕ) (snap : LoadSnapshot)
      → IdleSince v running m
      → IsBlind now m
      → IdleSince v running (poll_once now t u snap m)
  over_start :
      {v : ℕ} (m : Monitor) (now : ℕ) → IdleSince v running m → IdleSince v running (start now m)
  over_loop : {v : ℕ} (m : Monitor) → IdleSince v running m → IdleSince v running (begin_loop m)
  over_stop : {v : ℕ} (m : Monitor) → IdleSince v running m → IdleSince v stopping (stop_loop m)
  over_rest : {v : ℕ} (m : Monitor) → IdleSince v stopping m → IdleSince v running (stop_rest m)

pub none_ne_some : {A : Type 0} {o : Option A} {a : A} → o ≡ none → o ≢ some a
none_ne_some e h = no (sym e ∙ h)
  where
    no : {A : Type 0} {a : A} → ◌≢◌ {A = Option A} none (some a)
    no h = cc

start-idle_since : (now : ℕ) (m : Monitor) → (start now m).idle_since ≡ m.idle_since
unfolding start
start-idle_since now m = go m.has_task m.settings.is_enabled
  where
    go :
        (has enabled : Bool)
        → (if has
            then m
            else if enabled
            then record m { state = starting; started_at = now; has_task = true }
            else m).idle_since
          ≡ m.idle_since
    go true enabled = refl
    go false true = refl
    go false false = refl

dispatch-idle_since : (o : Option String) (m : Monitor) → (dispatch o m).idle_since ≡ m.idle_since
unfolding dispatch
dispatch-idle_since none m = refl
dispatch-idle_since (some name) m = refl

dispatch_of-idle_since :
    (names : List String) (runner : Bool) (m : Monitor)
    → (dispatch_of names runner m).idle_since ≡ m.idle_since
unfolding dispatch_of
dispatch_of-idle_since [] runner m = refl
dispatch_of-idle_since (x ∷ xs) false m = refl
dispatch_of-idle_since (x ∷ xs) true m =
    dispatch-idle_since (get_elem? (x ∷ xs) (m.task_index % length (x ∷ xs))) m

track_idle-idle_since :
    (t u : ℕ) (m : Monitor) → (track_idle t u m).idle_since ≡ some (get_or m.idle_since t)
unfolding track_idle dispatch_next_task
track_idle-idle_since t u m = go (leb m.settings.idle_sustain (u - get_or m.idle_since t))
  where
    go :
        (long : Bool)
        → (if long
            then dispatch_next_task
                (record m { idle_since = some (get_or m.idle_since t); state = idle_detected })
            else record m { idle_since = some (get_or m.idle_since t) }).idle_since
          ≡ some (get_or m.idle_since t)
    go true =
        dispatch_of-idle_since m.settings.task_priority m.settings.has_runner
          (record m { idle_since = some (get_or m.idle_since t); state = idle_detected })
    go false = refl

track_busy-idle_since : (s : DaemonState) (m : Monitor) → (track_busy s m).idle_since ≡ none
unfolding track_busy
track_busy-idle_since stopped_state m = refl
track_busy-idle_since starting m = refl
track_busy-idle_since monitoring m = refl
track_busy-idle_since idle_detected m = refl
track_busy-idle_since dispatching m = refl
track_busy-idle_since preempting m = refl

-- What a poll that looks leaves as the start of the idle time.
track-idle_since :
    (t u : ℕ) (m : Monitor) (s : DaemonState) (idle : Bool) {v : ℕ}
    → (if idle then track_idle t u m else track_busy s m).idle_since ≡ some v
    → (idle ≡ true) × (v ≡ get_or m.idle_since t)
track-idle_since t u m s true h = (refl, some_injective (sym h ∙ track_idle-idle_since t u m))
track-idle_since t u m s false h = absurd (none_ne_some (track_busy-idle_since s m) h)

preempt-idle_since :
    (token : ℕ) (m : Monitor) (long : Bool)
    → (if long then request_yield token (record m { state = preempting }) else m).idle_since
      ≡ m.idle_since
unfolding request_yield
preempt-idle_since token m true = refl
preempt-idle_since token m false = refl

poll_out-idle_since :
    (t u : ℕ) (snap : LoadSnapshot) (m : Monitor) (d : Dispatch) (s : DaemonState) (flag : Bool)
    → IsFlagged s flag
    → (poll_in s (some d.token) t u snap m).idle_since ≡ m.idle_since
unfolding poll_in preempt
poll_out-idle_since t u snap m d dispatching false going =
    preempt-idle_since d.token m (leb m.settings.busy_threshold snap.load_score)
poll_out-idle_since t u snap m d preempting true yielding = refl
poll_out-idle_since t u snap m d stopped_state flag x = elim x [ ]
poll_out-idle_since t u snap m d starting flag x = elim x [ ]
poll_out-idle_since t u snap m d monitoring flag x = elim x [ ]
poll_out-idle_since t u snap m d idle_detected flag x = elim x [ ]
poll_out-idle_since t u snap m d dispatching true x = elim x [ ]
poll_out-idle_since t u snap m d preempting false x = elim x [ ]

-- A poll keeps the start of the idle time and is blind or idle, or sets it as an idle poll that looks.
abbrev Outcome : ℕ → ℕ → LoadSnapshot → Monitor → ℕ → Type 0
Outcome now t snap m v =
    ((m.idle_since ≡ some v) × IsBlind now m)
    ⊎ ((m.settings.grace_period ≤ now - m.started_at)
        × (m.dispatch_task ≡ none)
        × (snap.is_idle ≡ true)
        × (v ≡ get_or m.idle_since t))

poll_in-idle_since :
    (now t u : ℕ) (snap : LoadSnapshot) (m : Monitor) (o : Option Dispatch) {v : ℕ}
    → m.settings.grace_period ≤ now - m.started_at
    → m.dispatch_task ≡ o
    → Fits running m o
    → (poll_in m.state m.current_token t u snap m).idle_since ≡ some v
    → Outcome now t snap m v
poll_in-idle_since now t u snap m none late e f h =
    let tracked =
      ap (λ (x : Monitor). x.idle_since) (quiet_tracks t u snap m m.state m.current_token f refl) in
    let (idle, at) = track-idle_since t u m m.state snap.is_idle (tracked ∙ h) in
    inr (late, e, idle, at)
poll_in-idle_since now t u snap m (some d) {v} late e f h =
    let kept = poll_out-idle_since t u snap m d m.state (m.requested d.token) f.2 in
    inl (
      sym kept ∙ subst (λ token. (poll_in m.state token t u snap m).idle_since ≡ some v) f.0 h,
      inr (d, e),
    )

poll_once-idle_since :
    (now t u : ℕ) (snap : LoadSnapshot) (m : Monitor) {v : ℕ}
    → IsConsistent running m
    → (poll_once now t u snap m).idle_since ≡ some v
    → Outcome now t snap m v
unfolding poll_once
poll_once-idle_since now t u snap m {v} f h =
    go (ltb (now - m.started_at) m.settings.grace_period) refl h
  where
    go :
        (early : Bool)
        → ltb (now - m.started_at) m.settings.grace_period ≡ early
        → (if early
            then record m { last_snapshot = some snap }
            else poll_in m.state m.current_token t u snap
                (record m { last_snapshot = some snap })).idle_since
          ≡ some v
        → Outcome now t snap m v
    go true early h = inl (h, inl (ground (arith, early)))
    go false late h =
        poll_in-idle_since now t u snap (record m { last_snapshot = some snap }) m.dispatch_task
          (ground (arith, late)) refl f h

polled-IdleSince :
    (now t u : ℕ) (snap : LoadSnapshot) (m : Monitor) (o : Option ℕ) {v : ℕ}
    → m.idle_since ≡ o
    → ((w : ℕ) → m.idle_since ≡ some w → IdleSince w running m)
    → Outcome now t snap m v
    → IdleSince v running (poll_once now t u snap m)
polled-IdleSince now t u snap m o e known (inl (kept, blind)) =
    blind_poll m now t u snap (known _ kept) blind
polled-IdleSince now t u snap m none e known (inr (late, out, idle, at)) =
    subst (λ v. IdleSince v running (poll_once now t u snap m)) (sym (at ∙ ap (λ o. get_or o t) e))
      (began m now t u snap late out e idle)
polled-IdleSince now t u snap m (some w) e known (inr (late, out, idle, at)) =
    subst (λ v. IdleSince v running (poll_once now t u snap m)) (sym (at ∙ ap (λ o. get_or o t) e))
      (idle_poll m now t u snap (known w e) idle)

pub Reached-IdleSince :
    {phase : Phase} {m : Monitor}
    → Reached phase m
    → (v : ℕ) → m.idle_since ≡ some v
    → IdleSince v phase m
unfolding init end_dispatched begin_loop stop_loop stop_rest
Reached-IdleSince (created settings) v h = cc
Reached-IdleSince (started {m} now r) v h =
    over_start m now (Reached-IdleSince r v (sym (start-idle_since now m) ∙ h))
Reached-IdleSince (looped {m} r e) v h = over_loop m (Reached-IdleSince r v h)
Reached-IdleSince (polled {m} now t u snap r on) v h =
    polled-IdleSince now t u snap m m.idle_since refl (Reached-IdleSince r)
      (poll_once-idle_since now t u snap m (Reached-IsConsistent r) h)
Reached-IdleSince (ended d r e) v h = cc
Reached-IdleSince (stop_called {m} r on) v h = over_stop m (Reached-IdleSince r v h)
Reached-IdleSince (stop_returned {m} r) v h = over_rest m (Reached-IdleSince r v h)
