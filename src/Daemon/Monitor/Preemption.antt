-- ===== src/Daemon/Monitor/Preemption.antt =====
-- When src/lumina/daemon/resource_monitor.py makes a task yield, and when it sends one out.
use Prim.Native.Nat.{◌-◌}
use mathlib.Core.Path.{subst}
use mathlib.Core.Bool.{false≢true}
use lumina_framework.Base.{
  ℕ, ◌≤◌, Bool, true, false, some, err, ◌≡◌, ◌↔◌, ◌⊎◌, refl, sym, ◌∙◌, if◌then◌else◌, ltb, leb,
  arith, Bool-cases, inl, inr, ok-ne-err,
}
use lumina_framework.Daemon.Monitor.{
  DaemonState, stopped_state, starting, monitoring, idle_detected, dispatching, preempting,
  task_preempted, LoadSnapshot, Dispatch, Monitor, checkpoint, preempt, poll_in, poll_once,
  request_yield,
}
use lumina_framework.Daemon.Monitor.States.{running, Reached, IsFlagged, going, yielding, Fits}
use lumina_framework.Daemon.Monitor.Consistent.{Reached-IsConsistent, preempt-out}

checkpoint_iff :
    (token : ℕ) (m : Monitor)
    → (checkpoint token m ≡ err task_preempted) ↔ (m.requested token ≡ true)
unfolding checkpoint
checkpoint_iff token m = elim (Bool-cases (m.requested token)) [
  | inl t ↦ (λ _. t, λ _. rw t)
  | inr t ↦ (λ h. absurd (ok-ne-err (rw t at h)), λ h. absurd (false≢true (sym t ∙ h)))
]

-- A poll that is past the grace period, with a task out.
preempt_out :
    (m : Monitor) (token : ℕ) (late : Bool)
    → ((if late then request_yield token (record m { state = preempting }) else m).requested token
        ≡ true)
      ↔ (m.requested token ≡ true) ⊎ (late ≡ true)
unfolding request_yield
preempt_out m token true = (λ h. inr refl, λ h. ground arith)
preempt_out m token false = (λ h. inl h, λ h. elim h [ inl k ↦ k | inr k ↦ absurd (false≢true k) ])

poll_in_out :
    (t u : ℕ) (snap : LoadSnapshot) (m : Monitor) (d : Dispatch) (s : DaemonState) (flag : Bool)
    → IsFlagged s flag
    → flag ≡ m.requested d.token
    → ((poll_in s (some d.token) t u snap m).dispatch_task ≡ m.dispatch_task)
      × (((poll_in s (some d.token) t u snap m).requested d.token ≡ true)
          ↔ (m.requested d.token ≡ true) ⊎ (leb m.settings.busy_threshold snap.load_score ≡ true))
unfolding poll_in preempt
poll_in_out t u snap m d dispatching false going e = (
  preempt-out d.token m (leb m.settings.busy_threshold snap.load_score),
  preempt_out m d.token (leb m.settings.busy_threshold snap.load_score),
)
poll_in_out t u snap m d preempting true yielding e = (refl, (λ h. inl h, λ h. sym e))
poll_in_out t u snap m d stopped_state flag x e = elim x [ ]
poll_in_out t u snap m d starting flag x e = elim x [ ]
poll_in_out t u snap m d monitoring flag x e = elim x [ ]
poll_in_out t u snap m d idle_detected flag x e = elim x [ ]
poll_in_out t u snap m d dispatching true x e = elim x [ ]
poll_in_out t u snap m d preempting false x e = elim x [ ]

-- What a poll leaves of the task that is out and of its flag.
abbrev Leaves : Monitor → Dispatch → Bool → LoadSnapshot → Monitor → Type 0
Leaves m d early snap after =
    (after.dispatch_task ≡ m.dispatch_task)
    × ((after.requested d.token ≡ true)
        ↔ (m.requested d.token ≡ true)
          ⊎ ((early ≡ false) × (leb m.settings.busy_threshold snap.load_score ≡ true)))

poll_once-Leaves :
    (now t u : ℕ) (snap : LoadSnapshot) (m : Monitor) (d : Dispatch)
    → Fits running m (some d)
    → Leaves m d (ltb (now - m.started_at) m.settings.grace_period) snap (poll_once now t u snap m)
unfolding poll_once
poll_once-Leaves now t u snap m d (current, _, flagged, _) =
    go (ltb (now - m.started_at) m.settings.grace_period)
  where
    go :
        (early : Bool)
        → Leaves m d early snap (
            if early
            then record m { last_snapshot = some snap }
            else poll_in m.state m.current_token t u snap (record m { last_snapshot = some snap }))
    go true =
        (refl, (λ h. inl h, λ h. elim h [ inl k ↦ k | inr (a, _) ↦ absurd (false≢true (sym a)) ]))
    go false =
        let sampled : Monitor = record m { last_snapshot = some snap } in
        let (same, (to, from)) =
          poll_in_out t u snap sampled d m.state (m.requested d.token) flagged refl in
        subst (λ token. Leaves m d false snap (poll_in m.state token t u snap sampled))
          (sym current)
          (
            same,
            (
              λ h. elim (to h) [ inl k ↦ inl k | inr k ↦ inr (refl, k) ],
              λ h. from (elim h [ inl k ↦ inl k | inr (_, k) ↦ inr k ]),
            ),
          )

-- In a state that is reached, with a task out, a poll sends out no other one; after it the task's next checkpoint
-- raises exactly if it would have raised before, or the poll is past the grace period and its load reaches the
-- busy threshold.
pub poll_once_yield :
    {m : Monitor} (now t u : ℕ) (snap : LoadSnapshot) (d : Dispatch)
    → Reached running m
    → m.dispatch_task ≡ some d
    → ((poll_once now t u snap m).dispatch_task ≡ some d)
      × ((checkpoint d.token (poll_once now t u snap m) ≡ err task_preempted)
          ↔ (checkpoint d.token m ≡ err task_preempted)
            ⊎ ((m.settings.grace_period ≤ now - m.started_at)
                × (m.settings.busy_threshold ≤ snap.load_score)))
poll_once_yield {m} now t u snap d reached out =
    let (same, (to, from)) =
      poll_once-Leaves now t u snap m d
        (subst (Fits running m) out (Reached-IsConsistent reached)) in
    let (flag, raise) = checkpoint_iff d.token m in
    let (flag_after, raise_after) = checkpoint_iff d.token (poll_once now t u snap m) in
    (
      same ∙ out,
      (
        λ h. elim (to (flag_after h)) [
          | inl k ↦ inl (raise k)
          | inr (a, b) ↦ inr (ground (arith, a), ground (arith, b))
        ],
        λ h. raise_after (
            from (elim h [
              | inl k ↦ inl (flag k)
              | inr (a, b) ↦ inr (ground (arith, a), ground (arith, b))
            ])),
      ),
    )
