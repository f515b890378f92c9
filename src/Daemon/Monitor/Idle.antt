-- ===== src/Daemon/Monitor/Idle.antt =====
-- When src/lumina/daemon/resource_monitor.py sends a task out.
use Prim.Native.Nat.{◌-◌, ◌%◌}
use lumina_framework.Base.{ℕ, ◌≤◌, true, some, ◌≡◌, ◌⊎◌, length, get_or}
use lumina_framework.Daemon.Monitor.{LoadSnapshot, Dispatch, Monitor, get_elem?}
use lumina_framework.Daemon.Monitor.States.{running}
use lumina_framework.Daemon.Monitor.IdleTime.{IdleSince}

-- What is known of a dispatch, but for the grace period.
abbrev IsDue : ℕ → ℕ → LoadSnapshot → Monitor → Dispatch → Type 0
IsDue t u snap m d =
    (snap.is_idle ≡ true)
    × (m.settings.idle_sustain ≤ u - get_or m.idle_since t)
    × (get_elem? m.settings.task_priority (m.task_index % length m.settings.task_priority)
        ≡ some d.name)

-- The idle time has lasted: it begins with the poll, or it began at a reading and goes on.
abbrev pub HasLasted : ℕ → ℕ → Monitor → Type 0
HasLasted t u m =
    (m.settings.idle_sustain ≤ u - t)
    ⊎ ((v : ℕ) × IdleSince v running m × (m.settings.idle_sustain ≤ u - v))
