-- ===== src/Daemon/Monitor/Examples.antt =====
-- Tests of the model of src/lumina/daemon/resource_monitor.py, and its theorems at one monitor.
use Prim.Native.Nat.{◌-◌}
use lumina_framework.Base.{◌≤◌, true, false, some, [], ◌∷◌, err, ◌≡◌, ◌↔◌, ◌⊎◌, refl}
use lumina_framework.Daemon.Monitor.{
  task_preempted, LoadSnapshot, Settings, Dispatch, Monitor, init, start, begin_loop, stop_loop,
  checkpoint, get_elem?, dispatch, dispatch_of, dispatch_next_task, track_idle, track, preempt,
  poll_in, poll_once, request_yield,
}
use lumina_framework.Daemon.Monitor.States
use lumina_framework.Daemon.Monitor.States.{
  Reached, created, started, looped, polled, stop_called, IsConsistent,
}
use lumina_framework.Daemon.Monitor.Consistent.{Reached-IsConsistent}
use lumina_framework.Daemon.Monitor.Preemption.{poll_once_yield}

abbrev settings : Settings
settings = record {
  task_priority = "glossary" ∷ "prune" ∷ [];
  has_runner = true;
  idle_sustain = 5;
  busy_threshold = 400000;
  grace_period = 10;
  is_enabled = true;
}

abbrev quiet : LoadSnapshot
quiet = record { load_score = 50000; is_idle = true }

abbrev spike : LoadSnapshot
spike = record { load_score = 900000; is_idle = false }

abbrev watching : Monitor
watching = begin_loop (start 0 (init settings))

abbrev waiting : Monitor
waiting = poll_once 10 10 10 quiet watching

abbrev running : Monitor
running = poll_once 20 20 20 quiet waiting

abbrev sent : Dispatch
sent = record { name = "glossary"; token = 0 }

watching-Reached : Reached States.running watching
unfolding start init
watching-Reached = looped (started 0 (created settings)) refl

waiting-Reached : Reached States.running waiting
unfolding begin_loop start init
waiting-Reached = polled 10 10 10 quiet watching-Reached refl

running-Reached : Reached States.running running
unfolding begin_loop start init poll_once poll_in track track_idle
running-Reached = polled 20 20 20 quiet waiting-Reached refl

task_out : running.dispatch_task ≡ some sent
unfolding begin_loop start init poll_once poll_in track track_idle dispatch_next_task dispatch_of
    dispatch get_elem?
task_out = refl

spike_raises : checkpoint 0 (poll_once 21 21 21 spike running) ≡ err task_preempted
unfolding begin_loop start init poll_once poll_in track track_idle dispatch_next_task dispatch_of
    dispatch get_elem? preempt request_yield checkpoint
spike_raises = refl

stopping-Reached : Reached States.stopping (stop_loop running)
unfolding begin_loop start init poll_once poll_in track track_idle dispatch_next_task dispatch_of
    dispatch
stopping-Reached = stop_called running-Reached refl

Reached-IsConsistent_example : IsConsistent States.stopping (stop_loop running)
Reached-IsConsistent_example = Reached-IsConsistent stopping-Reached

poll_once_yield_example :
    ((poll_once 21 21 21 spike running).dispatch_task ≡ some sent)
    × ((checkpoint 0 (poll_once 21 21 21 spike running) ≡ err task_preempted)
        ↔ (checkpoint 0 running ≡ err task_preempted)
          ⊎ ((running.settings.grace_period ≤ 21 - running.started_at)
              × (running.settings.busy_threshold ≤ 900000)))
poll_once_yield_example = poll_once_yield 21 21 21 spike sent running-Reached task_out
