-- ===== src/Daemon/Scheduler/Examples.antt =====
-- Tests of the model of src/lumina/daemon/scheduler.py, and its theorems at one scheduler.
use mathlib.Core.List.{Memᴰ}
use lumina_framework.Base.{
  ℕ, ◌≤◌, String, true, none, some, List, [], ◌∷◌, ok, err, ◌≡◌, ◌≢◌, ◌↔◌, refl, arith, length,
  elem,
}
use lumina_framework.Base.Dict.{get}
use lumina_framework.Base.Counting.{count}
use lumina_framework.Base.Select.{filter}
use lumina_framework.Daemon.Report.{
  Proposal, TaskResult, DaemonReport, new_report, finish, is_decision,
}
use lumina_framework.Daemon.Scheduler.{Config, Scheduler, Env, max_duration, max_history}
use lumina_framework.Daemon.Scheduler.Batch.{
  caught, run_task, until, cross_results, all_results, load_domains, loaded, selected_domains,
  domains_or, batch,
}
use lumina_framework.Daemon.Scheduler.Execute.{
  shorten, release_run, conclude, execute_when, execute,
}
use lumina_framework.Daemon.Scheduler.Review.{
  get_pending_proposals, pending_in_runs, pending_in_results, resolve_proposal, resolve_in_runs,
  resolve_in_results, resolve_in, resolved,
}
use lumina_framework.Daemon.Scheduler.Prefix.{IsBatch, batch-IsBatch}
use lumina_framework.Daemon.Scheduler.History.{
  Reached, IsRecorded, Reached-length, execute_busy, execute-IsRecorded, execute-err_iff,
}
use lumina_framework.Daemon.Scheduler.Found.{proposal_ids, resolve_proposal-pending}
use lumina_framework.Daemon.Scheduler.Flat.{proposals_in, proposals_of}

abbrev config : Config
config = record {
  enabled = some true;
  tasks = some ("glossary" ∷ "broken" ∷ "missing" ∷ []);
  max_duration_minutes = none;
  schedule = none;
}

abbrev idle : Scheduler ℕ
idle = record { config = config; runs = []; current_run = none }

abbrev proposal : Proposal ℕ
proposal = record {
  proposal_id = "p1";
  task = "glossary";
  domain_id = "math";
  proposal_type = "glossary_add";
  summary = "";
  detail = [];
  status = "pending";
  required_approvers = [];
  approvals = [];
}

abbrev glossary_result : String → TaskResult ℕ
glossary_result id = record {
  task = "glossary";
  domain_id = id;
  success = true;
  duration = 1;
  error = none;
  proposals = proposal ∷ [];
  metadata = [];
}

abbrev env : Env ℕ
env = record {
  tasks =
      ("glossary", λ id physics. ok (glossary_result id))
      ∷ ("broken", λ id physics. err "boom")
      ∷ [];
  cross_domain_tasks = [];
  loader = some (ok (record { domain_id = some "math"; physics = none } ∷ []));
  clock = λ i. i;
  finished_at = "noon";
  empty = 0;
}

abbrev report : DaemonReport ℕ
report = new_report "r1" "morning" "ann"

abbrev results : List (TaskResult ℕ)
results = glossary_result "math" ∷ caught "broken" "math" (err "boom") ∷ []

abbrev done : DaemonReport ℕ
done = finish "noon" (record report { task_results = results })

abbrev names : List String
names = "glossary" ∷ "broken" ∷ "missing" ∷ []

batch-results : batch env 1000 names (some ("math" ∷ [])) ≡ ok results
unfolding batch load_domains loaded selected_domains domains_or filter elem all_results until
    run_task caught cross_results get
batch-results = refl

run_fails : (execute env report names none idle).1 ≡ ok done
unfolding execute execute_when conclude batch load_domains loaded selected_domains domains_or
    all_results until run_task caught cross_results get new_report finish max_duration release_run
    shorten
run_fails = refl

abbrev after : Scheduler ℕ
after = record { config = config; runs = done ∷ []; current_run = none }

pending_there : Memᴰ proposal (get_pending_proposals none after)
unfolding get_pending_proposals pending_in_runs pending_in_results filter finish new_report caught
pending_there = Memᴰ.head refl

batch-IsBatch_example : IsBatch env 1000 names (some ("math" ∷ [])) results
batch-IsBatch_example = batch-IsBatch env 1000 names (some ("math" ∷ [])) results batch-results

execute-IsRecorded_example : IsRecorded report done (execute env report names none idle).0
execute-IsRecorded_example = execute-IsRecorded env report names none idle refl run_fails

abbrev offline : Env ℕ
offline = record env { loader = some (err "offline") }

execute-err_iff_example :
    (((execute offline report names none idle).1 ≡ err "offline")
      ↔ (idle.current_run ≡ none) × (offline.loader ≡ some (err "offline")))
    × ((execute offline report names none idle).1 ≡ err "offline"
        → (execute offline report names none idle).0
          ≡ record idle { current_run = none; runs = shorten (report ∷ idle.runs) })
execute-err_iff_example = execute-err_iff offline report names none idle "offline"

abbrev busy : Scheduler ℕ
busy = record idle { current_run = some report }

execute_busy_example :
    (done : DaemonReport ℕ) × (execute env report names none busy ≡ (busy, ok done))
    × (done.task_results ≡ [])
    × (done.status ≡ "completed")
unfolding new_report
execute_busy_example = execute_busy env report names none busy refl refl

Reached-length_example : length (release_run done busy).runs ≤ max_history
Reached-length_example =
    Reached-length
      (Reached.released report done (Reached.started report (Reached.created config) refl) refl)

abbrev other : Proposal ℕ
other = record proposal { proposal_id = "p2" }

abbrev after_two : Scheduler ℕ
after_two = record idle {
  runs =
      record report {
        task_results = record (glossary_result "math") { proposals = proposal ∷ other ∷ [] } ∷ [];
      }
      ∷ [];
}

other_pending :
    Memᴰ other (get_pending_proposals none (resolve_proposal "p1" "approved" none after_two).0)
unfolding get_pending_proposals pending_in_runs pending_in_results filter resolve_proposal
    is_decision resolve_in_runs resolve_in_results resolve_in resolved new_report
other_pending = Memᴰ.head refl

p1_once : count "p1" (proposal_ids (proposals_of after_two.runs)) ≤ 1
unfolding proposals_of proposals_in new_report count
p1_once = omega arith

resolve_proposal-pending_example : ◌≢◌ {A = String} "p2" "p1"
unfolding is_decision
resolve_proposal-pending_example =
    resolve_proposal-pending "p1" "approved" none after_two other refl p1_once other_pending
