-- ===== src/Daemon/Scheduler/Review.antt =====
-- The pending proposals of src/lumina/daemon/scheduler.py and their resolution.
use lumina_framework.Base.{
  String, Bool, true, false, ◌&&◌, ◌||◌, Option, none, some, List, [], ◌∷◌, ◌++◌, str_eq,
  if◌then◌else◌,
}
use lumina_framework.Base.Select.{filter}
use lumina_framework.Daemon.Report.{Proposal, TaskResult, DaemonReport, is_decision, decide}
use lumina_framework.Daemon.Scheduler.{Scheduler}

module _ {J : Type 0} where
  -- `not domain_id or p.domain_id == domain_id`
  abbrev pub of_domain : Option String → Proposal J → Bool
  of_domain none p = true
  of_domain (some id) p = str_eq id "" || str_eq p.domain_id id

  abbrev pub is_pending : Option String → Proposal J → Bool
  is_pending domain_id p = str_eq p.status "pending" && of_domain domain_id p

  unfoldable pub pending_in_results : Option String → List (TaskResult J) → List (Proposal J)
  unfolding filter
  pending_in_results domain_id [] = []
  pending_in_results domain_id (r ∷ rs) =
      filter (is_pending domain_id) r.proposals ++ pending_in_results domain_id rs

  unfoldable pub pending_in_runs : Option String → List (DaemonReport J) → List (Proposal J)
  unfolding pending_in_results
  pending_in_runs domain_id [] = []
  pending_in_runs domain_id (r ∷ rs) =
      pending_in_results domain_id r.task_results ++ pending_in_runs domain_id rs

  unfoldable pub get_pending_proposals : Option String → Scheduler J → List (Proposal J)
  unfolding pending_in_runs
  get_pending_proposals domain_id s = pending_in_runs domain_id s.runs

  unfoldable pub resolved : Option String → String → Proposal J → Proposal J
  unfolding decide
  resolved none action p = record p { status = action }
  resolved (some domain_id) action p = elim p.required_approvers [
    | [] ↦ record p { status = action }
    | _ ∷ _ ↦
        if str_eq domain_id "" then record p { status = action } else decide domain_id action p
  ]

  -- The loops with their early return: the first proposal of the id, and whether there is one.
  unfoldable pub resolve_in :
      String → String → Option String → List (Proposal J) → List (Proposal J) × Bool
  unfolding resolved
  resolve_in id action domain_id [] = ([], false)
  resolve_in id action domain_id (p ∷ ps) =
      let rest = resolve_in id action domain_id ps in
      if str_eq p.proposal_id id
      then (resolved domain_id action p ∷ ps, true)
      else (p ∷ rest.0, rest.1)

  unfoldable pub resolve_in_results :
      String → String → Option String → List (TaskResult J) → List (TaskResult J) × Bool
  unfolding resolve_in
  resolve_in_results id action domain_id [] = ([], false)
  resolve_in_results id action domain_id (r ∷ rs) =
      let (ps, found) = resolve_in id action domain_id r.proposals in
      let rest = resolve_in_results id action domain_id rs in
      if found then (record r { proposals = ps } ∷ rs, true) else (r ∷ rest.0, rest.1)

  unfoldable pub resolve_in_runs :
      String → String → Option String → List (DaemonReport J) → List (DaemonReport J) × Bool
  unfolding resolve_in_results
  resolve_in_runs id action domain_id [] = ([], false)
  resolve_in_runs id action domain_id (r ∷ rs) =
      let (results, found) = resolve_in_results id action domain_id r.task_results in
      let rest = resolve_in_runs id action domain_id rs in
      if found then (record r { task_results = results } ∷ rs, true) else (r ∷ rest.0, rest.1)

  unfoldable pub resolve_proposal :
      String → String → Option String → Scheduler J → Scheduler J × Bool
  unfolding is_decision resolve_in_runs
  resolve_proposal id action domain_id s =
      if is_decision action
      then (let (runs, found) = resolve_in_runs id action domain_id s.runs in
          (record s { runs = runs }, found))
      else (s, false)
