-- ===== src/Daemon/Report.antt =====
-- src/lumina/daemon/report.py. The ids and the times of new records are arguments; details and metadata
-- are of any type. A duration is a number of clock ticks.
pub mod Approvals
mod Examples
use lumina_framework.Base.{
  ℕ, ◌+◌, String, Bool, true, false, ◌&&◌, ◌||◌, Option, none, some, List, [], ◌∷◌, Result, ok, err,
  str_eq, if◌then◌else◌, length,
}
use lumina_framework.Base.Dict.{Dict, get, put}

pub record Proposal (J : Type 0) : Type 0 where
  pub proposal_id : String
  pub task : String
  pub domain_id : String
  pub proposal_type : String
  pub summary : String
  pub detail : Dict J
  pub status : String
  pub required_approvers : List String
  pub approvals : Dict String

pub record TaskResult (J : Type 0) : Type 0 where
  pub task : String
  pub domain_id : String
  pub success : Bool
  pub duration : ℕ
  pub error : Option String
  pub proposals : List (Proposal J)
  pub metadata : Dict J

pub record DaemonReport (J : Type 0) : Type 0 where
  pub run_id : String
  pub started_at : String
  pub finished_at : Option String
  pub triggered_by : String
  pub status : String
  pub task_results : List (TaskResult J)
  pub total_proposals : ℕ

pub data Error : Type 0 where
  invalid_decision : String → Error

-- `d in ("approved", "rejected")`
unfoldable pub is_decision : String → Bool
is_decision d = str_eq d "approved" || str_eq d "rejected"

-- `o == "approved"`
unfoldable pub is_approval : Option String → Bool
is_approval none = false
is_approval (some d) = str_eq d "approved"

unfoldable pub all_approved : Dict String → List String → Bool
unfolding is_approval get
all_approved approvals [] = true
all_approved approvals (did ∷ dids) = is_approval (get did approvals) && all_approved approvals dids

-- The status after an approval.
unfoldable pub approved_status : Dict String → List String → String → String
unfolding all_approved
approved_status approvals [] decision = decision
approved_status approvals (did ∷ dids) decision =
    if all_approved approvals (did ∷ dids) then "approved" else "pending"

module _ {J : Type 0} where
  -- `resolve_approval` of a decision that is one of the two.
  unfoldable pub decide : String → String → Proposal J → Proposal J
  unfolding put approved_status
  decide domain_id decision p = record p {
    approvals = put domain_id decision p.approvals;
    status =
        if str_eq decision "rejected"
        then "rejected"
        else approved_status (put domain_id decision p.approvals) p.required_approvers decision;
  }

  -- The proposal that it leaves; what the method returns is its status.
  unfoldable pub resolve_approval : String → String → Proposal J → Result Error (Proposal J)
  unfolding is_decision decide
  resolve_approval domain_id decision p =
      if is_decision decision
      then ok (decide domain_id decision p)
      else err (invalid_decision decision)

  unfoldable pub new_report : String → String → String → DaemonReport J
  new_report run_id started_at triggered_by = record {
    run_id = run_id;
    started_at = started_at;
    finished_at = none;
    triggered_by = triggered_by;
    status = "running";
    task_results = [];
    total_proposals = 0;
  }

  unfoldable pub all_succeeded : List (TaskResult J) → Bool
  all_succeeded [] = true
  all_succeeded (r ∷ rs) = r.success && all_succeeded rs

  unfoldable pub count_proposals : List (TaskResult J) → ℕ
  count_proposals [] = 0
  count_proposals (r ∷ rs) = length r.proposals + count_proposals rs

  unfoldable pub finish : String → DaemonReport J → DaemonReport J
  unfolding all_succeeded count_proposals
  finish now r = record r {
    finished_at = some now;
    status = if all_succeeded r.task_results then "completed" else "failed";
    total_proposals = count_proposals r.task_results;
  }
