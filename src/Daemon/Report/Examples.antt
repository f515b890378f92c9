-- ===== src/Daemon/Report/Examples.antt =====
-- Tests of the model of src/lumina/daemon/report.py, and its theorems at one proposal.
use mathlib.Core.List.{Memᴰ}
use mathlib.Core.Bool.{false≢true}
use lumina_framework.Base.{eq_iff, ℕ, String, [], ◌∷◌, ◌≡◌, ◌≢◌, ◌↔◌, refl}
use lumina_framework.Base.Dict.{get, put}
use lumina_framework.Daemon.Report.{
  Proposal, is_decision, is_approval, all_approved, approved_status, decide,
}
use lumina_framework.Daemon.Report.Approvals.{
  decide_all, HaveApproved, decide_all-approved_iff, reject-approve,
}

abbrev synonym : Proposal ℕ
synonym = record {
  proposal_id = "p1";
  task = "cross_domain_synonym";
  domain_id = "math";
  proposal_type = "cross_domain_similarity";
  summary = "";
  detail = [];
  status = "pending";
  required_approvers = "math" ∷ "physics" ∷ [];
  approvals = [];
}

both_approve :
    (decide_all (("math", "approved") ∷ ("physics", "approved") ∷ []) synonym).status ≡ "approved"
unfolding decide_all decide approved_status all_approved is_approval get put
both_approve = refl

two_required : synonym.required_approvers ≢ []
two_required h = cc

math_ne_physics : ◌≢◌ {A = String} "math" "physics"
math_ne_physics h = false≢true ((eq_iff "math" "physics").1 h)

decide_all-approved_iff_example :
    ((decide_all (("math", "approved") ∷ ("physics", "approved") ∷ []) synonym).status ≡ "approved")
    ↔ (◌≡◌ {A = String} "approved" "approved")
      × HaveApproved (("math", "approved") ∷ ("physics", "approved") ∷ []) ("math" ∷ "physics" ∷ [])
unfolding is_decision
decide_all-approved_iff_example =
    decide_all-approved_iff synonym (("math", "approved") ∷ []) "physics" "approved" refl
      two_required refl

reject-approve_example :
    ((decide "math" "rejected" synonym).status ≡ "rejected")
    × ((decide "physics" "approved" (decide "math" "rejected" synonym)).status ≡ "pending")
reject-approve_example = reject-approve synonym "math" "physics" (Memᴰ.head refl) math_ne_physics
