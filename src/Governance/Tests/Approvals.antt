-- ===== src/Governance/Tests/Approvals.antt =====
-- The theorems on app/governance/approval_workflow.py at concrete records, in repositories that keep lists.

use ai_risk_engine.Base.{arith, ◌≡◌, refl, ◌≢◌, true, false, eq_iff, none, some, List, [], ◌∷◌}
use ai_risk_engine.Exec.{ok}
use ai_risk_engine.Security.Rbac.{Role, admin, approver, viewer, check_permission}
use ai_risk_engine.Security.Access.{Granted}
use ai_risk_engine.Governance.Audit.{Stores, AuditRecord, log_action}
use ai_risk_engine.Governance.Approval
use ai_risk_engine.Governance.Approval.{
  ApprovalRequest, Decision, Submission, approve, reject, request_approval, require_pending,
  submitted, run_verdicts, decided,
}
use ai_risk_engine.Governance.Approval.Decided.{Decided, approve-Decided}
use ai_risk_engine.Governance.Approval.Final.{
  Requested, decisions_are_final, request_approval-Requested,
}
use ai_risk_engine.Governance.InMemory.{trail_repository, request_repository, find_request}

abbrev question : Submission
question = record {
  request_id = "q1";
  resource_type = "risk_event";
  resource_id = "e1";
  requested_by = "ana";
  tenant_id = "acme";
  correlation_id = "c1";
  reason = none;
  now = 5;
  logged = 6;
}

abbrev open_request : ApprovalRequest
open_request = record {
  request_id = "q1";
  resource_type = "risk_event";
  resource_id = "e1";
  requested_by = "ana";
  status = Approval.pending;
  created_at = 5;
  decided_by = none;
  decided_at = none;
  reason = none;
}

abbrev by : Role → Decision
by role = record {
  request_id = "q1";
  role = role;
  decider = "bob";
  tenant_id = "acme";
  correlation_id = "c1";
  reason = some "checked";
  now = 7;
  logged = 8;
}

abbrev closed_request : ApprovalRequest
closed_request = record open_request {
  status = Approval.approved;
  decided_by = some "bob";
  decided_at = some 7;
  reason = some "checked";
}

abbrev asked : Stores (List ApprovalRequest) (List AuditRecord)
asked = record { repo = open_request ∷ []; trail = [] }

abbrev answered : Stores (List ApprovalRequest) (List AuditRecord)
answered = record { repo = closed_request ∷ []; trail = [] }

approve-returns :
    (approve request_repository trail_repository (by approver) asked).0 ≡ ok closed_request
unfolding approve request_repository trail_repository check_permission require_pending decided
    find_request log_action
approve-returns = refl

approve-Decided_example :
    Decided request_repository trail_repository Approval.approved "approval_approved"
      (by approver)
      asked
      (approve request_repository trail_repository (by approver) asked).1
      closed_request
approve-Decided_example =
    approve-Decided request_repository trail_repository (by approver) asked closed_request
      approve-returns

abbrev refused_request : ApprovalRequest
refused_request = record closed_request { status = Approval.rejected }

reject-returns :
    (reject request_repository trail_repository (by admin) asked).0 ≡ ok refused_request
unfolding reject request_repository trail_repository check_permission require_pending decided
    find_request log_action
reject-returns = refl

viewer-not-Granted : ¬ (Granted viewer "approve")
viewer-not-Granted h = let same : false ≡ true = (eq_iff "approve" "view").1 h in ground arith

closed-not_pending :
    (request : ApprovalRequest)
    → some closed_request ≡ some request
    → request.status ≢ Approval.pending
closed-not_pending request e h = ground arith

answered-get : request_repository.get "q1" answered.repo ≡ ok (some closed_request)
unfolding request_repository find_request
answered-get = refl

answered-stored : request_repository.stored "q1" answered.repo ≡ some closed_request
unfolding request_repository find_request
answered-stored = refl

approved-not_pending : Approval.approved ≢ Approval.pending
approved-not_pending h = cc

decisions_are_final_example :
    request_repository.stored "q1"
      (run_verdicts request_repository trail_repository
        (Approval.rejection (by admin) ∷ Approval.approval (by viewer) ∷ [])
        answered).repo
    ≡ some closed_request
decisions_are_final_example =
    decisions_are_final request_repository trail_repository
      (Approval.rejection (by admin) ∷ Approval.approval (by viewer) ∷ []) answered "q1"
      closed_request answered-stored approved-not_pending

request_approval-returns :
    (request_approval request_repository trail_repository question answered).0 ≡ ok open_request
unfolding request_approval request_repository trail_repository submitted log_action
request_approval-returns = refl

-- the request had been approved, and is pending again
request_approval-Requested_example :
    Requested request_repository trail_repository question answered
      (request_approval request_repository trail_repository question answered).1
      open_request
request_approval-Requested_example =
    request_approval-Requested request_repository trail_repository question answered open_request
      request_approval-returns
