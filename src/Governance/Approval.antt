-- ===== src/Governance/Approval.antt =====
-- Approval requests: app/governance/approval_workflow.py. The two readings of the clock in a call
-- are arguments.
pub mod Decided
pub mod Final
use ai_risk_engine.Base.{
  ℕ, String, ◌≡◌, Bool, true, false, not, Option, none, some, List, [], ◌∷◌, ◌==◌, str_eq,
  if◌then◌else◌,
}
use ai_risk_engine.Python.Text.{f_string}
use ai_risk_engine.Python.Time.{Datetime}
use ai_risk_engine.Python.Value.{Fields, end, field, str}
use ai_risk_engine.Error.{error, invalid_workflow_state_error}
use ai_risk_engine.Exec.{Result, ok, err, Exec, lift, pure, throw, ◌>>=◌, ◌>>◌}
use ai_risk_engine.Security.Rbac.{Role, check_permission}
use ai_risk_engine.Governance.Audit.{
  AuditRepository, LogEntry, log_action, Stores, on_repo, read_repo, on_trail,
}

pub data ApprovalStatus : Type 0 where
  pending approved rejected : ApprovalStatus

unfoldable pub status_value : ApprovalStatus → String
status_value pending = "PENDING"
status_value approved = "APPROVED"
status_value rejected = "REJECTED"

pub record ApprovalRequest : Type 0 where
  pub request_id : String
  pub resource_type : String
  pub resource_id : String
  pub requested_by : String
  pub status : ApprovalStatus
  pub created_at : Datetime
  pub decided_by : Option String
  pub decided_at : Option Datetime
  pub reason : Option String

-- The protocol `ApprovalRepository`, over the state `A` of whatever implements it: requests by
-- their id. Both calls may raise; what is stored under an id has this id, a save touches no other id, and one that returns has stored its
-- request.
pub record ApprovalRepository (A : Type 0) : Type 0 where
  pub save : ApprovalRequest → Exec A (Unit {0})
  pub get : String → A → Result (Option ApprovalRequest)
  pub stored : String → A → Option ApprovalRequest
  pub get_ok : (k : String) (o : Option ApprovalRequest) (a : A) → get k a ≡ ok o → stored k a ≡ o
  pub stored_id :
      (k : String) (r : ApprovalRequest) (a : A) → stored k a ≡ some r → r.request_id ≡ k
  pub save_ok :
      (r : ApprovalRequest) (a : A)
      → (save r a).0 ≡ ok tt
      → stored r.request_id (save r a).1 ≡ some r
  pub save_other :
      (r : ApprovalRequest) (k : String) (a : A)
      → str_eq r.request_id k ≡ false
      → stored k (save r a).1 ≡ stored k a

-- `status != ApprovalStatus.PENDING`
unfoldable pub is_pending : ApprovalStatus → Bool
is_pending pending = true
is_pending approved = false
is_pending rejected = false

abbrev pub not_pending_message : String → ApprovalStatus → String
not_pending_message request_id status =
    f_string ("Request not pending: " ∷ request_id ∷ " (status=" ∷ status_value status ∷ ")" ∷ [])

-- The two guards on what the repository returned.
unfoldable pub require_pending : String → Option ApprovalRequest → Result ApprovalRequest
unfolding is_pending
require_pending request_id none = err (
    error invalid_workflow_state_error
      (f_string ("Approval request not found: " ∷ request_id ∷ [])))
require_pending request_id (some request) =
    if not (is_pending request.status)
    then err (error invalid_workflow_state_error (not_pending_message request_id request.status))
    else ok request

-- The arguments of `request_approval`, with the two readings of the clock.
pub record Submission : Type 0 where
  pub request_id : String
  pub resource_type : String
  pub resource_id : String
  pub requested_by : String
  pub tenant_id : String
  pub correlation_id : String
  pub reason : Option String
  pub now : Datetime
  pub logged : Datetime

-- The request that is stored.
unfoldable pub submitted : Submission → ApprovalRequest
submitted q = record {
  request_id = q.request_id;
  resource_type = q.resource_type;
  resource_id = q.resource_id;
  requested_by = q.requested_by;
  status = pending;
  created_at = q.now;
  decided_by = none;
  decided_at = none;
  reason = q.reason;
}

-- Its audit entry.
unfoldable pub submission_entry : Submission → LogEntry
submission_entry q = record {
  actor = q.requested_by;
  tenant_id = q.tenant_id;
  action = "approval_requested";
  resource_type = q.resource_type;
  resource_id = q.resource_id;
  reason = q.reason;
  correlation_id = q.correlation_id;
  metadata = some (field "request_id" (str q.request_id) end);
}

module _ {A B : Type 0} (repo : ApprovalRepository A) (audit : AuditRepository B) where
  -- `ApprovalWorkflow.request_approval`
  unfoldable pub request_approval : Submission → Exec (Stores A B) ApprovalRequest
  request_approval q = do
    on_repo (repo.save (submitted q))
    on_trail (log_action audit q.logged (submission_entry q))
    pure (submitted q)

-- The arguments of `approve` and `reject`, which differ in their names alone, with the two
-- readings of the clock.
pub record Decision : Type 0 where
  pub request_id : String
  pub role : Role
  pub decider : String
  pub tenant_id : String
  pub correlation_id : String
  pub reason : Option String
  pub now : Datetime
  pub logged : Datetime

-- The request with its decision.
unfoldable pub decided : ApprovalStatus → Decision → ApprovalRequest → ApprovalRequest
decided verdict d request = record {
  request_id = request.request_id;
  resource_type = request.resource_type;
  resource_id = request.resource_id;
  requested_by = request.requested_by;
  status = verdict;
  created_at = request.created_at;
  decided_by = some d.decider;
  decided_at = some d.now;
  reason = d.reason;
}

-- The audit entry of a decision.
unfoldable pub decision_entry : String → Decision → ApprovalRequest → LogEntry
decision_entry action d request = record {
  actor = d.decider;
  tenant_id = d.tenant_id;
  action = action;
  resource_type = request.resource_type;
  resource_id = request.resource_id;
  reason = d.reason;
  correlation_id = d.correlation_id;
  metadata = some (field "request_id" (str d.request_id) end);
}

module _ {A B : Type 0} (repo : ApprovalRepository A) (audit : AuditRepository B) where
  -- `ApprovalWorkflow.approve`
  unfoldable pub approve : Decision → Exec (Stores A B) ApprovalRequest
  approve d = do
    lift (check_permission d.role "approve")
    found ← read_repo (repo.get d.request_id)
    request ← lift (require_pending d.request_id found)
    on_repo (repo.save (decided approved d request))
    on_trail (log_action audit d.logged (decision_entry "approval_approved" d request))
    pure (decided approved d request)

  -- `ApprovalWorkflow.reject`
  unfoldable pub reject : Decision → Exec (Stores A B) ApprovalRequest
  reject d = do
    lift (check_permission d.role "approve")
    found ← read_repo (repo.get d.request_id)
    request ← lift (require_pending d.request_id found)
    on_repo (repo.save (decided rejected d request))
    on_trail (log_action audit d.logged (decision_entry "approval_rejected" d request))
    pure (decided rejected d request)

-- A caller's sequence of decisions, each of which may raise; the stores that it leaves.
pub data Verdict : Type 0 where
  approval rejection : Decision → Verdict

module _ {A B : Type 0} (repo : ApprovalRepository A) (audit : AuditRepository B) where
  unfoldable pub run_verdicts : List Verdict → Stores A B → Stores A B
  run_verdicts [] s = s
  run_verdicts (approval d ∷ rest) s = run_verdicts rest (approve repo audit d s).1
  run_verdicts (rejection d ∷ rest) s = run_verdicts rest (reject repo audit d s).1
