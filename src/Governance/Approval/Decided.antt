-- ===== src/Governance/Approval/Decided.antt =====
-- What `ApprovalWorkflow.approve` and `reject` do (app/governance/approval_workflow.py).
use ai_risk_engine.Base.{
  String, ◌≡◌, ◌≢◌, ◌∙◌, refl, ◌⊎◌, inl, inr, true, false, Option, none, some, [], ◌∷◌, ◌++◌, arith,
  str_eq,
}
use ai_risk_engine.Error.{ErrorClass, authorization_error, invalid_workflow_state_error}
use ai_risk_engine.Exec.{Result, ok, Exec, lift, pure, ◌>>=◌, ◌>>◌, Raises, Result-cases}
use ai_risk_engine.Security.Rbac.{check_permission}
use ai_risk_engine.Security.Access.{Granted, check_permission_outcome}
use ai_risk_engine.Governance.Audit.{
  AuditRepository, audit_record, log_action, Stores, on_repo, read_repo, on_trail,
}
use ai_risk_engine.Governance.Approval.{
  ApprovalStatus, pending, approved, rejected, ApprovalRequest, ApprovalRepository, is_pending,
  require_pending, not_pending_message, Decision, decided, decision_entry, approve, reject,
}

ApprovalStatus-cases : (t : ApprovalStatus) → (t ≡ pending) ⊎ (is_pending t ≡ false)
unfolding is_pending
ApprovalStatus-cases pending = inl refl
ApprovalStatus-cases approved = inr refl
ApprovalStatus-cases rejected = inr refl

is_pending_iff : (t : ApprovalStatus) → is_pending t ≡ true → t ≡ pending
unfolding is_pending
is_pending_iff pending h = refl
is_pending_iff approved h = cc
is_pending_iff rejected h = cc

pub require_pending-ok :
    (k : String) (found : Option ApprovalRequest) (request : ApprovalRequest)
    → require_pending k found ≡ ok request
    → (found ≡ some request) × (request.status ≡ pending)
unfolding require_pending
require_pending-ok k none request h = cc
require_pending-ok k (some old) request h = ground (arith, is_pending_iff old.status)

require_pending-Raises :
    (k : String) (found : Option ApprovalRequest)
    → ((request : ApprovalRequest) → found ≡ some request → request.status ≢ pending)
    → Raises (require_pending k found) invalid_workflow_state_error
unfolding require_pending
require_pending-Raises k none n = (_, refl)
require_pending-Raises k (some request) n = elim (ApprovalStatus-cases request.status) [
  | inl p ↦ absurd (n request refl p)
  | inr q ↦ (not_pending_message k request.status, rw q)
]

module _ {A B : Type 0} (repo : ApprovalRepository A) (audit : AuditRepository B) where
  -- `approve` and `reject`, by their verdict and their audit action
  abbrev pub decide : ApprovalStatus → String → Decision → Exec (Stores A B) ApprovalRequest
  decide verdict action d = do
    lift (check_permission d.role "approve")
    found ← read_repo (repo.get d.request_id)
    request ← lift (require_pending d.request_id found)
    on_repo (repo.save (decided verdict d request))
    on_trail (log_action audit d.logged (decision_entry action d request))
    pure (decided verdict d request)

  -- The stores after the two writes of a decision.
  abbrev after : ApprovalStatus → String → Decision → ApprovalRequest → Stores A B → Stores A B
  after verdict action d request s = record {
    repo = (repo.save (decided verdict d request) s.repo).1;
    trail = (log_action audit d.logged (decision_entry action d request) s.trail).1;
  }

  -- What a decision that returned the request `r` has done to the stores.
  pub record Decided (verdict : ApprovalStatus) (action : String) (d : Decision) (s s' : Stores A B)
      (r : ApprovalRequest) : Type 0 where
    pub granted : Granted d.role "approve"
    pub request : ApprovalRequest
    pub was_stored : repo.stored d.request_id s.repo ≡ some request
    pub was_pending : request.status ≡ pending
    pub result : r ≡ decided verdict d request
    pub is_stored : repo.stored request.request_id s'.repo ≡ some r
    pub others :
        (k : String)
        → str_eq request.request_id k ≡ false
        → repo.stored k s'.repo ≡ repo.stored k s.repo
    pub logged :
        audit.records s'.trail
        ≡ audit.records s.trail ++ audit_record d.logged (decision_entry action d request) ∷ []

  -- the rest of a decision, once its guards have passed
  decide_saves :
      (verdict : ApprovalStatus) (action : String) (d : Decision) (s : Stores A B)
      (r : ApprovalRequest)
      → Granted d.role "approve"
      → check_permission d.role "approve" ≡ ok tt
      → (found : Option ApprovalRequest) → repo.get d.request_id s.repo ≡ ok found
      → (request : ApprovalRequest) → require_pending d.request_id found ≡ ok request
      → (decide verdict action d s).0 ≡ ok r
      → Decided verdict action d s (decide verdict action d s).1 r
  unfolding decided log_action
  decide_saves verdict action d s r granted permitted found got request p h =
      elim (Result-cases (repo.save (decided verdict d request) s.repo).0) [
        | inr (e, failed) ↦ absurd (ground arith)
        | inl (_, saved) ↦
            elim (Result-cases
              (log_action audit d.logged (decision_entry action d request) s.trail).0) [
                | inr (e, failed) ↦ absurd (ground arith)
                | inl (_, written) ↦
                    let new = decided verdict d request in
                    let final : decide verdict action d s
                        ≡ (ok new, after verdict action d request s) =
                      ground arith in
                    let was = require_pending-ok d.request_id found request p in
                    let same : r ≡ new = cc in
                    rw final (record {
                      granted = granted;
                      request = request;
                      was_stored = repo.get_ok d.request_id found s.repo got ∙ was.0;
                      was_pending = was.1;
                      result = same;
                      is_stored = rw same (repo.save_ok new s.repo saved);
                      others = λ k ne. repo.save_other new k s.repo ne;
                      logged = audit.save_ok _ s.trail written;
                    })
              ]
      ]

  decide-Decided :
      (verdict : ApprovalStatus) (action : String) (d : Decision) (s : Stores A B)
      (r : ApprovalRequest)
      → (decide verdict action d s).0 ≡ ok r
      → Decided verdict action d s (decide verdict action d s).1 r
  decide-Decided verdict action d s r h = elim (check_permission_outcome d.role "approve") [
    | inr (_, (_, refused)) ↦ absurd (ground arith)
    | inl (granted, permitted) ↦ elim (Result-cases (repo.get d.request_id s.repo)) [
      | inr (e, failed) ↦ absurd (ground arith)
      | inl (found, got) ↦ elim (Result-cases (require_pending d.request_id found)) [
        | inr (e, refused) ↦ absurd (ground arith)
        | inl (request, p) ↦
            decide_saves verdict action d s r granted permitted found got request p h
      ]
    ]
  ]

  -- An approval that returns was given by a role that may approve, on a stored request that was
  -- pending. It returns that request with the status APPROVED, the decider and the time, has stored
  -- it under its id and touched no other id, and has added exactly one audit record.
  pub approve-Decided :
      (d : Decision) (s : Stores A B) (r : ApprovalRequest)
      → (approve repo audit d s).0 ≡ ok r
      → Decided approved "approval_approved" d s (approve repo audit d s).1 r
  unfolding approve
  approve-Decided d s r h = decide-Decided approved "approval_approved" d s r h

  -- A rejection that returns was given by a role that may approve, on a stored request that was
  -- pending. It returns that request with the status REJECTED, the decider and the time, has stored
  -- it under its id and touched no other id, and has added exactly one audit record.
  pub reject-Decided :
      (d : Decision) (s : Stores A B) (r : ApprovalRequest)
      → (reject repo audit d s).0 ≡ ok r
      → Decided rejected "approval_rejected" d s (reject repo audit d s).1 r
  unfolding reject
  reject-Decided d s r h = decide-Decided rejected "approval_rejected" d s r h

  decide_unpermitted :
      (verdict : ApprovalStatus) (action : String) (d : Decision) (s : Stores A B)
      → ¬ (Granted d.role "approve")
      → Raises (decide verdict action d s).0 authorization_error
        × ((decide verdict action d s).1 ≡ s)
  decide_unpermitted verdict action d s n = elim (check_permission_outcome d.role "approve") [
    | inl (granted, _) ↦ absurd (n granted)
    | inr (_, (m, refused)) ↦ ((m, rw refused), rw refused)
  ]

  decide_not_pending :
      (verdict : ApprovalStatus) (action : String) (d : Decision) (s : Stores A B)
      (found : Option ApprovalRequest)
      → Granted d.role "approve"
      → repo.get d.request_id s.repo ≡ ok found
      → ((request : ApprovalRequest) → found ≡ some request → request.status ≢ pending)
      → Raises (decide verdict action d s).0 invalid_workflow_state_error
        × ((decide verdict action d s).1 ≡ s)
  decide_not_pending verdict action d s found granted got n =
      elim (check_permission_outcome d.role "approve") [
        | inr (absent, _) ↦ absurd (absent granted)
        | inl (_, permitted) ↦
            let (m, refused) = require_pending-Raises d.request_id found n in
            ((m, rw (permitted, got, refused)), rw (permitted, got, refused))
      ]

  -- How a call ended that the guards have stopped: with an exception of the class, and with no
  -- write to the repository or the audit trail.
  abbrev pub Stopped : Result ApprovalRequest × Stores A B → ErrorClass → Stores A B → Type 0
  Stopped (r, s') c s = Raises r c × (s' ≡ s)

  -- A role that may not approve can neither approve nor reject: both raise `AuthorizationError`,
  -- and nothing is stored or logged.
  pub decisions_unpermitted :
      (d : Decision) (s : Stores A B)
      → ¬ (Granted d.role "approve")
      → Stopped (approve repo audit d s) authorization_error s
        × Stopped (reject repo audit d s) authorization_error s
  unfolding approve reject
  decisions_unpermitted d s n = (
    decide_unpermitted approved "approval_approved" d s n,
    decide_unpermitted rejected "approval_rejected" d s n,
  )

  -- Where the repository returns no request, or one that is not pending, a permitted role can
  -- neither approve nor reject: both raise `InvalidWorkflowStateError`, and nothing is stored or
  -- logged.
  pub decisions_not_pending :
      (d : Decision) (s : Stores A B) (found : Option ApprovalRequest)
      → Granted d.role "approve"
      → repo.get d.request_id s.repo ≡ ok found
      → ((request : ApprovalRequest) → found ≡ some request → request.status ≢ pending)
      → Stopped (approve repo audit d s) invalid_workflow_state_error s
        × Stopped (reject repo audit d s) invalid_workflow_state_error s
  unfolding approve reject
  decisions_not_pending d s found granted got n = (
    decide_not_pending approved "approval_approved" d s found granted got n,
    decide_not_pending rejected "approval_rejected" d s found granted got n,
  )
