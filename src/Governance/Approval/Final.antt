-- ===== src/Governance/Approval/Final.antt =====
-- Decisions are final (app/governance/approval_workflow.py), as long as nobody requests the
-- approval anew.
use ai_risk_engine.Base.{
  String, ◌≡◌, ◌≢◌, ◌∙◌, refl, sym, ap, inl, inr, false, Option, none, some, List, [], ◌∷◌, ◌++◌,
  arith, str_eq, eq_iff, Bool-cases,
}
use ai_risk_engine.Exec.{ok, Result-cases}
use ai_risk_engine.Security.Rbac.{check_permission}
use ai_risk_engine.Governance.Audit.{AuditRepository, Stores, audit_record, log_action}
use ai_risk_engine.Governance.Approval.{
  ApprovalStatus, pending, approved, rejected, ApprovalRequest, ApprovalRepository, require_pending,
  Decision, decided, approve, reject, Submission, submitted, submission_entry, request_approval,
  Verdict, approval, rejection, run_verdicts,
}
use ai_risk_engine.Governance.Approval.Decided.{decide, require_pending-ok}

status_or_pending : Option ApprovalRequest → ApprovalStatus
status_or_pending none = pending
status_or_pending (some r) = r.status

module _ {A B : Type 0} (repo : ApprovalRepository A) (audit : AuditRepository B) where
  -- a pending request and a decided one have different ids
  other_request :
      (k j : String) (request r : ApprovalRequest) (s : Stores A B)
      → repo.stored j s.repo ≡ some request
      → request.status ≡ pending
      → repo.stored k s.repo ≡ some r
      → r.status ≢ pending
      → str_eq request.request_id k ≡ false
  unfolding status_or_pending
  other_request k j request r s there open_still was done =
      elim (Bool-cases (str_eq request.request_id k)) [
        | inr n ↦ n
        | inl e ↦
            let same_id = (eq_iff request.request_id k).0 e in
            let id = repo.stored_id j request s.repo there in
            let same : some request ≡ some r = cc in
            absurd (
              done
                (ap (λ (o : Option ApprovalRequest). status_or_pending o) (sym same) ∙ open_still))
      ]

  -- a decision leaves every request alone that is stored and no longer pending
  decide-keeps :
      (verdict : ApprovalStatus) (action : String) (d : Decision) (s : Stores A B) (k : String)
      (r : ApprovalRequest)
      → repo.stored k s.repo ≡ some r
      → r.status ≢ pending
      → repo.stored k (decide repo audit verdict action d s).1.repo ≡ some r
  unfolding decided
  decide-keeps verdict action d s k r was done =
      elim (Result-cases (check_permission d.role "approve")) [
        | inr (e, refused) ↦ rw refused was
        | inl (_, permitted) ↦ elim (Result-cases (repo.get d.request_id s.repo)) [
          | inr (e, failed) ↦ rw (permitted, failed) was
          | inl (found, got) ↦ elim (Result-cases (require_pending d.request_id found)) [
            | inr (e, refused) ↦ rw (permitted, got, refused) was
            | inl (request, p) ↦
                let new = decided verdict d request in
                let (e, open_still) = require_pending-ok d.request_id found request p in
                let there = repo.get_ok d.request_id found s.repo got ∙ e in
                let other = other_request k d.request_id request r s there open_still was done in
                let kept = repo.save_other new k s.repo other ∙ was in ground (arith, kept)
          ]
        ]
      ]

  -- A request that has been approved or rejected keeps its record, whatever approvals and
  -- rejections follow, by whomever and of whatever request, and whether or not they raise.
  pub decisions_are_final :
      (vs : List Verdict) (s : Stores A B) (k : String) (r : ApprovalRequest)
      → repo.stored k s.repo ≡ some r
      → r.status ≢ pending
      → repo.stored k (run_verdicts repo audit vs s).repo ≡ some r
  unfolding run_verdicts approve reject
  decisions_are_final [] s k r was done = was
  decisions_are_final (approval d ∷ vs) s k r was done =
      decisions_are_final vs _ k r (decide-keeps approved "approval_approved" d s k r was done) done
  decisions_are_final (rejection d ∷ vs) s k r was done =
      decisions_are_final vs _ k r (decide-keeps rejected "approval_rejected" d s k r was done) done

  -- The stores after the two writes of a request.
  abbrev after_request : Submission → Stores A B → Stores A B
  after_request q s = record {
    repo = (repo.save (submitted q) s.repo).1;
    trail = (log_action audit q.logged (submission_entry q) s.trail).1;
  }

  -- What a request for approval that returned `r` has done to the stores.
  pub record Requested (q : Submission) (s s' : Stores A B) (r : ApprovalRequest) : Type 0 where
    pub pending_now : r.status ≡ pending
    pub is_stored : repo.stored q.request_id s'.repo ≡ some r
    pub others :
        (k : String) → str_eq q.request_id k ≡ false → repo.stored k s'.repo ≡ repo.stored k s.repo
    pub logged :
        audit.records s'.trail
        ≡ audit.records s.trail ++ audit_record q.logged (submission_entry q) ∷ []

  -- A request for approval that returns has stored a pending request under its id, whatever was
  -- stored under this id before, also a request that had been approved or rejected. It touched no
  -- other id and added exactly one audit record.
  pub request_approval-Requested :
      (q : Submission) (s : Stores A B) (r : ApprovalRequest)
      → (request_approval repo audit q s).0 ≡ ok r
      → Requested q s (request_approval repo audit q s).1 r
  unfolding request_approval submitted log_action
  request_approval-Requested q s r h = elim (Result-cases (repo.save (submitted q) s.repo).0) [
    | inr (e, failed) ↦ absurd (ground arith)
    | inl (_, saved) ↦
        elim (Result-cases (log_action audit q.logged (submission_entry q) s.trail).0) [
          | inr (e, failed) ↦ absurd (ground arith)
          | inl (_, written) ↦
              let same : r ≡ submitted q = ground arith in
              let final : request_approval repo audit q s ≡ (ok (submitted q), after_request q s) =
                ground arith in
              rw final (
                rw same (record {
                  pending_now = refl;
                  is_stored = repo.save_ok (submitted q) s.repo saved;
                  others = λ k ne. repo.save_other (submitted q) k s.repo ne;
                  logged = audit.save_ok _ s.trail written;
                }))
        ]
  ]
