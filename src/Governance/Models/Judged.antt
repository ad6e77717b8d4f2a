-- ===== src/Governance/Models/Judged.antt =====
-- What `approve_model`, `reject_model` and `get_approved_model` do (app/governance/model_registry.py).
use ai_risk_engine.Base.{
  String, ◌≡◌, ◌≢◌, ◌∙◌, refl, inl, inr, false, Option, none, some, [], ◌∷◌, ◌++◌, arith,
}
use ai_risk_engine.Exec.{Result, ok, Exec, lift, pure, Result-cases, ◌>>=◌, ◌>>◌}
use ai_risk_engine.Governance.Audit.{
  AuditRepository, Stores, audit_record, log_action, on_repo, read_repo, on_trail,
}
use ai_risk_engine.Governance.Audit.Writes.{both, save_and_log-Wrote}
use ai_risk_engine.Governance.Models.{
  pending, rejected, ModelRecord, has_key, ModelRepository, Judgement, with_approval,
  with_rejection, judgement_entry, require_approvable, require_rejectable, approve_model,
  reject_model,
}

require_approvable-ok :
    (q : Judgement) (found : Option ModelRecord) (r : ModelRecord)
    → require_approvable q found ≡ ok r
    → (found ≡ some r) × (r.status ≡ pending)
unfolding require_approvable
require_approvable-ok q none r h = cc
require_approvable-ok q (some old) r h = ground arith

require_rejectable-ok :
    (q : Judgement) (found : Option ModelRecord) (r : ModelRecord)
    → require_rejectable q found ≡ ok r
    → (found ≡ some r) × (r.status ≢ rejected)
unfolding require_rejectable
require_rejectable-ok q none r h = cc
require_rejectable-ok q (some old) r h = (ground arith, λ e. ground arith)

module _ {A B : Type 0} (repo : ModelRepository A) (audit : AuditRepository B) where
  -- What a judgement that turned the stored record `old` into `r` has done to the stores.
  pub record Judged (action : String) (q : Judgement) (s s' : Stores A B) (old r : ModelRecord)
      : Type 0 where
    pub was_stored : repo.stored q.model_name q.version s.repo ≡ some old
    pub is_stored : repo.stored q.model_name q.version s'.repo ≡ some r
    pub others :
        (n v : String) → has_key n v r ≡ false → repo.stored n v s'.repo ≡ repo.stored n v s.repo
    pub logged :
        audit.records s'.trail
        ≡ audit.records s.trail ++ audit_record q.logged (judgement_entry action q) ∷ []

  -- A judgement as the code composes it, by its guards, its new record and its audit action.
  abbrev pub judge :
      (Judgement → Option ModelRecord → Result ModelRecord)
      → (ModelRecord → ModelRecord)
      → String
      → Judgement
      → Exec (Stores A B) ModelRecord
  judge guards renew action q = do
    existing ← read_repo (repo.get q.model_name q.version)
    old ← lift (guards q existing)
    on_repo (repo.save (renew old))
    on_trail (log_action audit q.logged (judgement_entry action q))
    pure (renew old)

  judge-Judged :
      (guards : Judgement → Option ModelRecord → Result ModelRecord)
      (renew : ModelRecord → ModelRecord) (action : String)
      → ((old : ModelRecord) → (renew old).model_name ≡ old.model_name)
      → ((old : ModelRecord) → (renew old).version ≡ old.version)
      → ((q : Judgement) (found : Option ModelRecord) (old : ModelRecord)
          → guards q found ≡ ok old
          → found ≡ some old)
      → (q : Judgement) (s : Stores A B) (r : ModelRecord)
      → (judge guards renew action q s).0 ≡ ok r
      → (old : ModelRecord) × (guards q (some old) ≡ ok old)
        × (r ≡ renew old)
        × Judged action q s (judge guards renew action q s).1 old r
  unfolding log_action
  judge-Judged guards renew action same_name same_version passes q s r h =
      elim (Result-cases (repo.get q.model_name q.version s.repo)) [
        | inr (e, failed) ↦ absurd (ground arith)
        | inl (found, got) ↦ elim (Result-cases (guards q found)) [
          | inr (e, refused) ↦ absurd (ground arith)
          | inl (old, p) ↦
              let e = passes q found old p in
              let was = repo.get_ok q.model_name q.version found s.repo got ∙ e in
              let (n, v) = repo.stored_key q.model_name q.version old s.repo was in
              let new = renew old in
              let entry = log_action audit q.logged (judgement_entry action q) in
              let w = save_and_log-Wrote (repo.save new) entry new s r (rw (got, p) at h) in
              let final : judge guards renew action q s
                  ≡ (ok new, both (repo.save new) entry new s) =
                rw (got, p) w.final in
              (
                old,
                rw e at p,
                w.result,
                rw (final, w.result)
                    (record {
                      was_stored = was;
                      is_stored =
                          rw (← (same_name old ∙ n), ← (same_version old ∙ v))
                            (repo.save_ok new s.repo w.saved);
                      others = λ n v ne. repo.save_other new n v s.repo ne;
                      logged = audit.save_ok _ s.trail w.written;
                    }),
              )
        ]
      ]

  -- An approval that returns found a pending record under its key, returns that record as approved
  -- by the caller, has stored it in the place of the old one, touched no other key, and added
  -- exactly one audit record.
  pub approve_model-Judged :
      (q : Judgement) (s : Stores A B) (r : ModelRecord)
      → (approve_model repo audit q s).0 ≡ ok r
      → (old : ModelRecord) × (old.status ≡ pending)
        × (r ≡ with_approval q old)
        × Judged "model_approved" q s (approve_model repo audit q s).1 old r
  unfolding approve_model
  approve_model-Judged q s r h =
      let (old, p, same, judged) =
        judge-Judged require_approvable (with_approval q) "model_approved"
          (λ old. unfold with_approval in refl) (λ old. unfold with_approval in refl)
          (λ q found old p. (require_approvable-ok q found old p).0) q s r h in
      (old, (require_approvable-ok q (some old) old p).1, same, judged)

  -- A rejection that returns found a record under its key that was not rejected, pending or even
  -- approved, returns that record as rejected and with no approval, has stored it in the place of
  -- the old one, touched no other key, and added exactly one audit record.
  pub reject_model-Judged :
      (q : Judgement) (s : Stores A B) (r : ModelRecord)
      → (reject_model repo audit q s).0 ≡ ok r
      → (old : ModelRecord) × (old.status ≢ rejected)
        × (r ≡ with_rejection old)
        × Judged "model_rejected" q s (reject_model repo audit q s).1 old r
  unfolding reject_model
  reject_model-Judged q s r h =
      let (old, p, same, judged) =
        judge-Judged require_rejectable with_rejection "model_rejected"
          (λ old. unfold with_rejection in refl) (λ old. unfold with_rejection in refl)
          (λ q found old p. (require_rejectable-ok q found old p).0) q s r h in
      (old, (require_rejectable-ok q (some old) old p).1, same, judged)
