-- ===== src/Governance/Audit/Writes.antt =====
-- The way in which every service of app/governance ends: a save, an audit entry, and a result.
use ai_risk_engine.Base.{◌≡◌, inl, inr, arith}
use ai_risk_engine.Exec.{ok, Exec, pure, Result-cases, ◌>>◌}
use ai_risk_engine.Governance.Audit.{Stores, on_repo, on_trail}

module _ {A B X : Type 0} (m : Exec A (Unit {0})) (n : Exec B (Unit {0})) (x : X) where
  abbrev pub save_and_log : Exec (Stores A B) X
  save_and_log = do on_repo m; on_trail n; pure x

  abbrev pub both : Stores A B → Stores A B
  both s = record { repo = (m s.repo).1; trail = (n s.trail).1 }

  -- What is known of both writes where the whole returned.
  pub record Wrote (s : Stores A B) (r : X) : Type 0 where
    pub saved : (m s.repo).0 ≡ ok tt
    pub written : (n s.trail).0 ≡ ok tt
    pub result : r ≡ x
    pub final : save_and_log s ≡ (ok x, both s)

  pub save_and_log-Wrote : (s : Stores A B) (r : X) → (save_and_log s).0 ≡ ok r → Wrote s r
  save_and_log-Wrote s r h = elim (Result-cases (m s.repo).0) [
    | inr (e, failed) ↦ absurd (ground arith)
    | inl (_, saved) ↦ elim (Result-cases (n s.trail).0) [
      | inr (e, failed) ↦ absurd (ground arith)
      | inl (_, written) ↦
          let final : save_and_log s ≡ (ok x, both s) = ground arith in
          record { saved = saved; written = written; result = cc; final = final }
    ]
  ]
