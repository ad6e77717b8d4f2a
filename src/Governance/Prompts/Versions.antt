-- ===== src/Governance/Prompts/Versions.antt =====
-- Versions of prompts (app/governance/prompt_registry.py).
use mathlib.Core.Path.{subst}
use mathlib.Core.Option.{some-injective}
use ai_risk_engine.Base.{
  ℕ, ◌+◌, ◌≤◌, String, ◌≡◌, ◌≢◌, ◌∙◌, refl, sym, inl, inr, Option, none, some, List, [], ◌∷◌, ◌++◌,
  arith, length, All,
}
use ai_risk_engine.Exec.{ok, Result-cases}
use ai_risk_engine.Governance.Audit.{AuditRepository, Stores, audit_record, log_action}
use ai_risk_engine.Governance.Audit.Writes.{both, save_and_log-Wrote}
use ai_risk_engine.Governance.Prompts.{
  PromptRecord, PromptRepository, NewPrompt, first_version, registration_entry, Update,
  next_version, update_entry, require_prompt, register_prompt, update_prompt, update_all,
}

require_prompt-ok :
    (k : String) (found : Option PromptRecord) (r : PromptRecord)
    → require_prompt k found ≡ ok r
    → found ≡ some r
unfolding require_prompt
require_prompt-ok k none r h = cc
require_prompt-ok k (some old) r h = cc

module _ {A B : Type 0} (repo : PromptRepository A) (audit : AuditRepository B) where
  -- What an update that made `r` out of the latest version `old` has done to the stores.
  pub record Updated (q : Update) (s s' : Stores A B) (old r : PromptRecord) : Type 0 where
    pub was_latest : repo.latest q.prompt_id s.repo ≡ some old
    pub counts_up : r.version ≡ old.version + 1
    pub keeps_name : r.name ≡ old.name
    pub new_content : r.content ≡ q.content
    pub is_latest : repo.latest q.prompt_id s'.repo ≡ some r
    pub is_stored : repo.stored q.prompt_id r.version s'.repo ≡ some r
    pub immutable :
        (k : String) (v : ℕ) → r.version ≢ v → repo.stored k v s'.repo ≡ repo.stored k v s.repo
    pub logged :
        audit.records s'.trail
        ≡ audit.records s.trail ++ audit_record q.logged (update_entry q old) ∷ []

  -- An update that returns has made a version one above the latest one, under the same name, which
  -- is now the latest. It changed no stored record of any other version, the old latest one
  -- included, and added exactly one audit record.
  pub update_prompt-Updated :
      (q : Update) (s : Stores A B) (r : PromptRecord)
      → (update_prompt repo audit q s).0 ≡ ok r
      → (old : PromptRecord) × Updated q s (update_prompt repo audit q s).1 old r
  unfolding update_prompt next_version log_action
  update_prompt-Updated q s r h = elim (Result-cases (repo.get q.prompt_id none s.repo)) [
    | inr (e, failed) ↦ absurd (ground arith)
    | inl (found, got) ↦ elim (Result-cases (require_prompt q.prompt_id found)) [
      | inr (e, refused) ↦ absurd (ground arith)
      | inl (old, p) ↦
          let was =
            repo.get_latest_ok q.prompt_id found s.repo got
            ∙ require_prompt-ok q.prompt_id found old p in
          let new = next_version q old in
          let entry = log_action audit q.logged (update_entry q old) in
          let w = save_and_log-Wrote (repo.save new) entry new s r (rw (got, p) at h) in
          let final : update_prompt repo audit q s ≡ (ok new, both (repo.save new) entry new s) =
            rw (got, p) w.final in
          (
            old,
            rw (final, w.result)
                (record {
                  was_latest = was;
                  counts_up = refl;
                  keeps_name = refl;
                  new_content = refl;
                  is_latest = repo.save_latest new old s.repo w.saved was (omega arith);
                  is_stored = repo.save_ok new s.repo w.saved;
                  immutable = λ k v ne. repo.save_other_version new k v s.repo ne;
                  logged = audit.save_ok _ s.trail w.written;
                }),
          )
    ]
  ]

  -- Updates of one prompt that all return make its latest version as many versions higher as there
  -- are updates, and every version up to the old latest one stays as it was.
  pub update_all_versions :
      (k : String) (qs : List Update) (s : Stores A B) (old : PromptRecord)
      → All (λ q. q.prompt_id ≡ k) qs
      → repo.latest k s.repo ≡ some old
      → (update_all repo audit qs s).0 ≡ ok tt
      → ((r : PromptRecord) × (repo.latest k (update_all repo audit qs s).1.repo ≡ some r)
          × (r.version ≡ old.version + length qs))
        × ((j : String) (v : ℕ)
            → v ≤ old.version
            → repo.stored j v (update_all repo audit qs s).1.repo ≡ repo.stored j v s.repo)
  unfolding update_all
  update_all_versions k [] s old same was h = ((old, was, omega arith), λ j v le. refl)
  update_all_versions k (q ∷ qs) s old same was h =
      elim (Result-cases (update_prompt repo audit q s).0) [
        | inr (e, failed) ↦ absurd (ground arith)
        | inl (r, done) ↦
            let (old', u) = update_prompt-Updated q s r done in
            let s' = (update_prompt repo audit q s).1 in
            let step : update_all repo audit (q ∷ qs) s ≡ update_all repo audit qs s' =
              ground arith in
            let e = some-injective old' old (sym u.was_latest ∙ rw (same.0) was) in
            let up : r.version ≡ old.version + 1 = rw (← e) u.counts_up in
            let latest' : repo.latest k s'.repo ≡ some r =
              subst (λ j. repo.latest j s'.repo ≡ some r) same.0 u.is_latest in
            let (top, kept) = update_all_versions k qs s' r same.1 latest' (rw step at h) in
            rw step (
              (top.0, top.1, omega (arith, top.2)),
              λ j v le. kept j v (omega arith) ∙ u.immutable j v (λ q. omega (arith, q)),
            )
      ]

  -- What a first registration that returned `r` has done to the stores.
  pub record Registered (q : NewPrompt) (s s' : Stores A B) (r : PromptRecord) : Type 0 where
    pub is_first : r.version ≡ 1
    pub is_stored : repo.stored q.prompt_id 1 s'.repo ≡ some r
    pub others : (k : String) (v : ℕ) → v ≢ 1 → repo.stored k v s'.repo ≡ repo.stored k v s.repo
    pub logged :
        audit.records s'.trail
        ≡ audit.records s.trail ++ audit_record q.logged (registration_entry q) ∷ []

  -- A registration that returns has stored its record as version 1 of the prompt, whatever version 1
  -- was before, touched no other version, and added exactly one audit record.
  pub register_prompt-Registered :
      (q : NewPrompt) (s : Stores A B) (r : PromptRecord)
      → (register_prompt repo audit q s).0 ≡ ok r
      → Registered q s (register_prompt repo audit q s).1 r
  unfolding register_prompt first_version log_action
  register_prompt-Registered q s r h =
      let new = first_version q in
      let entry = log_action audit q.logged (registration_entry q) in
      let w = save_and_log-Wrote (repo.save new) entry new s r h in
      rw (w.final, w.result)
        (record {
          is_first = refl;
          is_stored = repo.save_ok new s.repo w.saved;
          others = λ k v ne. repo.save_other_version new k v s.repo (λ e. ne (sym e));
          logged = audit.save_ok _ s.trail w.written;
        })
