-- ===== src/Governance/Tests/Versions.antt =====
-- The theorems on app/governance/prompt_registry.py at concrete records, in repositories that keep lists.

use ai_risk_engine.Base.{ℕ, ◌≤◌, String, ◌≡◌, refl, none, some, List, [], ◌∷◌}
use ai_risk_engine.Exec.{ok}
use ai_risk_engine.Governance.Audit.{Stores, AuditRecord, log_action}
use ai_risk_engine.Governance.Prompts.{
  PromptRecord, NewPrompt, Update, register_prompt, update_prompt, update_all, next_version,
  first_version, require_prompt,
}
use ai_risk_engine.Governance.Prompts.Versions.{update_all_versions}
use ai_risk_engine.Governance.InMemory.{trail_repository, prompt_repository, find_latest_prompt}

abbrev new_prompt : NewPrompt
new_prompt = record {
  prompt_id = "risk-prompt";
  name = "Risk";
  content = "Assess.";
  change_reason = "first";
  author = "ana";
  tenant_id = "acme";
  correlation_id = "c1";
  actor = none;
  now = 1;
  logged = 2;
}

abbrev prompt_update : Update
prompt_update = record {
  prompt_id = "risk-prompt";
  content = "Assess with care.";
  change_reason = "second";
  author = "ana";
  tenant_id = "acme";
  correlation_id = "c2";
  actor = none;
  now = 3;
  logged = 4;
}

abbrev version_1 : PromptRecord
version_1 = record {
  prompt_id = "risk-prompt";
  name = "Risk";
  version = 1;
  content = "Assess.";
  change_reason = "first";
  author = "ana";
  created_at = 1;
}

abbrev version_2 : PromptRecord
version_2 = record version_1 {
  version = 2;
  content = "Assess with care.";
  change_reason = "second";
  created_at = 3;
}

abbrev no_prompts : Stores (List PromptRecord) (List AuditRecord)
no_prompts = record { repo = []; trail = [] }

abbrev one_prompt : Stores (List PromptRecord) (List AuditRecord)
one_prompt = record { repo = version_1 ∷ []; trail = [] }

register_prompt-returns :
    (register_prompt prompt_repository trail_repository new_prompt no_prompts).0 ≡ ok version_1
unfolding register_prompt prompt_repository trail_repository first_version log_action
register_prompt-returns = refl

update_prompt-returns :
    (update_prompt prompt_repository trail_repository prompt_update one_prompt).0 ≡ ok version_2
unfolding update_prompt prompt_repository trail_repository next_version require_prompt
    find_latest_prompt log_action
update_prompt-returns = refl

one_prompt-latest : prompt_repository.latest "risk-prompt" one_prompt.repo ≡ some version_1
unfolding prompt_repository find_latest_prompt
one_prompt-latest = refl

update_all-returns :
    (update_all prompt_repository trail_repository
      (prompt_update ∷ prompt_update ∷ [])
      one_prompt).0
    ≡ ok tt
unfolding update_all update_prompt prompt_repository trail_repository next_version require_prompt
    find_latest_prompt log_action
update_all-returns = refl

update_all_versions_example :
    ((r : PromptRecord) × (prompt_repository.latest "risk-prompt"
          (update_all prompt_repository trail_repository
            (prompt_update ∷ prompt_update ∷ [])
            one_prompt).1.repo
        ≡ some r)
      × (r.version ≡ 3))
    × ((j : String) (v : ℕ)
        → v ≤ 1
        → prompt_repository.stored j v
            (update_all prompt_repository trail_repository
              (prompt_update ∷ prompt_update ∷ [])
              one_prompt).1.repo
          ≡ prompt_repository.stored j v one_prompt.repo)
update_all_versions_example =
    update_all_versions prompt_repository trail_repository "risk-prompt"
      (prompt_update ∷ prompt_update ∷ []) one_prompt version_1 (refl, (refl, tt)) one_prompt-latest
      update_all-returns
