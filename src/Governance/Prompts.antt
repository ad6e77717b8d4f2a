-- ===== src/Governance/Prompts.antt =====
-- The prompt registry: app/governance/prompt_registry.py. The readings of the clock in a call are
-- arguments.
pub mod Versions
use ai_risk_engine.Base.{
  ℕ, ◌+◌, ◌<◌, String, ◌≡◌, ◌≢◌, ◌⊎◌, Bool, true, false, Option, none, some, List, [], ◌∷◌, str_eq,
  if◌then◌else◌,
}
use ai_risk_engine.Python.Int.{pos}
use ai_risk_engine.Python.Text.{f_string, is_empty, decimal}
use ai_risk_engine.Python.Time.{Datetime}
use ai_risk_engine.Python.Value.{end, field, str, int}
use ai_risk_engine.Error.{error, value_error}
use ai_risk_engine.Exec.{Result, ok, err, Exec, lift, pure, ◌>>=◌, ◌>>◌}
use ai_risk_engine.Governance.Audit.{
  AuditRepository, LogEntry, log_action, Stores, on_repo, read_repo, on_trail,
}

pub record PromptRecord : Type 0 where
  pub prompt_id : String
  pub name : String
  pub version : ℕ
  pub content : String
  pub change_reason : String
  pub author : String
  pub created_at : Datetime

-- The protocol `PromptRegistryRepository`, over the state `A` of whatever implements it. Calls may
-- raise. `stored` is a version of a prompt and `latest` its highest one, which `get` with no version
-- returns. A save that returns has stored its record, and touches no other version and no other
-- prompt.
pub record PromptRepository (A : Type 0) : Type 0 where
  pub save : PromptRecord → Exec A (Unit {0})
  pub get : String → Option ℕ → A → Result (Option PromptRecord)
  pub stored : String → ℕ → A → Option PromptRecord
  pub latest : String → A → Option PromptRecord
  pub get_latest_ok :
      (k : String) (o : Option PromptRecord) (a : A) → get k none a ≡ ok o → latest k a ≡ o
  pub get_version_ok :
      (k : String) (v : ℕ) (o : Option PromptRecord) (a : A)
      → get k (some v) a ≡ ok o
      → stored k v a ≡ o
  pub save_ok :
      (r : PromptRecord) (a : A)
      → (save r a).0 ≡ ok tt
      → stored r.prompt_id r.version (save r a).1 ≡ some r
  pub save_latest :
      (r old : PromptRecord) (a : A)
      → (save r a).0 ≡ ok tt
      → latest r.prompt_id a ≡ some old
      → old.version < r.version
      → latest r.prompt_id (save r a).1 ≡ some r
  pub save_first :
      (r : PromptRecord) (a : A)
      → (save r a).0 ≡ ok tt
      → latest r.prompt_id a ≡ none
      → latest r.prompt_id (save r a).1 ≡ some r
  pub save_other_version :
      (r : PromptRecord) (k : String) (v : ℕ) (a : A)
      → r.version ≢ v
      → stored k v (save r a).1 ≡ stored k v a
  pub save_other_prompt :
      (r : PromptRecord) (k : String) (v : ℕ) (a : A)
      → str_eq r.prompt_id k ≡ false
      → (stored k v (save r a).1 ≡ stored k v a) × (latest k (save r a).1 ≡ latest k a)

-- `actor or author`
actor_or : Option String → String → String
actor_or none author = author
actor_or (some actor) author = if is_empty actor then author else actor

-- The arguments of `register_prompt`.
pub record NewPrompt : Type 0 where
  pub prompt_id : String
  pub name : String
  pub content : String
  pub change_reason : String
  pub author : String
  pub tenant_id : String
  pub correlation_id : String
  pub actor : Option String
  pub now : Datetime
  pub logged : Datetime

unfoldable pub first_version : NewPrompt → PromptRecord
first_version q = record {
  prompt_id = q.prompt_id;
  name = q.name;
  version = 1;
  content = q.content;
  change_reason = q.change_reason;
  author = q.author;
  created_at = q.now;
}

unfoldable pub registration_entry : NewPrompt → LogEntry
unfolding actor_or
registration_entry q = record {
  actor = actor_or q.actor q.author;
  tenant_id = q.tenant_id;
  action = "prompt_registered";
  resource_type = "prompt";
  resource_id = f_string (q.prompt_id ∷ "@1" ∷ []);
  reason = some q.change_reason;
  correlation_id = q.correlation_id;
  metadata = some (
      field "prompt_id" (str q.prompt_id)
        (field "version" (int (pos 1)) (field "author" (str q.author) end)));
}

-- The arguments of `update_prompt`.
pub record Update : Type 0 where
  pub prompt_id : String
  pub content : String
  pub change_reason : String
  pub author : String
  pub tenant_id : String
  pub correlation_id : String
  pub actor : Option String
  pub now : Datetime
  pub logged : Datetime

unfoldable pub next_version : Update → PromptRecord → PromptRecord
next_version q existing = record {
  prompt_id = q.prompt_id;
  name = existing.name;
  version = existing.version + 1;
  content = q.content;
  change_reason = q.change_reason;
  author = q.author;
  created_at = q.now;
}

unfoldable pub update_entry : Update → PromptRecord → LogEntry
unfolding actor_or
update_entry q existing = record {
  actor = actor_or q.actor q.author;
  tenant_id = q.tenant_id;
  action = "prompt_updated";
  resource_type = "prompt";
  resource_id = f_string (q.prompt_id ∷ "@" ∷ decimal (existing.version + 1) ∷ []);
  reason = some q.change_reason;
  correlation_id = q.correlation_id;
  metadata = some (
      field "prompt_id" (str q.prompt_id) (
        field "version" (int (pos (existing.version + 1))) (
          field "author" (str q.author)
            (field "previous_version" (int (pos existing.version)) end))));
}

unfoldable pub require_prompt : String → Option PromptRecord → Result PromptRecord
require_prompt k none = err (error value_error (f_string ("Prompt not found: " ∷ k ∷ [])))
require_prompt k (some r) = ok r

module _ {A B : Type 0} (repo : PromptRepository A) (audit : AuditRepository B) where
  unfoldable pub register_prompt : NewPrompt → Exec (Stores A B) PromptRecord
  register_prompt q = do
    on_repo (repo.save (first_version q))
    on_trail (log_action audit q.logged (registration_entry q))
    pure (first_version q)

  unfoldable pub update_prompt : Update → Exec (Stores A B) PromptRecord
  update_prompt q = do
    found ← read_repo (repo.get q.prompt_id none)
    existing ← lift (require_prompt q.prompt_id found)
    on_repo (repo.save (next_version q existing))
    on_trail (log_action audit q.logged (update_entry q existing))
    pure (next_version q existing)

module _ {A : Type 0} (repo : PromptRepository A) where
  unfoldable pub get_prompt : String → Option ℕ → A → Result (Option PromptRecord)
  get_prompt k version a = repo.get k version a

module _ {A B : Type 0} (repo : PromptRepository A) (audit : AuditRepository B) where
  -- Updates one after the other; the first that raises ends the sequence.
  unfoldable pub update_all : List Update → Exec (Stores A B) (Unit {0})
  update_all [] = pure tt
  update_all (q ∷ rest) = do update_prompt repo audit q; update_all rest
