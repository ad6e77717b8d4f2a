-- ===== src/Governance/Models.antt =====
-- The model registry: app/governance/model_registry.py. The readings of the clock in a call are
-- arguments.
pub mod Judged
pub mod Traceable
use ai_risk_engine.Base.{
  String, ◌≡◌, ◌⊎◌, Bool, true, false, ◌&&◌, Option, none, some, List, [], ◌∷◌, str_eq,
  if◌then◌else◌,
}
use ai_risk_engine.Python.Text.{f_string, is_empty}
use ai_risk_engine.Python.Time.{Datetime}
use ai_risk_engine.Python.Value.{end, field, str}
use ai_risk_engine.Error.{error, invalid_model_state_error, model_not_approved_error}
use ai_risk_engine.Exec.{Result, ok, err, Exec, lift, pure, ◌>>=◌, ◌>>◌}
use ai_risk_engine.Governance.Audit.{
  AuditRepository, LogEntry, log_action, Stores, on_repo, read_repo, on_trail,
}

pub data ModelStatus : Type 0 where
  pending approved rejected : ModelStatus

pub record ModelRecord : Type 0 where
  pub model_name : String
  pub version : String
  pub checksum : String
  pub created_at : Datetime
  pub is_approved : Bool
  pub approved_by : Option String
  pub approved_at : Option Datetime
  pub status : ModelStatus

is_approved_status : ModelStatus → Bool
is_approved_status pending = false
is_approved_status approved = true
is_approved_status rejected = false

-- `ModelRecord.is_deployable`
unfoldable pub is_deployable : ModelRecord → Bool
unfolding is_approved_status
is_deployable r = is_approved_status r.status && r.is_approved

-- Whether a record stands under the key (name, version).
abbrev pub has_key : String → String → ModelRecord → Bool
has_key name version r = str_eq r.model_name name && str_eq r.version version

-- The protocol `ModelRegistryRepository`, over the state `A` of whatever implements it: records by
-- name and version. Every call may raise. A save that returns has stored its record; one that
-- raises may have stored it or not, and no save touches another key.
pub record ModelRepository (A : Type 0) : Type 0 where
  pub save : ModelRecord → Exec A (Unit {0})
  pub get : (name version : String) → A → Result (Option ModelRecord)
  pub get_latest : (name : String) → A → Result (Option ModelRecord)
  pub stored : (name version : String) → A → Option ModelRecord
  pub stored_key :
      (n v : String) (r : ModelRecord) (a : A)
      → stored n v a ≡ some r
      → (r.model_name ≡ n) × (r.version ≡ v)
  pub get_ok : (n v : String) (o : Option ModelRecord) (a : A) → get n v a ≡ ok o → stored n v a ≡ o
  pub get_latest_ok :
      (n : String) (r : ModelRecord) (a : A)
      → get_latest n a ≡ ok (some r)
      → stored n r.version a ≡ some r
  pub save_ok :
      (r : ModelRecord) (a : A)
      → (save r a).0 ≡ ok tt
      → stored r.model_name r.version (save r a).1 ≡ some r
  pub save_either :
      (r : ModelRecord) (n v : String) (a : A)
      → (stored n v (save r a).1 ≡ stored n v a) ⊎ (stored n v (save r a).1 ≡ some r)
  pub save_other :
      (r : ModelRecord) (n v : String) (a : A)
      → has_key n v r ≡ false
      → stored n v (save r a).1 ≡ stored n v a

-- The arguments of `register_model`; the tenant and the correlation id are not used.
pub record Registration : Type 0 where
  pub model_name : String
  pub version : String
  pub checksum : String
  pub now : Datetime

unfoldable pub registered : Registration → ModelRecord
registered q = record {
  model_name = q.model_name;
  version = q.version;
  checksum = q.checksum;
  created_at = q.now;
  is_approved = false;
  approved_by = none;
  approved_at = none;
  status = pending;
}

-- The arguments of `approve_model` and `reject_model`, which differ in a name alone.
pub record Judgement : Type 0 where
  pub model_name : String
  pub version : String
  pub judge : String
  pub tenant_id : String
  pub correlation_id : String
  pub reason : Option String
  pub now : Datetime
  pub logged : Datetime

-- `f"{model_name}@{version}"`
abbrev pub model_ref : String → String → String
model_ref name version = f_string (name ∷ "@" ∷ version ∷ [])

unfoldable pub with_approval : Judgement → ModelRecord → ModelRecord
with_approval q r = record {
  model_name = r.model_name;
  version = r.version;
  checksum = r.checksum;
  created_at = r.created_at;
  is_approved = true;
  approved_by = some q.judge;
  approved_at = some q.now;
  status = approved;
}

unfoldable pub with_rejection : ModelRecord → ModelRecord
with_rejection r = record {
  model_name = r.model_name;
  version = r.version;
  checksum = r.checksum;
  created_at = r.created_at;
  is_approved = false;
  approved_by = none;
  approved_at = none;
  status = rejected;
}

unfoldable pub judgement_entry : String → Judgement → LogEntry
judgement_entry action q = record {
  actor = q.judge;
  tenant_id = q.tenant_id;
  action = action;
  resource_type = "model";
  resource_id = model_ref q.model_name q.version;
  reason = q.reason;
  correlation_id = q.correlation_id;
  metadata = some (field "model_name" (str q.model_name) (field "version" (str q.version) end));
}

-- The guards of `approve_model` on what the repository returned.
unfoldable pub require_approvable : Judgement → Option ModelRecord → Result ModelRecord
require_approvable q none = err (
    error invalid_model_state_error
      (f_string ("Model not found: " ∷ model_ref q.model_name q.version ∷ [])))
require_approvable q (some r) = elim r.status [
  | approved ↦ err (
      error invalid_model_state_error
        (f_string ("Model already approved: " ∷ model_ref q.model_name q.version ∷ [])))
  | rejected ↦ err (
      error invalid_model_state_error
        (f_string ("Cannot approve rejected model: " ∷ model_ref q.model_name q.version ∷ [])))
  | pending ↦ ok r
]

-- The guards of `reject_model`.
unfoldable pub require_rejectable : Judgement → Option ModelRecord → Result ModelRecord
require_rejectable q none = err (
    error invalid_model_state_error
      (f_string ("Model not found: " ∷ model_ref q.model_name q.version ∷ [])))
require_rejectable q (some r) = elim r.status [
  | rejected ↦ err (
      error invalid_model_state_error
        (f_string ("Model already rejected: " ∷ model_ref q.model_name q.version ∷ [])))
  | approved ↦ ok r
  | pending ↦ ok r
]

-- The guards of `get_approved_model`.
unfoldable pub require_deployable : String → Option ModelRecord → Result ModelRecord
unfolding is_deployable
require_deployable name none =
    err (error model_not_approved_error (f_string ("Model not found: " ∷ name ∷ [])))
require_deployable name (some r) =
    if is_deployable r
    then ok r
    else err (
        error model_not_approved_error
          (f_string ("Cannot deploy unapproved model: " ∷ model_ref name r.version ∷ [])))

module _ {A B : Type 0} (repo : ModelRepository A) (audit : AuditRepository B) where
  unfoldable pub register_model : Registration → Exec (Stores A B) ModelRecord
  register_model q = do on_repo (repo.save (registered q)); pure (registered q)

  unfoldable pub approve_model : Judgement → Exec (Stores A B) ModelRecord
  approve_model q = do
    existing ← read_repo (repo.get q.model_name q.version)
    r ← lift (require_approvable q existing)
    on_repo (repo.save (with_approval q r))
    on_trail (log_action audit q.logged (judgement_entry "model_approved" q))
    pure (with_approval q r)

  unfoldable pub reject_model : Judgement → Exec (Stores A B) ModelRecord
  reject_model q = do
    existing ← read_repo (repo.get q.model_name q.version)
    r ← lift (require_rejectable q existing)
    on_repo (repo.save (with_rejection r))
    on_trail (log_action audit q.logged (judgement_entry "model_rejected" q))
    pure (with_rejection r)

module _ {A : Type 0} (repo : ModelRepository A) where
  -- An empty version is falsy and means the latest one, like `None`.
  unfoldable pub get_model : String → Option String → A → Result (Option ModelRecord)
  get_model name none a = repo.get_latest name a
  get_model name (some version) a =
      if is_empty version then repo.get_latest name a else repo.get name version a

  unfoldable pub get_approved_model : String → Option String → A → Result ModelRecord
  get_approved_model name version a = elim (get_model name version a) [
    | ok found ↦ require_deployable name found
    | err e ↦ err e
  ]

-- A caller's sequence of changes, each of which may raise; the stores that it leaves.
pub data Change : Type 0 where
  registration : Registration → Change
  approval rejection : Judgement → Change

module _ {A B : Type 0} (repo : ModelRepository A) (audit : AuditRepository B) where
  unfoldable pub run_changes : List Change → Stores A B → Stores A B
  run_changes [] s = s
  run_changes (registration q ∷ rest) s = run_changes rest (register_model repo audit q s).1
  run_changes (approval q ∷ rest) s = run_changes rest (approve_model repo audit q s).1
  run_changes (rejection q ∷ rest) s = run_changes rest (reject_model repo audit q s).1
