-- ===== src/Governance/Audit.antt =====
-- The audit trail: app/governance/audit_models.py, audit_repository.py and audit_logger.py.
pub mod Writes
use ai_risk_engine.Base.{String, ◌≡◌, Option, none, some, List, [], ◌∷◌, ◌++◌}
use ai_risk_engine.Python.Time.{Datetime}
use ai_risk_engine.Python.Value.{Fields, Value, end, field, str, obj, null, optional}
use ai_risk_engine.Exec.{Result, ok, Exec}

pub record AuditRecord : Type 0 where
  pub actor : String
  pub tenant_id : String
  pub action : String
  pub resource_type : String
  pub resource_id : String
  pub reason : Option String
  pub correlation_id : String
  pub metadata : Option Fields
  pub timestamp_utc : Datetime

-- `None` or a dict
abbrev optional_dict : Option Fields → Value
optional_dict none = null
optional_dict (some m) = obj m

-- `AuditRecord.to_dict`; `isoformat` is how a time is written.
unfoldable pub to_dict : (Datetime → String) → AuditRecord → Fields
to_dict isoformat r = field "actor" (str r.actor) (
    field "tenant_id" (str r.tenant_id) (
      field "action" (str r.action) (
        field "resource_type" (str r.resource_type) (
          field "resource_id" (str r.resource_id) (
            field "reason" (optional r.reason) (
              field "correlation_id" (str r.correlation_id) (
                field "metadata" (optional_dict r.metadata)
                  (field "timestamp_utc" (str (isoformat r.timestamp_utc)) end))))))))

-- The protocol `AuditRepository`, over the state `B` of whatever implements it. A save may raise.
-- The records only grow, as the protocol demands, and a save that returns has added its record.
pub record AuditRepository (B : Type 0) : Type 0 where
  pub save : AuditRecord → Exec B (Unit {0})
  pub records : B → List AuditRecord
  pub save_ok :
      (r : AuditRecord) (b : B) → (save r b).0 ≡ ok tt → records (save r b).1 ≡ records b ++ r ∷ []
  pub save_keeps :
      (r : AuditRecord) (b : B)
      → (new : List AuditRecord) × (records (save r b).1 ≡ records b ++ new)

-- The keyword arguments of `log_action`.
pub record LogEntry : Type 0 where
  pub actor : String
  pub tenant_id : String
  pub action : String
  pub resource_type : String
  pub resource_id : String
  pub reason : Option String
  pub correlation_id : String
  pub metadata : Option Fields

-- The record that `log_action` writes at the time `now`.
unfoldable pub audit_record : Datetime → LogEntry → AuditRecord
audit_record now e = record {
  actor = e.actor;
  tenant_id = e.tenant_id;
  action = e.action;
  resource_type = e.resource_type;
  resource_id = e.resource_id;
  reason = e.reason;
  correlation_id = e.correlation_id;
  metadata = e.metadata;
  timestamp_utc = now;
}

-- `AuditLogger.log_action`
unfoldable pub log_action :
    {B : Type 0} → AuditRepository B → Datetime → LogEntry → Exec B (Unit {0})
log_action audit now e = audit.save (audit_record now e)

-- What a service of this layer works on: its repository and the audit trail.
pub record Stores (A B : Type 0) : Type 0 where
  pub repo : A
  pub trail : B

module _ {A B X : Type 0} where
  abbrev pub on_repo : Exec A X → Exec (Stores A B) X
  on_repo m s = let (r, a) = m s.repo in (r, record s { repo = a })

  abbrev pub read_repo : (A → Result X) → Exec (Stores A B) X
  read_repo f s = (f s.repo, s)

  abbrev pub on_trail : Exec B X → Exec (Stores A B) X
  on_trail m s = let (r, b) = m s.trail in (r, record s { trail = b })
