-- ===== src/Api/Convert.antt =====
-- From a request body to an event: `_request_to_risk_event` and `_request_to_compliance_event` of
-- app/api/routers/events.py, which risk.py and compliance.py write out again.
pub mod Version
use ai_risk_engine.Base.{String, Option, none, some, if◌then◌else◌}
use ai_risk_engine.Python.Text.{is_empty}
use ai_risk_engine.Python.Time.{Datetime}
use ai_risk_engine.Python.Value.{Fields, end, field, str, put}
use ai_risk_engine.Domain.Status.{created}
use ai_risk_engine.Domain.Event.{BaseEvent, RiskEvent, ComplianceEvent}
use ai_risk_engine.Domain.Schema.{RiskEventCreateRequest, ComplianceEventCreateRequest}

-- `uuid.uuid4()` and `datetime.now(timezone.utc)`
pub record Draw : Type 0 where
  pub event_id : String
  pub now : Datetime

abbrev pub copied : Option Fields → Fields
copied none = end
copied (some m) = m

abbrev pub or_none : Fields → Option Fields
or_none end = none
or_none (field k v m) = some (field k v m)

-- the metadata of the event: that of the request, with its version, or `None` where that is empty
unfoldable pub with_version : Option Fields → String → Option Fields
with_version metadata version =
    or_none
      (if is_empty version then copied metadata else put "version" (str version) (copied metadata))

unfoldable pub base_event : Draw → String → Option Fields → String → BaseEvent
base_event draw tenant_id metadata version = record {
  event_id = draw.event_id;
  tenant_id = tenant_id;
  status = created;
  created_at = draw.now;
  metadata = with_version metadata version;
}

unfoldable pub request_to_risk_event : Draw → String → RiskEventCreateRequest → RiskEvent
request_to_risk_event draw tenant_id req = record {
  base = base_event draw tenant_id req.metadata req.version;
  risk_score = req.risk_score;
  category = req.category;
}

unfoldable pub request_to_compliance_event :
    Draw → String → ComplianceEventCreateRequest → ComplianceEvent
request_to_compliance_event draw tenant_id req = record {
  base = base_event draw tenant_id req.metadata req.version;
  regulation_ref = req.regulation_ref;
  compliance_type = req.compliance_type;
}
