-- ===== src/Domain/Schema.antt =====
-- The request schemas of app/domain/schemas/event.py. A value of these records is what the schema
-- library built from a body; the constraints on the fields are `conforms_risk` and
-- `conforms_compliance`.
use ai_risk_engine.Base.{String, Bool, true, ◌&&◌, not, Option, none, some}
use ai_risk_engine.Python.Int.{pos}
use ai_risk_engine.Python.Float.{Float, float_of, leb_float}
use ai_risk_engine.Python.Text.{is_empty}
use ai_risk_engine.Python.Value.{Fields, is_json_fields}

pub record RiskEventCreateRequest : Type 0 where
  pub tenant_id : String
  pub risk_score : Option Float
  pub category : Option String
  pub metadata : Option Fields
  pub version : String

pub record ComplianceEventCreateRequest : Type 0 where
  pub tenant_id : String
  pub regulation_ref : Option String
  pub compliance_type : Option String
  pub metadata : Option Fields
  pub version : String

-- `metadata_must_be_json_serializable`
unfoldable pub metadata_is_json : Option Fields → Bool
metadata_is_json none = true
metadata_is_json (some m) = is_json_fields m

-- `Field(None, ge=0.0, le=100.0)`
unfoldable pub score_in_range : Option Float → Bool
score_in_range none = true
score_in_range (some x) = leb_float (float_of (pos 0)) x && leb_float x (float_of (pos 100))

unfoldable pub conforms_risk : RiskEventCreateRequest → Bool
conforms_risk r =
    not (is_empty r.tenant_id)
    && score_in_range r.risk_score
    && metadata_is_json r.metadata
    && not (is_empty r.version)

unfoldable pub conforms_compliance : ComplianceEventCreateRequest → Bool
conforms_compliance r =
    not (is_empty r.tenant_id) && metadata_is_json r.metadata && not (is_empty r.version)
