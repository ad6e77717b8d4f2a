-- ===== src/Domain/Validators.antt =====
-- The validators of app/domain/validators/event_validator.py. A validator returns nothing or
-- raises. `show` is how Python writes a float in a message.
use ai_risk_engine.Base.{String, ◌&&◌, Option, none, some, List, [], ◌∷◌, not, if◌then◌else◌}
use ai_risk_engine.Python.Int.{pos}
use ai_risk_engine.Python.Float.{Float, float_of, leb_float}
use ai_risk_engine.Python.Text.{f_string, is_blank}
use ai_risk_engine.Python.Value.{Fields, is_json_fields}
use ai_risk_engine.Error.{
  error, domain_validation_error, invalid_tenant_error, risk_threshold_violation_error,
  invalid_metadata_error, invalid_status_transition_error,
}
use ai_risk_engine.Exec.{Result, ok, err}
use ai_risk_engine.Domain.Status.{
  EventStatus, received, created, validated, processing, approved, rejected, failed, contains,
  transition_message,
}
use ai_risk_engine.Domain.Event.{RiskEvent, ComplianceEvent}
use ai_risk_engine.Domain.Schema.{RiskEventCreateRequest, ComplianceEventCreateRequest}

abbrev risk_score_min : Float
risk_score_min = float_of (pos 0)

abbrev risk_score_max : Float
risk_score_max = float_of (pos 100)

infixl 5 ◌then_check◌
-- One check, and if it raises nothing the next.
abbrev pub ◌then_check◌ : Result (Unit {0}) → Result (Unit {0}) → Result (Unit {0})
ok _ then_check next = next
err e then_check next = err e

unfoldable pub validate_tenant_id : String → Result (Unit {0})
validate_tenant_id tenant_id =
    if is_blank tenant_id
    then err (error invalid_tenant_error "tenant_id must not be empty")
    else ok tt

unfoldable pub validate_risk_score : (Float → String) → Option Float → Result (Unit {0})
validate_risk_score show none = ok tt
validate_risk_score show (some x) =
    if not (leb_float risk_score_min x && leb_float x risk_score_max)
    then err (
        error risk_threshold_violation_error
          (f_string ("risk_score must be between 0 and 100, got " ∷ show x ∷ [])))
    else ok tt

unfoldable pub validate_metadata_json_serializable : Option Fields → Result (Unit {0})
validate_metadata_json_serializable none = ok tt
validate_metadata_json_serializable (some m) =
    if is_json_fields m
    then ok tt
    else err (error invalid_metadata_error "metadata must be JSON-serializable")

-- `_allowed_transitions`, written out a second time by the source
unfoldable pub allowed_transitions : EventStatus → List EventStatus
allowed_transitions received = validated ∷ rejected ∷ []
allowed_transitions created = validated ∷ rejected ∷ []
allowed_transitions validated = processing ∷ []
allowed_transitions processing = approved ∷ rejected ∷ failed ∷ []
allowed_transitions approved = []
allowed_transitions rejected = []
allowed_transitions failed = []

unfoldable pub validate_status_transition : EventStatus → EventStatus → Result (Unit {0})
unfolding contains allowed_transitions
validate_status_transition current new =
    if contains new (allowed_transitions current)
    then ok tt
    else err (error invalid_status_transition_error (transition_message current new))

-- the test on the version that both request validators make
unfoldable pub validate_version : String → Result (Unit {0})
validate_version version =
    if is_blank version
    then err (error domain_validation_error "version must be set and non-empty")
    else ok tt

unfoldable pub validate_risk_event_create_request :
    (Float → String) → RiskEventCreateRequest → Result (Unit {0})
validate_risk_event_create_request show request =
    validate_tenant_id request.tenant_id
    then_check validate_risk_score show request.risk_score
    then_check validate_metadata_json_serializable request.metadata
    then_check validate_version request.version

unfoldable pub validate_compliance_event_create_request :
    ComplianceEventCreateRequest → Result (Unit {0})
validate_compliance_event_create_request request =
    validate_tenant_id request.tenant_id
    then_check validate_metadata_json_serializable request.metadata
    then_check validate_version request.version

unfoldable pub validate_risk_event : (Float → String) → RiskEvent → Result (Unit {0})
validate_risk_event show entity =
    validate_tenant_id entity.base.tenant_id then_check validate_risk_score show entity.risk_score

unfoldable pub validate_compliance_event : ComplianceEvent → Result (Unit {0})
validate_compliance_event entity = validate_tenant_id entity.base.tenant_id
