-- ===== src/Api/Routers.antt =====
-- The handlers of app/api/routers over an `EventService`. A raise that a router does not catch goes
-- on to the application, in App.
pub mod Posts
use ai_risk_engine.Base.{
  ℕ, String, Bool, true, false, Option, none, some, List, [], ◌∷◌, if◌then◌else◌,
}
use ai_risk_engine.Python.Float.{Float}
use ai_risk_engine.Error.{
  ErrorClass, Error, is_instance, domain_validation_error, domain_error, messaging_failure_error,
  application_error,
}
use ai_risk_engine.Exec.{Result, ok, err, Exec, lift, pure, ◌>>=◌, ◌>>◌}
use ai_risk_engine.Domain.Event.{Event, risk, compliance}
use ai_risk_engine.Domain.Schema.{RiskEventCreateRequest, ComplianceEventCreateRequest}
use ai_risk_engine.Domain.Validators.{
  validate_risk_event_create_request, validate_compliance_event_create_request,
}
use ai_risk_engine.Application.Service.{
  EventResponse, Systems, Services, Creation, create_event, get_event,
}
use ai_risk_engine.Api.Http.{
  HttpResponse, Request, event, text, fields, json_response, reply, given, get_tenant_id,
  get_correlation_id, state_correlation_id,
}
use ai_risk_engine.Api.Convert.{Draw, request_to_risk_event, request_to_compliance_event}

-- `Union[RiskEventCreateRequest, ComplianceEventCreateRequest]`
pub data EventBody : Type 0 where
  risk_body : RiskEventCreateRequest → EventBody
  compliance_body : ComplianceEventCreateRequest → EventBody

abbrev pub key_required : HttpResponse
key_required = json_response 400 "X-Idempotency-Key header is required"

-- the `except` clauses, in their order; `none` where none of them catches
unfoldable pub caught : Error → Option HttpResponse
caught e =
    if is_instance e.class domain_validation_error
    then some (json_response 422 e.message)
    else if is_instance e.class domain_error
    then some (json_response 400 e.message)
    else if is_instance e.class messaging_failure_error
    then some (json_response 503 e.message)
    else if is_instance e.class application_error
    then some (json_response 500 e.message)
    else none

unfoldable pub validate_body : (Float → String) → EventBody → Result (Unit {0})
validate_body show (risk_body req) = validate_risk_event_create_request show req
validate_body show (compliance_body req) = validate_compliance_event_create_request req

unfoldable pub to_event : Draw → String → EventBody → Event
to_event draw tenant_id (risk_body req) = risk (request_to_risk_event draw tenant_id req)
to_event draw tenant_id (compliance_body req) =
    compliance (request_to_compliance_event draw tenant_id req)

module _ {R Q T K : Type 0} (services : Services R Q T K) (show : Float → String) where
  -- the `try` around the call of the service; the body of the answer is the JSON of the response
  unfoldable pub answer : Result EventResponse → Result HttpResponse
  answer (ok response) = ok (reply (text (services.dump response)))
  answer (err e) = elim (caught e) [ none ↦ err e | some r ↦ ok r ]

  abbrev pub creation : Draw → String → String → String → EventBody → Creation
  creation draw tenant_id key correlation_id body = record {
    event = to_event draw tenant_id body;
    tenant_id = tenant_id;
    idempotency_key = key;
    correlation_id = correlation_id;
  }

  unfoldable pub submit : Creation → Exec (Systems R Q T K) HttpResponse
  submit c s = let (r, s') = create_event services c s in (answer r, s')

  -- the handler after its dependencies, where the header has a key
  unfoldable pub post_keyed :
      Draw → EventBody → Request → String → String → Exec (Systems R Q T K) HttpResponse
  post_keyed draw body request tenant_id key = do
    lift (validate_body show body)
    submit (creation draw tenant_id key (get_correlation_id request) body)

  -- `create_event` of events.py
  unfoldable pub post_event : Draw → EventBody → Request → Exec (Systems R Q T K) HttpResponse
  post_event draw body request = do
    tenant_id ← lift (get_tenant_id request)
    elim (given request.idempotency_header) [
      | none ↦ pure key_required
      | some key ↦ post_keyed draw body request tenant_id key
    ]

  -- `create_risk_event` of risk.py
  unfoldable pub create_risk_event :
      Draw → RiskEventCreateRequest → Request → Exec (Systems R Q T K) HttpResponse
  create_risk_event draw body = post_event draw (risk_body body)

  -- `create_compliance_event` of compliance.py
  unfoldable pub create_compliance_event :
      Draw → ComplianceEventCreateRequest → Request → Exec (Systems R Q T K) HttpResponse
  create_compliance_event draw body = post_event draw (compliance_body body)

module _ {R Q T K : Type 0} (services : Services R Q T K) where
  -- `get_event` of events.py
  unfoldable pub read_event : String → Request → Exec (Systems R Q T K) HttpResponse
  read_event event_id request = do
    tenant_id ← lift (get_tenant_id request)
    found ← λ s. (get_event services tenant_id event_id s.repository, s)
    pure (elim found [ none ↦ json_response 404 "Event not found" | some r ↦ reply (event r) ])

module _ {S : Type 0} where
  -- `tenant_context` of tenant.py
  unfoldable pub tenant_context : Request → Exec S HttpResponse
  tenant_context request = do
    tenant_id ← lift (get_tenant_id request)
    correlation_id ← lift (state_correlation_id request)
    pure (reply (fields (("tenant_id", tenant_id) ∷ ("correlation_id", correlation_id) ∷ [])))

  -- `health` of health.py, with two of the settings
  unfoldable pub health : String → String → Request → Exec S HttpResponse
  health environment version request = do
    tenant_id ← lift (get_tenant_id request)
    correlation_id ← lift (state_correlation_id request)
    pure (
        reply (
          fields (
            ("status", "ok")
            ∷ ("tenant_id", tenant_id)
            ∷ ("correlation_id", correlation_id)
            ∷ ("environment", environment)
            ∷ ("version", version)
            ∷ [])))
