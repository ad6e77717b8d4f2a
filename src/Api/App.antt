-- ===== src/Api/App.antt =====
-- The application of app/main.py: its exception handlers, the middlewares of app/api/middleware.py,
-- and the way a request takes through them. The context variables are only read by the log.
pub mod Served
use ai_risk_engine.Base.{ℕ, String, Option, none, some, List, [], ◌∷◌, ◌++◌}
use ai_risk_engine.Error.{
  ErrorClass, Error, base, domain_validation_error, domain_error, messaging_failure_error,
  application_error,
}
use ai_risk_engine.Exec.{Result, ok, err, Exec, pure}
use ai_risk_engine.Api.Http.{HttpResponse, Request, json_response, given, header_or}

-- `@app.exception_handler(C)`: the status of the answer of the handler for exactly this class; it
-- puts the exception's message into the answer.
unfoldable pub handler_status : ErrorClass → Option ℕ
handler_status domain_validation_error = some 422
handler_status domain_error = some 400
handler_status messaging_failure_error = some 503
handler_status application_error = some 500
handler_status _ = none

abbrev with_message : Error → Option ℕ → Option HttpResponse
with_message e none = none
with_message e (some n) = some (json_response n e.message)

-- The handler of an exception is that of its class, or else of the class's base.
unfoldable pub handled : Error → Option HttpResponse
handled e = elim (handler_status e.class) [
  | some n ↦ some (json_response n e.message)
  | none ↦ elim (base e.class) [ none ↦ none | some b ↦ with_message e (handler_status b) ]
]

-- `unexpected_error_handler`
abbrev pub internal_error : HttpResponse
internal_error = json_response 500 "Internal server error"

abbrev pub tenant_required : HttpResponse
tenant_required = json_response 400 "X-Tenant-ID header is required"

pub record AuditEvent : Type 0 where
  pub correlation_id : Option String
  pub tenant_id : Option String
  pub path : String
  pub method : String
  pub status_code : ℕ

-- What a request changes: the systems `S` behind the handlers, and the audit events that are logged.
pub record Server (S : Type 0) : Type 0 where
  pub systems : S
  pub audit_log : List AuditEvent

unfoldable pub audit_event : Request → HttpResponse → AuditEvent
audit_event request response = record {
  correlation_id = request.correlation_id;
  tenant_id = request.tenant_id;
  path = request.path;
  method = request.method;
  status_code = response.status_code;
}

-- A handler, or what is left of the way to it.
abbrev pub Endpoint : Type 0 → Type 0
Endpoint S = Request → Exec S HttpResponse

module _ {S : Type 0} where
  -- the handler inside the exception handlers of the program's classes
  unfoldable pub guarded : Endpoint S → Endpoint (Server S)
  guarded route request s =
      let (r, systems) = route request s.systems in
      (
        elim r [
          | ok response ↦ ok response
          | err e ↦ elim (handled e) [ none ↦ err e | some response ↦ ok response ]
        ],
        record s { systems = systems },
      )

  -- `AuditTriggerMiddleware.dispatch`
  unfoldable pub audit_trigger : Endpoint (Server S) → Endpoint (Server S)
  audit_trigger call_next request s =
      let (r, s') = call_next request s in
      elim r [
        | err e ↦ (err e, s')
        | ok response ↦ (
          ok response,
          record s' { audit_log = s'.audit_log ++ (audit_event request response ∷ []) },
        )
      ]

  -- `TenantContextMiddleware.dispatch`
  unfoldable pub tenant_context_middleware : Endpoint (Server S) → Endpoint (Server S)
  tenant_context_middleware call_next request s = elim (given request.tenant_header) [
    | none ↦ (ok tenant_required, s)
    | some t ↦ call_next (record request { tenant_id = some t }) s
  ]

  -- `CorrelationIdMiddleware.dispatch`; `fresh` is `str(uuid.uuid4())`
  unfoldable pub correlation_id_middleware : String → Endpoint (Server S) → Endpoint (Server S)
  correlation_id_middleware fresh call_next request s =
      let correlation_id = header_or request.correlation_header fresh in
      let (r, s') = call_next (record request { correlation_id = some correlation_id }) s in
      (
        elim r [
          | err e ↦ err e
          | ok response ↦ ok (record response { correlation_id = some correlation_id })
        ],
        s',
      )

  -- The middleware that is added last runs first. The handler of `Exception` answers outside of all
  -- of them.
  unfoldable pub serve : String → Endpoint S → Request → Server S → HttpResponse × Server S
  serve fresh route request s =
      let (r, s') =
        correlation_id_middleware fresh (tenant_context_middleware (audit_trigger (guarded route)))
          request s in
      (elim r [ ok response ↦ response | err e ↦ internal_error ], s')
