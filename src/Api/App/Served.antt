-- ===== src/Api/App/Served.antt =====
-- The way of a request through the handlers and middlewares of app/main.py and app/api/middleware.py,
-- as one case distinction.
use ai_risk_engine.Base.{
  String, ◌≡◌, refl, inl, inr, Option, none, some, [], ◌∷◌, ◌++◌, arith, Option-cases,
}
use ai_risk_engine.Error.{ErrorClass, Error, error, domain_error, base, same_class, is_instance}
use ai_risk_engine.Exec.{Result, ok, err, Result-cases}
use ai_risk_engine.Api.Http.{HttpResponse, Request, given, header_or}
use ai_risk_engine.Api.Routers.{caught}
use ai_risk_engine.Api.App.{
  handler_status, handled, internal_error, tenant_required, Server, audit_event, Endpoint, guarded,
  audit_trigger, tenant_context_middleware, correlation_id_middleware, serve,
}

caught-eq-handled_class : (c : ErrorClass) (m : String) → caught (error c m) ≡ handled (error c m)
unfolding caught handled handler_status is_instance same_class base
caught-eq-handled_class domain_error m = refl
caught-eq-handled_class _ m = refl

-- The `except` clauses of the routers answer each exception as the exception handlers of the
-- application do, and let pass the same ones.
pub caught-eq-handled : (e : Error) → caught e ≡ handled e
caught-eq-handled e = caught-eq-handled_class e.class e.message

-- What the middlewares make of a request that names a tenant.
abbrev pub attached : String → Request → String → Request
attached fresh request tenant_id = record request {
  tenant_id = some tenant_id;
  correlation_id = some (header_or request.correlation_header fresh);
}

abbrev pub marked : String → Request → HttpResponse → HttpResponse
marked fresh request response = record response {
  correlation_id = some (header_or request.correlation_header fresh);
}

-- The answer to what a handler returned or raised, if there is one.
abbrev pub settled : Result HttpResponse → Option HttpResponse
settled (ok response) = some response
settled (err e) = handled e

module _ {S : Type 0} where
  -- A request without a tenant is refused. Any other is handled once; its answer is marked with the
  -- correlation id and audited, unless the handler raises what nobody expects.
  abbrev pub outcome : String → Endpoint S → Request → Server S → HttpResponse × Server S
  outcome fresh route request s = elim (given request.tenant_header) [
    | none ↦ (marked fresh request tenant_required, s)
    | some t ↦
        let inner = attached fresh request t in
        let (r, systems) = route inner s.systems in
        elim (settled r) [
          | none ↦ (internal_error, record s { systems = systems })
          | some response ↦ (
            marked fresh request response,
            record {
              systems = systems;
              audit_log = s.audit_log ++ (audit_event inner response ∷ []);
            },
          )
        ]
  ]

  -- A request is served as one case distinction says: without a tenant it is refused with the
  -- status 400 and nothing changes; otherwise its handler runs once, with the stripped tenant and the
  -- correlation id attached, and the answer carries that id and is audited with its status, except
  -- that an exception for which there is no handler is answered by a bare 500 and is not audited.
  pub serve-eq-outcome :
      (fresh : String) (route : Endpoint S) (request : Request) (s : Server S)
      → serve fresh route request s ≡ outcome fresh route request s
  unfolding serve correlation_id_middleware tenant_context_middleware audit_trigger guarded
  serve-eq-outcome fresh route request s = elim (Option-cases (given request.tenant_header)) [
    | inl missing ↦ ground arith
    | inr (t, named) ↦ elim (Result-cases (route (attached fresh request t) s.systems).0) [
      | inl (response, done) ↦ ground arith
      | inr (e, raised) ↦ elim (Option-cases (handled e)) [
        | inl unexpected ↦ ground arith
        | inr (response, answered) ↦ ground arith
      ]
    ]
  ]
