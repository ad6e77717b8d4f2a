-- ===== src/Api/Http.antt =====
-- What the interface of app/api hands around: a request with what the middlewares attach to it
-- (`request.state`), and a response. Bodies are what the framework has parsed.
use ai_risk_engine.Base.{ℕ, String, Option, none, some, List, if◌then◌else◌}
use ai_risk_engine.Python.Text.{is_blank, is_empty, strip}
use ai_risk_engine.Error.{error, attribute_error}
use ai_risk_engine.Exec.{Result, ok, err}
use ai_risk_engine.Application.Service.{EventResponse}

-- `{"detail": …}`, the text of a response model, a response model that the framework writes, and a
-- dict of texts.
pub data Body : Type 0 where
  detail : String → Body
  text : String → Body
  event : EventResponse → Body
  fields : List (String × String) → Body

-- `correlation_id` is the header X-Correlation-ID.
pub record HttpResponse : Type 0 where
  pub status_code : ℕ
  pub body : Body
  pub correlation_id : Option String

-- `JSONResponse(status_code=…, content={"detail": …})`
abbrev pub json_response : ℕ → String → HttpResponse
json_response status_code message = record {
  status_code = status_code;
  body = detail message;
  correlation_id = none;
}

abbrev pub reply : Body → HttpResponse
reply body = record { status_code = 200; body = body; correlation_id = none }

-- The headers that the program reads, and `request.state`.
pub record Request : Type 0 where
  pub tenant_header : Option String
  pub correlation_header : Option String
  pub idempotency_header : Option String
  pub method : String
  pub path : String
  pub tenant_id : Option String
  pub correlation_id : Option String

-- `not h or not h.strip()` is the test for a missing header; what is used of one is `h.strip()`.
unfoldable pub given : Option String → Option String
given none = none
given (some h) = if is_blank h then none else some (strip h)

-- `request.headers.get(h) or default`
unfoldable pub header_or : Option String → String → String
header_or none default = default
header_or (some h) default = if is_empty h then default else h

-- `get_tenant_id`
unfoldable pub get_tenant_id : Request → Result String
get_tenant_id request = elim request.tenant_id [
  | none ↦ err (error attribute_error "tenant_id")
  | some t ↦ ok t
]

-- `get_correlation_id`
unfoldable pub get_correlation_id : Request → String
unfolding header_or
get_correlation_id request = header_or request.correlation_id ""

-- `request.state.correlation_id`
unfoldable pub state_correlation_id : Request → Result String
state_correlation_id request = elim request.correlation_id [
  | none ↦ err (error attribute_error "correlation_id")
  | some c ↦ ok c
]
