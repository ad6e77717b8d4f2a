-- ===== src/Api/Tests.antt =====
-- The theorems on app/api at concrete requests, with the event service on concrete servers.
use ai_risk_engine.Base.{String, ◌≡◌, refl, sym, ap, ◌∙◌, ◌↔◌, false, none, some, List, []}
use ai_risk_engine.Python.Float.{Float}
use ai_risk_engine.Python.Text.{is_blank, is_empty, strip}
use ai_risk_engine.Python.Dict.{Dict, get, insert}
use ai_risk_engine.Python.Value.{find, put}
use ai_risk_engine.Exec.{ok}
use ai_risk_engine.Domain.Status.{received, value}
use ai_risk_engine.Domain.Event.{base_of, type_name}
use ai_risk_engine.Domain.Validators.{
  validate_risk_event_create_request, validate_compliance_event_create_request, validate_tenant_id,
  validate_risk_score, validate_metadata_json_serializable, validate_version,
}
use ai_risk_engine.Application.Service.{
  EventResponse, Systems, Services, create_event, create_fresh, save_event, publish_event,
  publication, routing_key, start_workflow, cache_response, idempotency_cache_key,
  persisted_to_response,
}
use ai_risk_engine.Infrastructure.Redis.{as_cache, set_cache, get_cache}
use ai_risk_engine.Infrastructure.RedisEvents.{
  as_repository, save, payload, persisted_event, stored_version,
}
use ai_risk_engine.Infrastructure.Publisher.{Message, Publisher, publish, ensure_channel, connect}
use ai_risk_engine.Infrastructure.InMemory.{redis, amqp, set_value, ok-injective}
use ai_risk_engine.Infrastructure.Samples.{codec, write, is_sample, strokes, sample_metadata}
use ai_risk_engine.Api.Http.{Request, given, header_or, get_tenant_id, get_correlation_id}
use ai_risk_engine.Api.Convert.{Draw, with_version, base_event, request_to_risk_event}
use ai_risk_engine.Api.Convert.Version.{body_version}
use ai_risk_engine.Api.Routers.{
  EventBody, risk_body, compliance_body, to_event, read_event, post_event, post_keyed,
  validate_body, submit, answer,
}
use ai_risk_engine.Api.Routers.Posts.{
  post, asked, post_ok_iff, post-idempotent, IsCreated, IsSound, ReadsJson,
}
use ai_risk_engine.Api.App.{
  Server, serve, correlation_id_middleware, tenant_context_middleware, audit_trigger, audit_event,
  guarded,
}
use ai_risk_engine.Api.App.Served.{serve-eq-outcome, outcome}
use ai_risk_engine.Api.Wiring.{event_service, dummy_start}
use ai_risk_engine.Api.Wiring.ReadBack.{post-get, ReadsBack}

abbrev Broker : Type 0
Broker = Publisher (List (Message × String)) (Unit {0}) (Unit {0})

abbrev response : EventResponse
response = record {
  event_id = "e1";
  tenant_id = "acme";
  status = received;
  created_at = 5;
  metadata = sample_metadata;
  version = "2.0";
}

abbrev dump : EventResponse → String
dump r = r.event_id

abbrev wired : Services (Dict String) Broker (Unit {0}) (Dict String)
wired = event_service redis codec amqp dump (λ _. ok response)

abbrev show : Float → String
show _ = "a float"

abbrev draw : Draw
draw = record { event_id = "e1"; now = 5 }

abbrev body : EventBody
body = risk_body record {
  tenant_id = "globex";
  risk_score = none;
  category = none;
  metadata = none;
  version = "2.0";
}

abbrev request : Request
request = record {
  tenant_header = some " acme ";
  correlation_header = some "c1";
  idempotency_header = some "k1";
  method = "POST";
  path = "/events/";
  tenant_id = none;
  correlation_id = none;
}

abbrev reading : Request
reading = record request { idempotency_header = none; method = "GET"; path = "/events/e1" }

abbrev server : Server (Systems (Dict String) Broker (Unit {0}) (Dict String))
server = record {
  systems = record {
    repository = [];
    broker = record { broker = []; connection = none; channel = none };
    workflows = tt;
    cache = [];
  };
  audit_log = [];
}

tenant_is_given : given request.tenant_header ≡ some "acme"
unfolding given is_blank strip
tenant_is_given = refl

key_is_given : given request.idempotency_header ≡ some "k1"
unfolding given is_blank strip
key_is_given = refl

not_cached :
    wired.cache.get_cache (idempotency_cache_key "acme" "k1") server.systems.cache ≡ ok none
unfolding event_service as_cache redis get_cache get
not_cached = refl

returns :
    (create_event wired (asked wired show "fresh" draw body request "acme" "k1") server.systems).0
    ≡ ok response
unfolding serve correlation_id_middleware tenant_context_middleware audit_trigger guarded
    audit_event header_or given is_blank strip get_tenant_id get_correlation_id post_event
    post_keyed validate_body validate_risk_event_create_request validate_tenant_id
    validate_risk_score validate_metadata_json_serializable validate_version submit answer to_event
    request_to_risk_event base_event with_version put event_service as_repository as_cache save
    set_cache get_cache set_value redis get insert codec write is_sample strokes payload
    persisted_event base_of value stored_version find create_event create_fresh save_event
    publish_event publication routing_key type_name start_workflow dummy_start cache_response
    idempotency_cache_key persisted_to_response publish ensure_channel connect
returns = refl

is_answered : (post wired show "fresh" draw body request server).0.status_code ≡ 200
unfolding serve correlation_id_middleware tenant_context_middleware audit_trigger guarded
    audit_event header_or given is_blank strip get_tenant_id get_correlation_id post_event
    post_keyed validate_body validate_risk_event_create_request validate_tenant_id
    validate_risk_score validate_metadata_json_serializable validate_version submit answer to_event
    request_to_risk_event base_event with_version put event_service as_repository as_cache save
    set_cache get_cache set_value redis get insert codec write is_sample strokes payload
    persisted_event base_of value stored_version find create_event create_fresh save_event
    publish_event publication routing_key type_name start_workflow dummy_start cache_response
    idempotency_cache_key persisted_to_response publish ensure_channel connect
is_answered = refl

named : is_empty (body_version body) ≡ false
unfolding body_version
named = refl

post-get_example :
    (r : EventResponse) × (ReadsBack redis codec amqp dump
      (λ _. ok response)
      (post wired show "fresh" draw body request server).0
      (serve "other"
        (read_event wired "e1")
        reading
        (post wired show "fresh" draw body request server).1).0
      draw
      body
      "acme"
      r)
post-get_example =
    post-get redis codec amqp dump (λ _. ok response) show "fresh" "other" draw body request reading
      "acme" "k1" server tenant_is_given key_is_given not_cached is_answered named tenant_is_given

reads_json :
    ReadsJson wired show
      (create_event wired (asked wired show "fresh" draw body request "acme" "k1") server.systems).0
unfolding event_service
reads_json r made =
    let same : response ≡ r = ok-injective (sym returns ∙ made) in (ap ok same, rw (← same) refl)

abbrev later_body : EventBody
later_body = compliance_body record {
  tenant_id = "acme";
  regulation_ref = some "art. 5";
  compliance_type = none;
  metadata = none;
  version = "3";
}

later-IsSound : IsSound wired show later_body request "acme" "k1"
unfolding validate_body validate_compliance_event_create_request validate_tenant_id
    validate_metadata_json_serializable validate_version is_blank strip
later-IsSound = record { tenant = tenant_is_given; key = key_is_given; valid = refl }

post-idempotent_example :
    ((post wired show "other" draw later_body request
        (post wired show "fresh" draw body request server).1).0.status_code
      ≡ 200)
    × ((post wired show "other" draw later_body request
          (post wired show "fresh" draw body request server).1).0.body
        ≡ (post wired show "fresh" draw body request server).0.body)
    × ((post wired show "other" draw later_body request
          (post wired show "fresh" draw body request server).1).1.systems
        ≡ (post wired show "fresh" draw body request server).1.systems)
post-idempotent_example =
    post-idempotent wired show "fresh" "other" draw draw body later_body request request "acme" "k1"
      server tenant_is_given key_is_given not_cached reads_json is_answered later-IsSound

post_ok_iff_example :
    ((post wired show "fresh" draw body request server).0.status_code ≡ 200)
    ↔ IsCreated wired show "fresh" draw body request server
post_ok_iff_example = post_ok_iff wired show "fresh" draw body request server

serve-eq-outcome_example :
    serve "fresh" (post_event wired show draw body) request server
    ≡ outcome "fresh" (post_event wired show draw body) request server
serve-eq-outcome_example = serve-eq-outcome "fresh" (post_event wired show draw body) request server
