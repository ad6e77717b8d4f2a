-- ===== src/Api/Wiring/ReadBack.antt =====
-- A POST and the GET of what it made, through all of app/api, app/application/event_service.py and
-- app/infrastructure/cache.
use ai_risk_engine.Base.{Bool-cases, inl, inr, String, ◌≡◌, refl, ap, ◌∙◌, false, none, some, arith}
use ai_risk_engine.Python.Float.{Float}
use ai_risk_engine.Python.Text.{is_empty}
use ai_risk_engine.Exec.{Result, ok}
use ai_risk_engine.Domain.Event.{base_of}
use ai_risk_engine.Application.Service.{
  PersistedEvent, EventResponse, response_of, persisted_to_response, Systems, Services, Creation,
  create_event, get_event, idempotency_cache_key, cache_key,
}
use ai_risk_engine.Application.Service.Fresh.{create_event-IsSaved}
use ai_risk_engine.Infrastructure.Redis.{Redis}
use ai_risk_engine.Infrastructure.RedisEvents.{Codec, persisted_event, as_repository}
use ai_risk_engine.Infrastructure.RedisEvents.{get_event as get_stored}
use ai_risk_engine.Infrastructure.RedisEvents.Stored.{save-get_event}
use ai_risk_engine.Infrastructure.Publisher.{Amqp, Publisher}
use ai_risk_engine.Api.Http.{text, event, HttpResponse, Request, given, get_tenant_id, reply}
use ai_risk_engine.Api.Convert.{
  Draw, request_to_risk_event, request_to_compliance_event, base_event,
}
use ai_risk_engine.Api.Convert.Version.{body_version, posted-version}
use ai_risk_engine.Api.Routers.{EventBody, risk_body, compliance_body, to_event, read_event}
use ai_risk_engine.Api.Routers.Posts.{
  asked, post, IsSound, post_ok-IsCreated, sound_post, same_text,
}
use ai_risk_engine.Api.App.{Server, serve}
use ai_risk_engine.Api.App.Served.{marked, serve-eq-outcome}
use ai_risk_engine.Api.Wiring.{event_service}

to_event-base :
    (draw : Draw) (t : String) (body : EventBody)
    → ((base_of (to_event draw t body)).tenant_id ≡ t)
      × ((base_of (to_event draw t body)).event_id ≡ draw.event_id)
unfolding to_event base_of request_to_risk_event request_to_compliance_event base_event
to_event-base draw t (risk_body req) = (refl, refl)
to_event-base draw t (compliance_body req) = (refl, refl)

module _ {R Q T K : Type 0} (services : Services R Q T K) where
  -- A GET of an event that the service finds.
  read_found :
      (fresh event_id t : String) (request : Request) (r : EventResponse)
      (s : Server (Systems R Q T K))
      → given request.tenant_header ≡ some t
      → get_event services t event_id s.systems.repository ≡ ok (some r)
      → (serve fresh (read_event services event_id) request s).0
        ≡ marked fresh request (reply (event r))
  unfolding read_event get_tenant_id
  read_found fresh event_id t request r s tenant found =
      rw (serve-eq-outcome fresh (read_event services event_id) request s) (ground arith)

module _ {D W C H X : Type 0} (redis : Redis D) (codec : Codec) (amqp : Amqp W C H X)
    (dump : EventResponse → String) (parse : String → Result EventResponse) where
  abbrev wired : Services D (Publisher W C H) (Unit {0}) D
  wired = event_service redis codec amqp dump parse

  responded :
      (p : PersistedEvent) (r : EventResponse) → persisted_to_response p ≡ ok r → r ≡ response_of p
  unfolding persisted_to_response
  responded p r h = elim (Bool-cases (is_empty p.version)) [
    | inl empty ↦ absurd (ground arith)
    | inr full ↦ ground arith
  ]

  created-found :
      (c : Creation) (s s' : Systems D (Publisher W C H) (Unit {0}) D) (r : EventResponse)
      → wired.cache.get_cache (cache_key wired c) s.cache ≡ ok none
      → create_event wired c s ≡ (ok r, s')
      → (r ≡ response_of (persisted_event c.event c.correlation_id))
        × (get_event wired (base_of c.event).tenant_id (base_of c.event).event_id s'.repository
            ≡ ok (some r))
  unfolding event_service as_repository get_event
  created-found c s s' r missing made =
      let kept = create_event-IsSaved wired c s s' r missing made in
      let back =
        save-get_event redis codec c.event c.correlation_id s.repository kept.persisted
          kept.saved in
      let same : r ≡ response_of (persisted_event c.event c.correlation_id) =
        responded kept.persisted r kept.response ∙ ap response_of back.0 in
      let row : get_stored redis codec (base_of c.event).tenant_id (base_of c.event).event_id
            s'.repository
          ≡ ok (some kept.persisted) =
        rw kept.repository back.1 in
      let response = kept.response in (same, ground arith)

  -- The answers to a POST and to a GET that go with an event.
  abbrev pub ReadsBack :
      (first second : HttpResponse) (draw : Draw) (body : EventBody) (t : String)
      (r : EventResponse)
      → Type 0
  ReadsBack first second draw body t r =
      (first.body ≡ text (dump r))
      × (second.status_code ≡ 200)
      × (second.body ≡ event r)
      × (r.tenant_id ≡ t)
      × (r.event_id ≡ draw.event_id)
      × (r.version ≡ body_version body)

  reads_back :
      (show : Float → String) (fresh fresh' : String) (draw : Draw) (body : EventBody)
      (request reading : Request) (t k : String) (r : EventResponse)
      (s : Server (Systems D (Publisher W C H) (Unit {0}) D))
      → IsSound wired show body request t k
      → (create_event wired (asked wired show fresh draw body request t k) s.systems).0 ≡ ok r
      → wired.cache.get_cache (idempotency_cache_key t k) s.systems.cache ≡ ok none
      → is_empty (body_version body) ≡ false
      → given reading.tenant_header ≡ some t
      → let first = post wired show fresh draw body request s in
        let second = serve fresh' (read_event wired draw.event_id) reading first.1 in
        ReadsBack first.0 second.0 draw body t r
  unfolding event_service
  reads_back show fresh fresh' draw body request reading t k r s sound created missing full reader =
      let made = asked wired show fresh draw body request t k in
      let first = sound_post wired show fresh draw body request t k r s sound created in
      let sys = (create_event wired made s.systems).1 in
      let returned : create_event wired made s.systems ≡ (ok r, sys) = ground arith in
      let found = created-found made s.systems sys r missing returned in
      let base = to_event-base draw t body in
      let stored = posted-version draw t made.correlation_id body full in
      let here : get_event wired t draw.event_id sys.repository ≡ ok (some r) =
        rw (base.0, base.1) at found.1 in
      let s' = (post wired show fresh draw body request s).1 in
      let found' : get_event wired t draw.event_id s'.systems.repository ≡ ok (some r) =
        rw first.1 here in
      let second = read_found wired fresh' draw.event_id t reading r s' reader found' in
      let same = found.0 in
      (
        ap (λ x. x.body) first.0,
        ap (λ x. x.status_code) second,
        ap (λ x. x.body) second,
        rw same stored.1,
        rw same stored.2,
        rw same stored.0,
      )

  -- An event that a POST made is what a GET of it gives, as long as it is stored: where a POST that
  -- found nothing cached is answered with 200, and its body names a version, a GET of the new event by
  -- the same tenant is answered with 200 and an event that has the tenant of the header, the id that
  -- was drawn and the version of the body; the POST was answered with the text of the same event.
  pub post-get :
      (show : Float → String) (fresh fresh' : String) (draw : Draw) (body : EventBody)
      (request reading : Request) (t k : String)
      (s : Server (Systems D (Publisher W C H) (Unit {0}) D))
      → given request.tenant_header ≡ some t
      → given request.idempotency_header ≡ some k
      → wired.cache.get_cache (idempotency_cache_key t k) s.systems.cache ≡ ok none
      → (post wired show fresh draw body request s).0.status_code ≡ 200
      → is_empty (body_version body) ≡ false
      → given reading.tenant_header ≡ some t
      → let first = post wired show fresh draw body request s in
        let second = serve fresh' (read_event wired draw.event_id) reading first.1 in
        (r : EventResponse) × (ReadsBack first.0 second.0 draw body t r)
  post-get show fresh fresh' draw body request reading t k s tenant key missing is_200 full reader =
      let c = post_ok-IsCreated wired show fresh draw body request s (ground arith) in
      let same_t : c.t ≡ t =
        same_text wired show c.t t (given request.tenant_header) c.sound.tenant tenant in
      let same_k : c.k ≡ k =
        same_text wired show c.k k (given request.idempotency_header) c.sound.key key in
      let sound : IsSound wired show body request t k = record {
        tenant = tenant;
        key = key;
        valid = c.sound.valid;
      } in
      let created = rw (same_t, same_k) at c.created in
      (
        c.response,
        reads_back show fresh fresh' draw body request reading t k c.response s sound created
            missing full reader,
      )
