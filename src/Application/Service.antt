-- ===== src/Application/Service.antt =====
-- `EventService` of app/application/event_service.py. The repository and the trigger are protocols of
-- the source (event_repository.py, app/workflows/interface.py); the publisher and the cache stand on
-- libraries, and so does the JSON of a response. All of them are parameters. Log lines are left out.
pub mod Created
pub mod Fresh
use ai_risk_engine.Base.{
  ℕ, String, ◌≡◌, Bool, true, false, Option, none, some, List, [], ◌∷◌, if◌then◌else◌,
}
use ai_risk_engine.Python.Text.{f_string, is_empty}
use ai_risk_engine.Python.Time.{Datetime}
use ai_risk_engine.Python.Value.{Fields}
use ai_risk_engine.Error.{Error, error, messaging_failure_error, value_error}
use ai_risk_engine.Exec.{Result, ok, err, Exec, lift, pure, ◌>>=◌, ◌>>◌}
use ai_risk_engine.Domain.Status.{EventStatus, value}
use ai_risk_engine.Domain.Event.{Event, plain, risk, compliance, type_name}

pub record PersistedEvent : Type 0 where
  pub event_id : String
  pub tenant_id : String
  pub correlation_id : String
  pub status : EventStatus
  pub created_at : Datetime
  pub metadata : Option Fields
  pub version : String

pub record EventResponse : Type 0 where
  pub event_id : String
  pub tenant_id : String
  pub status : EventStatus
  pub created_at : Datetime
  pub metadata : Option Fields
  pub version : String

-- the fields of the response
abbrev pub response_of : PersistedEvent → EventResponse
response_of p = record {
  event_id = p.event_id;
  tenant_id = p.tenant_id;
  status = p.status;
  created_at = p.created_at;
  metadata = p.metadata;
  version = p.version;
}

-- what the schema library raises, a `ValueError`, for a version of no characters; its text is cut short
abbrev pub short_version : Error
short_version = error value_error "version: String should have at least 1 character"

-- `_persisted_to_response`, with the check of the schema `EventResponse`
unfoldable pub persisted_to_response : PersistedEvent → Result EventResponse
persisted_to_response p = if is_empty p.version then err short_version else ok (response_of p)

-- `_idempotency_key`
unfoldable pub idempotency_cache_key : String → String → String
idempotency_cache_key tenant_id idempotency_key =
    f_string ("idempotency:" ∷ tenant_id ∷ ":" ∷ idempotency_key ∷ [])

-- `_routing_key`
unfoldable pub routing_key : Event → String
routing_key (risk _) = "risk.created"
routing_key (compliance _) = "compliance.created"
routing_key (plain _) = "event.created"

abbrev idempotency_ttl : ℕ
idempotency_ttl = 300

-- What is handed to the publisher; the message is its first five fields.
pub record Publication : Type 0 where
  pub event_id : String
  pub tenant_id : String
  pub correlation_id : String
  pub event_type : String
  pub status : String
  pub exchange : String
  pub routing_key : String
  pub idempotency_key : String

unfoldable pub publication : Event → PersistedEvent → String → String → Publication
publication event p correlation_id idempotency_key = record {
  event_id = p.event_id;
  tenant_id = p.tenant_id;
  correlation_id = correlation_id;
  event_type = type_name event;
  status = value p.status;
  exchange = "risk_events";
  routing_key = routing_key event;
  idempotency_key = idempotency_key;
}

-- The protocol `EventRepository`, and what the service calls of the other services. All may raise. A
-- value that has been cached is read back, at least until its time to live is over.
pub record EventRepository (R : Type 0) : Type 0 where
  pub save : Event → (correlation_id : String) → Exec R PersistedEvent
  pub get : (tenant_id event_id : String) → R → Result (Option PersistedEvent)

pub record Cache (K : Type 0) : Type 0 where
  pub get_cache : String → K → Result (Option String)
  pub set_cache : String → String → ℕ → Exec K (Unit {0})
  pub set_ok :
      (k v : String) (ttl : ℕ) (c : K)
      → (set_cache k v ttl c).0 ≡ ok tt
      → get_cache k (set_cache k v ttl c).1 ≡ ok (some v)

-- What a service works on.
pub record Systems (R Q T K : Type 0) : Type 0 where
  pub repository : R
  pub broker : Q
  pub workflows : T
  pub cache : K

-- The arguments of `create_event`.
pub record Creation : Type 0 where
  pub event : Event
  pub tenant_id : String
  pub idempotency_key : String
  pub correlation_id : String

-- The services that an `EventService` is built with, and the JSON of a response.
pub record Services (R Q T K : Type 0) : Type 0 where
  pub repository : EventRepository R
  pub publish : Publication → Exec Q (Unit {0})
  pub start : (event_id tenant_id : String) → Exec T (Unit {0})
  pub cache : Cache K
  pub dump : EventResponse → String
  pub parse : String → Result EventResponse

module _ {R Q T K : Type 0} (services : Services R Q T K) where
  abbrev pub cache_key : Creation → String
  cache_key c = idempotency_cache_key c.tenant_id c.idempotency_key

  unfoldable pub save_event : Creation → Exec (Systems R Q T K) PersistedEvent
  save_event c s =
      let (r, repository) = services.repository.save c.event c.correlation_id s.repository in
      (r, record s { repository = repository })

  abbrev pub publish_failed : Error → Error
  publish_failed e = error messaging_failure_error (f_string ("Publish failed: " ∷ e.message ∷ []))

  -- an exception of the publisher is raised anew, as a `MessagingFailureError`
  unfoldable pub publish_event : Creation → PersistedEvent → Exec (Systems R Q T K) (Unit {0})
  publish_event c p s =
      let (r, broker) =
        services.publish (publication c.event p c.correlation_id c.idempotency_key) s.broker in
      (elim r [ ok _ ↦ ok tt | err e ↦ err (publish_failed e) ], record s { broker = broker })

  -- an exception of the trigger is swallowed
  unfoldable pub start_workflow : PersistedEvent → Exec (Systems R Q T K) (Unit {0})
  start_workflow p s =
      (ok tt, record s { workflows = (services.start p.event_id p.tenant_id s.workflows).1 })

  unfoldable pub cache_response : Creation → EventResponse → Exec (Systems R Q T K) (Unit {0})
  cache_response c response s =
      let (r, cache) =
        services.cache.set_cache (cache_key c) (services.dump response) idempotency_ttl s.cache in
      (r, record s { cache = cache })

  -- steps 2 to 7, where nothing was cached
  unfoldable pub create_fresh : Creation → Exec (Systems R Q T K) EventResponse
  create_fresh c = do
    persisted ← save_event c
    publish_event c persisted
    start_workflow persisted
    response ← lift (persisted_to_response persisted)
    cache_response c response
    pure response

  -- `create_event`; an empty text in the cache is falsy
  unfoldable pub create_event : Creation → Exec (Systems R Q T K) EventResponse
  create_event c s = elim (services.cache.get_cache (cache_key c) s.cache) [
    | err e ↦ (err e, s)
    | ok none ↦ create_fresh c s
    | ok (some cached) ↦
        let rest = create_fresh c s in if is_empty cached then rest else (services.parse cached, s)
  ]

  unfoldable pub get_event : String → String → R → Result (Option EventResponse)
  get_event tenant_id event_id r = elim (services.repository.get tenant_id event_id r) [
    | err e ↦ err e
    | ok none ↦ ok none
    | ok (some p) ↦ elim (persisted_to_response p) [ err e ↦ err e | ok r ↦ ok (some r) ]
  ]
