-- ===== src/Infrastructure/RedisEvents.antt =====
-- `RedisEventRepository` of app/infrastructure/cache/event_repository_redis.py. The JSON library and
-- the texts of dates are a parameter.
pub mod Stored
use ai_risk_engine.Base.{
  ℕ, String, ◌≡◌, Bool, false, Option, none, some, List, [], ◌∷◌, if◌then◌else◌, str_eq,
}
use ai_risk_engine.Python.Text.{f_string, is_empty}
use ai_risk_engine.Python.Time.{Datetime}
use ai_risk_engine.Python.Value.{
  Value, null, bool, int, float, str, arr, obj, opaque, Fields, end, field, find,
}
use ai_risk_engine.Error.{error, value_error, external_error}
use ai_risk_engine.Exec.{Result, ok, err, Exec, lift, pure, ◌>>=◌, ◌>>◌}
use ai_risk_engine.Domain.Status.{
  EventStatus, received, created, validated, processing, approved, rejected, failed, value,
}
use ai_risk_engine.Domain.Event.{Event, BaseEvent, base_of}
use ai_risk_engine.Application.Service.{PersistedEvent, EventRepository}
use ai_risk_engine.Infrastructure.Redis.{Redis, set_cache, get_cache}

abbrev pub event_store_ttl : ℕ
event_store_ttl = 604800

-- The dict that is stored, by its keys.
pub record Payload : Type 0 where
  pub event_id : String
  pub tenant_id : String
  pub correlation_id : String
  pub status : String
  pub created_at : String
  pub metadata : Option Fields
  pub version : Option String

-- `json.dumps` refuses what is not JSON, and otherwise writes a text that `json.loads` reads back.
-- `date_text` is `isoformat`; `date_of` is `fromisoformat` after a "Z" in the text has been replaced,
-- and reads a date that was written.
pub record Codec : Type 0 where
  pub dumps : Payload → Result String
  pub loads : String → Result Payload
  pub date_text : Datetime → String
  pub date_of : String → Result Datetime
  pub loads_dumps : (p : Payload) (s : String) → dumps p ≡ ok s → loads s ≡ ok p
  pub dumps_visible : (p : Payload) (s : String) → dumps p ≡ ok s → is_empty s ≡ false
  pub date_of_text : (t : Datetime) → date_of (date_text t) ≡ ok t

abbrev pub text_or : Value → String → String
text_or (str s) default = s
text_or null default = default
text_or (bool _) default = default
text_or (int _) default = default
text_or (float _) default = default
text_or (arr _) default = default
text_or (obj _) default = default
text_or (opaque _) default = default

-- the version that the metadata names, if that is a text, or else "1.0"
unfoldable pub stored_version : Option Fields → String
stored_version none = "1.0"
stored_version (some m) = elim (find "version" m) [ none ↦ "1.0" | some v ↦ text_or v "1.0" ]

unfoldable pub persisted_event : Event → String → PersistedEvent
unfolding stored_version
persisted_event event correlation_id = record {
  event_id = (base_of event).event_id;
  tenant_id = (base_of event).tenant_id;
  correlation_id = correlation_id;
  status = received;
  created_at = (base_of event).created_at;
  metadata = (base_of event).metadata;
  version = stored_version (base_of event).metadata;
}

abbrev pub event_key : String → String → String
event_key tenant_id event_id = f_string ("event:" ∷ tenant_id ∷ ":" ∷ event_id ∷ [])

-- `EventStatus(s)`
unfoldable pub status_of : String → Result EventStatus
status_of s =
    if str_eq s (value received)
    then ok received
    else if str_eq s (value created)
    then ok created
    else if str_eq s (value validated)
    then ok validated
    else if str_eq s (value processing)
    then ok processing
    else if str_eq s (value approved)
    then ok approved
    else if str_eq s (value rejected)
    then ok rejected
    else if str_eq s (value failed)
    then ok failed
    else err (error value_error (f_string (s ∷ " is not a valid EventStatus" ∷ [])))

unfoldable pub payload : Codec → PersistedEvent → Payload
payload codec p = record {
  event_id = p.event_id;
  tenant_id = p.tenant_id;
  correlation_id = p.correlation_id;
  status = value p.status;
  created_at = codec.date_text p.created_at;
  metadata = p.metadata;
  version = some p.version;
}

abbrev or_default : Option String → String
or_default none = "1.0"
or_default (some v) = v

-- the event that a dict stands for
unfoldable pub read_payload : Codec → Payload → Result PersistedEvent
read_payload codec stored = elim (status_of stored.status) [
  | err e ↦ err e
  | ok status ↦ elim (codec.date_of stored.created_at) [
    | err e ↦ err e
    | ok created_at ↦ ok record {
      event_id = stored.event_id;
      tenant_id = stored.tenant_id;
      correlation_id = stored.correlation_id;
      status = status;
      created_at = created_at;
      metadata = stored.metadata;
      version = or_default stored.version;
    }
  ]
]

module _ {D : Type 0} (redis : Redis D) (codec : Codec) where
  unfoldable pub save : Event → String → Exec D PersistedEvent
  save event correlation_id = do
    raw ← lift (codec.dumps (payload codec (persisted_event event correlation_id)))
    set_cache redis (event_key (base_of event).tenant_id (base_of event).event_id) raw
        event_store_ttl
    pure (persisted_event event correlation_id)

  abbrev parse : String → Result (Option PersistedEvent)
  parse raw = elim (codec.loads raw) [
    | err e ↦ err e
    | ok stored ↦ elim (read_payload codec stored) [ err e ↦ err e | ok p ↦ ok (some p) ]
  ]

  unfoldable pub get_event : String → String → D → Result (Option PersistedEvent)
  get_event tenant_id event_id d = elim (get_cache redis (event_key tenant_id event_id) d) [
    | err e ↦ err e
    | ok none ↦ ok none
    | ok (some raw) ↦ let read = parse raw in if is_empty raw then ok none else read
  ]

  -- the repository that the event service is given
  unfoldable pub as_repository : EventRepository D
  unfolding save get_event
  as_repository = record { save = save; get = get_event }
