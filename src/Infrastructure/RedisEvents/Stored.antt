-- ===== src/Infrastructure/RedisEvents/Stored.antt =====
-- That app/infrastructure/cache/event_repository_redis.py gives back what it has stored.
use ai_risk_engine.Base.{String, ◌≡◌, refl, inl, inr, some, arith}
use ai_risk_engine.Exec.{ok, Result-cases}
use ai_risk_engine.Domain.Status.{EventStatus, received, value}
use ai_risk_engine.Domain.Event.{Event, base_of}
use ai_risk_engine.Application.Service.{PersistedEvent}
use ai_risk_engine.Infrastructure.Redis.{Redis, set_cache, set_cache-get_cache}
use ai_risk_engine.Infrastructure.RedisEvents.{
  Codec, event_key, event_store_ttl, status_of, payload, read_payload, persisted_event, save,
  get_event,
}

pub status_of-value : (s : EventStatus) → status_of (value s) ≡ ok s
unfolding status_of value
status_of-value received = refl
status_of-value _ = refl

-- Any event, of whatever status and metadata, is read back from its payload.
pub read_payload-payload :
    (codec : Codec) (p : PersistedEvent) → read_payload codec (payload codec p) ≡ ok p
unfolding read_payload payload
read_payload-payload codec p =
    let status = status_of-value p.status in
    let date = codec.date_of_text p.created_at in ground arith

module _ {D : Type 0} (redis : Redis D) (codec : Codec) where
  -- An event that has been saved is found under its tenant and its id, with the status received and
  -- with the correlation id, the date, the metadata and the version that it was saved with, as long
  -- as it is stored.
  pub save-get_event :
      (event : Event) (correlation_id : String) (d : D) (p : PersistedEvent)
      → (save redis codec event correlation_id d).0 ≡ ok p
      → (p ≡ persisted_event event correlation_id)
        × (get_event redis codec
              (base_of event).tenant_id
              (base_of event).event_id
              (save redis codec event correlation_id d).1
            ≡ ok (some p))
  unfolding save get_event
  save-get_event event correlation_id d p saved =
      let row = persisted_event event correlation_id in
      let key = event_key (base_of event).tenant_id (base_of event).event_id in
      elim (Result-cases (codec.dumps (payload codec row))) [
        | inr (e, refused) ↦ absurd (ground arith)
        | inl (raw, dumped) ↦ elim (Result-cases (set_cache redis key raw event_store_ttl d).0) [
          | inr (e, broken) ↦ absurd (ground arith)
          | inl (_, written) ↦
              let there = set_cache-get_cache redis key raw event_store_ttl d written in
              let read = codec.loads_dumps (payload codec row) raw dumped in
              let visible = codec.dumps_visible (payload codec row) raw dumped in
              let back = read_payload-payload codec row in
              let same : p ≡ row = ground arith in (same, ground arith)
        ]
      ]
