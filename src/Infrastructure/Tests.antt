-- ===== src/Infrastructure/Tests.antt =====
-- The theorems on app/infrastructure at concrete events and tables.
use ai_risk_engine.Base.{◌≡◌, refl, false, none, some, [], ◌∷◌}
use ai_risk_engine.Python.Value.{str, Fields, end, field, find, put, is_str}
use ai_risk_engine.Python.Dict.{get}
use ai_risk_engine.Exec.{ok}
use ai_risk_engine.Domain.Status.{created, value}
use ai_risk_engine.Domain.Event.{Event, risk, base_of}
use ai_risk_engine.Application.Service.{PersistedEvent}
use ai_risk_engine.Infrastructure.Redis.{set_cache}
use ai_risk_engine.Infrastructure.RedisEvents.{
  persisted_event, stored_version, save, get_event, payload,
}
use ai_risk_engine.Infrastructure.RedisEvents.Stored.{save-get_event}
use ai_risk_engine.Infrastructure.DbEvents as DbEvents
use ai_risk_engine.Infrastructure.DbEvents.Stored.{save-get_row, as_read}
use ai_risk_engine.Infrastructure.Repository as Repository
use ai_risk_engine.Infrastructure.Repository.{
  upsert_idempotent, statement, overwrite, set_on_conflict, fetch_one,
}
use ai_risk_engine.Infrastructure.Repository.Upserts.{upsert_idempotent-takes_row}
use ai_risk_engine.Infrastructure.InMemory.{
  redis, set_value, upsert, upsert_row, Events, event_session, table_session,
}
use ai_risk_engine.Infrastructure.Samples.{sample_metadata, strokes, is_sample, write, codec}

abbrev event : Event
event = risk record {
  base = record {
    event_id = "e1";
    tenant_id = "acme";
    status = created;
    created_at = 5;
    metadata = sample_metadata;
  };
  risk_score = none;
  category = none;
}

saved : (save redis codec event "c1" []).0 ≡ ok (persisted_event event "c1")
unfolding save redis set_value set_cache codec write is_sample strokes payload persisted_event value
    stored_version find base_of get
saved = refl

save-get_event_example :
    (persisted_event event "c1" ≡ persisted_event event "c1")
    × (get_event redis codec "acme" "e1" (save redis codec event "c1" []).1
        ≡ ok (some (persisted_event event "c1")))
unfolding base_of
save-get_event_example = save-get_event redis codec event "c1" [] (persisted_event event "c1") saved

abbrev no_events : Events
no_events = record { rows = []; pending = [] }

abbrev row : DbEvents.EventRow
row = record {
  columns = DbEvents.new_row event "c1";
  created_at = DbEvents.aware 7;
  is_deleted = false;
}

abbrev from_row : PersistedEvent
from_row = DbEvents.persisted event_session (λ t. t) event "c1" row

save-get_row_example :
    DbEvents.get_event event_session
      (λ t. t)
      "acme"
      "e1"
      (DbEvents.save event_session (λ t. t) event "c1" no_events).1
    ≡ ok (some (as_read event_session (λ t. t) from_row))
unfolding base_of DbEvents.save DbEvents.where_rows DbEvents.is_live DbEvents.new_row
save-get_row_example =
    save-get_row event_session (λ t. t) event "c1" no_events from_row (row ∷ []) refl refl refl

-- a row of one tenant, and an upsert of another tenant with the same key
abbrev theirs : Fields
theirs =
    field "tenant_id" (str "acme") (field "idempotency_key" (str "k1") (field "name" (str "a") end))

abbrev ours : Fields
ours = field "name" (str "b") end

has_key : find "idempotency_key" theirs ≡ some (str "k1")
unfolding find
has_key = refl

has_tenant : find "tenant_id" theirs ≡ some (str "acme")
unfolding find
has_tenant = refl

abbrev changed : Fields
changed =
    field "tenant_id" (str "acme") (field "idempotency_key" (str "k1") (field "name" (str "b") end))

returns : (upsert_idempotent table_session ours "k1" "globex" (theirs ∷ [])).0 ≡ ok changed
unfolding upsert_idempotent table_session upsert upsert_row statement Repository.payload
    set_on_conflict overwrite fetch_one find put is_str
returns = refl

upsert_idempotent-takes_row_example :
    ((upsert_idempotent table_session ours "k1" "globex" (theirs ∷ [])).1 ≡ changed ∷ [])
    × (find "tenant_id" changed ≡ some (str "acme"))
    × (find "idempotency_key" changed ≡ some (str "k1"))
unfolding table_session
upsert_idempotent-takes_row_example =
    upsert_idempotent-takes_row table_session ours "k1" "globex" "acme" (theirs ∷ []) [] [] theirs
      changed refl tt tt has_key has_tenant returns
