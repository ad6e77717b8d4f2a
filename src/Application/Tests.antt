-- ===== src/Application/Tests.antt =====
-- The theorems on app/application at a concrete creation, with services that keep lists.
use ai_risk_engine.Base.{
  String, ◌≡◌, refl, Option, none, some, List, [], ◌∷◌, str_eq, eq_iff, if◌then◌else◌,
}
use ai_risk_engine.Error.{Error, error, external_error}
use ai_risk_engine.Exec.{ok, err, Exec}
use ai_risk_engine.Domain.Status.{received, created}
use ai_risk_engine.Domain.Event.{Event, risk}
use ai_risk_engine.Application.Service.{
  PersistedEvent, EventResponse, persisted_to_response, Publication, EventRepository, Cache,
  Systems, Services, Creation, cache_key, publish_failed, save_event, publish_event, start_workflow,
  cache_response, create_fresh, create_event,
}
use ai_risk_engine.Application.Service.Created.{
  create_event-idempotent, create_event-ignores_trigger, create_event-unpublished,
}

abbrev event : Event
event = risk record {
  base = record {
    event_id = "e1";
    tenant_id = "acme";
    status = created;
    created_at = 1;
    metadata = none;
  };
  risk_score = none;
  category = none;
}

abbrev row : PersistedEvent
row = record {
  event_id = "e1";
  tenant_id = "acme";
  correlation_id = "c1";
  status = received;
  created_at = 1;
  metadata = none;
  version = "1.0";
}

abbrev response : EventResponse
response = record {
  event_id = "e1";
  tenant_id = "acme";
  status = received;
  created_at = 1;
  metadata = none;
  version = "1.0";
}

abbrev Entries : Type 0
Entries = List (String × String)

unfoldable find_entry : String → Entries → Option String
find_entry k [] = none
find_entry k ((j, v) ∷ rest) = if str_eq j k then some v else find_entry k rest

unfoldable entries : Cache Entries
unfolding find_entry
entries = record {
  get_cache = λ k c. ok (find_entry k c);
  set_cache = λ k v ttl c. (ok tt, (k, v) ∷ c);
  set_ok = λ k v ttl c h. rw ((eq_iff k k).1 refl) refl;
}

abbrev rows : EventRepository (List PersistedEvent)
rows = record { save = λ e c rs. (ok row, row ∷ rs); get = λ t e rs. ok (some row) }

abbrev services : Services (List PersistedEvent) (List Publication) (List String) Entries
services = record {
  repository = rows;
  publish = λ p ps. (ok tt, p ∷ ps);
  start = λ e t es. (ok tt, e ∷ es);
  cache = entries;
  dump = λ r. "{}";
  parse = λ t. ok response;
}

abbrev no_broker : Error
no_broker = error external_error "no broker"

abbrev without_broker : Services (List PersistedEvent) (List Publication) (List String) Entries
without_broker = record services { publish = λ p ps. (err no_broker, ps) }

abbrev creation : Creation
creation = record {
  event = event;
  tenant_id = "acme";
  idempotency_key = "k1";
  correlation_id = "c1";
}

abbrev later : Creation
later = record creation { correlation_id = "c2" }

abbrev nothing : Systems (List PersistedEvent) (List Publication) (List String) Entries
nothing = record { repository = []; broker = []; workflows = []; cache = [] }

not_cached : services.cache.get_cache (cache_key services creation) nothing.cache ≡ ok none
unfolding entries find_entry
not_cached = refl

abbrev stored : Systems (List PersistedEvent) (List Publication) (List String) Entries
stored = (create_event services creation nothing).1

creation-returns : create_event services creation nothing ≡ (ok response, stored)
unfolding create_event create_fresh save_event publish_event start_workflow cache_response
    persisted_to_response entries find_entry
creation-returns = refl

create_event-idempotent_example : create_event services later stored ≡ (ok response, stored)
create_event-idempotent_example =
    create_event-idempotent services creation later nothing stored response not_cached
      creation-returns refl refl refl refl

abbrev failing_trigger : (event_id tenant_id : String) → Exec (List String) (Unit {0})
failing_trigger e t es = (err (error external_error "no workflow"), es)

create_event-ignores_trigger_example :
    ((create_event (record services { start = failing_trigger }) creation nothing).0
      ≡ (create_event services creation nothing).0)
    × ((create_event (record services { start = failing_trigger }) creation nothing).1.repository
        ≡ (create_event services creation nothing).1.repository)
    × ((create_event (record services { start = failing_trigger }) creation nothing).1.broker
        ≡ (create_event services creation nothing).1.broker)
    × ((create_event (record services { start = failing_trigger }) creation nothing).1.cache
        ≡ (create_event services creation nothing).1.cache)
create_event-ignores_trigger_example =
    create_event-ignores_trigger services failing_trigger creation nothing

create_event-unpublished_example :
    ((create_event without_broker creation nothing).0 ≡ err (publish_failed services no_broker))
    × ((create_event without_broker creation nothing).1.repository ≡ row ∷ [])
    × ((create_event without_broker creation nothing).1.workflows ≡ [])
    × ((create_event without_broker creation nothing).1.cache ≡ [])
create_event-unpublished_example =
    create_event-unpublished without_broker creation nothing row no_broker not_cached refl refl
