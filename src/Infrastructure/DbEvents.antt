-- ===== src/Infrastructure/DbEvents.antt =====
-- `DbEventRepository` of app/infrastructure/database/event_repository_db.py and the table of
-- models.py. The session of the database library is a parameter with what its calls do to the table.
pub mod Stored
use mathlib.Core.Option
use ai_risk_engine.Base.{
  ℕ, String, ◌≡◌, Bool, true, false, ◌&&◌, not, Option, none, some, List, [], ◌∷◌, ◌++◌,
  if◌then◌else◌, str_eq,
}
use ai_risk_engine.Python.Text.{is_empty}
use ai_risk_engine.Python.Time.{Datetime}
use ai_risk_engine.Python.Value.{Fields}
use ai_risk_engine.Error.{error, external_error}
use ai_risk_engine.Exec.{Result, ok, err, Exec, modify, pure, ◌>>=◌, ◌>>◌}
use ai_risk_engine.Domain.Status.{received, value}
use ai_risk_engine.Domain.Event.{Event, BaseEvent, base_of, type_name}
use ai_risk_engine.Application.Service.{PersistedEvent, EventRepository}
use ai_risk_engine.Infrastructure.RedisEvents.{stored_version, status_of}

-- A column of time, with or without a zone.
pub data StoredTime : Type 0 where
  aware : Datetime → StoredTime
  naive : ℕ → StoredTime

-- The columns of `Event` that `save` gives.
pub record NewRow : Type 0 where
  pub event_id : String
  pub tenant_id : String
  pub correlation_id : String
  pub status : String
  pub event_type : String
  pub metadata : Option Fields
  pub version : String

-- A row of the table, with the columns that have defaults; the server fills `created_at`,
-- so that `save` never falls back on the date of the event.
pub record EventRow : Type 0 where
  pub columns : NewRow
  pub created_at : StoredTime
  pub is_deleted : Bool

unfoldable pub where_rows : (EventRow → Bool) → List EventRow → List EventRow
where_rows p [] = []
where_rows p (r ∷ rows) = let rest = where_rows p rows in if p r then r ∷ rest else rest

-- `rows` is the table as the session sees it. An added row is in it when the session has been
-- flushed and committed; `refresh` reads it back. `as_jsonb` is what a column of JSON gives back for
-- the metadata, whose keys it may have put in another order.
pub record Session (D : Type 0) : Type 0 where
  pub rows : D → List EventRow
  pub as_jsonb : Fields → Fields
  pub add : NewRow → D → D
  pub flush : Exec D (Unit {0})
  pub commit : Exec D (Unit {0})
  pub refresh : NewRow → Exec D EventRow
  pub select : (EventRow → Bool) → D → Result (List EventRow)
  pub select_rows :
      (p : EventRow → Bool) (d : D) (found : List EventRow)
      → select p d ≡ ok found
      → found ≡ where_rows p (rows d)
  pub stored :
      (new : NewRow) (d : D) (row : EventRow)
      → ((flush >> commit >> refresh new) (add new d)).0 ≡ ok row
      → (rows ((flush >> commit >> refresh new) (add new d)).1 ≡ rows d ++ (row ∷ []))
        × (row.columns ≡ record new { metadata = Option.map as_jsonb new.metadata })
        × (row.is_deleted ≡ false)

unfoldable pub new_row : Event → String → NewRow
new_row event correlation_id = record {
  event_id = (base_of event).event_id;
  tenant_id = (base_of event).tenant_id;
  correlation_id = correlation_id;
  status = value received;
  event_type = type_name event;
  metadata = (base_of event).metadata;
  version = stored_version (base_of event).metadata;
}

-- `scalar_one_or_none`
unfoldable pub one_or_none : List EventRow → Result (Option EventRow)
one_or_none [] = ok none
one_or_none (row ∷ []) = ok (some row)
one_or_none (_ ∷ _ ∷ _) =
    err (error external_error "Multiple rows were found when one or none was required")

-- the `where` of `get`
unfoldable pub is_live : String → String → EventRow → Bool
is_live tenant_id event_id row =
    str_eq row.columns.tenant_id tenant_id
    && str_eq row.columns.event_id event_id
    && not row.is_deleted

-- `local` is the reading of a time without a zone, in that of the machine.
module _ {D : Type 0} (session : Session D) (local : ℕ → Datetime) where
  unfoldable pub with_zone : StoredTime → Datetime
  with_zone (aware t) = t
  with_zone (naive t) = local t

  unfoldable pub persisted : Event → String → EventRow → PersistedEvent
  unfolding with_zone
  persisted event correlation_id row = record {
    event_id = row.columns.event_id;
    tenant_id = row.columns.tenant_id;
    correlation_id = row.columns.correlation_id;
    status = received;
    created_at = with_zone row.created_at;
    metadata = (base_of event).metadata;
    version = stored_version (base_of event).metadata;
  }

  unfoldable pub save : Event → String → Exec D PersistedEvent
  save event correlation_id = do
    let new = new_row event correlation_id
    modify (session.add new)
    row ← session.flush >> session.commit >> session.refresh new
    pure (persisted event correlation_id row)

  unfoldable pub of_row : EventRow → Result PersistedEvent
  unfolding with_zone
  of_row row = elim (status_of row.columns.status) [
    | err e ↦ err e
    | ok status ↦ ok record {
      event_id = row.columns.event_id;
      tenant_id = row.columns.tenant_id;
      correlation_id = row.columns.correlation_id;
      status = status;
      created_at = with_zone row.created_at;
      metadata = row.columns.metadata;
      version = if is_empty row.columns.version then "1.0" else row.columns.version;
    }
  ]

  abbrev pub found_row : Result (Option EventRow) → Result (Option PersistedEvent)
  found_row (err e) = err e
  found_row (ok none) = ok none
  found_row (ok (some row)) = elim (of_row row) [ err e ↦ err e | ok p ↦ ok (some p) ]

  unfoldable pub get_event : String → String → D → Result (Option PersistedEvent)
  unfolding of_row
  get_event tenant_id event_id d = elim (session.select (is_live tenant_id event_id) d) [
    | err e ↦ err e
    | ok rows ↦ found_row (one_or_none rows)
  ]

  -- the repository that an event service may be given
  unfoldable pub as_repository : EventRepository D
  unfolding save get_event
  as_repository = record { save = save; get = get_event }
