-- ===== src/Infrastructure/DbEvents/Stored.antt =====
-- That app/infrastructure/database/event_repository_db.py gives back what it has stored.
use mathlib.Core.Option
use ai_risk_engine.Base.{
  ℕ, String, ◌≡◌, refl, ap, ◌∙◌, inl, inr, Bool, true, false, some, List, [], ◌∷◌, ◌++◌, arith,
  eq_iff, if◌then◌else◌,
}
use ai_risk_engine.Python.Text.{is_empty}
use ai_risk_engine.Python.Time.{Datetime}
use ai_risk_engine.Exec.{ok, Exec, Result-cases, ◌>>◌}
use ai_risk_engine.Domain.Status.{received}
use ai_risk_engine.Domain.Event.{Event, base_of}
use ai_risk_engine.Application.Service.{PersistedEvent}
use ai_risk_engine.Infrastructure.RedisEvents.Stored.{status_of-value}
use ai_risk_engine.Infrastructure.DbEvents.{
  EventRow, NewRow, Session, where_rows, new_row, one_or_none, is_live, save, of_row, found_row,
  get_event, persisted,
}

where_rows-append :
    (p : EventRow → Bool) (xs : List EventRow) (row : EventRow)
    → p row ≡ true
    → where_rows p (xs ++ (row ∷ [])) ≡ where_rows p xs ++ (row ∷ [])
unfolding where_rows
where_rows-append p [] row h = rw h refl
where_rows-append p (x ∷ xs) row h = ground (arith, where_rows-append p xs row h)

new_row-is_live :
    (row : EventRow)
    → row.is_deleted ≡ false
    → is_live row.columns.tenant_id row.columns.event_id row ≡ true
unfolding is_live
new_row-is_live row live =
    let t = (eq_iff row.columns.tenant_id row.columns.tenant_id).1 refl in
    let i = (eq_iff row.columns.event_id row.columns.event_id).1 refl in rw (t, i, live) refl

module _ {D : Type 0} (session : Session D) (local : ℕ → Datetime) where
  -- the columns of an event that is stored
  abbrev columns : Event → String → NewRow
  columns event correlation_id =
      let new = new_row event correlation_id in
      record new { metadata = Option.map session.as_jsonb new.metadata }

  abbrev pub as_read : PersistedEvent → PersistedEvent
  as_read p = record p {
    metadata = Option.map session.as_jsonb p.metadata;
    version = if is_empty p.version then "1.0" else p.version;
  }

  -- what a row with these columns stands for
  of_row-new_row :
      (event : Event) (correlation_id : String) (row : EventRow)
      → row.columns ≡ columns event correlation_id
      → of_row session local row ≡ ok (as_read (persisted session local event correlation_id row))
  unfolding of_row new_row persisted
  of_row-new_row event correlation_id row cols =
      let status = status_of-value received in ground arith

  found-one :
      (row : EventRow) (p : PersistedEvent)
      → of_row session local row ≡ ok p
      → found_row session local (one_or_none (row ∷ [])) ≡ ok (some p)
  unfolding one_or_none
  found-one row p h = ground arith

  select-row :
      (event : Event) (correlation_id : String) (row : EventRow) (before found : List EventRow)
      → let p = is_live (base_of event).tenant_id (base_of event).event_id in
        where_rows p before ≡ []
        → row.columns ≡ columns event correlation_id
        → row.is_deleted ≡ false
        → found ≡ where_rows p (before ++ (row ∷ []))
        → found ≡ row ∷ []
  unfolding new_row
  select-row event correlation_id row before found fresh cols live h =
      let p = is_live (base_of event).tenant_id (base_of event).event_id in
      let same_tenant : row.columns.tenant_id ≡ (base_of event).tenant_id =
        ap (λ c. c.tenant_id) cols in
      let same_id : row.columns.event_id ≡ (base_of event).event_id = ap (λ c. c.event_id) cols in
      let matches : p row ≡ true = rw (← same_tenant, ← same_id) (new_row-is_live row live) in
      h ∙ where_rows-append p before row matches ∙ ap (λ xs. xs ++ (row ∷ [])) fresh

  -- An event that has been saved, where no event of its tenant with its id was there, is what the
  -- repository gives for its tenant and id, if the table is read without an exception; only the
  -- metadata come back as a column of JSON gives them, and a version that is empty as "1.0".
  pub save-get_row :
      (event : Event) (correlation_id : String) (d : D) (p : PersistedEvent) (found : List EventRow)
      → let later = (save session local event correlation_id d).1 in
        let tenant_id = (base_of event).tenant_id in
        let event_id = (base_of event).event_id in
        where_rows (is_live tenant_id event_id) (session.rows d) ≡ []
        → (save session local event correlation_id d).0 ≡ ok p
        → session.select (is_live tenant_id event_id) later ≡ ok found
        → get_event session local tenant_id event_id later ≡ ok (some (as_read p))
  unfolding save get_event one_or_none
  save-get_row event correlation_id d p found fresh saved read =
      let new = new_row event correlation_id in
      let chain : Exec D EventRow = session.flush >> session.commit >> session.refresh new in
      elim (Result-cases (chain (session.add new d)).0) [
        | inr (e, failed) ↦ absurd (ground arith)
        | inl (row, done) ↦
            let law = session.stored new d row done in
            let d' = (chain (session.add new d)).1 in
            let after : save session local event correlation_id d
                ≡ (ok (persisted session local event correlation_id row), d') =
              ground arith in
            let same : p ≡ persisted session local event correlation_id row = ground arith in
            let live = is_live (base_of event).tenant_id (base_of event).event_id in
            let raw : found ≡ where_rows live (session.rows d') =
              session.select_rows live d' found (rw after at read) in
            let read' : found ≡ where_rows live (session.rows d ++ (row ∷ [])) = rw law.0 at raw in
            let one =
              select-row event correlation_id row (session.rows d) found fresh law.1 law.2 read' in
            let whole = of_row-new_row event correlation_id row law.1 in
            let read_row : session.select live d' ≡ ok (row ∷ []) = rw (after, one) at read in
            rw (after, same, get_event, read_row) (found-one row _ whole)
      ]
