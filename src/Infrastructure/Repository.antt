-- ===== src/Infrastructure/Repository.antt =====
-- `AsyncRepository` of app/infrastructure/database/repository.py, for any table. A row is the dict of
-- its columns. The session and the statements of the database library are a parameter, with what
-- their documentation says of the table.
pub mod Upserts
use ai_risk_engine.Base.{
  String, ◌≡◌, Bool, true, false, ◌&&◌, ◌||◌, Option, none, some, List, [], ◌∷◌, ◌++◌,
  if◌then◌else◌, str_eq, All,
}
use ai_risk_engine.Python.Value.{
  Value, null, bool, int, float, str, arr, obj, opaque, Fields, end, field, find, put, is_str,
}
use ai_risk_engine.Error.{error, external_error}
use ai_risk_engine.Exec.{Result, ok, err, Exec, lift, pure, ◌>>=◌, ◌>>◌}

-- The columns of a row with those of a dict written over them.
unfoldable pub overwrite : Fields → Fields → Fields
overwrite end row = row
overwrite (field k v set) row = overwrite set (put k v row)

-- `insert(model).values(**values).on_conflict_do_update(index_elements=[index], set_=set).returning(model)`
pub record Upsert : Type 0 where
  pub values : Fields
  pub index : String
  pub set : Fields

abbrev pub is_text : Option Value → String → Bool
is_text none s = false
is_text (some v) s = is_str v s

-- whether a row has this text in a column
abbrev pub has : String → String → Fields → Bool
has column v row = is_text (find column row) v

-- `rows` is the table. An upsert that meets the one row with its value of the indexed column, which
-- is unique, changes this row; a commit changes no row.
pub record Session (D : Type 0) : Type 0 where
  pub rows : D → List Fields
  pub select : (Fields → Bool) → D → Result (List Fields)
  pub add : Fields → D → D
  pub refresh : Fields → Exec D Fields
  pub commit : Exec D (Unit {0})
  pub upsert : Upsert → Exec D (List Fields)
  pub upsert_conflict :
      (u : Upsert) (d : D) (before after : List Fields) (row : Fields) (v : String)
      (out : List Fields)
      → rows d ≡ before ++ (row ∷ after)
      → All (λ r. has u.index v r ≡ false) before
      → All (λ r. has u.index v r ≡ false) after
      → find u.index row ≡ some (str v)
      → find u.index u.values ≡ some (str v)
      → (upsert u d).0 ≡ ok out
      → (out ≡ overwrite u.set row ∷ [])
        × (rows (upsert u d).1 ≡ before ++ (overwrite u.set row ∷ after))
  pub commit_keeps : (d : D) → rows (commit d).1 ≡ rows d

abbrev is_false : Option Value → Bool
is_false (some (bool false)) = true
is_false _ = false

-- the `where` of `list_by_tenant`, and of `get_by_id`
unfoldable pub is_of_tenant : String → Fields → Bool
is_of_tenant tenant_id row =
    is_text (find "tenant_id" row) tenant_id && is_false (find "is_deleted" row)

unfoldable pub is_of_id : String → String → Fields → Bool
unfolding is_of_tenant
is_of_id id tenant_id row = is_text (find "id" row) id && is_of_tenant tenant_id row

-- `{**values, "tenant_id": tenant_id, "idempotency_key": idempotency_key}`
unfoldable pub payload : Fields → String → String → Fields
payload values idempotency_key tenant_id =
    put "idempotency_key" (str idempotency_key) (put "tenant_id" (str tenant_id) values)

-- the items of a dict but for the two keys
unfoldable pub set_on_conflict : Fields → Fields
set_on_conflict end = end
set_on_conflict (field k v rest) =
    let others = set_on_conflict rest in
    if str_eq k "tenant_id" || str_eq k "idempotency_key" then others else field k v others

unfoldable pub statement : Fields → String → String → Upsert
unfolding payload set_on_conflict
statement values idempotency_key tenant_id =
    let all = payload values idempotency_key tenant_id in
    record { values = all; index = "idempotency_key"; set = set_on_conflict all }

unfoldable pub one_or_none : List Fields → Result (Option Fields)
one_or_none [] = ok none
one_or_none (row ∷ []) = ok (some row)
one_or_none (_ ∷ _ ∷ _) =
    err (error external_error "Multiple rows were found when one or none was required")

-- `result.fetchone()[0]`
unfoldable pub fetch_one : List Fields → Result Fields
fetch_one [] = err (error external_error "'NoneType' object is not subscriptable")
fetch_one (row ∷ _) = ok row

module _ {D : Type 0} (session : Session D) where
  unfoldable pub get_by_id : String → String → D → Result (Option Fields)
  unfolding is_of_id one_or_none
  get_by_id id tenant_id d = elim (session.select (is_of_id id tenant_id) d) [
    | err e ↦ err e
    | ok rows ↦ one_or_none rows
  ]

  unfoldable pub create : Fields → Exec D Fields
  create entity d = (session.commit >> session.refresh entity) (session.add entity d)

  unfoldable pub upsert_idempotent : Fields → String → String → Exec D Fields
  upsert_idempotent values idempotency_key tenant_id = do
    result ← session.upsert (statement values idempotency_key tenant_id)
    session.commit
    lift (fetch_one result)

  unfoldable pub list_by_tenant : String → D → Result (List Fields)
  unfolding is_of_tenant
  list_by_tenant tenant_id d = session.select (is_of_tenant tenant_id) d
