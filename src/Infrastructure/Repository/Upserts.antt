-- ===== src/Infrastructure/Repository/Upserts.antt =====
-- What an upsert of app/infrastructure/database/repository.py does to a row that is there.
use ai_risk_engine.Base.{
  String, ◌≡◌, refl, ◌∙◌, inl, inr, Bool, true, false, ◌||◌, some, List, ◌∷◌, ◌++◌, arith, str_eq,
  eq_iff, Bool-cases, All,
}
use ai_risk_engine.Python.Value.{Value, str, Fields, end, field, find, put}
use ai_risk_engine.Exec.{ok, Result-cases}
use ai_risk_engine.Infrastructure.Repository.{
  Session, has, overwrite, payload, set_on_conflict, statement, fetch_one, upsert_idempotent,
}

find-put_same : (k : String) (v : Value) (m : Fields) → find k (put k v m) ≡ some v
unfolding find put
find-put_same k v end = ground (arith, eq_iff k k)
find-put_same k v (field j w m) = ground (arith, find-put_same k v m, eq_iff j k)

find-put_other :
    (k j : String) (v : Value) (m : Fields) → str_eq k j ≡ false → find j (put k v m) ≡ find j m
unfolding find put
find-put_other k j v end apart = ground arith
find-put_other k j v (field i w m) apart =
    ground (arith, find-put_other k j v m apart, eq_iff i k, eq_iff i j, eq_iff k j)

is_key : String → Bool
is_key k = str_eq k "tenant_id" || str_eq k "idempotency_key"

-- the two key columns are not written over
overwrite-key :
    (j : String) (set row : Fields)
    → is_key j ≡ true
    → find j (overwrite (set_on_conflict set) row) ≡ find j row
unfolding overwrite set_on_conflict is_key
overwrite-key j end row key = refl
overwrite-key j (field k v rest) row key = elim (Bool-cases (is_key k)) [
  | inl e ↦ ground (arith, overwrite-key j rest row key)
  | inr e ↦
      let later = overwrite-key j rest (put k v row) key in
      elim (Bool-cases (str_eq k j)) [
        | inl same ↦ let equal = (eq_iff k j).0 same in absurd (ground arith)
        | inr apart ↦ let kept = find-put_other k j v row apart in ground arith
      ]
]

module _ {D : Type 0} (session : Session D) where
  -- Where one row has the idempotency key, of whatever tenant it is, an upsert with this key that
  -- returns has changed exactly this row, and gives it back with its own tenant and key: the tenant
  -- that called is neither compared with the row's nor written to it.
  pub upsert_idempotent-takes_row :
      (values : Fields) (key caller owner : String) (d : D) (before after : List Fields)
      (row out : Fields)
      → session.rows d ≡ before ++ (row ∷ after)
      → All (λ r. has "idempotency_key" key r ≡ false) before
      → All (λ r. has "idempotency_key" key r ≡ false) after
      → find "idempotency_key" row ≡ some (str key)
      → find "tenant_id" row ≡ some (str owner)
      → (upsert_idempotent session values key caller d).0 ≡ ok out
      → (session.rows (upsert_idempotent session values key caller d).1 ≡ before ++ (out ∷ after))
        × (find "tenant_id" out ≡ some (str owner))
        × (find "idempotency_key" out ≡ some (str key))
  unfolding upsert_idempotent statement payload fetch_one is_key
  upsert_idempotent-takes_row values key caller owner d before after row out table no_before
        no_after keyed owned done =
      let u = statement values key caller in
      elim (Result-cases (session.upsert u d).0) [
        | inr (e, failed) ↦ absurd (ground arith)
        | inl (rows, returned) ↦ elim (Result-cases (session.commit (session.upsert u d).1).0) [
          | inr (e, failed) ↦ absurd (ground arith)
          | inl (_, committed) ↦
              let values' = payload values key caller in
              let keyed' =
                find-put_same "idempotency_key" (str key) (put "tenant_id" (str caller) values) in
              let law =
                session.upsert_conflict u d before after row key rows table no_before no_after keyed
                  keyed' returned in
              let changed = overwrite (set_on_conflict values') row in
              let same : out ≡ changed = ground arith in
              let tenant = overwrite-key "tenant_id" values' row refl in
              let index = overwrite-key "idempotency_key" values' row refl in
              let kept = session.commit_keeps (session.upsert u d).1 in
              let left : (upsert_idempotent session values key caller d).1
                  ≡ (session.commit (session.upsert u d).1).1 =
                ground arith in
              (rw (left, kept, same) law.1, rw same (tenant ∙ owned), rw same (index ∙ keyed))
        ]
      ]
