-- ===== src/Infrastructure/InMemory.antt =====
-- Concrete servers for app/infrastructure: a Redis and two tables that never fail, and a broker that
-- keeps what it was sent.
use mathlib.Core.Option
use ai_risk_engine.Base.{
  String, ◌≡◌, refl, sym, ap, ◌∙◌, inl, inr, Bool, true, false, Option, none, some, List, [], ◌∷◌,
  ◌++◌, arith, if◌then◌else◌, str_eq, eq_iff, All, Bool-cases, Option-cases,
}
use ai_risk_engine.Python.Dict.{Dict, get, insert, remove, get-insert, get-remove}
use ai_risk_engine.Python.Value.{str, Fields, find, is_str}
use ai_risk_engine.Error.{error, external_error}
use ai_risk_engine.Exec.{Result, ok, err}
use ai_risk_engine.Infrastructure.Redis.{Redis}
use ai_risk_engine.Infrastructure.DbEvents.{NewRow, EventRow, where_rows, aware}
use ai_risk_engine.Infrastructure.DbEvents as DbEvents
use ai_risk_engine.Infrastructure.Repository as Repository
use ai_risk_engine.Infrastructure.Repository.{Upsert, overwrite, has}
use ai_risk_engine.Infrastructure.Publisher.{Message, Amqp}

pub ok-injective : {A : Type 0} {a b : A} → ok a ≡ ok b → a ≡ b
ok-injective {A} {a} {b} e = ap (λ r. elim r [ ok x ↦ x | err _ ↦ a ]) e

unfoldable pub set_value : String → String → Bool → Dict String → Result Bool × Dict String
set_value k v nx d = elim (get k d) [
  | none ↦ (ok true, insert k v d)
  | some w ↦ if nx then (ok false, d) else (ok true, insert k v d)
]

get-insert_same : (k v : String) (d : Dict String) → get k (insert k v d) ≡ some v
get-insert_same k v d = let same = (eq_iff k k).1 refl in get-insert k k v d ∙ rw same refl

set_value-overwrites :
    (k v : String) (d : Dict String) → set_value k v false d ≡ (ok true, insert k v d)
unfolding set_value
set_value-overwrites k v d = elim (Option-cases (get k d)) [
  | inl e ↦ ground arith
  | inr (u, e) ↦ ground arith
]

pub set_value-get : (k v : String) (d : Dict String) → get k (set_value k v false d).1 ≡ some v
set_value-get k v d = rw (set_value-overwrites k v d) (get-insert_same k v d)

pub set_value-ok :
    (k v : String) (d : Dict String) (b : Bool) → (set_value k v false d).0 ≡ ok b → b ≡ true
set_value-ok k v d b e = let both = set_value-overwrites k v d in ground arith

pub set_value-free :
    (k v : String) (d : Dict String)
    → (set_value k v true d).0 ≡ ok true
    → (get k d ≡ none) × (get k (set_value k v true d).1 ≡ some v)
unfolding set_value
set_value-free k v d e = elim (Option-cases (get k d)) [
  | inl missing ↦ let there = get-insert_same k v d in (missing, ground arith)
  | inr (u, held) ↦ absurd (ground arith)
]

pub set_value-keeps :
    (k v j w : String) (d : Dict String)
    → get j d ≡ some w
    → get j (set_value k v true d).1 ≡ some w
unfolding set_value
set_value-keeps k v j w d held = elim (Option-cases (get k d)) [
  | inr (u, e) ↦ ground arith
  | inl e ↦
      let read = get-insert k j v d in
      elim (Bool-cases (str_eq k j)) [
        | inl same ↦ let equal = (eq_iff k j).0 same in absurd (ground arith)
        | inr apart ↦ ground arith
      ]
]

pub remove-others :
    (k j : String) (d : Dict String) → str_eq k j ≡ false → get j (remove k d) ≡ get j d
remove-others k j d apart = get-remove k j d ∙ rw apart refl

pub remove-gone : (k : String) (d : Dict String) → get k (remove k d) ≡ none
remove-gone k d = let same = (eq_iff k k).1 refl in get-remove k k d ∙ rw same refl

-- A counter can only be started, as texts are not read as numbers here.
unfoldable pub redis : Redis (Dict String)
unfolding set_value
redis = record {
  holds = get;
  get = λ k d. ok (get k d);
  set = λ k v ex nx. set_value k v nx;
  exists = λ k d. elim (get k d) [ none ↦ ok 0 | some _ ↦ ok 1 ];
  delete = λ k d. (elim (get k d) [ none ↦ ok 0 | some _ ↦ ok 1 ], remove k d);
  incr = λ k d. elim (get k d) [
    | none ↦ (ok 1, insert k "1" d)
    | some _ ↦ (err (error external_error "value is not an integer"), d)
  ];
  expire = λ k n d. (ok true, d);
  get_holds = λ k d o e. ok-injective (sym e);
  set_get = λ k v ex d e. ap ok (set_value-get k v d);
  set_ok = λ k v ex d b e. set_value-ok k v d b e;
  set_nx = λ k v ex d e. set_value-free k v d e;
  set_nx_keeps = λ k v ex j w d held. set_value-keeps k v j w d held;
  delete_others = remove-others;
  delete_ok = λ k d n e. remove-gone k d;
}

-- A broker that keeps what was sent, with the routing keys.
abbrev pub amqp : Amqp (List (Message × String)) (Unit {0}) (Unit {0}) (Unit {0})
amqp = record {
  connect_robust = λ w. (ok tt, w);
  channel = λ c w. (ok tt, w);
  set_qos = λ h n w. (ok tt, w);
  declare_exchange = λ h name w. (ok tt, w);
  send = λ x m key w. (ok tt, (m, key) ∷ w);
  body = λ p. ok p.event_id;
}

-- The table of events, and the row that was added and not committed.
pub record Events : Type 0 where
  pub rows : List EventRow
  pub pending : List EventRow

abbrev filled : NewRow → EventRow
filled new = record { columns = new; created_at = aware 7; is_deleted = false }

-- a column that keeps the order of keys
pub in_order : (o : Option Fields) → o ≡ Option.map (λ fs. fs) o
in_order none = refl
in_order (some fs) = refl

abbrev pub event_session : DbEvents.Session Events
event_session = record {
  rows = λ d. d.rows;
  as_jsonb = λ fs. fs;
  add = λ new d. record d { pending = filled new ∷ [] };
  flush = λ d. (ok tt, d);
  commit = λ d. (ok tt, record { rows = d.rows ++ d.pending; pending = [] });
  refresh = λ new d. (ok (filled new), d);
  select = λ p d. ok (where_rows p d.rows);
  select_rows = λ p d found e. ok-injective (sym e);
  stored = λ new d row e. (
    let same = ok-injective (sym e) in rw same refl,
    let same = ok-injective (sym e) in
        rw same (ap (λ m. record new { metadata = m }) (in_order new.metadata)),
    let same = ok-injective (sym e) in rw same refl,
  );
}

-- A table of rows, where an upsert changes the first row that has the value.
unfoldable pub upsert_row :
    String → String → Fields → Fields → List Fields → List Fields × List Fields
upsert_row index v set values [] = (values ∷ [], values ∷ [])
upsert_row index v set values (row ∷ rows) =
    let later = upsert_row index v set values rows in
    let changed = overwrite set row in
    if has index v row then (changed ∷ [], changed ∷ rows) else (later.0, row ∷ later.1)

unfoldable pub upsert : Upsert → List Fields → Result (List Fields) × List Fields
unfolding upsert_row
upsert u rows = elim (find u.index u.values) [
  | some (str v) ↦ let done = upsert_row u.index v u.set u.values rows in (ok done.0, done.1)
  | _ ↦ (err (error external_error "no value for the indexed column"), rows)
]

upsert_row-conflict :
    (index v : String) (set values row : Fields) (before after : List Fields)
    → All (λ r. has index v r ≡ false) before
    → has index v row ≡ true
    → upsert_row index v set values (before ++ (row ∷ after))
      ≡ (overwrite set row ∷ [], before ++ (overwrite set row ∷ after))
unfolding upsert_row
upsert_row-conflict index v set values row [] after none_before match = rw match refl
upsert_row-conflict index v set values row (r ∷ before) after none_before match =
    let first = none_before.0 in
    let later = upsert_row-conflict index v set values row before after none_before.1 match in
    rw (first, later) refl

pub upsert-conflict :
    (u : Upsert) (d before after : List Fields) (row : Fields) (v : String) (out : List Fields)
    → d ≡ before ++ (row ∷ after)
    → All (λ r. has u.index v r ≡ false) before
    → find u.index row ≡ some (str v)
    → find u.index u.values ≡ some (str v)
    → (upsert u d).0 ≡ ok out
    → (out ≡ overwrite u.set row ∷ []) × ((upsert u d).1 ≡ before ++ (overwrite u.set row ∷ after))
unfolding upsert is_str
upsert-conflict u d before after row v out table none_before held value done =
    let same = (eq_iff v v).1 refl in
    let match : has u.index v row ≡ true = rw held same in
    let both = upsert_row-conflict u.index v u.set u.values row before after none_before match in
    let at_d : upsert_row u.index v u.set u.values d
        ≡ (overwrite u.set row ∷ [], before ++ (overwrite u.set row ∷ after)) =
      rw table both in
    let result : upsert u d
        ≡ (ok (overwrite u.set row ∷ []), before ++ (overwrite u.set row ∷ after)) =
      rw (value, upsert, at_d) refl in
    (ok-injective (sym (rw result at done)), rw result refl)

unfoldable where_fields : (Fields → Bool) → List Fields → List Fields
where_fields p [] = []
where_fields p (r ∷ rows) = let rest = where_fields p rows in if p r then r ∷ rest else rest

unfoldable pub table_session : Repository.Session (List Fields)
unfolding where_fields
table_session = record {
  rows = λ d. d;
  select = λ p d. ok (where_fields p d);
  add = λ row d. d ++ (row ∷ []);
  refresh = λ row d. (ok row, d);
  commit = λ d. (ok tt, d);
  upsert = upsert;
  upsert_conflict = λ u d before after row v out table none_before none_after held value done.
      upsert-conflict u d before after row v out table none_before held value done;
  commit_keeps = λ d. refl;
}
