-- ===== src/Python/Value.antt =====
-- A value of any type, as `Any` admits it: what JSON can hold, and other objects.
use ai_risk_engine.Base.{
  String, Bool, true, false, ◌&&◌, not, Option, none, some, str_eq, if◌then◌else◌,
}
use ai_risk_engine.Python.Int.{ℤ, is_zero}
use ai_risk_engine.Python.Float.{Float, is_zero_float}
use ai_risk_engine.Python.Text.{is_empty}

-- `opaque b` is an object that `json.dumps` refuses, with the truth value `b`.
mutual
  pub data Value : Type 0 where
    null : Value
    bool : Bool → Value
    int : ℤ → Value
    float : Float → Value
    str : String → Value
    arr : Items → Value
    obj : Fields → Value
    opaque : Bool → Value

  pub data Items : Type 0 where
    nil : Items
    cons : Value → Items → Items

  -- a dict with texts for keys, in insertion order
  pub data Fields : Type 0 where
    end : Fields
    field : String → Value → Fields → Fields

-- `bool(v)`
unfoldable pub truthy : Value → Bool
truthy null = false
truthy (bool b) = b
truthy (int n) = not (is_zero n)
truthy (float x) = not (is_zero_float x)
truthy (str s) = not (is_empty s)
truthy (arr nil) = false
truthy (arr (cons _ _)) = true
truthy (obj end) = false
truthy (obj (field _ _ _)) = true
truthy (opaque b) = b

-- `d.get(k)`
unfoldable pub find : String → Fields → Option Value
find k end = none
find k (field j v fs) = if str_eq j k then some v else find k fs

-- `d.get(k, default)`
unfoldable pub find_or : String → Value → Fields → Value
unfolding find
find_or k default fs = elim (find k fs) [ none ↦ default | some v ↦ v ]

-- `v == s`, for a text `s`
unfoldable pub is_str : Value → String → Bool
is_str null s = false
is_str (bool _) s = false
is_str (int _) s = false
is_str (float _) s = false
is_str (str t) s = str_eq t s
is_str (arr _) s = false
is_str (obj _) s = false
is_str (opaque _) s = false

-- `d[k] = v`
unfoldable pub put : String → Value → Fields → Fields
put k v end = field k v end
put k v (field j w fs) = if str_eq j k then field j v fs else field j w (put k v fs)

-- Whether `json.dumps` accepts the value. An object that it refuses makes it raise.
unfoldable mutual
  pub is_json : Value → Bool
  is_json null = true
  is_json (bool _) = true
  is_json (int _) = true
  is_json (float _) = true
  is_json (str _) = true
  is_json (arr xs) = is_json_items xs
  is_json (obj fs) = is_json_fields fs
  is_json (opaque _) = false

  pub is_json_items : Items → Bool
  is_json_items nil = true
  is_json_items (cons v xs) = is_json v && is_json_items xs

  pub is_json_fields : Fields → Bool
  is_json_fields end = true
  is_json_fields (field _ v fs) = is_json v && is_json_fields fs

-- `None` or a text
abbrev pub optional : Option String → Value
optional none = null
optional (some s) = str s
