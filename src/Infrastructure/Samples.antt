-- ===== src/Infrastructure/Samples.antt =====
-- A codec for app/infrastructure/cache/event_repository_redis.py that writes one dict, refuses all
-- others, and writes dates in strokes.
use Prim.Native.Char.{nul}
use ai_risk_engine.Base.{
  ℕ, zero, suc, String, ◌≡◌, refl, sym, ap, inl, inr, Bool, true, false, ◌&&◌, Option, none, some,
  arith, if◌then◌else◌, str_eq, eq_iff, Bool-cases,
}
use ai_risk_engine.Python.Text.{is_empty}
use ai_risk_engine.Python.Value.{str, Fields, end, field}
use ai_risk_engine.Error.{error, value_error}
use ai_risk_engine.Exec.{Result, ok, err}
use ai_risk_engine.Infrastructure.RedisEvents.{Payload, Codec}

unfoldable pub strokes : ℕ → String
strokes zero = ""
strokes (suc n) = String.◌∷◌ nul (strokes n)

unfoldable pub count : String → ℕ
count String.[] = 0
count (String.◌∷◌ c s) = suc (count s)

pub count-strokes : (n : ℕ) → count (strokes n) ≡ n
unfolding count strokes
count-strokes zero = refl
count-strokes (suc n) = ap suc (count-strokes n)

abbrev pub sample_metadata : Option Fields
sample_metadata = some (field "version" (str "2.0") end)

abbrev pub sample : Payload
sample = record {
  event_id = "e1";
  tenant_id = "acme";
  correlation_id = "c1";
  status = "received";
  created_at = strokes 5;
  metadata = sample_metadata;
  version = some "2.0";
}

unfoldable pub is_sample_metadata : Option Fields → Bool
is_sample_metadata (some (field k (str v) end)) = str_eq k "version" && str_eq v "2.0"
is_sample_metadata _ = false

unfoldable pub is_version : Option String → Bool
is_version none = false
is_version (some v) = str_eq v "2.0"

unfoldable pub is_sample : Payload → Bool
unfolding is_sample_metadata is_version strokes
is_sample p =
    str_eq p.event_id "e1"
    && str_eq p.tenant_id "acme"
    && str_eq p.correlation_id "c1"
    && str_eq p.status "received"
    && str_eq p.created_at (strokes 5)
    && is_sample_metadata p.metadata
    && is_version p.version

is_sample_metadata-eq : (m : Option Fields) → is_sample_metadata m ≡ true → m ≡ sample_metadata
unfolding is_sample_metadata
is_sample_metadata-eq (some (field k (str v) end)) h =
    let a = eq_iff k "version" in let b = eq_iff v "2.0" in ground arith
is_sample_metadata-eq _ h = absurd (ground arith)

is_version-eq : (v : Option String) → is_version v ≡ true → v ≡ some "2.0"
unfolding is_version
is_version-eq none h = absurd (ground arith)
is_version-eq (some v) h = ap some ((eq_iff v "2.0").0 h)

is_sample-eq : (p : Payload) → is_sample p ≡ true → p ≡ sample
unfolding is_sample
is_sample-eq p h =
    let e1 = (eq_iff p.event_id "e1").0 (ground arith) in
    let e2 = (eq_iff p.tenant_id "acme").0 (ground arith) in
    let e3 = (eq_iff p.correlation_id "c1").0 (ground arith) in
    let e4 = (eq_iff p.status "received").0 (ground arith) in
    let e5 = (eq_iff p.created_at (strokes 5)).0 (ground arith) in
    let e6 = is_sample_metadata-eq p.metadata (ground arith) in
    let e7 = is_version-eq p.version (ground arith) in
    λ i. record {
      event_id = e1 i;
      tenant_id = e2 i;
      correlation_id = e3 i;
      status = e4 i;
      created_at = e5 i;
      metadata = e6 i;
      version = e7 i;
    }

unfoldable pub write : Payload → Result String
unfolding is_sample
write p = if is_sample p then ok "{}" else err (error value_error "another dict")

write-is_sample : (p : Payload) (s : String) → write p ≡ ok s → is_sample p ≡ true
unfolding write
write-is_sample p s h = elim (Bool-cases (is_sample p)) [
  | inl e ↦ e
  | inr e ↦ absurd (ground arith)
]

pub write-visible : (p : Payload) (s : String) → write p ≡ ok s → is_empty s ≡ false
unfolding write
write-visible p s h =
    let e = write-is_sample p s h in let same : "{}" ≡ s = ground arith in rw (← same) refl

pub write-reads : (p : Payload) (s : String) → write p ≡ ok s → ok sample ≡ ok p
write-reads p s h = ap ok (sym (is_sample-eq p (write-is_sample p s h)))

unfoldable pub codec : Codec
unfolding write strokes count
codec = record {
  dumps = write;
  loads = λ s. ok sample;
  date_text = strokes;
  date_of = λ s. ok (count s);
  loads_dumps = write-reads;
  dumps_visible = write-visible;
  date_of_text = λ t. ap ok (count-strokes t);
}
