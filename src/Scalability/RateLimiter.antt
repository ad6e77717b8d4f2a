-- ===== src/Scalability/RateLimiter.antt =====
-- app/scalability/rate_limiter.py: the limiter, over a backend that is a protocol of the source, and
-- the backend in memory. The readings of the clock are arguments.
pub mod Window
use ai_risk_engine.Base.{
  ℕ, String, Bool, true, false, ◌&&◌, not, Option, none, some, List, [], ◌∷◌, ◌++◌, length, leb,
  if◌then◌else◌,
}
use ai_risk_engine.Python.Int.{pos}
use ai_risk_engine.Python.Float.{Float, float_of, ltb_float}
use ai_risk_engine.Python.Text.{f_string}
use ai_risk_engine.Python.Dict.{Dict, get_or, insert}
use ai_risk_engine.Exec.{Result, ok, err, Exec}
use ai_risk_engine.Observability.Arithmetic.{Arithmetic}
use ai_risk_engine.Observability.Metrics.{Metrics, increment}

-- `RateLimitBackend`
pub record RateLimitBackend (D : Type 0) : Type 0 where
  pub incr_window : (now : Float) (key : String) (window_seconds : ℕ) → Exec D ℕ
  pub get_current_count : String → D → Result ℕ

-- `self._windows` of `InMemoryRateLimitBackend`
abbrev pub Windows : Type 0
Windows = Dict (List Float)

-- `[t for t in times if t > cutoff]`
unfoldable pub after : Float → List Float → List Float
after cutoff [] = []
after cutoff (t ∷ times) =
    let rest = after cutoff times in if ltb_float cutoff t then t ∷ rest else rest

module _ (ops : Arithmetic) where
  abbrev pub cutoff : Float → ℕ → Float
  cutoff now window_seconds = ops.sub now (float_of (pos window_seconds))

  unfoldable pub incr_window : Float → String → ℕ → Exec Windows ℕ
  incr_window now key window_seconds d =
      let times = after (cutoff now window_seconds) (get_or key [] d) ++ (now ∷ []) in
      (ok (length times), insert key times d)

  unfoldable pub get_current_count : String → Windows → Result ℕ
  get_current_count key d = ok (length (get_or key [] d))

  unfoldable pub in_memory : RateLimitBackend Windows
  unfolding incr_window get_current_count
  in_memory = record { incr_window = incr_window; get_current_count = get_current_count }

-- `metrics_callback`: nothing, a function, with the names and tenants that it was called with, a
-- collector, or some other object.
pub data MetricsCallback : Type 0 where
  unset other : MetricsCallback
  callback : List (String × String) → MetricsCallback
  collector : Metrics → MetricsCallback

pub record TenantRateLimiter (D : Type 0) : Type 0 where
  pub backend : D
  pub limit : ℕ
  pub window : ℕ
  pub metrics : MetricsCallback

-- `_key`
abbrev pub tenant_key : String → String
tenant_key tenant_id = f_string ("rate:tenant:" ∷ tenant_id ∷ [])

module _ {D : Type 0} (ops : Arithmetic) (backend : RateLimitBackend D) where
  unfoldable pub count_exceeded : String → MetricsCallback → MetricsCallback
  count_exceeded tenant_id unset = unset
  count_exceeded tenant_id other = other
  count_exceeded tenant_id (callback calls) =
      callback (calls ++ (("rate_limit_exceeded", tenant_id) ∷ []))
  count_exceeded tenant_id (collector m) =
      collector (increment ops "rate_limit_exceeded" (float_of (pos 1)) (some tenant_id) none m)

  unfoldable pub allow_request : Float → String → Exec (TenantRateLimiter D) Bool
  unfolding count_exceeded
  allow_request now tenant_id s =
      let (r, backend') = backend.incr_window now (tenant_key tenant_id) s.window s.backend in
      elim r [
        | err e ↦ (err e, record s { backend = backend' })
        | ok count ↦
            let allowed = leb count s.limit in
            let exceeded = count_exceeded tenant_id s.metrics in
            (
              ok allowed,
              record s { backend = backend'; metrics = if allowed then s.metrics else exceeded },
            )
      ]
