-- ===== src/Scalability/RateLimiter/Window.antt =====
-- That the limiter of app/scalability/rate_limiter.py counts what its window says.
use text.Mathlib.TextLemmas.{append_cancel_left}
use ai_risk_engine.Base.{
  ℕ, suc, String, ◌≡◌, refl, sym, ap, ◌∙◌, inl, inr, true, List, [], ◌∷◌, ◌++◌, length,
  length-append, leb, if◌then◌else◌, All, arith, str_eq, eq_iff, Bool-cases,
}
use ai_risk_engine.Python.Float.{Float, ltb_float}
use ai_risk_engine.Python.Dict.{get, get_or, insert, get-insert}
use ai_risk_engine.Exec.{ok}
use ai_risk_engine.Observability.Arithmetic.{Arithmetic}
use ai_risk_engine.Scalability.RateLimiter.{
  Windows, after, cutoff, incr_window, in_memory, MetricsCallback, TenantRateLimiter, tenant_key,
  allow_request,
}

-- different tenants have different keys
tenant_key-injective : (a b : String) → tenant_key a ≡ tenant_key b → a ≡ b
tenant_key-injective a b e = append_cancel_left "rate:tenant:" a b e

str_eq-tenant_key : (a b : String) → str_eq (tenant_key a) (tenant_key b) ≡ str_eq a b
str_eq-tenant_key a b = elim (Bool-cases (str_eq a b)) [
  | inl same ↦
      let equal = (eq_iff a b).0 same in
      (eq_iff (tenant_key a) (tenant_key b)).1 (ap tenant_key equal) ∙ sym same
  | inr apart ↦ elim (Bool-cases (str_eq (tenant_key a) (tenant_key b))) [
    | inr e ↦ e ∙ sym apart
    | inl e ↦
        let same =
          (eq_iff a b).1 (tenant_key-injective a b ((eq_iff (tenant_key a) (tenant_key b)).0 e)) in
        absurd (ground arith)
  ]
]

after-append : (c : Float) (xs ys : List Float) → after c (xs ++ ys) ≡ after c xs ++ after c ys
unfolding after
after-append c [] ys = refl
after-append c (x ∷ xs) ys = ground (arith, after-append c xs ys)

-- What is after the later of two cutoffs is after the earlier one.
abbrev pub IsLater : Float → Float → Type 0
IsLater earlier later = (x : Float) → ltb_float later x ≡ true → ltb_float earlier x ≡ true

after-after : (c d : Float) (xs : List Float) → IsLater c d → after d (after c xs) ≡ after d xs
unfolding after
after-after c d [] later = refl
after-after c d (x ∷ xs) later =
    let rest = after-after c d xs later in
    elim (Bool-cases (ltb_float d x)) [
      | inl e ↦ let before = later x e in ground arith
      | inr e ↦ elim (Bool-cases (ltb_float c x)) [ inl e' ↦ ground arith | inr e' ↦ ground arith ]
    ]

-- A request: when, and of which tenant.
abbrev pub Request : Type 0
Request = Float × String

-- The times of a tenant's requests, the last one last; a history has its last request first.
unfoldable pub times_of : String → List Request → List Float
times_of tenant_id [] = []
times_of tenant_id ((now, t) ∷ history) =
    let rest = times_of tenant_id history in if str_eq t tenant_id then rest ++ (now ∷ []) else rest

module _ (ops : Arithmetic) (limit window : ℕ) (metrics : MetricsCallback) where
  abbrev pub limiter : TenantRateLimiter Windows
  limiter = record { backend = []; limit = limit; window = window; metrics = metrics }

  -- the limiter after a history of requests
  unfoldable pub run : List Request → TenantRateLimiter Windows
  run [] = limiter
  run ((now, tenant_id) ∷ history) =
      (allow_request ops (in_memory ops) now tenant_id (run history)).1

  -- the clock has not gone back since any request of the history
  abbrev pub ClockIsLater : Float → List Request → Type 0
  ClockIsLater now history =
      All (λ r. IsLater (cutoff ops r.0 window) (cutoff ops now window)) history

  allow_request-backend :
      (now : Float) (t : String) (s : TenantRateLimiter Windows)
      → (allow_request ops (in_memory ops) now t s).1.backend
        ≡ (incr_window ops now (tenant_key t) s.window s.backend).1
  unfolding allow_request in_memory incr_window
  allow_request-backend now t s = refl

  run-window : (history : List Request) → (run history).window ≡ window
  unfolding run allow_request in_memory incr_window
  run-window [] = refl
  run-window ((now, t) ∷ history) = run-window history

  run-limit : (history : List Request) → (run history).limit ≡ limit
  unfolding run allow_request in_memory incr_window
  run-limit [] = refl
  run-limit ((now, t) ∷ history) = run-limit history

  get_or-insert :
      (k j : String) (v : List Float) (d : Windows)
      → get_or j [] (insert k v d) ≡ (if str_eq k j then v else get_or j [] d)
  unfolding get_or
  get_or-insert k j v d =
      let e = get-insert k j v d in
      elim (Bool-cases (str_eq k j)) [ inl same ↦ ground arith | inr apart ↦ ground arith ]

  -- the stored times after one more request, as a later cutoff sees them
  step-windows :
      (c : Float) (w : ℕ) (before : Float) (t tenant_id : String) (d : Windows)
      → IsLater (cutoff ops before w) c
      → after c (get_or (tenant_key tenant_id) [] (incr_window ops before (tenant_key t) w d).1) ≡ (
          if str_eq t tenant_id
          then after c (get_or (tenant_key tenant_id) [] d) ++ after c (before ∷ [])
          else after c (get_or (tenant_key tenant_id) [] d))
  unfolding incr_window
  step-windows c w before t tenant_id d later =
      let k = tenant_key t in
      let kept = after (cutoff ops before w) (get_or k [] d) in
      let stored = get_or-insert k (tenant_key tenant_id) (kept ++ (before ∷ [])) d in
      let keys = str_eq-tenant_key t tenant_id in
      elim (Bool-cases (str_eq t tenant_id)) [
        | inr apart ↦ ground arith
        | inl same ↦
            let equal = (eq_iff t tenant_id).0 same in
            let both = after-append c kept (before ∷ []) in
            let pruned = after-after (cutoff ops before w) c (get_or k [] d) later in
            rw (stored, keys, same)
              (rw (← equal) (both ∙ ap (λ xs. xs ++ after c (before ∷ [])) pruned))
      ]

  -- what a later window has of the stored times is what it has of all times
  windows-times :
      (history : List Request) (now : Float) (tenant_id : String)
      → ClockIsLater now history
      → after (cutoff ops now window) (get_or (tenant_key tenant_id) [] (run history).backend)
        ≡ after (cutoff ops now window) (times_of tenant_id history)
  unfolding run times_of get_or get
  windows-times [] now tenant_id later = refl
  windows-times ((before, t) ∷ history) now tenant_id later =
      let c = cutoff ops now window in
      let s = run history in
      let same_window = run-window history in
      let backend = allow_request-backend before t s in
      let ih = windows-times history now tenant_id later.1 in
      let step = step-windows c window before t tenant_id s.backend later.0 in
      let split = after-append c (times_of tenant_id history) (before ∷ []) in
      elim (Bool-cases (str_eq t tenant_id)) [ inl same ↦ ground arith | inr apart ↦ ground arith ]

  -- With the backend in memory, and where the start of the window of this request is not before that
  -- of any earlier one, the request is allowed exactly if the requests of its tenant that are within
  -- the window, itself and those that were refused included, are no more than the limit; requests of
  -- other tenants do not count.
  pub allow_request-counts :
      (history : List Request) (now : Float) (tenant_id : String)
      → ClockIsLater now history
      → (allow_request ops (in_memory ops) now tenant_id (run history)).0
        ≡ ok (leb (suc (length (after (cutoff ops now window) (times_of tenant_id history)))) limit)
  unfolding allow_request in_memory incr_window
  allow_request-counts history now tenant_id later =
      let same_window = run-window history in
      let same_limit = run-limit history in
      let seen = windows-times history now tenant_id later in
      let longer =
        length-append (after (cutoff ops now window) (times_of tenant_id history)) (now ∷ []) in
      rw (same_window, same_limit, seen, longer) (ground arith)
