-- ===== src/Infrastructure/Redis.antt =====
-- `RedisClient` of app/infrastructure/cache/redis_client.py, over the commands of the server, which
-- are a parameter with what their documentation says of them. A command is one atomic step, and so is
-- a script; a connection may fail at each.
pub mod Lock
use ai_risk_engine.Base.{
  ℕ, String, ◌≡◌, refl, sym, ap, ◌∙◌, inl, inr, Bool, true, false, not, Option, none, some, arith,
  leb, ◌==◌, if◌then◌else◌, str_eq, eq_iff, Bool-cases, Option-cases,
}
use ai_risk_engine.Exec.{Result, ok, err, Exec, Result-cases, pure, lift, ◌>>=◌, ◌>>◌}
use ai_risk_engine.Application.Service.{Cache}

-- `holds k` is what the server has stored under a key. A key that runs out of time is removed between
-- two commands.
pub record Redis (D : Type 0) : Type 0 where
  pub holds : String → D → Option String
  pub get : String → D → Result (Option String)
  pub set : (k v : String) (ex : ℕ) (nx : Bool) → Exec D Bool
  pub exists : String → D → Result ℕ
  pub delete : String → Exec D ℕ
  pub incr : String → Exec D ℕ
  pub expire : String → ℕ → Exec D Bool
  pub get_holds : (k : String) (d : D) (o : Option String) → get k d ≡ ok o → o ≡ holds k d
  pub set_get :
      (k v : String) (ex : ℕ) (d : D)
      → (set k v ex false d).0 ≡ ok true
      → get k (set k v ex false d).1 ≡ ok (some v)
  pub set_ok : (k v : String) (ex : ℕ) (d : D) (b : Bool) → (set k v ex false d).0 ≡ ok b → b ≡ true
  pub set_nx :
      (k v : String) (ex : ℕ) (d : D)
      → (set k v ex true d).0 ≡ ok true
      → (holds k d ≡ none) × (holds k (set k v ex true d).1 ≡ some v)
  pub set_nx_keeps :
      (k v : String) (ex : ℕ) (j w : String) (d : D)
      → holds j d ≡ some w
      → holds j (set k v ex true d).1 ≡ some w
  pub delete_others :
      (k j : String) (d : D) → str_eq k j ≡ false → holds j (delete k d).1 ≡ holds j d
  pub delete_ok :
      (k : String) (d : D) (n : ℕ) → (delete k d).0 ≡ ok n → holds k (delete k d).1 ≡ none

abbrev pub is_text : Option String → String → Bool
is_text none v = false
is_text (some w) v = str_eq w v

module _ {D : Type 0} (redis : Redis D) where
  unfoldable pub set_idempotency_key : String → ℕ → Exec D Bool
  set_idempotency_key key ttl = redis.set key "1" ttl true

  unfoldable pub exists : String → D → Result ℕ
  exists key = redis.exists key

  unfoldable pub set_cache : String → String → ℕ → Exec D (Unit {0})
  set_cache key v ttl = redis.set key v ttl false >> pure tt

  unfoldable pub get_cache : String → D → Result (Option String)
  get_cache key = redis.get key

  expire_first : String → ℕ → ℕ → Exec D (Unit {0})
  expire_first key window current d =
      if current == 1 then (redis.expire key window >> pure tt) d else (ok tt, d)

  unfoldable pub rate_limit : String → ℕ → ℕ → Exec D Bool
  unfolding expire_first
  rate_limit key limit window = do
    current ← redis.incr key
    expire_first key window current
    pure (leb current limit)

  unfoldable pub set_nx_ex : String → String → ℕ → Exec D Bool
  set_nx_ex key v ttl = redis.set key v ttl true

  unfoldable pub get : String → D → Result (Option String)
  get key = redis.get key

  unfoldable pub delete_key : String → Exec D (Unit {0})
  delete_key key = redis.delete key >> pure tt

  -- the script, which the server runs as one command
  unfoldable pub delete_script : String → String → Exec D ℕ
  delete_script key v = do
    current ← λ d. (redis.get key d, d)
    if is_text current v then redis.delete key else pure 0

  unfoldable pub delete_if_value : String → String → Exec D Bool
  delete_if_value key v = do result ← delete_script key v; pure (not (result == 0))

  unfoldable pub incr : String → Exec D ℕ
  incr key = redis.incr key

  unfoldable pub expire : String → ℕ → Exec D (Unit {0})
  expire key seconds = redis.expire key seconds >> pure tt

  pub set_cache-get_cache :
      (k v : String) (ttl : ℕ) (d : D)
      → (set_cache k v ttl d).0 ≡ ok tt
      → get_cache k (set_cache k v ttl d).1 ≡ ok (some v)
  unfolding set_cache get_cache
  set_cache-get_cache k v ttl d done = elim (Result-cases (redis.set k v ttl false d).0) [
    | inr (e, failed) ↦ absurd (ground arith)
    | inl (b, set) ↦
        let same = redis.set_ok k v ttl d b set in
        let there = redis.set_get k v ttl d (rw (← same) set) in ground arith
  ]

  -- the cache that the event service is given
  unfoldable pub as_cache : Cache D
  unfolding set_cache get_cache
  as_cache = record { get_cache = get_cache; set_cache = set_cache; set_ok = set_cache-get_cache }
