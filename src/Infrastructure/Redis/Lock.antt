-- ===== src/Infrastructure/Redis/Lock.antt =====
-- The client of app/infrastructure/cache/redis_client.py as the backend of locks.
use ai_risk_engine.Base.{
  String, ◌≡◌, ◌≢◌, refl, inl, inr, Bool, none, some, arith, str_eq, eq_iff, Bool-cases,
}
use ai_risk_engine.Exec.{ok, Result-cases}
use ai_risk_engine.Infrastructure.Redis.{Redis, set_nx_ex, delete_script, delete_if_value}
use ai_risk_engine.Scalability.DistributedLock.{LockBackend}

module _ {D : Type 0} (redis : Redis D) where
  delete-keeps :
      (k v j w : String) (d : D)
      → w ≢ v
      → redis.holds j d ≡ some w
      → redis.holds k d ≡ some v
      → redis.holds j (redis.delete k d).1 ≡ some w
  delete-keeps k v j w d other stored held = elim (Bool-cases (str_eq k j)) [
    | inl same ↦ absurd (let is_k = (eq_iff k j).0 same in other (ground arith))
    | inr apart ↦ rw (redis.delete_others k j d apart) stored
  ]

  pub delete_script-keeps :
      (k v j w : String) (d : D)
      → w ≢ v
      → redis.holds j d ≡ some w
      → redis.holds j (delete_script redis k v d).1 ≡ some w
  unfolding delete_script
  delete_script-keeps k v j w d other stored = elim (Result-cases (redis.get k d)) [
    | inr (e, failed) ↦ ground arith
    | inl (none, missing) ↦ ground arith
    | inl (some u, found) ↦ elim (Bool-cases (str_eq u v)) [
      | inr apart ↦ ground arith
      | inl same ↦
          let held = redis.get_holds k d (some u) found in
          let is_v = (eq_iff u v).0 same in
          let kept = delete-keeps k v j w d other stored (ground arith) in ground arith
    ]
  ]

  pub delete_if_value-script :
      (k v : String) (d : D) → (delete_if_value redis k v d).1 ≡ (delete_script redis k v d).1
  unfolding delete_if_value
  delete_if_value-script k v d = elim (Result-cases (delete_script redis k v d).0) [
    | inl (n, done) ↦ ground arith
    | inr (e, failed) ↦ ground arith
  ]

  pub delete_if_value-frees :
      (k v : String) (d : D) (b : Bool)
      → redis.holds k d ≡ some v
      → (delete_if_value redis k v d).0 ≡ ok b
      → redis.holds k (delete_if_value redis k v d).1 ≡ none
  unfolding delete_if_value delete_script
  delete_if_value-frees k v d b stored returned = elim (Result-cases (redis.get k d)) [
    | inr (e, failed) ↦ absurd (ground arith)
    | inl (o, found) ↦
        let held = redis.get_holds k d o found in
        let same = (eq_iff v v).1 refl in
        let is_v : o ≡ some v = ground arith in
        elim (Result-cases (redis.delete k d).0) [
          | inr (e, failed) ↦ absurd (ground arith)
          | inl (n, deleted) ↦ let free = redis.delete_ok k d n deleted in ground arith
        ]
  ]

  -- `RedisClient` as the backend that locks are given
  unfoldable pub as_lock_backend : LockBackend D
  unfolding set_nx_ex delete_if_value
  as_lock_backend = record {
    holds = redis.holds;
    set_nx_ex = set_nx_ex redis;
    delete_if_value = delete_if_value redis;
    set_was_free = redis.set_nx;
    set_keeps = λ k v ttl j w. redis.set_nx_keeps k v ttl j w;
    delete_keeps = λ k v j w d other stored.
        rw (delete_if_value-script k v d) (delete_script-keeps k v j w d other stored);
    delete_frees = delete_if_value-frees;
  }
