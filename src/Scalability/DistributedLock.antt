-- ===== src/Scalability/DistributedLock.antt =====
-- `DistributedLock` of app/scalability/distributed_lock.py. The backend is a protocol of the source,
-- so it is a record of operations and laws; infrastructure/cache/redis_client.py implements it.
pub mod Cluster
pub mod Calls
pub mod Exclusive
use ai_risk_engine.Base.{
  ℕ, String, ◌≡◌, ◌≢◌, Bool, true, Option, none, some, List, [], ◌∷◌, if◌then◌else◌,
}
use ai_risk_engine.Python.Text.{f_string}
use ai_risk_engine.Python.Dict.{Dict, get, insert, remove}
use ai_risk_engine.Exec.{Result, ok, err, Exec}

-- `RedisLockBackend`. `holds k` is the value under a key. A call that raises may have been carried out.
pub record LockBackend (D : Type 0) : Type 0 where
  pub holds : String → D → Option String
  pub set_nx_ex : (k v : String) (ttl : ℕ) → Exec D Bool
  pub delete_if_value : (k v : String) → Exec D Bool
  pub set_was_free :
      (k v : String) (ttl : ℕ) (d : D)
      → (set_nx_ex k v ttl d).0 ≡ ok true
      → (holds k d ≡ none) × (holds k (set_nx_ex k v ttl d).1 ≡ some v)
  pub set_keeps :
      (k v : String) (ttl : ℕ) (j w : String) (d : D)
      → holds j d ≡ some w
      → holds j (set_nx_ex k v ttl d).1 ≡ some w
  pub delete_keeps :
      (k v j w : String) (d : D)
      → w ≢ v
      → holds j d ≡ some w
      → holds j (delete_if_value k v d).1 ≡ some w
  pub delete_frees :
      (k v : String) (d : D) (b : Bool)
      → holds k d ≡ some v
      → (delete_if_value k v d).0 ≡ ok b
      → holds k (delete_if_value k v d).1 ≡ none

-- `self._tokens` of one node, and what it shares with the others.
pub record Node (D : Type 0) : Type 0 where
  pub backend : D
  pub tokens : Dict String

module _ {D : Type 0} (backend : LockBackend D) (prefix : String) where
  -- `_key`
  abbrev pub full_key : String → String
  full_key key = f_string (prefix ∷ key ∷ [])

  -- `acquire`; `token` is `str(uuid.uuid4())`
  unfoldable pub acquire : String → String → ℕ → Exec (Node D) Bool
  acquire token key ttl s =
      let (r, backend') = backend.set_nx_ex (full_key key) token ttl s.backend in
      elim r [
        | err e ↦ (err e, record s { backend = backend' })
        | ok acquired ↦ (
          ok acquired,
          record {
            backend = backend';
            tokens = if acquired then insert key token s.tokens else s.tokens;
          },
        )
      ]

  -- `release` takes its token out first
  unfoldable pub release : String → Exec (Node D) (Unit {0})
  release key s = elim (get key s.tokens) [
    | none ↦ (ok tt, s)
    | some token ↦
        let (r, backend') = backend.delete_if_value (full_key key) token s.backend in
        (
          elim r [ ok _ ↦ ok tt | err e ↦ err e ],
          record { backend = backend'; tokens = remove key s.tokens },
        )
  ]
