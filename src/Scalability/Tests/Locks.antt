-- ===== src/Scalability/Tests/Locks.antt =====
-- The theorems on app/scalability/distributed_lock.py at two nodes that lock through one Redis.
use ai_risk_engine.Base.{
  ap, eq_iff, false, ℕ, String, ◌≡◌, ◌≢◌, refl, inl, inr, Option, none, some, Bool-cases, ◌==◌,
  str_eq, true, [], arith,
}
use ai_risk_engine.Python.Dict.{Dict, get, insert}
use ai_risk_engine.Exec.{ok}
use ai_risk_engine.Infrastructure.Redis.{set_nx_ex}
use ai_risk_engine.Infrastructure.Redis.Lock.{as_lock_backend}
use ai_risk_engine.Infrastructure.InMemory.{redis, set_value}
use ai_risk_engine.Scalability.DistributedLock.{LockBackend, acquire}
use ai_risk_engine.Scalability.DistributedLock.Exclusive.{
  acquires, releases, Held, here, then, one_at_a_time,
}
use ai_risk_engine.Scalability.DistributedLock.Cluster.{
  Cluster, node, after_acquire, after_release, IsFresh, Reach, start, next, acquired, Owns, update,
}
use ai_risk_engine.Scalability.DistributedLock.Calls.{acquire-Owns, others_keep}

abbrev backend : LockBackend (Dict String)
backend = as_lock_backend redis

abbrev nobody : Cluster (Dict String)
nobody = record { backend = []; tokens = λ _. [] }

abbrev one_locked : Cluster (Dict String)
one_locked = after_acquire backend "lock:" nobody 1 "t1" "job" 60

is_fresh : IsFresh nobody "t1"
unfolding get
is_fresh i key e = ground arith

reached : Reach backend "lock:" [] one_locked
reached = next nobody one_locked start (acquired 1 "t1" "job" 60 is_fresh)

taken : (acquire backend "lock:" "t1" "job" 60 (node nobody 1)).0 ≡ ok true
unfolding acquire as_lock_backend redis set_nx_ex set_value get
taken = refl

acquire-Owns_example :
    ((j : ℕ) → ¬ (Owns backend "lock:" nobody j "job")) × Owns backend "lock:" one_locked 1 "job"
acquire-Owns_example = acquire-Owns backend "lock:" nobody 1 "t1" "job" 60 taken

owner : Owns backend "lock:" one_locked 1 "job"
owner = (acquire-Owns backend "lock:" nobody 1 "t1" "job" 60 taken).1

-- while node 1 holds the lock, node 2 has asked for it and given up
abbrev contended : Cluster (Dict String)
contended =
    after_release backend "lock:" (after_acquire backend "lock:" one_locked 2 "t2" "job" 60) 2 "job"

some_token : ◌≢◌ {A = Option String} (some "t1") (some "t2")
some_token e =
    let same : "t1" ≡ "t2" = ap (λ o. elim o [ none ↦ "t1" | some t ↦ t ]) e in
    let found : false ≡ true = (eq_iff "t1" "t2").1 same in ground arith

no_token : ◌≢◌ {A = Option String} none (some "t2")
no_token e = ground arith

locked-IsFresh : IsFresh one_locked "t2"
unfolding acquire as_lock_backend redis set_nx_ex set_value get insert update
locked-IsFresh i key e = elim (Bool-cases (i == 1)) [
  | inl one ↦ elim (Bool-cases (str_eq "job" key)) [
    | inl same ↦ some_token (rw (one, same) at e)
    | inr other ↦ no_token (rw (one, other) at e)
  ]
  | inr other ↦ no_token (rw other at e)
]

in_between : Held backend "lock:" 1 "job" one_locked contended
in_between =
    let asked = after_acquire backend "lock:" one_locked 2 "t2" "job" 60 in
    then asked contended (then one_locked asked here (acquires 2 "t2" "job" 60 locked-IsFresh))
      (releases 2 "job" (inl (ground arith)))

one_at_a_time_example : (acquire backend "lock:" "t3" "job" 60 (node contended 2)).0 ≢ ok true
one_at_a_time_example =
    one_at_a_time backend "lock:" [] nobody contended 1 2 "t1" "t3" "job" 60 60 start is_fresh taken
      in_between

others_keep_example :
    Owns backend "lock:" (after_acquire backend "lock:" one_locked 2 "t2" "job" 60) 1 "job"
    × Owns backend "lock:" (after_release backend "lock:" one_locked 2 "job") 1 "job"
others_keep_example =
    others_keep backend "lock:" [] one_locked 2 1 "t2" "job" "job" 60 reached (ground arith) owner
