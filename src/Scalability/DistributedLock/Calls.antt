-- ===== src/Scalability/DistributedLock/Calls.antt =====
-- What the calls of app/scalability/distributed_lock.py promise, to the node that makes them and to
-- the others.
use ai_risk_engine.Base.{
  ℕ, String, ◌≡◌, ◌≢◌, refl, inl, inr, true, some, arith, eq_iff, Option-cases,
}
use ai_risk_engine.Python.Dict.{Dict, get, get-insert}
use ai_risk_engine.Exec.{ok, Result-cases}
use ai_risk_engine.Scalability.DistributedLock.{LockBackend, Node, full_key, acquire, release}
use ai_risk_engine.Scalability.DistributedLock.Cluster.{
  Cluster, update, update_cases, node, after_acquire, after_release, Reach, Unique, Reach-Unique,
  Owns,
}

module _ {D : Type 0} (backend : LockBackend D) (prefix : String) where
  pub update_same : (f : ℕ → Dict String) (i : ℕ) (d : Dict String) → update f i d i ≡ d
  unfolding update
  update_same f i d = ground arith

  pub update_other :
      (f : ℕ → Dict String) (i j : ℕ) (d : Dict String) → j ≢ i → update f i d j ≡ f j
  unfolding update
  update_other f i j d other = elim (update_cases f i d j) [
    | inl (same, _) ↦ absurd (other same)
    | inr (_, e) ↦ e
  ]

  -- Where `acquire` returns true, no node owned the lock on this key before, and the node that called
  -- owns it now.
  pub acquire-Owns :
      (c : Cluster D) (i : ℕ) (token key : String) (ttl : ℕ)
      → (acquire backend prefix token key ttl (node c i)).0 ≡ ok true
      → ((j : ℕ) → ¬ (Owns backend prefix c j key))
        × Owns backend prefix (after_acquire backend prefix c i token key ttl) i key
  unfolding acquire
  acquire-Owns c i token key ttl taken =
      let full = full_key backend prefix key in
      elim (Result-cases (backend.set_nx_ex full token ttl c.backend).0) [
        | inr (e, failed) ↦ absurd (ground arith)
        | inl (b, done) ↦
            let set : (backend.set_nx_ex full token ttl c.backend).0 ≡ ok true = ground arith in
            let law = backend.set_was_free full token ttl c.backend set in
            let free = law.0 in
            let there = law.1 in
            let read = get-insert key key token (c.tokens i) in
            let reflexive = (eq_iff key key).1 refl in
            (
              λ j owner. let stored = owner.stored in ground arith,
              record {
                token = token;
                known =
                    rw
                      (update_same c.tokens i
                        (acquire backend prefix token key ttl (node c i)).1.tokens)
                      (ground arith);
                stored = ground arith;
              },
            )
      ]

  pub acquire-keeps :
      (token key : String) (ttl : ℕ) (n : Node D) (k t : String)
      → backend.holds k n.backend ≡ some t
      → backend.holds k (acquire backend prefix token key ttl n).1.backend ≡ some t
  unfolding acquire
  acquire-keeps token key ttl n k t stored =
      let full = full_key backend prefix key in
      let kept = backend.set_keeps full token ttl k t n.backend stored in
      elim (Result-cases (backend.set_nx_ex full token ttl n.backend).0) [
        | inr (e, failed) ↦ ground arith
        | inl (b, done) ↦ ground arith
      ]

  pub release-keeps :
      (key : String) (n : Node D) (k t : String)
      → get key n.tokens ≢ some t
      → backend.holds k n.backend ≡ some t
      → backend.holds k (release backend prefix key n).1.backend ≡ some t
  unfolding release
  release-keeps key n k t unknown stored = elim (Option-cases (get key n.tokens)) [
    | inl e ↦ ground arith
    | inr (token, e) ↦
        let kept =
          backend.delete_keeps (full_key backend prefix key) token k t n.backend
            (λ same. unknown (rw same e)) stored in
        ground arith
  ]

  -- Where a node calls `acquire` or `release`, with whatever result and for whatever key, also one
  -- whose lock it has lost to another node, every other node keeps the locks that it owns.
  pub others_keep :
      (d : D) (c : Cluster D) (i j : ℕ) (token key l : String) (ttl : ℕ)
      → Reach backend prefix d c
      → j ≢ i
      → Owns backend prefix c j l
      → Owns backend prefix (after_acquire backend prefix c i token key ttl) j l
        × Owns backend prefix (after_release backend prefix c i key) j l
  unfolding Unique
  others_keep d c i j token key l ttl reached other owner =
      let unique = Reach-Unique backend prefix d c reached in
      let full = full_key backend prefix l in
      (
        record {
          token = owner.token;
          known =
              rw
                (update_other c.tokens i j
                  (acquire backend prefix token key ttl (node c i)).1.tokens other)
                owner.known;
          stored = acquire-keeps token key ttl (node c i) full owner.token owner.stored;
        },
        record {
          token = owner.token;
          known =
              rw (update_other c.tokens i j (release backend prefix key (node c i)).1.tokens other)
                owner.known;
          stored =
              release-keeps key (node c i) full owner.token
                (λ known. other (unique j i l key owner.token owner.known known).0) owner.stored;
        },
      )

  -- Where the owner of a lock calls `release` and it returns, nobody owns the lock.
  pub release-frees :
      (c : Cluster D) (i j : ℕ) (key : String)
      → Owns backend prefix c i key
      → (release backend prefix key (node c i)).0 ≡ ok tt
      → ¬ (Owns backend prefix (after_release backend prefix c i key) j key)
  unfolding release
  release-frees c i j key owner done later =
      let known = owner.known in
      let full = full_key backend prefix key in
      let stored = later.stored in
      elim (Result-cases (backend.delete_if_value full owner.token c.backend).0) [
        | inr (e, failed) ↦ absurd (ground arith)
        | inl (b, deleted) ↦
            let free = backend.delete_frees full owner.token c.backend b owner.stored deleted in
            absurd (ground arith)
      ]
