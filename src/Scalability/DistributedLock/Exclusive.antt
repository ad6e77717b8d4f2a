-- ===== src/Scalability/DistributedLock/Exclusive.antt =====
-- That a lock of app/scalability/distributed_lock.py is given to one node at a time.

use ai_risk_engine.Base.{
  ℕ, String, ◌≡◌, ◌≢◌, sym, ◌∙◌, ◌⊎◌, inl, inr, true, none, some, arith, ◌==◌, str_eq, eq_iff,
  Bool-cases, Option-cases,
}
use ai_risk_engine.Python.Dict.{get, get-insert, get-remove}
use ai_risk_engine.Exec.{ok, Result-cases}
use ai_risk_engine.Scalability.DistributedLock.{LockBackend, Node, full_key, acquire, release}
use ai_risk_engine.Scalability.DistributedLock.Cluster.{
  Cluster, node, after_acquire, after_release, IsFresh, Step, acquired, released, expired, Reach,
  next, Unique, Reach-Unique, Owns,
}
use ai_risk_engine.Scalability.DistributedLock.Calls.{
  update_same, acquire-keeps, release-keeps, acquire-Owns, others_keep,
}

module _ {D : Type 0} (backend : LockBackend D) (prefix : String) where
  -- A step in which node `i` does not release the lock on `key` and the key of this lock does not
  -- run out of time.
  pub data StepHeld (i : ℕ) (key : String) (c : Cluster D) : Cluster D → Type 0 where
    acquires :
        (j : ℕ) (token l : String) (ttl : ℕ)
        → IsFresh c token
        → StepHeld i key c (after_acquire backend prefix c j token l ttl)
    releases :
        (j : ℕ) (l : String)
        → (j ≢ i) ⊎ (l ≢ key)
        → StepHeld i key c (after_release backend prefix c j l)
    expires :
        (d : D)
        → ((k : String)
            → (backend.holds k d ≡ backend.holds k c.backend) ⊎ (backend.holds k d ≡ none))
        → backend.holds (full_key backend prefix key) d
          ≡ backend.holds (full_key backend prefix key) c.backend
        → StepHeld i key c (record c { backend = d })

  pub data Held (i : ℕ) (key : String) (c : Cluster D) : Cluster D → Type 0 where
    here : Held i key c c
    then : (e f : Cluster D) → Held i key c e → StepHeld i key e f → Held i key c f

  StepHeld-Step :
      (i : ℕ) (key : String) (c e : Cluster D) → StepHeld i key c e → Step backend prefix c e
  StepHeld-Step i key c _ (acquires j token l ttl fresh) = acquired j token l ttl fresh
  StepHeld-Step i key c _ (releases j l other) = released j l
  StepHeld-Step i key c _ (expires d lost kept) = expired d lost

  Held-Reach :
      (d : D) (i : ℕ) (key : String) (c e : Cluster D)
      → Reach backend prefix d c
      → Held i key c e
      → Reach backend prefix d e
  Held-Reach d i key c _ r here = r
  Held-Reach d i key c f r (then e _ h s) =
      next e f (Held-Reach d i key c e r h) (StepHeld-Step i key e f s)

  -- a call of `acquire` by the owner itself does not change its token: it is not given the lock anew
  own_acquire-token :
      (token l : String) (ttl : ℕ) (n : Node D) (key t : String)
      → get key n.tokens ≡ some t
      → backend.holds (full_key backend prefix key) n.backend ≡ some t
      → get key (acquire backend prefix token l ttl n).1.tokens ≡ some t
  unfolding acquire
  own_acquire-token token l ttl n key t known stored =
      let full = full_key backend prefix l in
      elim (Result-cases (backend.set_nx_ex full token ttl n.backend).0) [
        | inr (e, failed) ↦ ground arith
        | inl (taken, done) ↦ elim (Bool-cases taken) [
          | inr e ↦ ground arith
          | inl e ↦ elim (Bool-cases (str_eq l key)) [
            | inl same ↦
                let set : (backend.set_nx_ex full token ttl n.backend).0 ≡ ok true = ground arith in
                let free = (backend.set_was_free full token ttl n.backend set).0 in
                let is_key = (eq_iff l key).0 same in
                absurd (let taken_key = rw is_key at free in ground arith)
            | inr other ↦ let read = get-insert l key token n.tokens in ground arith
          ]
        ]
      ]

  own_release-token :
      (l : String) (n : Node D) (key t : String)
      → l ≢ key
      → get key n.tokens ≡ some t
      → get key (release backend prefix l n).1.tokens ≡ some t
  unfolding release
  own_release-token l n key t other known = elim (Option-cases (get l n.tokens)) [
    | inl e ↦ ground arith
    | inr (token, e) ↦
        let read = get-remove l key n.tokens in
        elim (Bool-cases (str_eq l key)) [
          | inl same ↦ absurd (other ((eq_iff l key).0 same))
          | inr apart ↦ ground arith
        ]
  ]

  own_acquire :
      (c : Cluster D) (i : ℕ) (token l key : String) (ttl : ℕ)
      → Owns backend prefix c i key
      → Owns backend prefix (after_acquire backend prefix c i token l ttl) i key
  own_acquire c i token l key ttl owner =
      let full = full_key backend prefix key in
      record {
        token = owner.token;
        known =
            rw
              (update_same backend prefix c.tokens i
                (acquire backend prefix token l ttl (node c i)).1.tokens)
              (own_acquire-token token l ttl (node c i) key owner.token owner.known owner.stored);
        stored = acquire-keeps backend prefix token l ttl (node c i) full owner.token owner.stored;
      }

  own_release :
      (d : D) (c : Cluster D) (i : ℕ) (l key : String)
      → Reach backend prefix d c
      → l ≢ key
      → Owns backend prefix c i key
      → Owns backend prefix (after_release backend prefix c i l) i key
  unfolding Unique
  own_release d c i l key reached other owner =
      let unique = Reach-Unique backend prefix d c reached in
      let full = full_key backend prefix key in
      record {
        token = owner.token;
        known =
            rw
              (update_same backend prefix c.tokens i (release backend prefix l (node c i)).1.tokens)
              (own_release-token l (node c i) key owner.token other owner.known);
        stored =
            release-keeps backend prefix l (node c i) full owner.token
              (λ known. other (unique i i l key owner.token known owner.known).1) owner.stored;
      }

  StepHeld-Owns :
      (d : D) (i : ℕ) (key : String) (c e : Cluster D)
      → Reach backend prefix d c
      → StepHeld i key c e
      → Owns backend prefix c i key
      → Owns backend prefix e i key
  StepHeld-Owns d i key c _ r (acquires j token l ttl fresh) owner = elim (Bool-cases (i == j)) [
    | inl same ↦
        let is_i : i ≡ j = ground arith in rw (← is_i) (own_acquire c i token l key ttl owner)
    | inr apart ↦ (others_keep backend prefix d c j i token l key ttl r (ground arith) owner).0
  ]
  StepHeld-Owns d i key c _ r (releases j l other) owner = elim (Bool-cases (i == j)) [
    | inl same ↦
        let is_i : i ≡ j = ground arith in
        let apart : l ≢ key = elim other [ inl h ↦ absurd (h (sym is_i)) | inr h ↦ h ] in
        rw (← is_i) (own_release d c i l key r apart owner)
    | inr apart ↦ (others_keep backend prefix d c j i "" l key 0 r (ground arith) owner).1
  ]
  StepHeld-Owns d i key c _ r (expires lost each kept) owner = record {
    token = owner.token;
    known = owner.known;
    stored = kept ∙ owner.stored;
  }

  Held-Owns :
      (d : D) (i : ℕ) (key : String) (c e : Cluster D)
      → Reach backend prefix d c
      → Held i key c e
      → Owns backend prefix c i key
      → Owns backend prefix e i key
  Held-Owns d i key c _ r here owner = owner
  Held-Owns d i key c f r (then e _ h s) owner =
      StepHeld-Owns d i key e f (Held-Reach d i key c e r h) s (Held-Owns d i key c e r h owner)

  -- Where every call of `acquire` draws a token that no node knows: once a call has returned true, no
  -- call for the same key, of whatever node, returns true, however the nodes acquire and release
  -- locks in the meantime and whether or not their calls raise, as long as the node that holds the
  -- lock does not release it and its key does not run out of time.
  pub one_at_a_time :
      (d : D) (c e : Cluster D) (i j : ℕ) (token token' key : String) (ttl ttl' : ℕ)
      → Reach backend prefix d c
      → IsFresh c token
      → (acquire backend prefix token key ttl (node c i)).0 ≡ ok true
      → Held i key (after_acquire backend prefix c i token key ttl) e
      → (acquire backend prefix token' key ttl' (node e j)).0 ≢ ok true
  one_at_a_time d c e i j token token' key ttl ttl' reached fresh taken held again =
      let c' = after_acquire backend prefix c i token key ttl in
      let r = next c c' reached (acquired i token key ttl fresh) in
      let owner = (acquire-Owns backend prefix c i token key ttl taken).1 in
      (acquire-Owns backend prefix e j token' key ttl' again).0 i
        (Held-Owns d i key c' e r held owner)
