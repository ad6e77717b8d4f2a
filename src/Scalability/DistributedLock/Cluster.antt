-- ===== src/Scalability/DistributedLock/Cluster.antt =====
-- Nodes that lock through one backend (app/scalability/distributed_lock.py), in any interleaving of
-- their calls. The calls of the backend are atomic, so a call of a node is one step.
use ai_risk_engine.Base.{
  ℕ, String, ◌≡◌, ◌≢◌, refl, sym, ◌∙◌, ◌⊎◌, inl, inr, false, none, some, [], arith, ◌==◌,
  if◌then◌else◌, str_eq, eq_iff, Bool-cases, Option-cases,
}
use ai_risk_engine.Python.Dict.{Dict, get, insert, remove, get-insert, get-remove}
use ai_risk_engine.Exec.{Result-cases}
use ai_risk_engine.Scalability.DistributedLock.{LockBackend, Node, full_key, acquire, release}

pub record Cluster (D : Type 0) : Type 0 where
  pub backend : D
  pub tokens : ℕ → Dict String

unfoldable pub update : (ℕ → Dict String) → ℕ → Dict String → ℕ → Dict String
update f i x j = if j == i then x else f j

pub update_cases :
    (f : ℕ → Dict String) (i : ℕ) (d : Dict String) (j : ℕ)
    → ((j ≡ i) × (update f i d j ≡ d)) ⊎ ((j ≢ i) × (update f i d j ≡ f j))
unfolding update
update_cases f i d j = elim (Bool-cases (j == i)) [
  | inl e ↦ inl (ground arith, rw e refl)
  | inr e ↦ inr (ground arith, rw e refl)
]

module _ {D : Type 0} where
  abbrev pub node : Cluster D → ℕ → Node D
  node c i = record { backend = c.backend; tokens = c.tokens i }

  abbrev pub with_node : Cluster D → ℕ → Node D → Cluster D
  with_node c i n = record { backend = n.backend; tokens = update c.tokens i n.tokens }

  -- no node knows the token, as a drawn identifier is new
  abbrev pub IsFresh : Cluster D → String → Type 0
  IsFresh c token = (i : ℕ) (key : String) → get key (c.tokens i) ≢ some token

module _ {D : Type 0} (backend : LockBackend D) (prefix : String) where
  abbrev pub after_acquire : Cluster D → ℕ → String → String → ℕ → Cluster D
  after_acquire c i token key ttl =
      with_node c i (acquire backend prefix token key ttl (node c i)).1

  abbrev pub after_release : Cluster D → ℕ → String → Cluster D
  after_release c i key = with_node c i (release backend prefix key (node c i)).1

  -- A node acquires or releases, successfully or not, or keys run out of time.
  pub data Step (c : Cluster D) : Cluster D → Type 0 where
    acquired :
        (i : ℕ) (token key : String) (ttl : ℕ)
        → IsFresh c token
        → Step c (after_acquire c i token key ttl)
    released : (i : ℕ) (key : String) → Step c (after_release c i key)
    expired :
        (d : D)
        → ((k : String)
            → (backend.holds k d ≡ backend.holds k c.backend) ⊎ (backend.holds k d ≡ none))
        → Step c (record c { backend = d })

  pub data Reach (d : D) : Cluster D → Type 0 where
    start : Reach d (record { backend = d; tokens = λ _. [] })
    next : (c e : Cluster D) → Reach d c → Step c e → Reach d e

  -- A token is held by one node, for one key.
  unfoldable pub Unique : (ℕ → Dict String) → Type 0
  Unique tokens =
      (i j : ℕ) (k l t : String)
      → get k (tokens i) ≡ some t
      → get l (tokens j) ≡ some t
      → (i ≡ j) × (k ≡ l)

  -- A node owns the lock on a key if the backend holds the node's token.
  pub record Owns (c : Cluster D) (i : ℕ) (key : String) : Type 0 where
    pub token : String
    pub known : get key (c.tokens i) ≡ some token
    pub stored : backend.holds (full_key backend prefix key) c.backend ≡ some token

  -- a token of the new dict is an old one, or the new one
  insert_cases :
      (key token k t : String) (d : Dict String)
      → get k (insert key token d) ≡ some t
      → (get k d ≡ some t) ⊎ ((k ≡ key) × (t ≡ token))
  insert_cases key token k t d h =
      let h' = rw (get-insert key k token d) at h in
      elim (Bool-cases (str_eq key k)) [
        | inl e ↦ inr (sym ((eq_iff key k).0 e), ground arith)
        | inr e ↦ inl (ground arith)
      ]

  acquire_cases :
      (token key : String) (ttl : ℕ) (n : Node D) (k t : String)
      → get k (acquire backend prefix token key ttl n).1.tokens ≡ some t
      → (get k n.tokens ≡ some t) ⊎ ((k ≡ key) × (t ≡ token))
  unfolding acquire
  acquire_cases token key ttl n k t h =
      elim (Result-cases (backend.set_nx_ex (full_key backend prefix key) token ttl n.backend).0) [
        | inr (e, failed) ↦ inl (ground arith)
        | inl (taken, done) ↦ elim (Bool-cases taken) [
          | inr e ↦ inl (ground arith)
          | inl e ↦ insert_cases key token k t n.tokens (ground arith)
        ]
      ]

  release_cases :
      (key : String) (n : Node D) (k t : String)
      → get k (release backend prefix key n).1.tokens ≡ some t
      → (get k n.tokens ≡ some t) × (str_eq key k ≡ false)
        ⊎ (get key n.tokens ≡ none) × (get k n.tokens ≡ some t)
  unfolding release
  release_cases key n k t h = elim (Option-cases (get key n.tokens)) [
    | inl e ↦ inr (e, ground arith)
    | inr (token, e) ↦
        let left : get k (remove key n.tokens) ≡ some t = ground arith in
        let left' = rw (get-remove key k n.tokens) at left in
        elim (Bool-cases (str_eq key k)) [
          | inl same ↦ absurd (ground arith)
          | inr other ↦ inl (ground arith, other)
        ]
  ]

  -- What a step does to the tokens of all nodes.
  Extends : (ℕ → Dict String) → (ℕ → Dict String) → ℕ → String → String → Type 0
  Extends old new i key token =
      (j : ℕ) (k t : String)
      → get k (new j) ≡ some t
      → (get k (old j) ≡ some t) ⊎ ((j ≡ i) × (k ≡ key) × (t ≡ token))

  after_acquire-Extends :
      (c : Cluster D) (i : ℕ) (token key : String) (ttl : ℕ)
      → Extends c.tokens (after_acquire c i token key ttl).tokens i key token
  unfolding Extends
  after_acquire-Extends c i token key ttl j k t h =
      let n = (acquire backend prefix token key ttl (node c i)).1 in
      elim (update_cases c.tokens i n.tokens j) [
        | inr (other, e) ↦ inl (rw e at h)
        | inl (same, e) ↦ elim (acquire_cases token key ttl (node c i) k t (rw e at h)) [
          | inl old ↦ inl (rw same old)
          | inr (at_key, new) ↦ inr (same, at_key, new)
        ]
      ]

  after_release-old :
      (c : Cluster D) (i : ℕ) (key : String) (j : ℕ) (k t : String)
      → get k ((after_release c i key).tokens j) ≡ some t
      → get k (c.tokens j) ≡ some t
  after_release-old c i key j k t h =
      let n = (release backend prefix key (node c i)).1 in
      elim (update_cases c.tokens i n.tokens j) [
        | inr (other, e) ↦ rw e at h
        | inl (same, e) ↦ elim (release_cases key (node c i) k t (rw e at h)) [
          | inl (old, _) ↦ rw same old
          | inr (_, old) ↦ rw same old
        ]
      ]

  Extends-Unique :
      (old new : ℕ → Dict String) (i : ℕ) (key token : String)
      → Extends old new i key token
      → ((j : ℕ) (k : String) → get k (old j) ≢ some token)
      → Unique old
      → Unique new
  unfolding Extends Unique
  Extends-Unique old new i key token came fresh unique a b k l t h h' = elim (came a k t h) [
    | inl p ↦ elim (came b l t h') [
      | inl q ↦ unique a b k l t p q
      | inr (_, _, q) ↦ absurd (fresh a k (rw q at p))
    ]
    | inr (ai, kk, p) ↦ elim (came b l t h') [
      | inl q ↦ absurd (fresh b l (rw p at q))
      | inr (bi, lk, _) ↦ (ai ∙ sym bi, kk ∙ sym lk)
    ]
  ]

  step-Unique : (c e : Cluster D) → Step c e → Unique c.tokens → Unique e.tokens
  unfolding Unique
  step-Unique c _ (acquired i token key ttl fresh) unique =
      Extends-Unique c.tokens (after_acquire c i token key ttl).tokens i key token
        (after_acquire-Extends c i token key ttl) fresh unique
  step-Unique c _ (released i key) unique = λ a b k l t h h'.
      unique a b k l t (after_release-old c i key a k t h) (after_release-old c i key b l t h')
  step-Unique c _ (expired d lost) unique = unique

  pub Reach-Unique : (d : D) (c : Cluster D) → Reach d c → Unique c.tokens
  unfolding Unique get
  Reach-Unique d _ start = λ i j k l t h h'. absurd (ground arith)
  Reach-Unique d e (next c _ r s) = step-Unique c e s (Reach-Unique d c r)
