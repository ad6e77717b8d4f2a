-- ===== src/Domain/Lifecycle.antt =====
-- The life cycle that the transition table of app/domain/models/event.py gives an event.
use ai_risk_engine.Base.{
  ℕ, ◌+◌, ◌≤◌, ◌<◌, ◌≡◌, refl, ◌≢◌, ◌⊎◌, inl, inr, List, [], ◌∷◌, arith, length,
}
use ai_risk_engine.Error.{error, invalid_status_transition_error}
use ai_risk_engine.Exec.{Result, ok, err}
use ai_risk_engine.Domain.Status.{
  EventStatus, received, created, validated, processing, approved, rejected, failed,
  validate_transition, transition_message,
}
use ai_risk_engine.Domain.Event.{BaseEvent, transition_to, transition_all}
use ai_risk_engine.Domain.Validators.{validate_status_transition}

-- The life cycle as a relation, one constructor for each arrow.
pub data Step : EventStatus → EventStatus → Type 0 where
  accept_received : Step received validated
  reject_received : Step received rejected
  accept_created : Step created validated
  reject_created : Step created rejected
  start : Step validated processing
  approve : Step processing approved
  reject : Step processing rejected
  fail : Step processing failed

abbrev pub refusal : EventStatus → EventStatus → Result (Unit {0})
refusal a b = err (error invalid_status_transition_error (transition_message a b))

-- How a validation of the transition from `a` to `b` ended, by the relation.
abbrev Verdict : EventStatus → EventStatus → Result (Unit {0}) → Type 0
Verdict a b r = (Step a b × (r ≡ ok tt)) ⊎ (¬ (Step a b) × (r ≡ refusal a b))

validate_transition-Verdict : (a b : EventStatus) → Verdict a b (validate_transition a b)
unfolding validate_transition
validate_transition-Verdict received validated = inl (accept_received, refl)
validate_transition-Verdict received rejected = inl (reject_received, refl)
validate_transition-Verdict created validated = inl (accept_created, refl)
validate_transition-Verdict created rejected = inl (reject_created, refl)
validate_transition-Verdict validated processing = inl (start, refl)
validate_transition-Verdict processing approved = inl (approve, refl)
validate_transition-Verdict processing rejected = inl (reject, refl)
validate_transition-Verdict processing failed = inl (fail, refl)
validate_transition-Verdict _ _ = inr (λ s. elim s [ ], refl)

-- `transition_to` makes exactly the arrows of the life cycle: it either changes the status along an
-- arrow, returns, and leaves the other fields alone; or there is no arrow, it raises
-- `InvalidStatusTransitionError`, and the event is unchanged.
pub transition_to_outcome :
    (new : EventStatus) (e : BaseEvent)
    → (Step e.status new × (transition_to new e ≡ (ok tt, record e { status = new })))
      ⊎ (¬ (Step e.status new) × (transition_to new e ≡ (refusal e.status new, e)))
unfolding transition_to
transition_to_outcome new e = elim (validate_transition-Verdict e.status new) [
  | inl (s, h) ↦ inl (s, rw h)
  | inr (n, h) ↦ inr (n, rw h)
]

-- The validator's own table allows what the entity's table allows, with the same message.
pub validate_status_transition-eq-validate_transition :
    (current new : EventStatus)
    → validate_status_transition current new ≡ validate_transition current new
unfolding validate_status_transition validate_transition
validate_status_transition-eq-validate_transition received new = refl
validate_status_transition-eq-validate_transition _ new = refl

-- A run of the life cycle through the listed statuses.
pub data Run : EventStatus → List EventStatus → EventStatus → Type 0 where
  done : {a : EventStatus} → Run a [] a
  next : {a b c : EventStatus} {ss : List EventStatus} → Step a b → Run b ss c → Run a (b ∷ ss) c

transition_all-cons :
    (s : EventStatus) (ss : List EventStatus) (e e' : BaseEvent)
    → transition_to s e ≡ (ok tt, e')
    → transition_all (s ∷ ss) e ≡ transition_all ss e'
unfolding transition_all
transition_all-cons s ss e e' p = ground arith

transition_all-cons_refused :
    (s : EventStatus) (ss : List EventStatus) (e : BaseEvent)
    → transition_to s e ≡ (refusal e.status s, e)
    → (transition_all (s ∷ ss) e).0 ≢ ok tt
unfolding transition_all
transition_all-cons_refused s ss e p h = ground arith

-- Transitions that all succeed are a run.
transition_all-Run :
    (ss : List EventStatus) (e : BaseEvent)
    → (transition_all ss e).0 ≡ ok tt
    → Run e.status ss (transition_all ss e).1.status
transition_all-Run [] e h = unfold transition_all in done
transition_all-Run (s ∷ ss) e h = elim (transition_to_outcome s e) [
  | inl (st, p) ↦
      let e' : BaseEvent = record e { status = s } in
      let q = transition_all-cons s ss e e' p in
      rw q (next st (transition_all-Run ss e' (rw q at h)))
  | inr (n, p) ↦ absurd (transition_all-cons_refused s ss e p h)
]

abbrev rank : EventStatus → ℕ
rank received = 0
rank created = 0
rank validated = 1
rank processing = 2
rank approved = 3
rank rejected = 3
rank failed = 3

rank-le : (s : EventStatus) → rank s ≤ 3
rank-le received = omega arith
rank-le _ = omega arith

rank-Step : {a b : EventStatus} → Step a b → rank a < rank b
rank-Step accept_received = omega arith
rank-Step reject_received = omega arith
rank-Step accept_created = omega arith
rank-Step reject_created = omega arith
rank-Step start = omega arith
rank-Step approve = omega arith
rank-Step reject = omega arith
rank-Step fail = omega arith

length-Run : {a c : EventStatus} {ss : List EventStatus} → Run a ss c → length ss + rank a ≤ rank c
length-Run done = omega arith
length-Run (next st r) = omega (arith, rank-Step st, length-Run r)

-- An event goes through at most three transitions, whatever status it begins in.
pub transition_all_bounded :
    (ss : List EventStatus) (e : BaseEvent) → (transition_all ss e).0 ≡ ok tt → length ss ≤ 3
transition_all_bounded ss e h =
    omega (arith, length-Run (transition_all-Run ss e h), rank-le (transition_all ss e).1.status)

Run-created-approved :
    {ss : List EventStatus} → Run created ss approved → ss ≡ validated ∷ processing ∷ approved ∷ []
Run-created-approved (next accept_created (next start (next approve done))) = refl
Run-created-approved (next accept_created (next start (next approve (next x _)))) = elim x [ ]
Run-created-approved (next accept_created (next start (next reject (next x _)))) = elim x [ ]
Run-created-approved (next accept_created (next start (next fail (next x _)))) = elim x [ ]
Run-created-approved (next reject_created (next x _)) = elim x [ ]

-- A new event that ends up approved was validated and processed before, in this order, and
-- nothing else happened to it.
pub approval_path :
    (ss : List EventStatus) (e : BaseEvent)
    → e.status ≡ created
    → (transition_all ss e).0 ≡ ok tt
    → (transition_all ss e).1.status ≡ approved
    → ss ≡ validated ∷ processing ∷ approved ∷ []
approval_path ss e hc h ha = Run-created-approved (rw hc at (rw ha at (transition_all-Run ss e h)))
