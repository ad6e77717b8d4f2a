-- ===== src/Exec.antt =====
-- A call that changes state and may raise. What was written before a raise stays written, so the
-- state comes back beside an exception too.
use ai_risk_engine.Base.{arith, sym, ap, ◌∙◌, String, ◌≡◌, refl, ◌⊎◌, inl, inr, Bool, if◌then◌else◌}
use mathlib.Core.Path.{subst}
use ai_risk_engine.Error.{Error, ErrorClass, error}

pub data Result (A : Type 0) : Type 0 where
  ok : A → Result A
  err : Error → Result A

abbrev pub Exec : Type 0 → Type 0 → Type 0
Exec S A = S → Result A × S

module _ {S A : Type 0} where
  abbrev pub pure : A → Exec S A
  pure a s = (ok a, s)

  abbrev pub throw : Error → Exec S A
  throw e s = (err e, s)

  abbrev pub lift : Result A → Exec S A
  lift r s = (r, s)

  abbrev pub gets : (S → A) → Exec S A
  gets f s = (ok (f s), s)

abbrev pub raise : {S A : Type 0} → ErrorClass → String → Exec S A
raise c m = throw (error c m)

abbrev pub modify : {S : Type 0} → (S → S) → Exec S (Unit {0})
modify f s = (ok tt, f s)

infixl 5 ◌>>=◌ ◌>>◌
abbrev pub ◌>>=◌ : {S A B : Type 0} → Exec S A → (A → Exec S B) → Exec S B
◌>>=◌ m f s = let (r, s') = m s in elim r [ ok a ↦ f a s' | err e ↦ throw e s' ]

abbrev pub ◌>>◌ : {S A B : Type 0} → Exec S A → Exec S B → Exec S B
m >> k = m >>= λ _. k

-- `if b: raise C(message)`
abbrev pub raise_if : {S : Type 0} → Bool → ErrorClass → String → Exec S (Unit {0})
raise_if b c m s = (if b then err (error c m) else ok tt, s)

-- How a call ended.
abbrev pub Succeeds : {A : Type 0} → Result A → Type 0
Succeeds {A} r = (a : A) × (r ≡ ok a)

abbrev pub Raises : {A : Type 0} → Result A → ErrorClass → Type 0
Raises r c = (m : String) × (r ≡ err (error c m))

pub Result-cases :
    {A : Type 0} (r : Result A) → ((a : A) × (r ≡ ok a)) ⊎ ((e : Error) × (r ≡ err e))
Result-cases (ok a) = inl (a, refl)
Result-cases (err e) = inr (e, refl)

-- The result of a chain, from the result of its first call.
pub bind-ok :
    {S A B : Type 0} (m : Exec S A) (f : A → Exec S B) (s : S) (a : A) (r : Result B)
    → (m s).0 ≡ ok a
    → (f a (m s).1).0 ≡ r
    → ((m >>= f) s).0 ≡ r
bind-ok m f s a r done rest = ground arith

-- Where the call returns `b`, the state that it leaves satisfies `Q`.
abbrev pub Leaves : {S B : Type 0} → B → (S → Type 0) → Exec S B → Type 0
Leaves {S} b Q m = (s : S) → (m s).0 ≡ ok b → Q (m s).1

-- The last call of a chain decides.
pub bind-Leaves :
    {S A B : Type 0} (b : B) (Q : S → Type 0) (m : Exec S A) (f : A → Exec S B)
    → ((a : A) → Leaves b Q (f a))
    → Leaves b Q (m >>= f)
bind-Leaves b Q m f last s h = elim (Result-cases (m s).0) [
  | inl (a, e) ↦
      let same : (m >>= f) s ≡ f a (m s).1 = ground arith in
      subst (λ r. Q r.1) (sym same) (last a (m s).1 (sym (ap (λ r. r.0) same) ∙ h))
  | inr (x, e) ↦ absurd (ground arith)
]
