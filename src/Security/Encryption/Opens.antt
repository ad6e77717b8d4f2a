-- ===== src/Security/Encryption/Opens.antt =====
-- What app/security/encryption.py gives back, and what it raises.
use ai_risk_engine.Base.{String, ◌≡◌, refl, ap, ◌⊎◌, inl, inr, arith}
use ai_risk_engine.Error.{Error, error, encryption_error}
use ai_risk_engine.Exec.{Result, ok, err, Result-cases, Succeeds, Raises}
use ai_risk_engine.Security.Encryption.{
  Opened, plain, invalid_token, broken, Crypto, reraise, then_try, encrypt, decrypt, finish,
}

module _ {B F N : Type 0} (crypto : Crypto B F N) where
  -- What `encrypt` returns for a text, `decrypt` of the same service turns back into it, whatever
  -- random numbers were drawn.
  pub decrypt-encrypt :
      (f : F) (n : N) (text sealed : String)
      → encrypt crypto f n text ≡ ok sealed
      → decrypt crypto f sealed ≡ ok text
  unfolding encrypt decrypt reraise finish
  decrypt-encrypt f n text sealed h = elim (Result-cases (crypto.seal f n (crypto.utf8 text))) [
    | inr (e, failed) ↦ absurd (ground arith)
    | inl (c, done) ↦ elim (Result-cases (crypto.of_ascii (crypto.b64 c))) [
      | inr (e, failed) ↦ absurd (ground arith)
      | inl (s, written) ↦
          let back = crypto.ascii_of_ascii (crypto.b64 c) s written in
          let bytes = crypto.of_b64_b64 c in
          let open_again = crypto.unseal_seal f n (crypto.utf8 text) c done in
          let read = crypto.of_utf8_utf8 text in ground arith
    ]
  ]

  abbrev pub EndsWell : {A : Type 0} → Result A → Type 0
  EndsWell r = Succeeds r ⊎ Raises r encryption_error

  reraise-EndsWell :
      {A : Type 0} (g : Error → Error) (r : Result A)
      → ((x : Error) → (m : String) × (g x ≡ error encryption_error m))
      → EndsWell (reraise g r)
  unfolding reraise
  reraise-EndsWell g (ok a) always = inl (a, refl)
  reraise-EndsWell g (err x) always = inr ((always x).0, ap err (always x).1)

  finish-EndsWell : (o : Opened B) → EndsWell (finish crypto o)
  unfolding finish
  finish-EndsWell (plain b) = reraise-EndsWell _ (crypto.of_utf8 b) (λ x. (_, refl))
  finish-EndsWell invalid_token = inr (_, refl)
  finish-EndsWell (broken x) = inr (_, refl)

  then_try-EndsWell :
      {A C : Type 0} (r : Result A) (g : A → Result C)
      → EndsWell r
      → ((a : A) → EndsWell (g a))
      → EndsWell (then_try r g)
  then_try-EndsWell r g (inl (a, e)) next = rw (e, then_try) (next a)
  then_try-EndsWell r g (inr (m, e)) next = inr (m, ground arith)

  -- Whatever the libraries raise, `encrypt` and `decrypt` return a text or raise an
  -- `EncryptionError`, on any text.
  pub only_encryption_errors :
      (f : F) (n : N) (text : String)
      → EndsWell (encrypt crypto f n text) × EndsWell (decrypt crypto f text)
  unfolding encrypt decrypt
  only_encryption_errors f n text = (
    reraise-EndsWell _ _ (λ x. (_, refl)),
    then_try-EndsWell _ _ (reraise-EndsWell _ _ (λ x. (_, refl)))
        (λ raw. finish-EndsWell (crypto.unseal f raw)),
  )
