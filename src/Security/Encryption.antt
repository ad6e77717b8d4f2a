-- ===== src/Security/Encryption.antt =====
-- `EncryptionService` of app/security/encryption.py. The cipher, the derivation of keys and the
-- encodings are of libraries, and so parameters.
pub mod Opens
use ai_risk_engine.Base.{ℕ, String, ◌≡◌, Option, none, some, List, [], ◌∷◌, if◌then◌else◌}
use ai_risk_engine.Python.Text.{f_string, is_blank, is_empty, strip}
use ai_risk_engine.Error.{Error, error, encryption_error}
use ai_risk_engine.Exec.{Result, ok, err}

-- What `Fernet.decrypt` ends with.
pub data Opened (B : Type 0) : Type 0 where
  plain : B → Opened B
  invalid_token : Opened B
  broken : Error → Opened B

-- Byte strings `B`, ciphers `F` with their key, and what the libraries do with them. `seal` is
-- `Fernet.encrypt` with the random numbers `N` and the time that it draws.
pub record Crypto (B F N : Type 0) : Type 0 where
  pub utf8 : String → B
  pub of_utf8 : B → Result String
  pub ascii : String → Result B
  pub of_ascii : B → Result String
  pub b64 : B → B
  pub of_b64 : B → Result B
  pub derive : (salt : String) (iterations length : ℕ) → B → B
  pub fernet : B → Result F
  pub seal : F → N → B → Result B
  pub unseal : F → B → Opened B
  pub of_utf8_utf8 : (s : String) → of_utf8 (utf8 s) ≡ ok s
  pub of_b64_b64 : (b : B) → of_b64 (b64 b) ≡ ok b
  pub ascii_of_ascii : (b : B) (s : String) → of_ascii b ≡ ok s → ascii s ≡ ok b
  pub unseal_seal : (f : F) (n : N) (b c : B) → seal f n b ≡ ok c → unseal f c ≡ plain b

-- `key or os.environ.get("ENCRYPTION_KEY")`, where that is not blank
unfoldable pub raw_key : Option String → Option String → Option String
raw_key none none = none
raw_key none (some env) = if is_blank env then none else some env
raw_key (some key) none = if is_blank key then none else some key
raw_key (some key) (some env) =
    let raw = if is_empty key then env else key in if is_blank raw then none else some raw

abbrev pub key_required : Error
key_required =
    error encryption_error "Encryption key is required. Set ENCRYPTION_KEY in environment."

abbrev pub encryption_failed : Error → Error
encryption_failed e = error encryption_error (f_string ("Encryption failed: " ∷ e.message ∷ []))

abbrev pub decryption_failed : Error → Error
decryption_failed e = error encryption_error (f_string ("Decryption failed: " ∷ e.message ∷ []))

abbrev pub wrong_key : Error
wrong_key = error encryption_error "Decryption failed: invalid or wrong key"

-- `raise … from e` for whatever was raised
unfoldable pub reraise : {A : Type 0} → (Error → Error) → Result A → Result A
reraise f (ok a) = ok a
reraise f (err e) = err (f e)

abbrev pub then_try : {A B : Type 0} → Result A → (A → Result B) → Result B
then_try r f = elim r [ ok a ↦ f a | err e ↦ err e ]

module _ {B F N : Type 0} (crypto : Crypto B F N) where
  -- `_derive_key`
  unfoldable pub derive_key : String → B
  derive_key secret =
      crypto.b64 (crypto.derive "ai_risk_engine_encryption_v1" 480000 32 (crypto.utf8 secret))

  -- `EncryptionService.__init__`; a service is its cipher
  unfoldable pub new_service : Option String → Option String → Result F
  unfolding raw_key
  new_service key env = elim (raw_key key env) [
    | none ↦ err key_required
    | some raw ↦ crypto.fernet (derive_key (strip raw))
  ]

  unfoldable pub encrypt : F → N → String → Result String
  unfolding reraise
  encrypt f n text =
      reraise encryption_failed
        (then_try (crypto.seal f n (crypto.utf8 text)) (λ c. crypto.of_ascii (crypto.b64 c)))

  finish : Opened B → Result String
  finish (plain b) = reraise decryption_failed (crypto.of_utf8 b)
  finish invalid_token = err wrong_key
  finish (broken e) = err (decryption_failed e)

  unfoldable pub decrypt : F → String → Result String
  unfolding reraise finish
  decrypt f text =
      then_try (reraise decryption_failed (then_try (crypto.ascii text) crypto.of_b64))
        (λ raw. finish (crypto.unseal f raw))
