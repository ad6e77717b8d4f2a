-- ===== src/Security/Tests.antt =====
-- The theorems on app/security at concrete roles and tenants.
use ai_risk_engine.Base.{String, ◌≡◌, refl, sym, ap, ◌↔◌, ◌⊎◌, false}
use ai_risk_engine.Python.Text.{is_empty}
use ai_risk_engine.Error.{authorization_error}
use ai_risk_engine.Exec.{ok, err, Raises}
use ai_risk_engine.Security.Rbac.{viewer, check_permission}
use ai_risk_engine.Security.TenantContext.{validate_access}
use ai_risk_engine.Security.Encryption.{Crypto, plain, encrypt, decrypt, reraise}
use ai_risk_engine.Security.Encryption.Opens.{EndsWell, decrypt-encrypt, only_encryption_errors}
use ai_risk_engine.Security.Access.{Granted, check_permission_outcome, validate_access_iff}

check_permission_outcome_example :
    (Granted viewer "approve" × (check_permission viewer "approve" ≡ ok tt))
    ⊎ (¬ (Granted viewer "approve")
        × Raises (check_permission viewer "approve") authorization_error)
check_permission_outcome_example = check_permission_outcome viewer "approve"

abbrev tenant : String
tenant = "acme"

validate_access_iff_example :
    (validate_access tenant tenant ≡ ok tt) ↔ ((tenant ≡ tenant) × (is_empty tenant ≡ false))
validate_access_iff_example = validate_access_iff tenant tenant

-- texts as bytes, and a cipher that changes nothing
abbrev crypto : Crypto String (Unit {0}) (Unit {0})
crypto = record {
  utf8 = λ s. s;
  of_utf8 = λ b. ok b;
  ascii = λ s. ok s;
  of_ascii = λ b. ok b;
  b64 = λ b. b;
  of_b64 = λ b. ok b;
  derive = λ salt iterations n b. b;
  fernet = λ b. ok tt;
  seal = λ f n b. ok b;
  unseal = λ f b. plain b;
  of_utf8_utf8 = λ s. refl;
  of_b64_b64 = λ b. refl;
  ascii_of_ascii = λ b s e. sym e;
  unseal_seal = λ f n b c e. ap (λ r. elim r [ ok x ↦ plain x | err _ ↦ plain b ]) (sym e);
}

sealed : encrypt crypto tt tt "text" ≡ ok "text"
unfolding encrypt reraise
sealed = refl

decrypt-encrypt_example : decrypt crypto tt "text" ≡ ok "text"
decrypt-encrypt_example = decrypt-encrypt crypto tt tt "text" "text" sealed

only_encryption_errors_example :
    EndsWell crypto (encrypt crypto tt tt "text") × EndsWell crypto (decrypt crypto tt "text")
only_encryption_errors_example = only_encryption_errors crypto tt tt "text"
