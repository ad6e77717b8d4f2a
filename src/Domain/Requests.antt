-- ===== src/Domain/Requests.antt =====
-- Which requests the validators of app/domain/validators/event_validator.py accept.
use ai_risk_engine.Base.{
  ◌*◌, ◌^◌, ◌≤◌, String, ◌≡◌, refl, ◌↔◌, ◌⊎◌, true, Option, none, some, arith,
}
use ai_risk_engine.Python.Int.{pos, negsuc}
use ai_risk_engine.Python.Float.{Float, finite, inf, neg_inf, nan, leb_float}
use ai_risk_engine.Python.Text.{is_blank}
use ai_risk_engine.Python.Text.Blank.{HasInk, not-is_blank-iff-HasInk}
use ai_risk_engine.Python.Value.{Fields, is_json_fields}
use ai_risk_engine.Error.{error, domain_validation_error, invalid_tenant_error}
use ai_risk_engine.Exec.{Result, ok, err}
use ai_risk_engine.Domain.Schema.{
  RiskEventCreateRequest, conforms_risk, score_in_range, metadata_is_json,
}
use ai_risk_engine.Domain.Validators.{
  validate_tenant_id, validate_risk_score, validate_version, ◌then_check◌,
  validate_risk_event_create_request, validate_metadata_json_serializable,
}

-- A score that is absent, or a number from 0 to 100: n / 2 ^ k with 0 ≤ n ≤ 100 * 2 ^ k.
abbrev pub InRange : Option Float → Type 0
InRange none = Unit
InRange (some (finite (pos n) k)) = n ≤ 100 * 2 ^ k
InRange (some (finite (negsuc _) _)) = ⊥
InRange (some inf) = ⊥
InRange (some neg_inf) = ⊥
InRange (some nan) = ⊥

abbrev pub IsJson : Option Fields → Type 0
IsJson none = Unit
IsJson (some m) = is_json_fields m ≡ true

pub record IsValidRisk (r : RiskEventCreateRequest) : Type 0 where
  pub tenant : HasInk r.tenant_id
  pub score : InRange r.risk_score
  pub metadata : IsJson r.metadata
  pub version : HasInk r.version

-- A risk score passes exactly if it is absent or a number from 0 to 100; a NaN and the infinities
-- never pass.
pub validate_risk_score_iff :
    (show : Float → String) (o : Option Float) → (validate_risk_score show o ≡ ok tt) ↔ InRange o
unfolding validate_risk_score leb_float
validate_risk_score_iff show none = (λ h. tt, λ h. refl)
validate_risk_score_iff show (some (finite (pos n) k)) = (λ h. ground arith, λ h. ground arith)
validate_risk_score_iff show (some (finite (negsuc n) k)) = (λ h. ground arith, λ h. absurd h)
validate_risk_score_iff show (some inf) = (λ h. cc, λ h. absurd h)
validate_risk_score_iff show (some neg_inf) = (λ h. cc, λ h. absurd h)
validate_risk_score_iff show (some nan) = (λ h. cc, λ h. absurd h)

then_check_iff : (a b : Result (Unit {0})) → (a then_check b ≡ ok tt) ↔ ((a ≡ ok tt) × (b ≡ ok tt))
then_check_iff (ok tt) b = (λ h. (refl, h), λ h. h.1)
then_check_iff (err e) b = (λ h. cc, λ h. cc)

validate_tenant_id_iff : (s : String) → (validate_tenant_id s ≡ ok tt) ↔ HasInk s
unfolding validate_tenant_id
validate_tenant_id_iff s = (
  λ h. (not-is_blank-iff-HasInk s).0 (ground arith),
  λ h. ground (arith, (not-is_blank-iff-HasInk s).1 h),
)

validate_version_iff : (s : String) → (validate_version s ≡ ok tt) ↔ HasInk s
unfolding validate_version
validate_version_iff s = (
  λ h. (not-is_blank-iff-HasInk s).0 (ground arith),
  λ h. ground (arith, (not-is_blank-iff-HasInk s).1 h),
)

validate_metadata_iff :
    (m : Option Fields) → (validate_metadata_json_serializable m ≡ ok tt) ↔ IsJson m
unfolding validate_metadata_json_serializable
validate_metadata_iff none = (λ h. tt, λ h. refl)
validate_metadata_iff (some m) = (λ h. ground arith, λ h. ground arith)

-- A risk request passes exactly if its tenant and its version have a character that is no space,
-- its score is absent or from 0 to 100, and its metadata is absent or JSON.
pub validate_risk_event_create_request_iff :
    (show : Float → String) (r : RiskEventCreateRequest)
    → (validate_risk_event_create_request show r ≡ ok tt) ↔ IsValidRisk r
unfolding validate_risk_event_create_request
validate_risk_event_create_request_iff show r =
    let tenant = validate_tenant_id r.tenant_id in
    let score = validate_risk_score show r.risk_score in
    let metadata = validate_metadata_json_serializable r.metadata in
    let version = validate_version r.version in
    (
      λ h.
          let (h₃, hv) =
            (then_check_iff (tenant then_check score then_check metadata) version).0 h in
          let (h₂, hm) = (then_check_iff (tenant then_check score) metadata).0 h₃ in
          let (ht, hs) = (then_check_iff tenant score).0 h₂ in
          record {
            tenant = (validate_tenant_id_iff r.tenant_id).0 ht;
            score = (validate_risk_score_iff show r.risk_score).0 hs;
            metadata = (validate_metadata_iff r.metadata).0 hm;
            version = (validate_version_iff r.version).0 hv;
          },
      λ v. rw (
        (validate_tenant_id_iff r.tenant_id).1 v.tenant,
        (validate_risk_score_iff show r.risk_score).1 v.score,
        (validate_metadata_iff r.metadata).1 v.metadata,
        (validate_version_iff r.version).1 v.version,
      ),
    )

conforms-InRange : (o : Option Float) → score_in_range o ≡ true → InRange o
unfolding score_in_range leb_float
conforms-InRange none h = tt
conforms-InRange (some (finite (pos n) k)) h = ground arith
conforms-InRange (some (finite (negsuc n) k)) h = ground arith
conforms-InRange (some inf) h = cc
conforms-InRange (some neg_inf) h = cc
conforms-InRange (some nan) h = cc

conforms-IsJson : (m : Option Fields) → metadata_is_json m ≡ true → IsJson m
unfolding metadata_is_json
conforms-IsJson none h = tt
conforms-IsJson (some m) h = h

conforms_risk_parts :
    (r : RiskEventCreateRequest) → conforms_risk r ≡ true → InRange r.risk_score × IsJson r.metadata
unfolding conforms_risk
conforms_risk_parts r h =
    (conforms-InRange r.risk_score (ground arith), conforms-IsJson r.metadata (ground arith))

-- A body that the schema let through can only fail for a tenant or a version of spaces: the
-- validator's tests on the score and on the metadata never raise for it.
pub conforms_risk_outcome :
    (show : Float → String) (r : RiskEventCreateRequest)
    → conforms_risk r ≡ true
    → (validate_risk_event_create_request show r ≡ ok tt)
      ⊎ ((is_blank r.tenant_id ≡ true)
          × (validate_risk_event_create_request show r
              ≡ err (error invalid_tenant_error "tenant_id must not be empty")))
      ⊎ ((is_blank r.version ≡ true)
          × (validate_risk_event_create_request show r
              ≡ err (error domain_validation_error "version must be set and non-empty")))
unfolding validate_risk_event_create_request
conforms_risk_outcome show r h =
    let (range, json) = conforms_risk_parts r h in
    let hs = (validate_risk_score_iff show r.risk_score).1 range in
    let hm = (validate_metadata_iff r.metadata).1 json in
    unfold validate_tenant_id validate_version in ground (arith, hs, hm)
