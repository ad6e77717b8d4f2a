-- ===== src/Governance/InMemory.antt =====
-- Repositories that keep their records in lists: they satisfy the protocols of app/governance.
use ai_risk_engine.Base.{
  ℕ, String, ◌≡◌, ◌≢◌, inl, inr, refl, Bool-cases, ◌&&◌, Option, none, some, List, [], ◌∷◌, ◌++◌,
  str_eq, eq_iff, if◌then◌else◌, ◌==◌, arith,
}
use ai_risk_engine.Exec.{ok}
use ai_risk_engine.Governance.Audit.{AuditRecord, AuditRepository}
use ai_risk_engine.Governance.Approval.{ApprovalRequest, ApprovalRepository}
use ai_risk_engine.Governance.Models.{ModelRecord, ModelRepository, has_key}
use ai_risk_engine.Governance.Prompts.{PromptRecord, PromptRepository}

unfoldable pub trail_repository : AuditRepository (List AuditRecord)
trail_repository = record {
  save = λ r b. (ok tt, b ++ r ∷ []);
  records = λ b. b;
  save_ok = λ r b h. refl;
  save_keeps = λ r b. (r ∷ [], refl);
}

unfoldable pub find_request : String → List ApprovalRequest → Option ApprovalRequest
find_request k [] = none
find_request k (r ∷ rs) = if str_eq r.request_id k then some r else find_request k rs

pub find_request-id :
    (k : String) (r : ApprovalRequest) (a : List ApprovalRequest)
    → find_request k a ≡ some r
    → r.request_id ≡ k
unfolding find_request
find_request-id k r [] h = cc
find_request-id k r (q ∷ qs) h = elim (Bool-cases (str_eq q.request_id k)) [
  | inl e ↦ let same : q ≡ r = ground arith in rw same at ((eq_iff q.request_id k).0 e)
  | inr e ↦ find_request-id k r qs (rw e at h)
]

unfoldable pub request_repository : ApprovalRepository (List ApprovalRequest)
unfolding find_request
request_repository = record {
  save = λ r a. (ok tt, r ∷ a);
  get = λ k a. ok (find_request k a);
  stored = find_request;
  get_ok = λ k o a h. cc;
  stored_id = find_request-id;
  save_ok = λ r a h. rw ((eq_iff r.request_id r.request_id).1 refl) refl;
  save_other = λ r k a ne. rw ne refl;
}

unfoldable pub find_model : String → String → List ModelRecord → Option ModelRecord
find_model n v [] = none
find_model n v (r ∷ rs) = if has_key n v r then some r else find_model n v rs

unfoldable pub find_latest_model : String → List ModelRecord → Option ModelRecord
find_latest_model n [] = none
find_latest_model n (r ∷ rs) = if str_eq r.model_name n then some r else find_latest_model n rs

pub find_model-key :
    (n v : String) (r : ModelRecord) (a : List ModelRecord)
    → find_model n v a ≡ some r
    → (r.model_name ≡ n) × (r.version ≡ v)
unfolding find_model
find_model-key n v r [] h = cc
find_model-key n v r (q ∷ qs) h = elim (Bool-cases (has_key n v q)) [
  | inl e ↦
      let same : q ≡ r = ground arith in
      (
        rw same at ((eq_iff q.model_name n).0 (ground arith)),
        rw same at ((eq_iff q.version v).0 (ground arith)),
      )
  | inr e ↦ find_model-key n v r qs (rw e at h)
]

pub find_latest_model-stored :
    (n : String) (r : ModelRecord) (a : List ModelRecord)
    → find_latest_model n a ≡ some r
    → find_model n r.version a ≡ some r
unfolding find_model find_latest_model
find_latest_model-stored n r [] h = cc
find_latest_model-stored n r (q ∷ qs) h =
    ground (arith, eq_iff q.version r.version, find_latest_model-stored n r qs)

unfoldable pub model_repository : ModelRepository (List ModelRecord)
unfolding find_model
model_repository = record {
  save = λ r a. (ok tt, r ∷ a);
  get = λ n v a. ok (find_model n v a);
  get_latest = λ n a. ok (find_latest_model n a);
  stored = find_model;
  stored_key = find_model-key;
  get_ok = λ n v o a h. cc;
  get_latest_ok = λ n r a h. find_latest_model-stored n r a (cc);
  save_ok = λ r a h.
      rw ((eq_iff r.model_name r.model_name).1 refl, (eq_iff r.version r.version).1 refl) refl;
  save_either = λ r n v a. elim (Bool-cases (has_key n v r)) [
    | inl e ↦ inr (rw e refl)
    | inr e ↦ inl (rw e refl)
  ];
  save_other = λ r n v a ne. rw ne refl;
}

unfoldable pub find_prompt : String → ℕ → List PromptRecord → Option PromptRecord
find_prompt k v [] = none
find_prompt k v (r ∷ rs) =
    if str_eq r.prompt_id k && r.version == v then some r else find_prompt k v rs

unfoldable pub find_latest_prompt : String → List PromptRecord → Option PromptRecord
find_latest_prompt k [] = none
find_latest_prompt k (r ∷ rs) = if str_eq r.prompt_id k then some r else find_latest_prompt k rs

pub find_prompt-cons :
    (r : PromptRecord) (a : List PromptRecord) → find_prompt r.prompt_id r.version (r ∷ a) ≡ some r
unfolding find_prompt
find_prompt-cons r a = ground (arith, eq_iff r.prompt_id r.prompt_id)

pub find_prompt-cons_other :
    (r : PromptRecord) (k : String) (v : ℕ) (a : List PromptRecord)
    → r.version ≢ v
    → find_prompt k v (r ∷ a) ≡ find_prompt k v a
unfolding find_prompt
find_prompt-cons_other r k v a ne = ground arith

unfoldable pub prompt_repository : PromptRepository (List PromptRecord)
unfolding find_prompt find_latest_prompt
prompt_repository = record {
  save = λ r a. (ok tt, r ∷ a);
  get = λ k version a. elim version [
    | none ↦ ok (find_latest_prompt k a)
    | some v ↦ ok (find_prompt k v a)
  ];
  stored = find_prompt;
  latest = find_latest_prompt;
  get_latest_ok = λ k o a h. cc;
  get_version_ok = λ k v o a h. cc;
  save_ok = λ r a h. find_prompt-cons r a;
  save_latest = λ r old a h was lt. rw ((eq_iff r.prompt_id r.prompt_id).1 refl) refl;
  save_first = λ r a h was. rw ((eq_iff r.prompt_id r.prompt_id).1 refl) refl;
  save_other_version = λ r k v a ne. find_prompt-cons_other r k v a ne;
  save_other_prompt = λ r k v a ne. (rw ne refl, rw ne refl);
}
