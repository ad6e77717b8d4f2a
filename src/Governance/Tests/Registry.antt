-- ===== src/Governance/Tests/Registry.antt =====
-- The theorems on app/governance/model_registry.py at concrete records, in repositories that keep lists.
use mathlib.Core.Path.{subst}
use ai_risk_engine.Base.{ℕ, arith, String, ◌≡◌, refl, true, false, inr, none, some, List, [], ◌∷◌}
use ai_risk_engine.Exec.{ok}
use ai_risk_engine.Governance.Audit.{Stores, AuditRecord, log_action}
use ai_risk_engine.Governance.Models
use ai_risk_engine.Governance.Models.{
  ModelRecord, Judgement, Registration, registered, register_model, with_approval, with_rejection,
  require_approvable, require_rejectable, approve_model, reject_model, run_changes,
  get_approved_model, get_model, require_deployable, is_deployable,
}
use ai_risk_engine.Governance.Models.Judged.{Judged, approve_model-Judged}
use ai_risk_engine.Governance.Models.Traceable.{
  IsConsistent, run_changes-IsConsistent, get_approved_model-traceable,
}
use ai_risk_engine.Governance.InMemory.{
  trail_repository, model_repository, find_model, find_latest_model,
}

abbrev new_model : ModelRecord
new_model = record {
  model_name = "risk-model";
  version = "2";
  checksum = "aa";
  created_at = 1;
  is_approved = false;
  approved_by = none;
  approved_at = none;
  status = Models.pending;
}

abbrev judgement : Judgement
judgement = record {
  model_name = "risk-model";
  version = "2";
  judge = "bob";
  tenant_id = "acme";
  correlation_id = "c1";
  reason = none;
  now = 2;
  logged = 3;
}

abbrev good_model : ModelRecord
good_model = record new_model {
  is_approved = true;
  approved_by = some "bob";
  approved_at = some 2;
  status = Models.approved;
}

abbrev bad_model : ModelRecord
bad_model = record new_model { status = Models.rejected }

abbrev registry : Stores (List ModelRecord) (List AuditRecord)
registry = record { repo = new_model ∷ []; trail = [] }

approve_model-returns :
    (approve_model model_repository trail_repository judgement registry).0 ≡ ok good_model
unfolding approve_model model_repository trail_repository require_approvable with_approval
    find_model log_action
approve_model-returns = refl

approve_model-Judged_example :
    (old : ModelRecord) × (old.status ≡ Models.pending)
    × (good_model ≡ with_approval judgement old)
    × Judged model_repository trail_repository "model_approved" judgement registry
        (approve_model model_repository trail_repository judgement registry).1
        old
        good_model
approve_model-Judged_example =
    approve_model-Judged model_repository trail_repository judgement registry good_model
      approve_model-returns

reject_model-returns :
    (reject_model model_repository trail_repository judgement registry).0 ≡ ok bad_model
unfolding reject_model model_repository trail_repository require_rejectable with_rejection
    find_model log_action
reject_model-returns = refl

abbrev registration : Registration
registration = record { model_name = "risk-model"; version = "2"; checksum = "aa"; now = 1 }

abbrev no_models : Stores (List ModelRecord) (List AuditRecord)
no_models = record { repo = []; trail = [] }

no_models-IsConsistent :
    (n v : String) (old : ModelRecord)
    → model_repository.stored n v no_models.repo ≡ some old
    → IsConsistent old
unfolding model_repository find_model
no_models-IsConsistent n v old h = cc

abbrev changes : List Models.Change
changes =
    Models.registration registration ∷ Models.approval judgement ∷ Models.rejection judgement ∷ []

run_changes-stores :
    model_repository.stored "risk-model" "2"
      (run_changes model_repository trail_repository changes no_models).repo
    ≡ some bad_model
unfolding run_changes register_model registered approve_model reject_model model_repository
    trail_repository require_approvable require_rejectable with_approval with_rejection find_model
    log_action
run_changes-stores = refl

run_changes-IsConsistent_example : IsConsistent bad_model
run_changes-IsConsistent_example =
    run_changes-IsConsistent model_repository trail_repository changes no_models
      no_models-IsConsistent "risk-model" "2" bad_model run_changes-stores

good_model-IsConsistent : IsConsistent good_model
good_model-IsConsistent = inr (refl, refl, ("bob", refl), (2, refl))

good_models-IsConsistent :
    (n v : String) (old : ModelRecord)
    → model_repository.stored n v (good_model ∷ []) ≡ some old
    → IsConsistent old
unfolding model_repository find_model
good_models-IsConsistent n v old h =
    let same : good_model ≡ old = ground arith in subst IsConsistent same good_model-IsConsistent

get_approved_model-returns :
    get_approved_model model_repository "risk-model" none (good_model ∷ []) ≡ ok good_model
unfolding get_approved_model get_model model_repository require_deployable is_deployable
    find_latest_model
get_approved_model-returns = refl

get_approved_model-traceable_example :
    (model_repository.stored "risk-model" "2" (good_model ∷ []) ≡ some good_model)
    × (good_model.status ≡ Models.approved)
    × ((who : String) × (good_model.approved_by ≡ some who))
    × ((at : ℕ) × (good_model.approved_at ≡ some at))
get_approved_model-traceable_example =
    get_approved_model-traceable model_repository "risk-model" none (good_model ∷ []) good_model
      good_models-IsConsistent get_approved_model-returns
