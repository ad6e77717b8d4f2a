-- ===== src/Governance/Models/Traceable.antt =====
-- Every model that `get_approved_model` hands out can be traced to its approval
-- (app/governance/model_registry.py).
use mathlib.Core.Path.{subst}
use mathlib.Core.Option.{some-injective}
use ai_risk_engine.Base.{
  String, ◌≡◌, ◌≢◌, ◌∙◌, refl, sym, ◌⊎◌, inl, inr, true, false, Option, none, some, List, [], ◌∷◌,
  arith, Bool-cases,
}
use ai_risk_engine.Python.Text.{is_empty}
use ai_risk_engine.Python.Time.{Datetime}
use ai_risk_engine.Exec.{Result, ok, Result-cases}
use ai_risk_engine.Governance.Audit.{AuditRepository, Stores}
use ai_risk_engine.Governance.Models.Judged.{judge}
use ai_risk_engine.Governance.Models.{
  approved, ModelRecord, ModelRepository, Judgement, Registration, registered, with_approval,
  with_rejection, require_approvable, require_rejectable, require_deployable, register_model,
  approve_model, reject_model, get_model, get_approved_model, Change, registration, approval,
  rejection, run_changes,
}

-- A record says that it is approved exactly if its status does, and then it names who approved it
-- and when.
abbrev pub IsConsistent : ModelRecord → Type 0
IsConsistent r =
    ((r.status ≢ approved)
      × (r.is_approved ≡ false)
      × (r.approved_by ≡ none)
      × (r.approved_at ≡ none))
    ⊎ ((r.status ≡ approved)
        × (r.is_approved ≡ true)
        × ((who : String) × (r.approved_by ≡ some who))
        × ((at : Datetime) × (r.approved_at ≡ some at)))

registered-IsConsistent : (q : Registration) → IsConsistent (registered q)
unfolding registered
registered-IsConsistent q = inl (λ e. cc, refl, refl, refl)

with_approval-IsConsistent : (q : Judgement) (r : ModelRecord) → IsConsistent (with_approval q r)
unfolding with_approval
with_approval-IsConsistent q r = inr (refl, refl, (q.judge, refl), (q.now, refl))

with_rejection-IsConsistent : (r : ModelRecord) → IsConsistent (with_rejection r)
unfolding with_rejection
with_rejection-IsConsistent r = inl (λ e. cc, refl, refl, refl)

module _ {A B : Type 0} (repo : ModelRepository A) (audit : AuditRepository B) where
  -- every stored record is consistent
  abbrev pub AllConsistent : A → Type 0
  AllConsistent a = (n v : String) (r : ModelRecord) → repo.stored n v a ≡ some r → IsConsistent r

  save-AllConsistent :
      (r : ModelRecord) (a : A) → IsConsistent r → AllConsistent a → AllConsistent (repo.save r a).1
  save-AllConsistent r a good all n v old e = elim (repo.save_either r n v a) [
    | inl same ↦ all n v old (sym same ∙ e)
    | inr new ↦ subst IsConsistent (some-injective r old (sym new ∙ e)) good
  ]

  register_model-AllConsistent :
      (q : Registration) (s : Stores A B)
      → AllConsistent s.repo
      → AllConsistent (register_model repo audit q s).1.repo
  unfolding register_model
  register_model-AllConsistent q s all =
      let final : (register_model repo audit q s).1.repo ≡ (repo.save (registered q) s.repo).1 =
        ground arith in
      rw final (save-AllConsistent (registered q) s.repo (registered-IsConsistent q) all)

  -- a judgement leaves the repository alone, or saves one new record
  repo-judge :
      (guards : Judgement → Option ModelRecord → Result ModelRecord)
      (renew : ModelRecord → ModelRecord) (action : String) (q : Judgement) (s : Stores A B)
      → let s' = (judge repo audit guards renew action q s).1 in
        (s'.repo ≡ s.repo) ⊎ ((old : ModelRecord) × (s'.repo ≡ (repo.save (renew old) s.repo).1))
  repo-judge guards renew action q s =
      elim (Result-cases (repo.get q.model_name q.version s.repo)) [
        | inr (e, failed) ↦ inl (ground arith)
        | inl (found, got) ↦ elim (Result-cases (guards q found)) [
          | inr (e, refused) ↦ inl (ground arith)
          | inl (old, p) ↦ inr (old, ground arith)
        ]
      ]

  judge-AllConsistent :
      (guards : Judgement → Option ModelRecord → Result ModelRecord)
      (renew : ModelRecord → ModelRecord) (action : String) (q : Judgement) (s : Stores A B)
      → ((old : ModelRecord) → IsConsistent (renew old))
      → AllConsistent s.repo
      → AllConsistent (judge repo audit guards renew action q s).1.repo
  judge-AllConsistent guards renew action q s good all = elim (repo-judge guards renew action q s) [
    | inl same ↦ rw same all
    | inr (old, new) ↦ rw new (save-AllConsistent (renew old) s.repo (good old) all)
  ]

  run_changes-AllConsistent :
      (cs : List Change) (s : Stores A B)
      → AllConsistent s.repo
      → AllConsistent (run_changes repo audit cs s).repo
  unfolding run_changes approve_model reject_model
  run_changes-AllConsistent [] s all = all
  run_changes-AllConsistent (registration q ∷ cs) s all =
      run_changes-AllConsistent cs _ (register_model-AllConsistent q s all)
  run_changes-AllConsistent (approval q ∷ cs) s all = run_changes-AllConsistent cs _ (
      judge-AllConsistent require_approvable (with_approval q) "model_approved" q s
        (with_approval-IsConsistent q) all)
  run_changes-AllConsistent (rejection q ∷ cs) s all = run_changes-AllConsistent cs _ (
      judge-AllConsistent require_rejectable with_rejection "model_rejected" q s
        with_rejection-IsConsistent all)

  -- Where the stored records are consistent to begin with, whatever registrations, approvals and
  -- rejections are made, in any order and whether or not they raise, every record that is stored then
  -- is consistent: it is marked as approved exactly if its status is APPROVED, and then it names an
  -- approver and a time, and otherwise neither.
  pub run_changes-IsConsistent :
      (cs : List Change) (s : Stores A B)
      → ((n v : String) (old : ModelRecord) → repo.stored n v s.repo ≡ some old → IsConsistent old)
      → (name version : String) (r : ModelRecord)
      → repo.stored name version (run_changes repo audit cs s).repo ≡ some r
      → IsConsistent r
  run_changes-IsConsistent cs s all name version r kept =
      run_changes-AllConsistent cs s all name version r kept

require_deployable-ok :
    (name : String) (found : Option ModelRecord) (r : ModelRecord)
    → require_deployable name found ≡ ok r
    → (found ≡ some r) × (r.status ≡ approved) × (r.is_approved ≡ true)
unfolding require_deployable
require_deployable-ok name none r h = cc
require_deployable-ok name (some old) r h = ground arith

module _ {A : Type 0} (repo : ModelRepository A) where
  -- what `get_model` finds is stored, under its own version
  get_model-stored :
      (name : String) (version : Option String) (a : A) (r : ModelRecord)
      → get_model repo name version a ≡ ok (some r)
      → repo.stored name r.version a ≡ some r
  unfolding get_model
  get_model-stored name none a r h = repo.get_latest_ok name r a h
  get_model-stored name (some v) a r h = elim (Bool-cases (is_empty v)) [
    | inl empty ↦ repo.get_latest_ok name r a (rw empty at h)
    | inr given ↦
        let found = repo.get_ok name v (some r) a (rw given at h) in
        simp (repo.stored_key name v r a found).1 found
  ]

  -- From a repository in which every stored record is consistent, a model that `get_approved_model`
  -- returns is stored under its name and version with the status APPROVED, and names who approved it
  -- and when, whether a version is asked for or the latest.
  pub get_approved_model-traceable :
      (name : String) (version : Option String) (a : A) (r : ModelRecord)
      → ((n v : String) (old : ModelRecord) → repo.stored n v a ≡ some old → IsConsistent old)
      → get_approved_model repo name version a ≡ ok r
      → (repo.stored name r.version a ≡ some r)
        × (r.status ≡ approved)
        × ((who : String) × (r.approved_by ≡ some who))
        × ((at : Datetime) × (r.approved_at ≡ some at))
  unfolding get_approved_model
  get_approved_model-traceable name version a r all h =
      elim (Result-cases (get_model repo name version a)) [
        | inr (e, failed) ↦ absurd (ground arith)
        | inl (found, got) ↦
            let (e, is_approved, _) =
              require_deployable-ok name found r (rw (got, get_approved_model) at h) in
            let kept = get_model-stored name version a r (rw e at got) in
            elim (all name r.version r kept) [
              | inl (other, _, _, _) ↦ absurd (other is_approved)
              | inr (_, _, who, at) ↦ (kept, is_approved, who, at)
            ]
      ]
