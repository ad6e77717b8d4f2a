-- ===== src/Workflow/Cache.antt =====
-- The state store of app/workflows/langgraph/risk_workflow.py and compliance_workflow.py makes a run
-- idempotent.
use ai_risk_engine.Base.{String, ◌≡◌, ap, Option, none, some, arith, inl, inr}
use ai_risk_engine.Exec.{
  Result, ok, Exec, Result-cases, bind-Leaves, Leaves, lift, pure, modify, ◌>>=◌, ◌>>◌,
}
use ai_risk_engine.Observability.Metrics.{Metrics}
use ai_risk_engine.Workflow.Setup.{Setup, World, StateStore, RunTimes}
use ai_risk_engine.Workflow.Engine.{
  meter, start_metrics, run_traced, observe, evaluate, save_state, cached_state, run_fresh,
  run_body, run, resolve_versions,
}

module _ {B C X M P : Type 0} (u : Setup B C X M P) (st : StateStore C X)
    (given : u.state_store ≡ some st) where
  save_state-stores :
      (x : X) (w : World B C)
      → (save_state u x w).0 ≡ ok tt
      → cached_state u (u.kind.view x).event_id (save_state u x w).1 ≡ ok (some x)
  unfolding save_state cached_state
  save_state-stores x w saved =
      let kept = st.set_ok (u.kind.view x).event_id x w.store in
      let set_it : (st.set (u.kind.view x).event_id x w.store).0 ≡ ok tt = ground arith in
      let found = kept set_it in rw given found

  save_last :
      (y x₃ : X)
      → Leaves y
          (λ w. cached_state u (u.kind.view y).event_id w ≡ ok (some y))
          (save_state u x₃ >> pure x₃)
  save_last y x₃ w h = elim (Result-cases (save_state u x₃ w).0) [
    | inr (e, failed) ↦ absurd (ground arith)
    | inl (_, saved) ↦
        let stored = save_state-stores x₃ w saved in
        let same : x₃ ≡ y = ground arith in
        let left : (save_state u x₃ >> pure x₃) w ≡ (ok x₃, (save_state u x₃ w).1) = ground arith in
        rw (left, ← same) stored
  ]

  run_fresh-stores :
      (times : RunTimes) (x y : X)
      → Leaves y
          (λ w. cached_state u (u.kind.view y).event_id w ≡ ok (some y))
          (run_fresh u times x)
  unfolding run_fresh
  run_fresh-stores times x y =
      let Q : World B C → Type 0 = λ w. cached_state u (u.kind.view y).event_id w ≡ ok (some y) in
      let saving : X → Exec (World B C) X = λ x₃. save_state u x₃ >> pure x₃ in
      let judging : X → Exec (World B C) X = λ x₂. evaluate u times x₂ >>= saving in
      let watching : X → Exec (World B C) X = λ x₂. modify (observe u times x₂) >> judging x₂ in
      let running : X → Exec (World B C) X =
        λ x₁. run_traced u times (u.kind.view x) x₁ >>= watching in
      bind-Leaves y Q (lift (resolve_versions u x)) running (λ x₁.
        bind-Leaves y Q (run_traced u times (u.kind.view x) x₁) watching (λ x₂.
          bind-Leaves y Q (modify (observe u times x₂)) (λ _. judging x₂)
            (λ _. bind-Leaves y Q (evaluate u times x₂) saving (save_last y))))

  -- counting does not touch the store
  cached_state-meter :
      (k : String) (f : Metrics → Metrics) (w : World B C) (r : Result (Option X))
      → cached_state u k w ≡ r
      → cached_state u k (meter u f w) ≡ r
  unfolding cached_state
  cached_state-meter k f w r h = h

  -- With a state store, once a run that found no stored state has returned one, every later run for the event of that
  -- state returns the same state, and changes neither the audit trail nor the store: only the request
  -- is counted.
  pub run-idempotent :
      (times : RunTimes) (x y : X) (w w' : World B C) (later : RunTimes) (z : X)
      → cached_state u (u.kind.view x).event_id w ≡ ok none
      → run u times x w ≡ (ok y, w')
      → (u.kind.view z).event_id ≡ (u.kind.view y).event_id
      → run u later z w' ≡ (ok y, meter u (start_metrics u (u.kind.view z)) w')
  unfolding run run_body
  run-idempotent times x y w w' later z fresh ran same =
      let v = meter u (start_metrics u (u.kind.view x)) w in
      let new : cached_state u (u.kind.view x).event_id v ≡ ok none =
        cached_state-meter (u.kind.view x).event_id (start_metrics u (u.kind.view x)) w (ok none)
          fresh in
      let body : run_fresh u times x v ≡ (ok y, w') =
        elim (Result-cases (run_fresh u times x v).0) [
          | inl (a, e) ↦ ground arith
          | inr (a, e) ↦ absurd (ground arith)
        ] in
      let stored = run_fresh-stores times x y v (ap (λ r. r.0) body) in
      let found : cached_state u (u.kind.view z).event_id
            (meter u (start_metrics u (u.kind.view z)) w')
          ≡ ok (some y) =
        cached_state-meter (u.kind.view z).event_id (start_metrics u (u.kind.view z)) w'
          (ok (some y)) (rw same (rw body at stored)) in
      ground arith
