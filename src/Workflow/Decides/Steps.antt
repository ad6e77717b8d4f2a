-- ===== src/Workflow/Decides/Steps.antt =====
-- The nodes of app/workflows/langgraph/nodes, one by one, as steps of the engine of
-- risk_workflow.py: what each writes into the state, where the audit repository stores every record.
use ai_risk_engine.Base.{
  String, Bool, true, false, ◌||◌, ◌≡◌, refl, Option, none, some, List, [], ◌∷◌, arith,
  if◌then◌else◌, Bool-cases, inl, inr,
}
use ai_risk_engine.Python.Float.{Float, is_zero_float, leb_float}
use ai_risk_engine.Python.Value.{
  Value, Fields, end, find_or, is_str, str, truthy, bool, null, field, float,
}
use ai_risk_engine.Python.Text.{f_string}
use ai_risk_engine.Exec.{bind-ok, ok}
use ai_risk_engine.Governance.Audit.{AuditRecord, AuditRepository, log_action, audit_record}
use ai_risk_engine.Workflow.State.{RiskState}
use ai_risk_engine.Workflow.Nodes.{
  Tick, format, node_entry, add_trail, trail_entry, metadata_of, policy_fails, score_of, violates,
  escalates, retrieve_context, validate_policy, score_risk, apply_guardrails, make_decision,
  over_threshold, score_or_zero,
}
use ai_risk_engine.Workflow.Setup.{Setup, World, NodeName, RunTimes}
use ai_risk_engine.Workflow.Engine.{run_node, run_nodes, node_done, with_span}

module _ {B C X M P : Type 0} (u : Setup B C X M P) where
  -- a node that returns lets its run in the engine return the same state
  pub run_node-ok :
      (times : RunTimes) (trace : Option (String × String)) (n : NodeName) (x x' : X)
      (w : World B C)
      → (u.kind.node n (times.node n).tick x w.trail).0 ≡ ok x'
      → (run_node u times trace n x w).0 ≡ ok x'
  unfolding run_node with_span
  run_node-ok times none n x x' w h = ground arith
  run_node-ok times (some (t, p)) n x x' w h = ground arith

  -- a node that the trail does not show is run, and the next ones follow
  pub run_nodes-next :
      (times : RunTimes) (trace : Option (String × String)) (n : NodeName) (ns : List NodeName)
      (x x' y : X) (w : World B C)
      → node_done (u.kind.view x).audit_trail n ≡ false
      → ((v : World B C) → (u.kind.node n (times.node n).tick x v.trail).0 ≡ ok x')
      → ((v : World B C) → (run_nodes u times trace ns x' v).0 ≡ ok y)
      → (run_nodes u times trace (n ∷ ns) x w).0 ≡ ok y
  unfolding run_nodes
  run_nodes-next times trace n ns x x' y w new step rest =
      let ran = run_node-ok times trace n x x' w (step w) in
      rw new (
        bind-ok (run_node u times trace n x) (run_nodes u times trace ns) w x' (ok y) ran
          (rest (run_node u times trace n x w).1))

-- The events that the policies single out.
pub flagged : Fields → Fields → Bool
flagged raw metadata =
    is_str (find_or "event_type" (str "standard") raw) "high_risk"
    || policy_fails metadata
    || truthy (find_or "blocked_pattern" (bool false) metadata)

-- a state without the entries of an earlier run
abbrev pub fresh : RiskState → RiskState
fresh s = record s { audit_trail = [] }

-- The result of each node, written into the state.
abbrev pub scored : Tick → Fields → RiskState → RiskState
scored tick m s =
    let risk_score = score_of (find_or "event_type" (str "standard") s.raw_event) m in
    record s {
      risk_score = some risk_score;
      audit_trail = add_trail s (
          trail_entry tick "risk_scoring" "risk_scored" s
            (field "risk_score" (float risk_score) end));
    }

abbrev pub retrieved : (Value → String) → Tick → RiskState → RiskState
retrieved render tick s = record s {
  retrieved_context = some (
      f_string (
        "simulated_context:"
        ∷ s.tenant_id
        ∷ ":"
        ∷ format render (find_or "event_type" (str "unknown") s.raw_event)
        ∷ []));
  audit_trail = add_trail s (trail_entry tick "retrieval" "context_retrieved" s end);
}

abbrev pub validated : Tick → Fields → RiskState → RiskState
validated tick m s =
    let r = if policy_fails m then "FAIL" else "PASS" in
    record s {
      policy_result = some r;
      audit_trail = add_trail s (
          trail_entry tick "policy_validation" "policy_validated" s
            (field "policy_result" (str r) end));
    }

abbrev pub guarded : Tick → Fields → RiskState → RiskState
guarded tick m s =
    let r = if violates m s.risk_score then "VIOLATION" else "OK" in
    record s {
      guardrail_result = some r;
      audit_trail = add_trail s (
          trail_entry tick "guardrails" "guardrails_applied" s
            (field "guardrail_result" (str r) end));
    }

abbrev pub decided : Tick → RiskState → RiskState
decided tick s =
    let r = if escalates s then "REQUIRE_APPROVAL" else "APPROVED" in
    record s {
      final_decision = some r;
      audit_trail =
          add_trail s
            (trail_entry tick "decision" "decision_made" s (field "final_decision" (str r) end));
    }

-- only the score of a high-risk event reaches the threshold
over_threshold-score_of :
    (v : Value) (m : Fields) → over_threshold (some (score_of v m)) ≡ is_str v "high_risk"
unfolding over_threshold score_or_zero score_of is_zero_float leb_float
over_threshold-score_of v m = elim (Bool-cases (is_str v "high_risk")) [
  | inl high ↦ rw high refl
  | inr low ↦ elim (Bool-cases (is_str (find_or "category" null m) "sensitive")) [
    | inl c ↦ rw (low, c) refl
    | inr c ↦ elim (Bool-cases (is_str v "low_risk")) [
      | inl l ↦ rw (low, c, l) refl
      | inr l ↦ rw (low, c, l) refl
    ]
  ]
]

score_of-high :
    (v : Value) (m n : Fields) → is_str v "high_risk" ≡ true → score_of v m ≡ score_of v n
unfolding score_of
score_of-high v m n high = rw high refl

pub escalates-flagged :
    (g r p : Tick) (m : Fields) (s : RiskState)
    → escalates (guarded g m (scored r m (validated p m s))) ≡ flagged s.raw_event m
unfolding escalates flagged violates
escalates-flagged g r p m s =
    let v = find_or "event_type" (str "standard") s.raw_event in
    let high = over_threshold-score_of v m in
    elim (Bool-cases (policy_fails m)) [
      | inl f ↦ elim (Bool-cases (is_str v "high_risk")) [
        | inl h ↦ rw (f, h) refl
        | inr h ↦ rw (f, h) refl
      ]
      | inr f ↦ elim (Bool-cases (is_str v "high_risk")) [
        | inl h ↦ rw (f, high, h) refl
        | inr h ↦ elim (Bool-cases (truthy (find_or "blocked_pattern" (bool false) m))) [
          | inl b ↦ rw (f, high, h, b) refl
          | inr b ↦ rw (f, high, h, b) refl
        ]
      ]
    ]

module _ {B : Type 0} (audit : AuditRepository B) (render : Value → String) (m : Fields)
    (saves : (r : AuditRecord) (b : B) → (audit.save r b).0 ≡ ok tt) where
  pub retrieve_context-ok :
      (tick : Tick) (s : RiskState) (b : B)
      → (retrieve_context audit render tick s b).0 ≡ ok (retrieved render tick s)
  unfolding retrieve_context log_action
  retrieve_context-ok tick s b =
      let saved =
        saves
          (audit_record tick.logged
            (node_entry tick "context_retrieved" "vector_retrieval_simulated" s end))
          b in
      ground arith

  pub validate_policy-ok :
      (tick : Tick) (s : RiskState) (b : B)
      → metadata_of s.raw_event ≡ ok m
      → (validate_policy audit tick s b).0 ≡ ok (validated tick m s)
  unfolding validate_policy log_action
  validate_policy-ok tick s b dict =
      let saved =
        saves
          (audit_record tick.logged (
            node_entry tick "policy_validated" "rule_based_validation" s
              (field "policy_result" (str (if policy_fails m then "FAIL" else "PASS")) end)))
          b in
      ground arith

  pub apply_guardrails-ok :
      (tick : Tick) (s : RiskState) (b : B)
      → metadata_of s.raw_event ≡ ok m
      → (apply_guardrails audit tick s b).0 ≡ ok (guarded tick m s)
  unfolding apply_guardrails log_action
  apply_guardrails-ok tick s b dict =
      let saved =
        saves
          (audit_record tick.logged (
            node_entry tick "guardrails_applied" "threshold_and_pattern_check" s (
              field "guardrail_result" (str (if violates m s.risk_score then "VIOLATION" else "OK"))
                end)))
          b in
      ground arith

  pub make_decision-ok :
      (tick : Tick) (s : RiskState) (b : B) → (make_decision audit tick s b).0 ≡ ok (decided tick s)
  unfolding make_decision log_action
  make_decision-ok tick s b =
      let saved =
        saves
          (audit_record tick.logged (
            node_entry tick "decision_made" "deterministic_decision" s (
              field "final_decision" (str (if escalates s then "REQUIRE_APPROVAL" else "APPROVED"))
                end)))
          b in
      ground arith

  pub score_risk-ok :
      (tick : Tick) (s : RiskState) (b : B)
      → metadata_of s.raw_event ≡ ok m
      → (score_risk audit tick s b).0 ≡ ok (scored tick m s)
  unfolding score_risk log_action
  score_risk-ok tick s b dict =
      let v = find_or "event_type" (str "standard") s.raw_event in
      let saved = λ (x : Float).
        saves
          (audit_record tick.logged (
            node_entry tick "risk_scored" "deterministic_scoring" s
              (field "risk_score" (float x) end)))
          b in
      elim (Bool-cases (is_str v "high_risk")) [
        | inl high ↦
            let same : score_of v end ≡ score_of v m = score_of-high v end m high in
            let saved_high = saved (score_of v end) in ground arith
        | inr low ↦ let saved_low = saved (score_of v m) in ground arith
      ]
