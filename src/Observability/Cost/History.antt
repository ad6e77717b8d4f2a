-- ===== src/Observability/Cost/History.antt =====
-- What the cost tracker says after a history of charges (app/observability/cost_tracker.py).
use ai_risk_engine.Base.{
  String, Bool, true, false, ◌≡◌, refl, Option, none, some, List, [], ◌∷◌, arith, str_eq,
  Bool-cases, inl, inr, if◌then◌else◌, eq_iff, ◌∙◌, ap,
}
use ai_risk_engine.Python.Float.{Float}
use ai_risk_engine.Python.Text.{is_empty}
use ai_risk_engine.Python.Dict.{Dict, get, get_or, get-insert}
use ai_risk_engine.Observability.Arithmetic.{Arithmetic, zero_float}
use ai_risk_engine.Observability.Cost.{
  CostTracker, new_tracker, charge, charge_if, add_cost, get_tenant_cost, get_request_cost,
  get_cumulative,
}

-- The arguments of one call of `add_cost`.
pub record Charge : Type 0 where
  pub tenant_id : String
  pub amount : Float
  pub model_version : Option String
  pub request_id : Option String

module _ (ops : Arithmetic) where
  -- the newest charge comes first
  pub add_all : List Charge → CostTracker → CostTracker
  add_all [] t = t
  add_all (c ∷ cs) t = add_cost ops c.tenant_id c.amount c.model_version c.request_id (add_all cs t)

  -- The sum, in the order of the calls, of the amounts that `counts` selects.
  pub sum_of : (Charge → Bool) → List Charge → Float
  sum_of counts [] = zero_float
  sum_of counts (c ∷ cs) =
      let before = sum_of counts cs in if counts c then ops.add before c.amount else before

  get_or-charge :
      (k key : String) (amount : Float) (d : Dict Float)
      → get_or k zero_float (charge ops key amount d)
        ≡ (if str_eq key k then ops.add (get_or k zero_float d) amount else get_or k zero_float d)
  unfolding charge get_or
  get_or-charge k key amount d =
      let found = get-insert key k (ops.add (get_or key zero_float d) amount) d in
      elim (Bool-cases (str_eq key k)) [
        | inl e ↦ let same : key ≡ k = (eq_iff key k).0 e in ground arith
        | inr e ↦ ground arith
      ]

  -- `counts` picks the charges of one tenant, and of one request that is not empty.
  pub of_tenant : String → Charge → Bool
  of_tenant k c = str_eq c.tenant_id k

  request_is : String → Option String → Bool
  request_is k none = false
  request_is k (some r) = if is_empty r then false else str_eq r k

  pub of_request : String → Charge → Bool
  unfolding request_is
  of_request k c = request_is k c.request_id

  get_or-charge_if :
      (k : String) (key : Option String) (amount : Float) (d : Dict Float)
      → get_or k zero_float (charge_if ops key amount d) ≡ (
          if request_is k key
          then ops.add (get_or k zero_float d) amount
          else get_or k zero_float d)
  unfolding charge_if request_is
  get_or-charge_if k none amount d = refl
  get_or-charge_if k (some key) amount d = elim (Bool-cases (is_empty key)) [
    | inl e ↦ rw (e) refl
    | inr e ↦ rw (e) (get_or-charge k key amount d)
  ]

  -- After any history of charges, the cost of a tenant and of a request, and the total, are the sums
  -- of the amounts charged to that tenant, under that request, and at all, each in the order of the
  -- calls; an empty or missing request id is charged to no request.
  pub add_all-sums :
      (rate : Float) (cs : List Charge) (tenant_id request_id : String)
      → (get_tenant_cost tenant_id (add_all cs (new_tracker rate))
          ≡ sum_of (of_tenant tenant_id) cs)
        × (get_request_cost request_id (add_all cs (new_tracker rate))
            ≡ sum_of (of_request request_id) cs)
        × (get_cumulative (add_all cs (new_tracker rate)) ≡ sum_of (λ _. true) cs)
  unfolding add_all sum_of of_tenant of_request get_tenant_cost get_request_cost get_cumulative
      add_cost get_or get
  add_all-sums rate [] t r = (refl, refl, refl)
  add_all-sums rate (c ∷ cs) t r =
      let (tenant, request, total) = add_all-sums rate cs t r in
      let before = add_all cs (new_tracker rate) in
      let one = get_or-charge t c.tenant_id c.amount before.tenant_costs in
      let two = get_or-charge_if r c.request_id c.amount before.request_costs in
      (
        one ∙ ap (λ s. if str_eq c.tenant_id t then ops.add s c.amount else s) tenant,
        two ∙ ap (λ s. if request_is r c.request_id then ops.add s c.amount else s) request,
        ap (λ s. ops.add s c.amount) total,
      )
