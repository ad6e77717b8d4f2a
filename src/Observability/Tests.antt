-- ===== src/Observability/Tests.antt =====
-- The theorems on app/observability at concrete histories. The arithmetic of the tests keeps the
-- first operand.
use ai_risk_engine.Base.{◌≡◌, true, none, some, List, [], ◌∷◌}
use ai_risk_engine.Python.Int.{pos}
use ai_risk_engine.Python.Float.{Float, float_of}
use ai_risk_engine.Observability.Arithmetic.{Arithmetic}
use ai_risk_engine.Observability.Cost.{
  new_tracker, get_tenant_cost, get_request_cost, get_cumulative,
}
use ai_risk_engine.Observability.Cost.History.{
  Charge, add_all, sum_of, of_tenant, of_request, add_all-sums,
}

abbrev ops : Arithmetic
ops = record { add = λ x y. x; sub = λ x y. x; mul = λ x y. x; div = λ x y. x; round = λ x n. x }

abbrev charges : List Charge
charges =
    record {
      tenant_id = "acme";
      amount = float_of (pos 2);
      model_version = some "simulated@1";
      request_id = some "e1";
    }
    ∷ record {
      tenant_id = "other";
      amount = float_of (pos 3);
      model_version = none;
      request_id = none;
    }
    ∷ []

abbrev rate : Float
rate = float_of (pos 1)

add_all-sums_example :
    (get_tenant_cost "acme" (add_all ops charges (new_tracker rate))
      ≡ sum_of ops (of_tenant ops "acme") charges)
    × (get_request_cost "e1" (add_all ops charges (new_tracker rate))
        ≡ sum_of ops (of_request ops "e1") charges)
    × (get_cumulative (add_all ops charges (new_tracker rate)) ≡ sum_of ops (λ _. true) charges)
add_all-sums_example = add_all-sums ops rate charges "acme" "e1"
