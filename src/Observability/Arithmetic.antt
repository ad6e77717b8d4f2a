-- ===== src/Observability/Arithmetic.antt =====
-- The arithmetic of floats, whose rounding is not modelled: the operations are arguments of
-- whatever calculates with floats.
use ai_risk_engine.Base.{ℕ}
use ai_risk_engine.Python.Int.{pos}
use ai_risk_engine.Python.Float.{Float, float_of}

pub record Arithmetic : Type 0 where
  pub add : Float → Float → Float
  pub sub : Float → Float → Float
  pub mul : Float → Float → Float
  pub div : Float → Float → Float
  -- `round(x, n)`
  pub round : Float → ℕ → Float

abbrev pub zero_float : Float
zero_float = float_of (pos 0)
