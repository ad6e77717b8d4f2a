-- ===== src/Python/Time.antt =====
-- Clock readings enter as arguments. A `datetime` in UTC is a number of microseconds.
use ai_risk_engine.Base.{ℕ}

abbrev pub Datetime : Type 0
Datetime = ℕ
