-- ===== src/Python/Float.antt =====
-- Floats as far as the program compares them. A finite double is n / 2 ^ k for an integer n, so
-- orders are exact; sums and rounding are never modelled by this type. The sign of a zero, which
-- no comparison sees, is dropped.
use ai_risk_engine.Base.{ℕ, suc, ◌+◌, ◌*◌, ◌^◌, Bool, true, false, ltb, leb}
use ai_risk_engine.Python.Int.{ℤ, pos_part, neg_part, is_zero}

pub data Float : Type 0 where
  finite : ℤ → ℕ → Float
  inf neg_inf nan : Float

-- The two sides of a comparison of a / 2 ^ j with b / 2 ^ k, over a common denominator and without
-- negative terms.
abbrev left_side : ℤ → ℕ → ℤ → ℕ → ℕ
left_side a j b k = pos_part a * 2 ^ k + neg_part b * 2 ^ j

-- `x <= y`; every comparison with a NaN is false.
unfoldable pub leb_float : Float → Float → Bool
leb_float (finite a j) (finite b k) = leb (left_side a j b k) (left_side b k a j)
leb_float (finite _ _) inf = true
leb_float (finite _ _) neg_inf = false
leb_float inf inf = true
leb_float inf (finite _ _) = false
leb_float inf neg_inf = false
leb_float neg_inf (finite _ _) = true
leb_float neg_inf inf = true
leb_float neg_inf neg_inf = true
leb_float nan _ = false
leb_float (finite _ _) nan = false
leb_float inf nan = false
leb_float neg_inf nan = false

-- `x < y`
unfoldable pub ltb_float : Float → Float → Bool
ltb_float (finite a j) (finite b k) = ltb (left_side a j b k) (left_side b k a j)
ltb_float (finite _ _) inf = true
ltb_float (finite _ _) neg_inf = false
ltb_float inf _ = false
ltb_float neg_inf (finite _ _) = true
ltb_float neg_inf inf = true
ltb_float neg_inf neg_inf = false
ltb_float neg_inf nan = false
ltb_float nan _ = false
ltb_float (finite _ _) nan = false

-- An integer of the program as a float: `float(n)`, or a literal `n.0`.
abbrev pub float_of : ℤ → Float
float_of n = finite n 0

-- `x == 0.0`, by which a float is falsy
unfoldable pub is_zero_float : Float → Bool
is_zero_float (finite a _) = is_zero a
is_zero_float inf = false
is_zero_float neg_inf = false
is_zero_float nan = false

-- `x * 0.5`, which is exact above the smallest normal double.
unfoldable pub half : Float → Float
half (finite a j) = finite a (suc j)
half inf = inf
half neg_inf = neg_inf
half nan = nan
