-- ===== src/Python/Text.antt =====
-- Texts: f-strings, `str.strip`, and integers in decimal.
pub mod Blank
use Prim.Native.Char.{code}
use Prim.Native.String.{◌++◌ as append}
use ai_risk_engine.Base.{
  ℕ, zero, suc, ◌+◌, ◌/◌, ◌%◌, String, ◌≡◌, refl, Bool, true, false, ◌&&◌, ◌||◌, not, List, [], ◌∷◌,
  arith, leb, ltb, ◌==◌, if◌then◌else◌,
}
use ai_risk_engine.Python.Int.{ℤ, pos, negsuc}

-- The pieces of an f-string, joined.
abbrev pub f_string : List String → String
f_string [] = ""
f_string (s ∷ []) = s
f_string (s ∷ rest) = append s (f_string rest)

abbrev between : ℕ → ℕ → ℕ → Bool
between lo hi c = leb lo c && leb c hi

-- The characters that `str.strip` removes, by code point.
pub is_space : ℕ → Bool
is_space c =
    between 9 13 c
    || between 28 32 c
    || c == 0x85
    || c == 0xa0
    || c == 0x1680
    || between 0x2000 0x200a c
    || between 0x2028 0x2029 c
    || c == 0x202f
    || c == 0x205f
    || c == 0x3000

-- `not s`
abbrev pub is_empty : String → Bool
is_empty String.[] = true
is_empty (String.◌∷◌ _ _) = false

lstrip : String → String
lstrip String.[] = ""
lstrip (String.◌∷◌ c s) = if is_space (code c) then lstrip s else String.◌∷◌ c s

rstrip : String → String
rstrip String.[] = ""
rstrip (String.◌∷◌ c s) =
    let rest = rstrip s in if is_space (code c) && is_empty rest then "" else String.◌∷◌ c rest

unfoldable pub strip : String → String
unfolding lstrip rstrip is_space
strip s = rstrip (lstrip s)

-- `not s or not s.strip()`, the test for a missing text.
unfoldable pub is_blank : String → Bool
unfolding strip
is_blank s = is_empty s || is_empty (strip s)

digit : ℕ → String
digit d =
    if d == 0
    then "0"
    else if d == 1
    then "1"
    else if d == 2
    then "2"
    else if d == 3
    then "3"
    else if d == 4
    then "4"
    else if d == 5
    then "5"
    else if d == 6
    then "6"
    else if d == 7
    then "7"
    else if d == 8
    then "8"
    else "9"

-- Decimal digits, the last one first written; `n + 1` rounds are more than there are digits.
digits : ℕ → ℕ → String
digits zero n = ""
digits (suc fuel) n = elim (ltb n 10) [
  | true ↦ digit n
  | false ↦ append (digits fuel (n / 10)) (digit (n % 10))
]

-- `str(n)` of a number that is not negative, and of any integer
unfoldable pub decimal : ℕ → String
unfolding digits digit
decimal n = digits (suc n) n

unfoldable pub decimal_ℤ : ℤ → String
unfolding decimal
decimal_ℤ (pos n) = decimal n
decimal_ℤ (negsuc n) = append "-" (decimal (suc n))

decimal_407 : decimal 407 ≡ "407"
unfolding decimal
decimal_407 = refl

strip_spaces : strip " a b\t" ≡ "a b"
unfolding strip
strip_spaces = refl
