-- ===== src/Python/Text/Blank.antt =====
-- What `not s or not s.strip()` decides.
use Prim.Native.Char.{code}
use ai_risk_engine.Base.{String, ◌≡◌, ◌↔◌, ◌⊎◌, inl, inr, false, arith, Bool-cases}
use ai_risk_engine.Python.Text.{is_space, is_empty, rstrip, strip, is_blank}

-- Some character of the text is no space.
abbrev pub HasInk : String → Type 0
HasInk String.[] = ⊥
HasInk (String.◌∷◌ c s) = (is_space (code c) ≡ false) ⊎ HasInk s

rstrip-empty : (s : String) → is_empty (rstrip s) ≡ false → HasInk s
unfolding rstrip
rstrip-empty String.[] h = cc
rstrip-empty (String.◌∷◌ c s) h = elim (Bool-cases (is_space (code c))) [
  | inl space ↦ inr (rstrip-empty s (ground arith))
  | inr ink ↦ inl ink
]

rstrip-HasInk : (s : String) → HasInk s → is_empty (rstrip s) ≡ false
unfolding rstrip
rstrip-HasInk String.[] h = absurd h
rstrip-HasInk (String.◌∷◌ c s) (inl ink) = rw ink
rstrip-HasInk (String.◌∷◌ c s) (inr h) = ground (arith, rstrip-HasInk s h)

strip-HasInk : (s : String) → (is_empty (strip s) ≡ false) ↔ HasInk s
unfolding strip
strip-HasInk String.[] = (λ h. cc, λ h. absurd h)
strip-HasInk (String.◌∷◌ c s) = elim (Bool-cases (is_space (code c))) [
  | inl space ↦
      rw space (λ h. inr ((strip-HasInk s).0 h), elim [ inl e ↦ cc | inr h ↦ (strip-HasInk s).1 h ])
  | inr ink ↦ (λ h. inl ink, λ _. ground arith)
]

-- A text is blank unless some character of it is no space.
pub not-is_blank-iff-HasInk : (s : String) → (is_blank s ≡ false) ↔ HasInk s
unfolding is_blank
not-is_blank-iff-HasInk String.[] = (λ h. cc, λ h. absurd h)
not-is_blank-iff-HasInk (String.◌∷◌ c s) = strip-HasInk (String.◌∷◌ c s)
