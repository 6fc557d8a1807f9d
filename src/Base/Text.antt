-- ===== src/Base/Text.antt =====
-- Go's strings as their bytes.
use Prim.Native.Char.{code}
use Prim.Native.String.{String}
use mathlib.Core.List.{List-discrete}
use mathlib.Core.Logic.{ite, if_pos, if_neg}
use novanet.Base.{ℕ, ◌≡◌, Bool, true, false, List, [], ◌∷◌, ◌↔◌, ℕ_discrete}

abbrev pub Text : Type 0
Text = List ℕ

unfoldable pub text_dec : Discrete Text
text_dec = List-discrete ℕ_discrete

-- The bytes of a literal.
abbrev pub codes : String → Text
codes String.[] = []
codes (String.◌∷◌ c s) = code c ∷ codes s

unfoldable pub same_text : Text → Text → Bool
same_text s t = ite (text_dec s t) true false

abbrev pub is_empty : Text → Bool
is_empty [] = true
is_empty (c ∷ cs) = false

pub same_text_iff : (s t : Text) → (same_text s t ≡ true) ↔ (s ≡ t)
unfolding same_text
same_text_iff s t = elim (text_dec s t) [
  | yes p ↦ (λ e. p, λ e. if_pos (text_dec s t) p _ _)
  | no p ↦ (λ e. absurd (cc (if_neg {C = Bool} (text_dec s t) p true false, e)), λ e. absurd (p e))
]
