-- ===== src/Base/Effects.antt =====
-- Go's two ways to fail. A function that may panic returns `Option`, where `none` is the panic; a
-- function that returns an error returns `Result`, next to the state that it leaves.
use mathlib.Core.Option.{Option, none, some}

infixl 5 ◌>>=◌
abbrev pub ◌>>=◌ {ℓ κ} : {A : Type ℓ} {B : Type κ} → Option A → (A → Option B) → Option B
none >>= f = none
some a >>= f = f a

pub data Result {ℓ κ} (E : Type ℓ) (A : Type κ) : Type (ℓ ⊔ κ) where
  ok : A → Result E A
  err : E → Result E A
