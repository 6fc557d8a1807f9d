-- ===== src/Base/Int.antt =====
-- Go's signed integers, under the library's names: differences, and the 64-bit wrap-around.
use novanet.Base.{
  ℕ, ◌+◌, ◌-◌, ◌%◌, ◌^◌, ◌<◌, ◌≡◌, ap, false, dec_lt, arith, ltb, leb, if◌then◌else◌,
}

-- `negsuc n` is -(n + 1).
pub data ℤ : Type 0 where
  pos : ℕ → ℤ
  negsuc : ℕ → ℤ

-- a - b, as an integer.
abbrev pub sub_ℕ : ℕ → ℕ → ℤ
sub_ℕ a b = if leb b a then pos (a - b) else negsuc (b - a - 1)

-- The low 64 bits of an integer, as the bits of a two's complement number.
abbrev low_word : ℤ → ℕ
low_word (pos n) = n % 2 ^ 64
low_word (negsuc n) = 2 ^ 64 - 1 - n % 2 ^ 64

-- `big.Int.Int64`: the low 64 bits, read as an int64.
unfoldable pub int64 : ℤ → ℤ
int64 z = if ltb (low_word z) (2 ^ 63) then pos (low_word z) else negsuc (2 ^ 64 - 1 - low_word z)

pub int64-pos : (n : ℕ) → n < 2 ^ 63 → int64 (pos n) ≡ pos n
unfolding int64
int64-pos n h = ground arith

int64-negsuc : (n : ℕ) → n < 2 ^ 63 → int64 (negsuc n) ≡ negsuc n
unfolding int64
int64-negsuc n h =
    let low : n % 2 ^ 64 ≡ n = omega arith in rw (low, ltb_high n h) (ap negsuc (omega arith))
  where
    ltb_high : (n : ℕ) → n < 2 ^ 63 → ltb (2 ^ 64 - 1 - n) (2 ^ 63) ≡ false
    ltb_high n h = ground arith

-- A difference of small numbers that wraps to a number is that number.
pub int64-sub_ℕ : (x b i : ℕ) → x < 2 ^ 63 → b < 2 ^ 63 → int64 (sub_ℕ x b) ≡ pos i → x ≡ b + i
int64-sub_ℕ x b i p q e = elim (dec_lt x b) [
  | yes l ↦ absurd (ground (arith, int64-negsuc (b - x - 1) (omega arith)))
  | no l ↦ ground (arith, int64-pos (x - b) (omega arith))
]
