-- ===== src/Base/Bits.antt =====
-- Single bits of a machine word: what `w | 1<<k`, `w &^ 1<<k` and `w & 1<<k` do to each bit.
use Prim.Native.Nat.{
  ℕ, zero, suc, ◌+◌, ◌-◌, ◌*◌, ◌/◌, ◌%◌, ◌^◌, ◌≤◌, ◌<◌, min, max, digits, bitwise, bit_and, bit_or,
  bit_and-bitwise, bit_or-bitwise,
}
use mathlib.Core.Path.{◌≡◌, refl, ap, ◌∙◌}
use native.Mathlib.Nat.{pow-suc}
use native.Mathlib.Omega.{arith}
use novanet.Base.{◌==◌, if◌then◌else◌, inl, inr, Bool-cases}

zero_add : (x : ℕ) → 0 + x ≡ x
zero_add x = omega arith

suc_add : (x y : ℕ) → suc x + y ≡ suc (x + y)
suc_add x y = omega arith

-- The recursion behind the bitwise operations runs on as many rounds as its first number: more of
-- them change nothing.
module _ (past_end : ℕ → ℕ) (op : ℕ → ℕ → ℕ) where
  surplus_round :
      (fuel x y : ℕ) → x ≤ fuel → digits past_end op (suc fuel) x y ≡ digits past_end op fuel x y
  surplus_round zero zero y h = refl
  surplus_round (suc fuel) zero y h = refl
  surplus_round zero (suc x) y h = absurd (omega arith)
  surplus_round (suc fuel) (suc x) y h = rw (surplus_round fuel (suc x / 2) (y / 2) (omega arith))

  surplus_rounds : (extra x y : ℕ) → digits past_end op (extra + x) x y ≡ digits past_end op x x y
  surplus_rounds zero x y = ap (λ fuel. digits past_end op fuel x y) (zero_add x)
  surplus_rounds (suc extra) x y =
      ap (λ fuel. digits past_end op fuel x y) (suc_add extra x)
      ∙ surplus_round (extra + x) x y (omega arith)
      ∙ surplus_rounds extra x y

  low_digit :
      (x y : ℕ)
      → op (suc x % 2) (y % 2) + 2 * bitwise past_end op (suc x / 2) (y / 2)
        ≡ bitwise past_end op (suc x) y
  low_digit x y =
      let half : ℕ = suc x / 2 in
      let rounds : x - half + half ≡ x = omega arith in
      omega (
        arith,
        surplus_rounds (x - half) half (y / 2),
        ap (λ fuel. digits past_end op fuel half (y / 2)) rounds,
      )

and_digit : (x y : ℕ) → bit_and x y ≡ min (x % 2) (y % 2) + 2 * bit_and (x / 2) (y / 2)
and_digit zero y = simp bit_and-bitwise (omega arith)
and_digit (suc x) y = simp bit_and-bitwise (omega (arith, low_digit (λ rest. 0) min x y))

or_digit : (x y : ℕ) → bit_or x y ≡ max (x % 2) (y % 2) + 2 * bit_or (x / 2) (y / 2)
or_digit zero y = simp bit_or-bitwise (omega arith)
or_digit (suc x) y = simp bit_or-bitwise (omega (arith, low_digit (λ rest. rest) max x y))

bit_or-zero_below : (n a : ℕ) → a ≤ n → bit_or a 0 ≡ a
bit_or-zero_below n zero h = refl
bit_or-zero_below zero (suc a) h = absurd (omega arith)
bit_or-zero_below (suc n) (suc a) h =
    omega (arith, or_digit (suc a) 0, bit_or-zero_below n (suc a / 2) (omega arith))

bit_and-zero_below : (n a : ℕ) → a ≤ n → bit_and a 0 ≡ 0
bit_and-zero_below n zero h = refl
bit_and-zero_below zero (suc a) h = absurd (omega arith)
bit_and-zero_below (suc n) (suc a) h =
    omega (arith, and_digit (suc a) 0, bit_and-zero_below n (suc a / 2) (omega arith))

bit_or-zero : (a : ℕ) → bit_or a 0 ≡ a
bit_or-zero a = bit_or-zero_below a a (omega arith)

bit_and-zero : (a : ℕ) → bit_and a 0 ≡ 0
bit_and-zero a = bit_and-zero_below a a (omega arith)

-- Go's `w &^ m`: the bits of `w` that are not in `m`.
abbrev pub and_not : ℕ → ℕ → ℕ
and_not w m = w - bit_and w m

-- The bit at a position, 0 or 1.
unfoldable pub bit : ℕ → ℕ → ℕ
bit w zero = w % 2
bit w (suc k) = bit (w / 2) k

pub bit-lt-two : (w k : ℕ) → bit w k < 2
unfolding bit
bit-lt-two w zero = omega arith
bit-lt-two w (suc k) = bit-lt-two (w / 2) k

pub bit_and-pow : (w k : ℕ) → bit_and w (2 ^ k) ≡ bit w k * 2 ^ k
unfolding bit
bit_and-pow w zero = omega (arith, and_digit w 1, bit_and-zero (w / 2))
bit_and-pow w (suc k) =
    let e : 2 ^ suc k ≡ 2 ^ k * 2 = pow-suc 2 k in
    let h : 2 ^ suc k / 2 ≡ 2 ^ k = omega arith in
    let r : 2 ^ suc k % 2 ≡ 0 = omega arith in
    omega (
      arith,
      and_digit w (2 ^ suc k),
      ap (bit_and (w / 2)) h,
      bit_and-pow (w / 2) k,
      ap (λ (t : ℕ). bit (w / 2) k * t) e,
    )

pow_half : (k : ℕ) → 2 ^ suc k / 2 ≡ 2 ^ k
pow_half k = omega (arith, pow-suc 2 k)

pow_parity : (k : ℕ) → 2 ^ suc k % 2 ≡ 0
pow_parity k = omega (arith, pow-suc 2 k)

bit_or_half : (w k : ℕ) → bit_or w (2 ^ suc k) / 2 ≡ bit_or (w / 2) (2 ^ k)
bit_or_half w k =
    omega (arith, or_digit w (2 ^ suc k), ap (bit_or (w / 2)) (pow_half k), pow_parity k)

bit_or_parity : (w k : ℕ) → bit_or w (2 ^ suc k) % 2 ≡ w % 2
bit_or_parity w k = omega (arith, or_digit w (2 ^ suc k), pow-suc 2 k)

bit_or_one : (w : ℕ) → bit_or w 1 / 2 ≡ w / 2
bit_or_one w = omega (arith, or_digit w 1, bit_or-zero (w / 2))

bit_and-le : (w k : ℕ) → bit_and w (2 ^ k) ≤ w
bit_and-le w zero = omega (arith, and_digit w 1, bit_and-zero (w / 2))
bit_and-le w (suc k) = omega (
  arith,
  and_digit w (2 ^ suc k),
  ap (bit_and (w / 2)) (pow_half k),
  pow_parity k,
  bit_and-le (w / 2) k,
)

and_not_half : (w k : ℕ) → and_not w (2 ^ suc k) / 2 ≡ and_not (w / 2) (2 ^ k)
and_not_half w k = omega (
  arith,
  and_digit w (2 ^ suc k),
  ap (bit_and (w / 2)) (pow_half k),
  pow_parity k,
  bit_and-le (w / 2) k,
)

and_not_parity : (w k : ℕ) → and_not w (2 ^ suc k) % 2 ≡ w % 2
and_not_parity w k = omega (
  arith,
  and_digit w (2 ^ suc k),
  ap (bit_and (w / 2)) (pow_half k),
  pow_parity k,
  bit_and-le (w / 2) k,
)

and_not_one : (w : ℕ) → and_not w 1 / 2 ≡ w / 2
and_not_one w = omega (arith, and_digit w 1, bit_and-zero (w / 2))

-- Setting bit `k` sets it and leaves the others.
pub bit-bit_or : (w k j : ℕ) → bit (bit_or w (2 ^ k)) j ≡ (if k == j then 1 else bit w j)
unfolding bit
bit-bit_or w zero zero = omega (arith, or_digit w 1)
bit-bit_or w zero (suc j) = ground (arith, ap (λ t. bit t j) (bit_or_one w))
bit-bit_or w (suc k) zero = ground (arith, bit_or_parity w k)
bit-bit_or w (suc k) (suc j) = rw (bit_or_half w k) (ground (arith, bit-bit_or (w / 2) k j))

-- Clearing bit `k` clears it and leaves the others.
pub bit-and_not : (w k j : ℕ) → bit (and_not w (2 ^ k)) j ≡ (if k == j then 0 else bit w j)
unfolding bit
bit-and_not w zero zero = omega (arith, and_digit w 1, bit_and-zero (w / 2))
bit-and_not w zero (suc j) = ground (arith, ap (λ t. bit t j) (and_not_one w))
bit-and_not w (suc k) zero = ground (arith, and_not_parity w k)
bit-and_not w (suc k) (suc j) = rw (and_not_half w k) (ground (arith, bit-and_not (w / 2) k j))

pub pow-pos : (k : ℕ) → 0 < 2 ^ k
pow-pos zero = omega arith
pow-pos (suc k) = omega (arith, pow-suc 2 k, pow-pos k)

-- `w & 1<<k != 0` tests bit `k`.
pub test_bit : (w k : ℕ) → (bit_and w (2 ^ k) == 0) ≡ (bit w k == 0)
test_bit w k = elim (Bool-cases (bit w k == 0)) [
  | inl e ↦ ground (arith, bit_and-pow w k)
  | inr e ↦ ground (arith, bit_and-pow w k, bit-lt-two w k, pow-pos k)
]

-- All bits of `2 ^ n - 1` below `n` are set.
pub bit-ones : (n k : ℕ) → k < n → bit (2 ^ n - 1) k ≡ 1
unfolding bit
bit-ones zero k h = elim h [ ]
bit-ones (suc n) zero h = omega (arith, pow-suc 2 n, pow-pos n)
bit-ones (suc n) (suc k) h =
    let e : (2 ^ suc n - 1) / 2 ≡ 2 ^ n - 1 = omega (arith, pow-suc 2 n, pow-pos n) in
    rw e (bit-ones n k (omega arith))

pub bit-zero : (k : ℕ) → bit 0 k ≡ 0
unfolding bit
bit-zero zero = refl
bit-zero (suc k) = bit-zero k
