-- ===== src/Examples/Balancers.antt =====
-- The bitmap of internal/lbipam with one word, and a count of trailing zeros.
use novanet.Base.{
  ℕ, ◌/◌, ◌%◌, ◌^◌, ◌<◌, ◌≡◌, ◌≢◌, refl, zero, suc, [], ◌∷◌, ◌==◌, if◌then◌else◌, arith, inl, inr,
  Bool-cases,
}
use native.Mathlib.Nat.{pow-suc}
use novanet.Base.Bits.{bit}
use novanet.Ipam.Bitmap.{Bitmap, find_free}
use novanet.Lbipam.{lb_find_free}
use novanet.Lbipam.FindFree.{IsTrailingZeros, lb_find_free-find_free}

-- Halves the word until it is odd.
unfoldable count_zeros : ℕ → ℕ → ℕ
count_zeros zero w = 0
count_zeros (suc n) w = let rest = count_zeros n (w / 2) in if w % 2 == 1 then 0 else suc rest

zeros_below :
    (w k : ℕ)
    → w % 2 ≡ 0
    → ((j : ℕ) → j < k → bit (w / 2) j ≡ 0)
    → (j : ℕ) → j < suc k
    → bit w j ≡ 0
unfolding bit
zeros_below w k even low zero h = even
zeros_below w k even low (suc j) h = low j (omega arith)

count_zeros_lem :
    (n w : ℕ)
    → w < 2 ^ n
    → w ≢ 0
    → (count_zeros n w < n)
      × (bit w (count_zeros n w) ≡ 1)
      × ((j : ℕ) → j < count_zeros n w → bit w j ≡ 0)
unfolding count_zeros bit
count_zeros_lem zero w h ne = absurd (ne (omega arith))
count_zeros_lem (suc n) w h ne = elim (Bool-cases (w % 2 == 1)) [
  | inl odd ↦ rw odd (omega arith, ground arith, λ j l. absurd (omega arith))
  | inr even ↦
      let half : w / 2 ≢ 0 = λ z. ne (ground arith) in
      let (below, one, low) = count_zeros_lem n (w / 2) (omega (arith, pow-suc 2 n)) half in
      rw even (omega arith, one, zeros_below w _ (ground arith) low)
]

abbrev trailing_zeros : ℕ → ℕ
trailing_zeros = count_zeros 64

trailing_zeros-IsTrailingZeros : IsTrailingZeros trailing_zeros
trailing_zeros-IsTrailingZeros w h ne = count_zeros_lem 64 w h ne

-- The addresses 0, 1 and 3 of ten are taken.
abbrev taken : Bitmap
taken = record { words = 11 ∷ []; size = 10 }

lb_find_free-find_free_example : lb_find_free trailing_zeros taken ≡ find_free taken
lb_find_free-find_free_example =
    lb_find_free-find_free trailing_zeros trailing_zeros-IsTrailingZeros taken
      (record { covered = refl }) (omega arith, tt)
