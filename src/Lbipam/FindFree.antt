-- ===== src/Lbipam/FindFree.antt =====
-- `findFree` of internal/lbipam/allocator.go finds the least free index.
use novanet.Base.{
  ℕ, zero, suc, ◌+◌, ◌-◌, ◌*◌, ◌/◌, ◌^◌, ◌≤◌, ◌<◌, ◌≡◌, ◌≢◌, ap, ◌∙◌, inl, inr, true, not, none,
  some, List, [], ◌∷◌, arith, ◌==◌, leb, if◌then◌else◌, length, Bool-cases, ==_iff,
}
use native.Mathlib.Nat.{pow-suc}
use novanet.Base.Bits.{bit, pow-pos}
use novanet.Base.Counting.{LeastFree, LeastFree-unique, LeastFree-ext}
use novanet.Ipam.Bitmap.{Bitmap, find_free}
use novanet.Ipam.Bitmap.Laws.{IsValid, is_set, find_free-LeastFree}
use novanet.Ipam.Bitmap.FindFree.{
  word_bit, SetFrom, row_bit, LeastFree-tail, all_ones-SetFrom, row_bit-set, word_bit-head,
}
use novanet.Lbipam.{lb_find_from, lb_find_free}

-- `bits.TrailingZeros64` of a word that is not 0 is the index of its lowest bit.
abbrev pub IsTrailingZeros : (ℕ → ℕ) → Type 0
IsTrailingZeros trailing_zeros =
    (w : ℕ)
    → w < 2 ^ 64
    → w ≢ 0
    → (trailing_zeros w < 64)
      × (bit w (trailing_zeros w) ≡ 1)
      × ((j : ℕ) → j < trailing_zeros w → bit w j ≡ 0)

abbrev pub AreWords : List ℕ → Type 0
AreWords [] = Unit
AreWords (w ∷ words) = (w < 2 ^ 64) × AreWords words

-- The complement of a word has the bits that the word does not have.
bit-complement : (n w j : ℕ) → w < 2 ^ n → j < n → bit (2 ^ n - 1 - w) j + bit w j ≡ 1
unfolding bit
bit-complement zero w j h l = absurd (omega arith)
bit-complement (suc n) w zero h l = omega (arith, pow-suc 2 n, pow-pos n)
bit-complement (suc n) w (suc j) h l =
    let e : (2 ^ suc n - 1 - w) / 2 ≡ 2 ^ n - 1 - w / 2 = omega (arith, pow-suc 2 n, pow-pos n) in
    rw e (bit-complement n (w / 2) j (omega (arith, pow-suc 2 n)) (omega arith))

module _ (trailing_zeros : ℕ → ℕ) (zeros : IsTrailingZeros trailing_zeros) where
  -- A word with a free bit: the first free bit, in the word or past the size.
  found_in_word :
      (i w size : ℕ) (words : List ℕ)
      → w < 2 ^ 64
      → 2 ^ 64 - 1 - w ≢ 0
      → LeastFree (row_bit i (w ∷ words)) (i * 64) size (
          if leb size (i * 64 + trailing_zeros (2 ^ 64 - 1 - w))
          then none
          else some (i * 64 + trailing_zeros (2 ^ 64 - 1 - w)))
  found_in_word i w size words h ne =
      let inv = 2 ^ 64 - 1 - w in
      let t = trailing_zeros inv in
      let (below, one, low) = zeros inv (omega arith) ne in
      let free : (bit w t == 0) ≡ true = ground (arith, bit-complement 64 w t h below, one) in
      let set : SetFrom 0 (i * 64) w (i * 64 + t) =
        λ j l m n. ground (arith, bit-complement 64 w j h m, low j (omega arith)) in
      elim (Bool-cases (leb size (i * 64 + t))) [
        | inl p ↦ rw p (λ j l n.
            let past : size ≤ i * 64 + t = ground arith in
            row_bit-set i w (i * 64 + t) words j set l (omega arith) (omega arith))
        | inr p ↦
            let within : i * 64 + t < size = ground arith in
            let offset : i * 64 + t - i * 64 ≡ t = omega arith in
            let free' : (bit w (i * 64 + t - i * 64) == 0) ≡ true = rw offset free in
            rw p (
              omega arith,
              within,
              word_bit-head w words (i * 64 + t - i * 64) (omega arith) ∙ ap not free',
              λ j l n. row_bit-set i w (i * 64 + t) words j set l (omega arith) n,
            )
      ]

  lb_find_from-LeastFree :
      (i : ℕ) (words : List ℕ) (size : ℕ)
      → AreWords words
      → size ≤ (i + length words) * 64
      → LeastFree (row_bit i words) (i * 64) size (lb_find_from trailing_zeros i words size)
  unfolding lb_find_from
  lb_find_from-LeastFree i [] size a h = λ j l n. absurd (omega arith)
  lb_find_from-LeastFree i (w ∷ words) size (wb, a) h = elim (Bool-cases (2 ^ 64 - 1 - w == 0)) [
    | inl e ↦
        let z = (==_iff (2 ^ 64 - 1 - w) 0).0 e in
        rw e (
          LeastFree-tail i w size words _ (all_ones-SetFrom (i * 64) w size (omega arith))
            (lb_find_from-LeastFree (i + 1) words size a (omega arith)))
    | inr e ↦ rw e (found_in_word i w size words wb (λ z. absurd (ground (arith, e, z))))
  ]

  -- Where TrailingZeros64 gives the lowest bit of a word: findFree of a bitmap whose words have 64 bits
  -- and cover its size returns what FindFree of the bitmap of ipam returns, which looks at bit after bit.
  pub lb_find_free-find_free :
      (b : Bitmap) → IsValid b → AreWords b.words → lb_find_free trailing_zeros b ≡ find_free b
  unfolding lb_find_free is_set
  lb_find_free-find_free b v a =
      LeastFree-unique (is_set b) 0 b.size (lb_find_free trailing_zeros b) (find_free b)
        (LeastFree-ext _ _ 0 b.size _ (λ j. ap (word_bit b.words) (omega arith))
          (lb_find_from-LeastFree 0 b.words b.size a (omega (arith, v.covered))))
        (find_free-LeastFree b v)
