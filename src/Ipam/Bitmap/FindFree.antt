-- ===== src/Ipam/Bitmap/FindFree.antt =====
-- `FindFree` of internal/ipam/bitmap.go against its specification.
use novanet.Base.{
  ℕ, zero, suc, ◌+◌, ◌-◌, ◌*◌, ◌/◌, ◌%◌, ◌^◌, ◌≤◌, ◌<◌, ◌≡◌, refl, ap, ◌∙◌, inl, inr, Bool, true,
  false, not, Option, none, some, List, [], ◌∷◌, arith, ◌==◌, leb, get_or, length, Bool-cases,
  dec_lt,
}
use novanet.Base.Bits.{bit, test_bit, bit-ones}
use novanet.Base.Counting.{LeastFree}
use novanet.Ipam.Bitmap.{Scan, found, past_size, full, scan_word, find_from}

-- Whether bit `j` of a row of words is set.
unfoldable pub word_bit : List ℕ → ℕ → Bool
word_bit words j = not (bit (get_or words (j / 64) 0) (j % 64) == 0)

pub word_bit-head :
    (w : ℕ) (ws : List ℕ) (j : ℕ) → j < 64 → word_bit (w ∷ ws) j ≡ not (bit w j == 0)
unfolding word_bit
word_bit-head w ws j h =
    let e : j / 64 ≡ 0 = omega arith in let f : j % 64 ≡ j = omega arith in rw (e, f)

word_bit-tail : (w : ℕ) (ws : List ℕ) (j k : ℕ) → j ≡ k + 64 → word_bit (w ∷ ws) j ≡ word_bit ws k
unfolding word_bit
word_bit-tail w ws j k h =
    let e : j / 64 ≡ suc (k / 64) = omega arith in
    let f : j % 64 ≡ k % 64 = omega arith in rw (e, f)

-- The bits from `lo` on that lie below the size are set.
abbrev pub SetFrom : ℕ → ℕ → ℕ → ℕ → Type 0
SetFrom lo base w size = (j : ℕ) → lo ≤ j → j < 64 → base + j < size → (bit w j == 0) ≡ false

abbrev Scans : ℕ → ℕ → ℕ → ℕ → Scan → Type 0
Scans lo base w size (found idx) =
    (base + lo ≤ idx)
    × (idx < base + 64)
    × (idx < size)
    × ((bit w (idx - base) == 0) ≡ true)
    × SetFrom lo base w idx
Scans lo base w size past_size = ((j : ℕ) → j < size → j < base + 64) × SetFrom lo base w size
Scans lo base w size full = SetFrom lo base w size

SetFrom-step :
    (lo base w size : ℕ)
    → (bit w lo == 0) ≡ false
    → SetFrom (lo + 1) base w size
    → SetFrom lo base w size
SetFrom-step lo base w size h rest j l m n = elim (dec_lt lo j) [
  | yes p ↦ rest j (omega arith) m n
  | no p ↦ let e : j ≡ lo = omega arith in rw e h
]

Scans-step :
    (lo base w size : ℕ) (r : Scan)
    → (bit w lo == 0) ≡ false
    → Scans (lo + 1) base w size r
    → Scans lo base w size r
Scans-step lo base w size (found idx) h (a, b, c, d, e) =
    (omega arith, b, c, d, SetFrom-step lo base w idx h e)
Scans-step lo base w size past_size h (a, b) = (a, SetFrom-step lo base w size h b)
Scans-step lo base w size full h b = SetFrom-step lo base w size h b

scan_word-Scans :
    (left lo base w size : ℕ)
    → lo + left ≡ 64
    → Scans lo base w size (scan_word left lo base w size)
unfolding scan_word
scan_word-Scans zero lo base w size e = λ j l m n. absurd (omega arith)
scan_word-Scans (suc left) lo base w size e = elim (Bool-cases (leb size (base + lo))) [
  | inl p ↦ rw p ((λ j l. ground arith), λ j l m n. absurd (ground arith))
  | inr p ↦
      rw (p, test_bit w lo)
        (elim (Bool-cases (bit w lo == 0)) [
          | inl q ↦ rw q (
            omega arith,
            omega arith,
            ground arith,
            let e : base + lo - base ≡ lo = omega arith in rw e q,
            λ j l m n. absurd (omega arith),
          )
          | inr q ↦ rw q (
              Scans-step lo base w size _ q
                (scan_word-Scans left (lo + 1) base w size (omega arith)))
        ])
]

-- The bits of the words from word `i` on, by their index in the whole row.
abbrev pub row_bit : ℕ → List ℕ → ℕ → Bool
row_bit i ws j = word_bit ws (j - i * 64)

pub row_bit-set :
    (i w size : ℕ) (ws : List ℕ) (j : ℕ)
    → SetFrom 0 (i * 64) w size
    → i * 64 ≤ j
    → j < i * 64 + 64
    → j < size
    → row_bit i (w ∷ ws) j ≡ true
row_bit-set i w size ws j all l m n =
    rw (word_bit-head w ws (j - i * 64) (omega arith))
      (ap not (all (j - i * 64) (omega arith) (omega arith) (omega arith)))

row_bit-tail :
    (i w : ℕ) (ws : List ℕ) (j : ℕ) → (i + 1) * 64 ≤ j → row_bit i (w ∷ ws) j ≡ row_bit (i + 1) ws j
row_bit-tail i w ws j h = word_bit-tail w ws (j - i * 64) (j - (i + 1) * 64) (omega arith)

-- Past a word with no free bit the search goes on in the rest.
pub LeastFree-tail :
    (i w size : ℕ) (ws : List ℕ) (r : Option ℕ)
    → SetFrom 0 (i * 64) w size
    → LeastFree (row_bit (i + 1) ws) ((i + 1) * 64) size r
    → LeastFree (row_bit i (w ∷ ws)) (i * 64) size r
LeastFree-tail i w size ws none all rest = λ j l n. elim (dec_lt j (i * 64 + 64)) [
  | yes m ↦ row_bit-set i w size ws j all l m n
  | no m ↦ row_bit-tail i w ws j (omega arith) ∙ rest j (omega arith) n
]
LeastFree-tail i w size ws (some k) all (a, b, c, d) = (
  omega arith,
  b,
  row_bit-tail i w ws k a ∙ c,
  λ j l n. elim (dec_lt j (i * 64 + 64)) [
    | yes m ↦ row_bit-set i w size ws j all l m (omega arith)
    | no m ↦ row_bit-tail i w ws j (omega arith) ∙ d j (omega arith) n
  ],
)

pub all_ones-SetFrom : (base w size : ℕ) → w ≡ 2 ^ 64 - 1 → SetFrom 0 base w size
all_ones-SetFrom base w size e j l m n = ground (arith, ap (λ t. bit t j) e, bit-ones 64 j m)

pub find_from-LeastFree :
    (i : ℕ) (ws : List ℕ) (size : ℕ)
    → size ≤ (i + length ws) * 64
    → LeastFree (row_bit i ws) (i * 64) size (find_from i ws size)
unfolding find_from
find_from-LeastFree i [] size h = λ j l n. absurd (omega arith)
find_from-LeastFree i (w ∷ ws) size h = elim (Bool-cases (w == 2 ^ 64 - 1)) [
  | inl e ↦ rw e (
      LeastFree-tail i w size ws _ (all_ones-SetFrom (i * 64) w size (ground arith))
        (find_from-LeastFree (i + 1) ws size (omega arith)))
  | inr e ↦ rw e (
      by_scan (scan_word 64 0 (i * 64) w size) (scan_word-Scans 64 0 (i * 64) w size refl)
        (find_from-LeastFree (i + 1) ws size (omega arith)))
]
  where
    by_scan :
        (r : Scan)
        → Scans 0 (i * 64) w size r
        → LeastFree (row_bit (i + 1) ws) ((i + 1) * 64) size (find_from (i + 1) ws size)
        → LeastFree
            (row_bit i (w ∷ ws))
            (i * 64)
            size
            (elim r [ found idx ↦ some idx | past_size ↦ none | full ↦ find_from (i + 1) ws size ])
    by_scan (found idx) (a, b, c, d, s) rest = (
      omega arith,
      c,
      word_bit-head w ws (idx - i * 64) (omega arith) ∙ ap not d,
      λ j l n. row_bit-set i w idx ws j s l (omega arith) n,
    )
    by_scan past_size (a, s) rest = λ j l n. row_bit-set i w size ws j s l (a j n) n
    by_scan full s rest = LeastFree-tail i w size ws _ s rest
