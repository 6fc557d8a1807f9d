-- ===== src/Ipam/Bitmap.antt =====
-- internal/ipam/bitmap.go. A word is a number below 2^64. An index is a number, as its callers
-- check the sign; a word out of range is a panic. `none` is also the -1 of `FindFree`.
pub mod FindFree
pub mod Laws
use novanet.Base.{
  ℕ, zero, suc, ◌+◌, ◌-◌, ◌*◌, ◌/◌, ◌%◌, ◌^◌, bit_and, bit_or, Bool, not, Option, none, some, List,
  [], ◌∷◌, ◌>>=◌, ◌==◌, leb, if◌then◌else◌, get_elem?, set as set_elem, replicate,
}
use novanet.Base.Bits.{and_not}

pub record Bitmap : Type 0 where
  pub words : List ℕ
  pub size : ℕ

unfoldable pub new_bitmap : ℕ → Bitmap
new_bitmap size = record { words = replicate ((size + 63) / 64) 0; size = size }

unfoldable pub set : Bitmap → ℕ → Option Bitmap
set b idx = do
  word ← get_elem? b.words (idx / 64)
  some (record b { words = set_elem b.words (idx / 64) (bit_or word (2 ^ (idx % 64))) })

unfoldable pub clear : Bitmap → ℕ → Option Bitmap
clear b idx = do
  word ← get_elem? b.words (idx / 64)
  some (record b { words = set_elem b.words (idx / 64) (and_not word (2 ^ (idx % 64))) })

unfoldable pub get : Bitmap → ℕ → Option Bool
get b idx = do word ← get_elem? b.words (idx / 64); some (not (bit_and word (2 ^ (idx % 64)) == 0))

-- What the loop over the bits of a word comes to: an index to return, the -1 past the size, or
-- the next word.
pub data Scan : Type 0 where
  found : ℕ → Scan
  past_size : Scan
  full : Scan

-- The inner loop of `FindFree`, by the bits left; `base` is `i*64`.
unfoldable pub scan_word : ℕ → ℕ → ℕ → ℕ → ℕ → Scan
scan_word zero bit base word size = full
scan_word (suc left) bit base word size =
    let rest = scan_word left (bit + 1) base word size in
    let idx = base + bit in
    if leb size idx then past_size else if bit_and word (2 ^ bit) == 0 then found idx else rest

-- The outer loop, from word `i`.
unfoldable pub find_from : ℕ → List ℕ → ℕ → Option ℕ
unfolding scan_word
find_from i [] size = none
find_from i (word ∷ words) size =
    let rest = find_from (i + 1) words size in
    if word == 2 ^ 64 - 1 then rest else elim (scan_word 64 0 (i * 64) word size) [
      | found idx ↦ some idx
      | past_size ↦ none
      | full ↦ rest
    ]

unfoldable pub find_free : Bitmap → Option ℕ
unfolding find_from
find_free b = find_from 0 b.words b.size
