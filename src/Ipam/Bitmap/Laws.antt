-- ===== src/Ipam/Bitmap/Laws.antt =====
-- The operations of internal/ipam/bitmap.go as operations on a set of indices.
use novanet.Base.{
  ℕ, suc, ◌+◌, ◌/◌, ◌%◌, ◌^◌, ◌<◌, ◌≡◌, refl, ap, ◌∙◌, ◌≢◌, bit_or, Bool, true, false, not, some,
  List, arith, ◌==◌, if◌then◌else◌, get_or, length, ℕ_discrete, get_elem?-eq-get_or,
  get_or-set_self, get_or-set_ne, length-set, length-replicate, get_or-replicate, set as set_elem,
}
use novanet.Base.Bits.{bit, test_bit, bit-bit_or, bit-and_not, and_not, bit-zero}
use novanet.Base.Counting.{LeastFree, LeastFree-ext, count_below, count_below_none, count_below_add}
use novanet.Ipam.Bitmap.{Bitmap, new_bitmap, set, clear, get, find_free}
use novanet.Ipam.Bitmap.FindFree.{word_bit, find_from-LeastFree}

-- There is a word for every index below the size.
pub record IsValid (b : Bitmap) : Type 0 where
  pub covered : length b.words ≡ (b.size + 63) / 64

-- Whether an index is in the set.
unfoldable pub is_set : Bitmap → ℕ → Bool
is_set b j = word_bit b.words j

pub new_bitmap-IsValid : (size : ℕ) → IsValid (new_bitmap size)
unfolding new_bitmap
new_bitmap-IsValid size = record { covered = length-replicate ((size + 63) / 64) 0 }

pub is_set-new_bitmap : (size j : ℕ) → is_set (new_bitmap size) j ≡ false
unfolding new_bitmap is_set word_bit
is_set-new_bitmap size j =
    rw (get_or-replicate {A = ℕ} ((size + 63) / 64) (j / 64) 0, bit-zero (j % 64))

word_bit-set_elem_ne :
    (ws : List ℕ) (i j v : ℕ)
    → i / 64 ≢ j / 64
    → word_bit (set_elem ws (i / 64) v) j ≡ word_bit ws j
unfolding word_bit
word_bit-set_elem_ne ws i j v h = rw (get_or-set_ne ws (i / 64) (j / 64) v 0 h)

word_bit-set_elem_eq :
    (ws : List ℕ) (i j v : ℕ)
    → i / 64 < length ws
    → i / 64 ≡ j / 64
    → word_bit (set_elem ws (i / 64) v) j ≡ not (bit v (j % 64) == 0)
unfolding word_bit
word_bit-set_elem_eq ws i j v l e = rw (← e, get_or-set_self ws (i / 64) v 0 l)

-- One word rewritten by an operation on the bit of `i`, which leaves the other bits.
module _ (ws : List ℕ) (i v : ℕ) (h : i / 64 < length ws) (on : Bool) where
  rewritten : List ℕ
  rewritten = set_elem ws (i / 64) v

  word_bit-rewritten :
      (j : ℕ)
      → (bit v (j % 64) == 0)
        ≡ (if i % 64 == j % 64 then not on else bit (get_or ws (i / 64) 0) (j % 64) == 0)
      → word_bit rewritten j ≡ (if i == j then on else word_bit ws j)
  unfolding rewritten
  word_bit-rewritten j e = elim (ℕ_discrete (i / 64) (j / 64)) [
    | no p ↦ ground (arith, word_bit-set_elem_ne ws i j v p)
    | yes p ↦ elim (ℕ_discrete i j) [
      | yes q ↦ ground (arith, word_bit-set_elem_eq ws i j v h p)
      | no q ↦ ground (arith, word_bit-set_elem_eq ws i j v h p, same_word j p)
    ]
  ]
    where
      same_word :
          (j : ℕ) → i / 64 ≡ j / 64 → word_bit ws j ≡ not (bit (get_or ws (i / 64) 0) (j % 64) == 0)
      same_word j p = unfold word_bit in rw p

-- `Get` does not panic below the size, and reads membership.
pub get_lem : (b : Bitmap) (i : ℕ) → IsValid b → i < b.size → get b i ≡ some (is_set b i)
unfolding get is_set word_bit
get_lem b i v h = rw (get_elem?-eq-get_or b.words (i / 64) 0 (omega arith), test_bit)

-- `b'` is `b` with index `i` put in or taken out.
pub record Updates (on : Bool) (i : ℕ) (b b' : Bitmap) : Type 0 where
  pub valid : IsValid b'
  pub same_size : b'.size ≡ b.size
  pub bits : (j : ℕ) → is_set b' j ≡ (if i == j then on else is_set b j)

module _ (b : Bitmap) (i : ℕ) (v : IsValid b) (h : i < b.size) where
  in_range : i / 64 < length b.words
  in_range = omega arith

  -- On a valid bitmap `Set` does not panic below the size; it keeps the bitmap valid and adds that
  -- index alone.
  pub set_lem : (b' : Bitmap) × (set b i ≡ some b') × Updates true i b b'
  unfolding set is_set rewritten
  set_lem =
      let word : ℕ = get_or b.words (i / 64) 0 in
      (
        record b { words = set_elem b.words (i / 64) (bit_or word (2 ^ (i % 64))) },
        rw (get_elem?-eq-get_or b.words (i / 64) 0 in_range),
        record {
          valid = record { covered = length-set b.words (i / 64) _ ∙ v.covered };
          same_size = refl;
          bits = λ j.
              word_bit-rewritten b.words i _ in_range true j
                (ground (arith, bit-bit_or word (i % 64) (j % 64)));
        },
      )

  -- On a valid bitmap `Clear` does not panic below the size; it keeps the bitmap valid and takes
  -- that index alone out.
  pub clear_lem : (b' : Bitmap) × (clear b i ≡ some b') × Updates false i b b'
  unfolding clear is_set rewritten
  clear_lem =
      let word : ℕ = get_or b.words (i / 64) 0 in
      (
        record b { words = set_elem b.words (i / 64) (and_not word (2 ^ (i % 64))) },
        rw (get_elem?-eq-get_or b.words (i / 64) 0 in_range),
        record {
          valid = record { covered = length-set b.words (i / 64) _ ∙ v.covered };
          same_size = refl;
          bits = λ j.
              word_bit-rewritten b.words i _ in_range false j
                (ground (arith, bit-and_not word (i % 64) (j % 64)));
        },
      )

-- On a valid bitmap `FindFree` returns the least index below the size that is not in the set, and -1 if there is none.
pub find_free-LeastFree : (b : Bitmap) → IsValid b → LeastFree (is_set b) 0 b.size (find_free b)
unfolding find_free is_set
find_free-LeastFree b v =
    LeastFree-ext _ _ 0 b.size _ (λ j. ap (word_bit b.words) (omega arith))
      (find_from-LeastFree 0 b.words b.size (omega arith))

-- How many indices are in the set.
unfoldable pub count : Bitmap → ℕ
count b = count_below b.size (is_set b)

pub count-new_bitmap : (size : ℕ) → count (new_bitmap size) ≡ 0
unfolding count
count-new_bitmap size = count_below_none _ _ (is_set-new_bitmap size)

module _ {b b' : Bitmap} (i : ℕ) (h : i < b.size) where
  pub count_set : is_set b i ≡ false → Updates true i b b' → count b' ≡ suc (count b)
  unfolding count
  count_set off u = simp u.same_size (
      count_below_add b.size (is_set b) (is_set b') i h off (ground (arith, u.bits i))
        (λ j n. ground (arith, u.bits j)))

  pub count_clear : is_set b i ≡ true → Updates false i b b' → count b ≡ suc (count b')
  unfolding count
  count_clear on u = simp u.same_size (
      count_below_add b.size (is_set b') (is_set b) i h (ground (arith, u.bits i)) on
        (λ j n. ground (arith, u.bits j)))

-- Setting a free index and clearing it again leads back to the same set.
pub Updates-undo :
    {b b' b'' : Bitmap} (i : ℕ)
    → is_set b i ≡ false
    → Updates true i b b'
    → Updates false i b' b''
    → (j : ℕ) → is_set b'' j ≡ is_set b j
Updates-undo i off u w j = ground (arith, u.bits j, w.bits j, off)
