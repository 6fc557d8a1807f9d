-- ===== src/Service/Slots/RoundTrip.antt =====
-- `Alloc` and `Free` of internal/service/allocator.go together.
use mathlib.Core.List.{reverse}
use mathlib.Core.Path.{ap₂, subst}
use novanet.Base.{
  ℕ, ◌+◌, ◌^◌, ◌≤◌, ◌<◌, ◌≡◌, refl, sym, ◌∙◌, Bool, true, false, ◌||◌, List, [], ◌∷◌, ◌++◌, arith,
  dec_lt, ok,
}
use novanet.Service.Slots.{SlotRange, SlotAllocator, sort, alloc, merge_loop, merge_step, free}
use novanet.Service.Slots.Cover.{end, covers, Ordered, covers_below}
use novanet.Service.Slots.Alloc.{IsValid, in_block, Allocs, alloc-Allocs}
use novanet.Service.Slots.Free.{
  fuse-Fused, merge_loop-fuse, sort-Ordered, covers-sort, covers-append,
}

merged_lem :
    (limit : ℕ) (rs : List SlotRange)
    → limit < 2 ^ 32
    → Ordered 0 limit 0 rs
    → Ordered 1 limit 0 (reverse (merge_loop [] rs))
      × ((s : ℕ) → covers (reverse (merge_loop [] rs)) s ≡ covers rs s)
unfolding merge_loop merge_step
merged_lem limit [] small o = (tt, λ s. refl)
merged_lem limit (r ∷ rs) small o = rw (merge_loop-fuse r [] rs) (fuse-Fused limit 0 r rs small o)

-- `Free` of a block of at least one slot within the array, none of which is free, keeps the allocator valid, with
-- neighbouring ranges merged; exactly the slots of the block are free besides those before.
pub free_lem :
    (a : SlotAllocator) (offset count : ℕ)
    → IsValid a
    → 0 < count
    → offset + count ≤ a.max_slots
    → ((s : ℕ) → in_block offset count s ≡ true → covers a.free s ≡ false)
    → IsValid (free a offset count)
      × ((s : ℕ)
          → covers (free a offset count).free s ≡ (covers a.free s || in_block offset count s))
unfolding free covers
free_lem a offset count v pos fits used =
    let block : SlotRange = record { offset = offset; count = count } in
    let sorted : List SlotRange = sort (a.free ++ block ∷ []) in
    let (o, w) =
      merged_lem a.max_slots sorted v.small
        (sort-Ordered a.max_slots 0 a.free block pos fits used v.apart) in
    (
      record { small = v.small; apart = o },
      λ s.
          w s
          ∙ covers-sort (a.free ++ block ∷ []) s
          ∙ covers-append a.free (block ∷ []) s
          ∙ or_false (covers a.free s) (in_block offset count s),
    )
  where
    or_false : (p q : Bool) → (p || (q || false)) ≡ (p || q)
    or_false p q = ground arith

same_range : (x y : SlotRange) → x.offset ≡ y.offset → end x ≡ end y → x ≡ y
same_range x y p q = ground arith

module _ (limit : ℕ) (x y : SlotRange) (xs ys : List SlotRange) where
  -- The slots tell where the first range begins, and where it ends.
  not_before :
      Ordered 1 limit x.offset (x ∷ xs)
      → Ordered 1 limit y.offset (y ∷ ys)
      → ((s : ℕ) → covers (x ∷ xs) s ≡ covers (y ∷ ys) s)
      → y.offset ≤ x.offset
  unfolding covers
  not_before o p h = elim (dec_lt x.offset y.offset) [
    | no l ↦ omega arith
    | yes l ↦
        absurd (ground (arith, h x.offset, covers_below 1 limit y.offset (y ∷ ys) x.offset p l))
  ]

  not_shorter :
      x.offset ≡ y.offset
      → Ordered 1 limit x.offset (x ∷ xs)
      → ((s : ℕ) → covers (x ∷ xs) s ≡ covers (y ∷ ys) s)
      → end y ≤ end x
  unfolding covers
  not_shorter e o h = elim (dec_lt (end x) (end y)) [
    | no l ↦ omega arith
    | yes l ↦
        absurd
          (ground (arith, h (end x), covers_below 1 limit (end x + 1) xs (end x) o.3 (omega arith)))
  ]

-- Ranges that are apart are determined by the slots that they cover.
Ordered-unique :
    (limit lo : ℕ) (xs ys : List SlotRange)
    → Ordered 1 limit lo xs
    → Ordered 1 limit lo ys
    → ((s : ℕ) → covers xs s ≡ covers ys s)
    → xs ≡ ys
unfolding covers
Ordered-unique limit lo [] [] o p h = refl
Ordered-unique limit lo [] (y ∷ ys) o p h = absurd (ground (arith, h y.offset))
Ordered-unique limit lo (x ∷ xs) [] o p h = absurd (ground (arith, h x.offset))
Ordered-unique limit lo (x ∷ xs) (y ∷ ys) (a, b, c, d) (a', b', c', d') h =
    let o : Ordered 1 limit x.offset (x ∷ xs) = (omega arith, b, c, d) in
    let p : Ordered 1 limit y.offset (y ∷ ys) = (omega arith, b', c', d') in
    let l : y.offset ≤ x.offset = not_before limit x y xs ys o p h in
    let l' : x.offset ≤ y.offset = not_before limit y x ys xs p o (λ s. sym (h s)) in
    let first : x.offset ≡ y.offset = omega arith in
    let m : end y ≤ end x = not_shorter limit x y xs ys first o h in
    let m' : end x ≤ end y = not_shorter limit y x ys xs (sym first) p (λ s. sym (h s)) in
    let last : end x ≡ end y = omega arith in
    let same : x ≡ y = same_range x y first last in
    ap₂ ◌∷◌ same (
      Ordered-unique limit (end x + 1) xs ys d (rw last d') (λ s. elim (dec_lt s (end x + 1)) [
        | yes k ↦
            covers_below 1 limit (end x + 1) xs s d k
            ∙ sym (covers_below 1 limit (end y + 1) ys s d' (omega arith))
        | no k ↦ ground (arith, h s)
      ]))

same_allocator : {a b : SlotAllocator} → a.max_slots ≡ b.max_slots → a.free ≡ b.free → a ≡ b
same_allocator p q = λ i. record { max_slots = p i; free = q i }

kept : (a : SlotAllocator) (offset count : ℕ) → (free a offset count).max_slots ≡ a.max_slots
unfolding free
kept a offset count = refl

-- A block of at least one slot that `Alloc` hands out of a valid allocator, given back by `Free`,
-- leaves the allocator just as it was: the same ranges in the same order.
pub alloc-free :
    (a : SlotAllocator) (count offset : ℕ)
    → IsValid a
    → 0 < count
    → (alloc a count).1 ≡ ok offset
    → free (alloc a count).0 offset count ≡ a
alloc-free a count offset v pos e =
    let (v', k) = alloc-Allocs a count v in restored (alloc a count).0 v' (rw e at k)
  where
    restored :
        (a' : SlotAllocator) → IsValid a' → Allocs count a a' (ok offset) → free a' offset count ≡ a
    restored a' v' (n, fits, was, now) =
        let (w, back) =
          free_lem a' offset count v' pos (omega arith) (λ s m. ground (arith, now s)) in
        same_allocator (kept a' offset count ∙ n) (
          Ordered-unique a.max_slots 0 _ _
            (subst (λ m. Ordered 1 m 0 (free a' offset count).free) (kept a' offset count ∙ n)
              w.apart)
            v.apart (λ s. back s ∙ ground (arith, now s, was s)))
