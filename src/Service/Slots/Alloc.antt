-- ===== src/Service/Slots/Alloc.antt =====
-- `Alloc` of internal/service/allocator.go.
use novanet.Base.{
  ℕ, ◌+◌, ◌-◌, ◌%◌, ◌^◌, ◌≤◌, ◌<◌, ◌≡◌, refl, inl, inr, Bool, true, false, not, ◌&&◌, Option, none,
  some, List, [], ◌∷◌, ◌==◌, leb, ltb, arith, Bool-cases, dec_lt, Result, ok, err,
}
use novanet.Service.Slots.{SlotRange, SlotAllocator, Error, alloc_from, alloc}
use novanet.Service.Slots.Cover.{end, covers, Ordered, Ordered-weaken, covers_below}

-- The free ranges are apart, not empty, and within the array.
pub record IsValid (a : SlotAllocator) : Type 0 where
  pub small : a.max_slots < 2 ^ 32
  pub apart : Ordered 1 a.max_slots 0 a.free

-- Whether a slot is in a block.
abbrev pub in_block : ℕ → ℕ → ℕ → Bool
in_block offset count s = leb offset s && ltb s (offset + count)

-- No range is long enough.
abbrev pub AllShort : ℕ → List SlotRange → Type 0
AllShort count [] = Unit {0}
AllShort count (r ∷ rs) = (r.count < count) × AllShort count rs

-- What the loop gives: the block lies in the free slots, and exactly it is cut out of them.
abbrev Cuts : ℕ → ℕ → ℕ → List SlotRange → Option (ℕ × List SlotRange) → Type 0
Cuts count limit lo rs none = AllShort count rs
Cuts count limit lo rs (some (offset, rs')) =
    Ordered 1 limit lo rs'
    × (lo ≤ offset)
    × (offset + count ≤ limit)
    × ((s : ℕ) → in_block offset count s ≡ true → covers rs s ≡ true)
    × ((s : ℕ) → covers rs' s ≡ (covers rs s && not (in_block offset count s)))

module _ (count limit lo : ℕ) (r : SlotRange) (rs : List SlotRange) where
  -- A range that is too short stays.
  skip :
      (o : Option (ℕ × List SlotRange))
      → r.count < count
      → Ordered 1 limit lo (r ∷ rs)
      → Cuts count limit (end r + 1) rs o
      → Cuts count limit lo
          (r ∷ rs)
          (elim o [ none ↦ none | some (offset, rs') ↦ some (offset, r ∷ rs') ])
  unfolding covers
  skip none h o k = (h, k)
  skip (some (offset, rs')) h (a, b, c, d) (p, q, t, u, v) =
      ((a, b, c, p), omega arith, t, λ s e. ground (arith, u s e), λ s. ground (arith, v s))

  module _ (small : limit < 2 ^ 32) (o : Ordered 1 limit lo (r ∷ rs)) where
    take_whole : r.count ≡ count → Cuts count limit lo (r ∷ rs) (some (r.offset, rs))
    unfolding covers
    take_whole e = (
      Ordered-weaken 1 limit (end r + 1) lo rs (omega arith) o.3,
      omega arith,
      omega arith,
      λ s h. ground arith,
      λ s. elim (dec_lt s (end r + 1)) [
        | yes l ↦ ground (arith, covers_below 1 limit (end r + 1) rs s o.3 l)
        | no l ↦ ground arith
      ],
    )

    take_part :
        count < r.count
        → Cuts count limit lo (r ∷ rs) (
            some (
              r.offset,
              record { offset = (r.offset + count) % 2 ^ 32; count = r.count - count } ∷ rs,
            ))
    unfolding covers
    take_part h =
        let w : (r.offset + count) % 2 ^ 32 ≡ r.offset + count = omega arith in
        rw w (
          (
            omega arith,
            omega arith,
            omega arith,
            Ordered-weaken 1 limit (end r + 1) _ rs (omega arith) o.3,
          ),
          omega arith,
          omega arith,
          λ s e. ground arith,
          λ s. elim (dec_lt s (end r + 1)) [
            | yes l ↦ ground (arith, covers_below 1 limit (end r + 1) rs s o.3 l)
            | no l ↦ ground arith
          ],
        )

alloc_from-Cuts :
    (count limit lo : ℕ) (rs : List SlotRange)
    → limit < 2 ^ 32
    → Ordered 1 limit lo rs
    → Cuts count limit lo rs (alloc_from count rs)
unfolding alloc_from
alloc_from-Cuts count limit lo [] small o = tt
alloc_from-Cuts count limit lo (r ∷ rs) small o = elim (dec_lt r.count count) [
  | yes short ↦
      let e : leb count r.count ≡ false = ground arith in
      rw e
        (skip count limit lo r rs _ short o (alloc_from-Cuts count limit (end r + 1) rs small o.3))
  | no fits ↦
      let e : leb count r.count ≡ true = ground arith in
      elim (Bool-cases (r.count == count)) [
        | inl whole ↦ rw (e, whole) (take_whole count limit lo r rs small o (ground arith))
        | inr part ↦ rw (e, part) (take_part count limit lo r rs small o (ground arith))
      ]
]

-- What `Alloc` may do: an error changes nothing, and every free range is too short; otherwise the
-- block was free, and exactly it is free no more.
abbrev pub Allocs : ℕ → SlotAllocator → SlotAllocator → Result Error ℕ → Type 0
Allocs count a a' (ok offset) =
    (a'.max_slots ≡ a.max_slots)
    × (offset + count ≤ a.max_slots)
    × ((s : ℕ) → in_block offset count s ≡ true → covers a.free s ≡ true)
    × ((s : ℕ) → covers a'.free s ≡ (covers a.free s && not (in_block offset count s)))
Allocs count a a' (err e) = (a' ≡ a) × AllShort count a.free

-- `Alloc` keeps the allocator valid, and hands out a block of free slots exactly when some free
-- range is long enough; a block of no slots is handed out too.
pub alloc-Allocs :
    (a : SlotAllocator) (count : ℕ)
    → IsValid a
    → IsValid (alloc a count).0 × Allocs count a (alloc a count).0 (alloc a count).1
unfolding alloc
alloc-Allocs a count v =
    by_result (alloc_from count a.free) refl
      (alloc_from-Cuts count a.max_slots 0 a.free v.small v.apart)
  where
    by_result :
        (o : Option (ℕ × List SlotRange))
        → alloc_from count a.free ≡ o
        → Cuts count a.max_slots 0 a.free o
        → IsValid (alloc a count).0 × Allocs count a (alloc a count).0 (alloc a count).1
    by_result none e k = rw (e, alloc) (v, (refl, k))
    by_result (some (offset, rs)) e (o, l, m, u, w) =
        rw (e, alloc) (record { small = v.small; apart = o }, (refl, m, u, w))
