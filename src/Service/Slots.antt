-- ===== src/Service/Slots.antt =====
-- internal/service/allocator.go: blocks of slots in the flat backend array. Sums are of uint32.
pub mod Cover
pub mod Alloc
pub mod Free
pub mod RoundTrip
use novanet.Base.{
  ℕ, zero, suc, ◌+◌, ◌-◌, ◌%◌, ◌^◌, Bool, ◌&&◌, Option, none, some, List, [], ◌∷◌, ◌++◌, Result, ok,
  err, ◌==◌, leb, ltb, if◌then◌else◌,
}
use mathlib.Core.List.{reverse}

pub data Error : Type 0 where
  no_free_slots : Error

pub record SlotRange : Type 0 where
  pub offset : ℕ
  pub count : ℕ

pub record SlotAllocator : Type 0 where
  pub max_slots : ℕ
  pub free : List SlotRange

unfoldable pub new_slot_allocator : ℕ → SlotAllocator
new_slot_allocator max_slots = record {
  max_slots = max_slots;
  free = record { offset = 0; count = max_slots } ∷ [];
}

-- The loop of `Alloc`: the offset, and the list with the first range that fits cut or removed.
unfoldable pub alloc_from : ℕ → List SlotRange → Option (ℕ × List SlotRange)
alloc_from count [] = none
alloc_from count (r ∷ rs) =
    let rest = alloc_from count rs in
    if leb count r.count
    then if r.count == count
      then some (r.offset, rs)
      else some
          (r.offset, record { offset = (r.offset + count) % 2 ^ 32; count = r.count - count } ∷ rs)
    else elim rest [ none ↦ none | some (offset, rs') ↦ some (offset, r ∷ rs') ]

unfoldable pub alloc : SlotAllocator → ℕ → SlotAllocator × Result Error ℕ
unfolding alloc_from
alloc a count = elim (alloc_from count a.free) [
  | none ↦ (a, err no_free_slots)
  | some (offset, rs) ↦ (record a { free = rs }, ok offset)
]

-- `sort.Slice` by the offset.
unfoldable pub sort_in : SlotRange → List SlotRange → List SlotRange
sort_in x [] = x ∷ []
sort_in x (y ∷ ys) = if leb x.offset y.offset then x ∷ y ∷ ys else y ∷ sort_in x ys

unfoldable pub sort : List SlotRange → List SlotRange
unfolding sort_in
sort [] = []
sort (x ∷ xs) = sort_in x (sort xs)

-- One round of `merge`; the last range that was merged stands first.
unfoldable pub merge_step : List SlotRange → SlotRange → List SlotRange
merge_step [] r = r ∷ []
merge_step (m ∷ merged) r =
    if (m.offset + m.count) % 2 ^ 32 == r.offset
    then record m { count = (m.count + r.count) % 2 ^ 32 } ∷ merged
    else r ∷ m ∷ merged

unfoldable pub merge_loop : List SlotRange → List SlotRange → List SlotRange
unfolding merge_step
merge_loop merged [] = merged
merge_loop merged (r ∷ rs) = merge_loop (merge_step merged r) rs

unfoldable pub merge : SlotAllocator → SlotAllocator
unfolding merge_loop
merge a = record a { free = reverse (merge_loop [] a.free) }

unfoldable pub free : SlotAllocator → ℕ → ℕ → SlotAllocator
unfolding merge sort
free a offset count =
    merge (record a { free = sort (a.free ++ record { offset = offset; count = count } ∷ []) })
