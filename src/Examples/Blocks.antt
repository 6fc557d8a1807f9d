-- ===== src/Examples/Blocks.antt =====
-- The slot allocator of internal/service/allocator.go over 16 slots.
use novanet.Base.{ℕ, ◌≡◌, refl, true, false, ◌||◌, [], ◌∷◌, ok, arith}
use novanet.Service.Slots.{SlotAllocator, alloc, free}
use novanet.Service.Slots.Cover.{covers}
use novanet.Service.Slots.Alloc.{IsValid, in_block, Allocs, alloc-Allocs}
use novanet.Service.Slots.RoundTrip.{free_lem, alloc-free}

-- Slots 0 to 3 and 6 to 15 are free.
abbrev slots : SlotAllocator
slots = record {
  max_slots = 16;
  free = record { offset = 0; count = 4 } ∷ record { offset = 6; count = 10 } ∷ [];
}

slots-IsValid : IsValid slots
slots-IsValid = record {
  small = omega arith;
  apart = (omega arith, omega arith, omega arith, (omega arith, omega arith, omega arith, tt));
}

alloc_test : (alloc slots 5).1 ≡ ok 6
unfolding alloc
alloc_test = refl

free_test :
    free slots 4 2 ≡ record { max_slots = 16; free = record { offset = 0; count = 16 } ∷ [] }
unfolding free
free_test = refl

alloc_example : IsValid (alloc slots 5).0 × Allocs 5 slots (alloc slots 5).0 (alloc slots 5).1
alloc_example = alloc-Allocs slots 5 slots-IsValid

used_block : (s : ℕ) → in_block 4 2 s ≡ true → covers slots.free s ≡ false
unfolding covers
used_block s h = ground arith

free_example :
    IsValid (free slots 4 2)
    × ((s : ℕ) → covers (free slots 4 2).free s ≡ (covers slots.free s || in_block 4 2 s))
free_example = free_lem slots 4 2 slots-IsValid (omega arith) (omega arith) used_block

alloc-free_example : free (alloc slots 5).0 6 5 ≡ slots
alloc-free_example = alloc-free slots 5 6 slots-IsValid (omega arith) alloc_test
