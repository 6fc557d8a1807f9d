-- ===== src/Service/Slots/Free.antt =====
-- `Free` and `merge` of internal/service/allocator.go.
use mathlib.Core.List.{reverse, reverse-cons, append_assoc}
use novanet.Base.{
  ℕ, ◌+◌, ◌%◌, ◌^◌, ◌≤◌, ◌<◌, ◌≡◌, refl, ap, ◌∙◌, inl, inr, true, false, ◌||◌, List, [], ◌∷◌, ◌++◌,
  ◌==◌, leb, if◌then◌else◌, arith, Bool-cases,
}
use novanet.Service.Slots.{SlotRange, sort_in, sort, merge_step, merge_loop}
use novanet.Service.Slots.Cover.{end, in_range, covers, Ordered, Ordered-weaken, covers_below}

pub covers-append :
    (xs ys : List SlotRange) (s : ℕ) → covers (xs ++ ys) s ≡ (covers xs s || covers ys s)
unfolding covers
covers-append [] ys s = ground arith
covers-append (x ∷ xs) ys s = ground (arith, covers-append xs ys s)

covers-sort_in :
    (x : SlotRange) (ys : List SlotRange) (s : ℕ)
    → covers (sort_in x ys) s ≡ (in_range x s || covers ys s)
unfolding covers sort_in
covers-sort_in x [] s = refl
covers-sort_in x (y ∷ ys) s = elim (Bool-cases (leb x.offset y.offset)) [
  | inl e ↦ rw e
  | inr e ↦ rw e (ground (arith, covers-sort_in x ys s))
]

pub covers-sort : (xs : List SlotRange) (s : ℕ) → covers (sort xs) s ≡ covers xs s
unfolding covers sort
covers-sort [] s = refl
covers-sort (x ∷ xs) s = ground (arith, covers-sort_in x (sort xs) s, covers-sort xs s)

-- A range goes into its place among ranges that it does not meet.
sort_in-Ordered :
    (limit lo : ℕ) (x : SlotRange) (ys : List SlotRange)
    → lo ≤ x.offset
    → 0 < x.count
    → end x ≤ limit
    → ((s : ℕ) → in_range x s ≡ true → covers ys s ≡ false)
    → Ordered 0 limit lo ys
    → Ordered 0 limit lo (sort_in x ys)
unfolding covers sort_in
sort_in-Ordered limit lo x [] l p h d o = (l, p, h, tt)
sort_in-Ordered limit lo x (y ∷ ys) l p h d (a, b, c, r) =
    elim (Bool-cases (leb x.offset y.offset)) [
      | inl e ↦ rw e (l, p, h, (ground (arith, d y.offset), b, c, r))
      | inr e ↦ rw e (
        a,
        b,
        c,
        sort_in-Ordered limit (end y + 0) x ys (ground (arith, d x.offset)) p h
            (λ s m. ground (arith, d s m)) r,
      )
    ]

pub sort-Ordered :
    (limit lo : ℕ) (rs : List SlotRange) (x : SlotRange)
    → 0 < x.count
    → end x ≤ limit
    → ((s : ℕ) → in_range x s ≡ true → covers rs s ≡ false)
    → Ordered 1 limit lo rs
    → Ordered 0 limit 0 (sort (rs ++ x ∷ []))
unfolding sort covers
sort-Ordered limit lo [] x p h d o = sort_in-Ordered limit 0 x [] (omega arith) p h d tt
sort-Ordered limit lo (r ∷ rs) x p h d (a, b, c, o) =
    sort_in-Ordered limit 0 r (sort (rs ++ x ∷ [])) (omega arith) b c
      (λ s m. ground (
        arith,
        covers-sort (rs ++ x ∷ []) s,
        covers-append rs (x ∷ []) s,
        covers_below 1 limit (end r + 1) rs s o,
        d s,
      ))
      (sort-Ordered limit (end r + 1) rs x p h (λ s m. ground (arith, d s m)) o)

-- What the loop of `merge` makes of the ranges after the last one that it has merged.
unfoldable pub fuse : SlotRange → List SlotRange → List SlotRange
fuse m [] = m ∷ []
fuse m (r ∷ rs) =
    if (m.offset + m.count) % 2 ^ 32 == r.offset
    then fuse (record m { count = (m.count + r.count) % 2 ^ 32 }) rs
    else m ∷ fuse r rs

pub merge_loop-fuse :
    (m : SlotRange) (ms rs : List SlotRange)
    → reverse (merge_loop (m ∷ ms) rs) ≡ reverse ms ++ fuse m rs
unfolding merge_loop merge_step fuse
merge_loop-fuse m ms [] = reverse-cons m ms
merge_loop-fuse m ms (r ∷ rs) = elim (Bool-cases ((m.offset + m.count) % 2 ^ 32 == r.offset)) [
  | inl e ↦ rw e (merge_loop-fuse (record m { count = (m.count + r.count) % 2 ^ 32 }) ms rs)
  | inr e ↦ rw e (
      merge_loop-fuse r (m ∷ ms) rs
      ∙ ap (λ t. t ++ fuse r rs) (reverse-cons m ms)
      ∙ append_assoc (reverse ms) (m ∷ []) (fuse r rs))
]

abbrev pub Fused : ℕ → ℕ → SlotRange → List SlotRange → Type 0
Fused limit lo m rs =
    Ordered 1 limit lo (fuse m rs) × ((s : ℕ) → covers (fuse m rs) s ≡ covers (m ∷ rs) s)

pub fuse-Fused :
    (limit lo : ℕ) (m : SlotRange) (rs : List SlotRange)
    → limit < 2 ^ 32
    → Ordered 0 limit lo (m ∷ rs)
    → Fused limit lo m rs
unfolding fuse covers
fuse-Fused limit lo m [] small (a, b, c, d) = ((a, b, c, tt), λ s. refl)
fuse-Fused limit lo m (r ∷ rs) small (a, b, c, (a', b', c', d')) =
    elim (Bool-cases ((m.offset + m.count) % 2 ^ 32 == r.offset)) [
      | inl e ↦
          let n : (m.count + r.count) % 2 ^ 32 ≡ m.count + r.count = ground arith in
          let k : end m ≡ r.offset = ground arith in
          let (o, w) =
            fuse-Fused limit lo (record m { count = m.count + r.count }) rs small
              (
                a,
                omega arith,
                omega arith,
                Ordered-weaken 0 limit (end r + 0) _ rs (omega arith) d',
              ) in
          rw (e, n) (o, λ s. ground (arith, w s))
      | inr e ↦
          let (o, w) = fuse-Fused limit (end m + 1) r rs small (ground arith, b', c', d') in
          rw e ((a, b, c, o), λ s. ground (arith, w s))
    ]
