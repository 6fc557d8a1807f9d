-- ===== src/Service/Slots/Cover.antt =====
-- Which slots a list of ranges covers, and when the list is in order.
use novanet.Base.{
  ℕ, ◌+◌, ◌≤◌, ◌<◌, ◌≡◌, refl, Bool, false, ◌&&◌, ◌||◌, List, [], ◌∷◌, leb, ltb, arith,
}
use novanet.Service.Slots.{SlotRange}

abbrev pub end : SlotRange → ℕ
end r = r.offset + r.count

abbrev pub in_range : SlotRange → ℕ → Bool
in_range r s = leb r.offset s && ltb s (end r)

-- Whether a slot lies in one of the ranges.
unfoldable pub covers : List SlotRange → ℕ → Bool
covers [] s = false
covers (r ∷ rs) s = in_range r s || covers rs s

-- Nonempty ranges up to a limit, each at least `gap` slots after the one before; the first one not
-- before `lo`.
abbrev pub Ordered : ℕ → ℕ → ℕ → List SlotRange → Type 0
Ordered gap limit lo [] = Unit {0}
Ordered gap limit lo (r ∷ rs) =
    (lo ≤ r.offset) × (0 < r.count) × (end r ≤ limit) × Ordered gap limit (end r + gap) rs

pub Ordered-weaken :
    (gap limit lo lo' : ℕ) (rs : List SlotRange)
    → lo' ≤ lo
    → Ordered gap limit lo rs
    → Ordered gap limit lo' rs
Ordered-weaken gap limit lo lo' [] h o = tt
Ordered-weaken gap limit lo lo' (r ∷ rs) h (a, b, c, d) = (omega arith, b, c, d)

-- Ranges that are apart are in order.
pub Ordered-loosen :
    (limit lo : ℕ) (rs : List SlotRange) → Ordered 1 limit lo rs → Ordered 0 limit lo rs
Ordered-loosen limit lo [] o = tt
Ordered-loosen limit lo (r ∷ rs) (a, b, c, d) = (
  a,
  b,
  c,
  Ordered-weaken 0 limit (end r + 1) (end r + 0) rs (omega arith)
      (Ordered-loosen limit (end r + 1) rs d),
)

-- Nothing is covered before the first range.
pub covers_below :
    (gap limit lo : ℕ) (rs : List SlotRange) (s : ℕ)
    → Ordered gap limit lo rs
    → s < lo
    → covers rs s ≡ false
unfolding covers
covers_below gap limit lo [] s o h = refl
covers_below gap limit lo (r ∷ rs) s (a, b, c, d) h =
    ground (arith, covers_below gap limit (end r + gap) rs s d (omega arith))

pub covers_above :
    (gap limit lo : ℕ) (rs : List SlotRange) (s : ℕ)
    → Ordered gap limit lo rs
    → limit ≤ s
    → covers rs s ≡ false
unfolding covers
covers_above gap limit lo [] s o h = refl
covers_above gap limit lo (r ∷ rs) s (a, b, c, d) h =
    ground (arith, covers_above gap limit (end r + gap) rs s d h)
