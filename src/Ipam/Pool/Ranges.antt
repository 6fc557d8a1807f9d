-- ===== src/Ipam/Pool/Ranges.antt =====
-- The address ranges of internal/ipam/pool.go: what makes one valid, and when two hold the same.
use novanet.Base.{
  ℕ, ◌≡◌, refl, ◌∙◌, ◌≤◌, ◌<◌, ◌⊎◌, inl, inr, Bool, true, false, some, List, [], ◌∷◌, ◌==◌,
  if◌then◌else◌, arith, ok, err, ◌^◌, dec_lt,
}
use native.Mathlib.Nat.{pow-le-pow_right}
use novanet.Ipam.Bitmap.{Bitmap, set, clear, get, new_bitmap}
use novanet.Ipam.Bitmap.Laws.{
  is_set, set_lem, clear_lem, get_lem, Updates, new_bitmap-IsValid, is_set-new_bitmap,
}
use novanet.Ipam.Bitmap.Laws
use novanet.Ipam.Address.{Ip, IpNet, host_bits, to4, to16, or_nil}
use novanet.Ipam.Address.Index.{IsRange, index_below-lt, to4-of_four, to16-of_sixteen}
use novanet.Ipam.Allocator.Construct.{IsNetwork}
use novanet.Ipam.Pool.{CidrRange, cidr_too_large, range_index, parse_cidr_range}

pub record IsValid (cr : CidrRange) : Type 0 where
  pub bitmap_valid : Laws.IsValid cr.bitmap
  pub sized : cr.bitmap.size ≡ cr.size
  pub range : IsRange cr.base_ip cr.ip_len cr.size

abbrev pub AllValid : List CidrRange → Type 0
AllValid [] = Unit {0}
AllValid (cr ∷ ranges) = IsValid cr × AllValid ranges

-- Whether an index of a range is allocated.
unfoldable pub is_taken : CidrRange → ℕ → Bool
is_taken cr j = is_set cr.bitmap j

-- Two ranges over the same network that hold the same.
pub record SameRange (c d : CidrRange) : Type 0 where
  pub same_network : d.network ≡ c.network
  pub same_base : d.base_ip ≡ c.base_ip
  pub same_size : d.size ≡ c.size
  pub same_ip_len : d.ip_len ≡ c.ip_len
  pub taken : (j : ℕ) → is_taken d j ≡ is_taken c j

abbrev pub AllSame : List CidrRange → List CidrRange → Type 0
AllSame [] [] = Unit {0}
AllSame [] (d ∷ ds) = ⊥
AllSame (c ∷ cs) [] = ⊥
AllSame (c ∷ cs) (d ∷ ds) = SameRange c d × AllSame cs ds

pub SameRange-refl : (c : CidrRange) → SameRange c c
SameRange-refl c = record {
  same_network = refl;
  same_base = refl;
  same_size = refl;
  same_ip_len = refl;
  taken = λ j. refl;
}

pub AllSame-refl : (cs : List CidrRange) → AllSame cs cs
AllSame-refl [] = tt
AllSame-refl (c ∷ cs) = (SameRange-refl c, AllSame-refl cs)

-- The index of an address does not depend on what is allocated.
pub range_index-with :
    (cr : CidrRange) (b : Bitmap) (ip : Ip)
    → range_index (record cr { bitmap = b }) ip ≡ range_index cr ip
unfolding range_index
range_index-with cr b ip = refl

pub range_index-lt :
    (cr : CidrRange) (ip : Ip) (idx : ℕ) → range_index cr ip ≡ some idx → idx < cr.size
unfolding range_index
range_index-lt cr ip idx e = (index_below-lt _ cr.size idx e).1

-- A range with the bit of one index set or cleared.
pub record Marks (on : Bool) (idx : ℕ) (cr : CidrRange) (b : Bitmap) : Type 0 where
  pub valid : IsValid (record cr { bitmap = b })
  pub bits : (j : ℕ) → is_set b j ≡ (if idx == j then on else is_taken cr j)

module _ (cr : CidrRange) (idx : ℕ) (v : IsValid cr) (h : idx < cr.size) where
  updated : {on : Bool} {b : Bitmap} → Updates on idx cr.bitmap b → Marks on idx cr b
  unfolding is_taken
  updated u = record {
    valid = record { bitmap_valid = u.valid; sized = u.same_size ∙ v.sized; range = v.range };
    bits = u.bits;
  }

  pub get_range : get cr.bitmap idx ≡ some (is_taken cr idx)
  unfolding is_taken
  get_range = get_lem cr.bitmap idx v.bitmap_valid (omega (arith, v.sized))

  pub set_range : (b : Bitmap) × (set cr.bitmap idx ≡ some b) × Marks true idx cr b
  set_range =
      let (b, e, u) = set_lem cr.bitmap idx v.bitmap_valid (omega (arith, v.sized)) in
      (b, e, updated u)

  pub clear_range : (b : Bitmap) × (clear cr.bitmap idx ≡ some b) × Marks false idx cr b
  clear_range =
      let (b, e, u) = clear_lem cr.bitmap idx v.bitmap_valid (omega (arith, v.sized)) in
      (b, e, updated u)

-- The range of a network that is small enough.
abbrev parsed : IpNet → CidrRange
parsed n = record {
  network = n;
  base_ip = if n.bits == 128 then or_nil (to16 n.ip) else or_nil (to4 n.ip);
  size = 2 ^ host_bits n;
  bitmap = new_bitmap (2 ^ host_bits n);
  prefix_len = n.ones;
  ip_len = if n.bits == 128 then 16 else 4;
}

parsed-IsValid : (n : IpNet) → IsNetwork n → host_bits n ≤ 20 → IsValid (parsed n)
unfolding new_bitmap
parsed-IsValid n net fits = record {
  bitmap_valid = new_bitmap-IsValid (2 ^ host_bits n);
  sized = refl;
  range = elim net.family [
    | inl (b, l) ↦ ground (arith, to4-of_four n.ip l, small, net.whole)
    | inr (b, l) ↦ ground (arith, to16-of_sixteen n.ip l, small, net.whole)
  ];
}
  where
    small : 2 ^ host_bits n ≤ 2 ^ 20
    small = pow-le-pow_right (omega arith) fits

-- A network is refused exactly when it has more than 20 host bits, and makes a valid range otherwise.
pub parse_cidr_range_lem :
    (n : IpNet)
    → IsNetwork n
    → ((20 < host_bits n) × (parse_cidr_range (some n) ≡ err cidr_too_large))
      ⊎ ((host_bits n ≤ 20)
          × ((cr : CidrRange) × (parse_cidr_range (some n) ≡ ok cr)
              × IsValid cr
              × (cr.network ≡ n)
              × (cr.size ≡ 2 ^ host_bits n)
              × ((j : ℕ) → is_taken cr j ≡ false)))
unfolding parse_cidr_range is_taken
parse_cidr_range_lem n net = elim (dec_lt 20 (host_bits n)) [
  | yes large ↦ inl (large, ground arith)
  | no fits ↦ inr (
    omega arith,
    (
      parsed n,
      ground (arith, parsed),
      parsed-IsValid n net (omega arith),
      refl,
      refl,
      λ j. is_set-new_bitmap (2 ^ host_bits n) j,
    ),
  )
]
