-- ===== src/Ipam/Allocator/Construct.antt =====
-- `NewAllocatorWithStateDir` of internal/ipam/allocator.go up to the restored state.
use native.Mathlib.Nat.{pow-le-pow_right}
use novanet.Base.{
  ℕ, suc, ◌+◌, ◌-◌, ◌*◌, ◌^◌, ◌≡◌, refl, ap, ◌∙◌, ◌≤◌, ◌<◌, ◌⊎◌, inl, inr, Bool, true, false, ◌&&◌,
  ◌||◌, some, ok, err, ◌==◌, if◌then◌else◌, arith, Bool-cases, length, dec_lt,
}
use novanet.Ipam.Address.{IpNet, host_bits, set_bytes, Naming}
use novanet.Ipam.Address.Index.{IsRange, to4-of_four, to16-of_sixteen}
use novanet.Ipam.Bitmap.{new_bitmap, set}
use novanet.Ipam.Bitmap
use novanet.Ipam.Bitmap.Laws.{
  is_set, count, Updates, set_lem, count_set, new_bitmap-IsValid, is_set-new_bitmap,
  count-new_bitmap,
}
use novanet.Ipam.Allocator.{
  Allocator, cidr_too_large, cidr_too_small, fresh, reserve, new_allocator,
}
use novanet.Ipam.Allocator.Invariant.{IsValid, is_taken, SameShape, SameShape-with}

-- What `net.ParseCIDR` promises of a network: an address of its family, masked by its prefix.
pub record IsNetwork (n : IpNet) : Type 0 where
  pub family : ((n.bits ≡ 32) × (length n.ip ≡ 4)) ⊎ ((n.bits ≡ 128) × (length n.ip ≡ 16))
  pub prefix : n.ones ≤ n.bits
  pub masked : (q : ℕ) × (set_bytes n.ip ≡ q * 2 ^ host_bits n)
  pub whole : set_bytes n.ip + 2 ^ host_bits n ≤ 256 ^ length n.ip

-- The index is one that the constructor reserves.
abbrev pub reserved : Allocator → ℕ → Bool
reserved a j = j == 0 || (a.is_ipv4 && (j == 1 || j == a.size - 1))

-- A new allocator over a network: valid, with the reserved indices taken and no others.
pub record IsNew (n : IpNet) (persistent : Bool) (a : Allocator) : Type 0 where
  pub valid : IsValid a
  pub over : a.network ≡ n
  pub sized : a.size ≡ 2 ^ host_bits n
  pub is_four : a.is_ipv4 ≡ (n.bits == 32)
  pub persists : a.persistent ≡ persistent
  pub counted : a.used ≡ (if n.bits == 32 then 3 else 1)
  pub only_reserved : (j : ℕ) → is_taken a j ≡ reserved a j
  pub shape : SameShape (fresh n persistent) a

-- The allocator with its reserved indices taken.
record Reserves (a a' : Allocator) : Type 0 where
  valid : IsValid a'
  shape : SameShape a a'
  counted : a'.used ≡ (if a.is_ipv4 then 3 else 1)
  only_reserved : (j : ℕ) → is_taken a' j ≡ reserved a j

module _ (a : Allocator) (range : IsRange a.base_ip a.ip_len a.size)
    (clean : a.bitmap ≡ new_bitmap a.size) where
  clean_size : a.bitmap.size ≡ a.size
  unfolding new_bitmap
  clean_size = ap (λ t. t.size) clean

  clean_set : (j : ℕ) → is_set a.bitmap j ≡ false
  clean_set j = ap (λ t. is_set t j) clean ∙ is_set-new_bitmap a.size j

  clean_count : count a.bitmap ≡ 0
  clean_count = ap count clean ∙ count-new_bitmap a.size

  clean-IsValid : Bitmap.Laws.IsValid a.bitmap
  clean-IsValid = rw clean (new_bitmap-IsValid a.size)

  reserve_six :
      a.is_ipv4 ≡ false → 2 ≤ a.size → (a' : Allocator) × (reserve a ≡ some a') × Reserves a a'
  unfolding reserve is_taken
  reserve_six six room =
      let (b, e, u) = set_lem a.bitmap 0 clean-IsValid (omega (arith, clean_size)) in
      (
        record a { bitmap = b; used = 1 },
        ground (arith, e),
        record {
          valid = record {
            bitmap_valid = u.valid;
            sized = u.same_size ∙ clean_size;
            range = range;
            counted = omega (
              arith,
              clean_count,
              count_set {b = a.bitmap} {b' = b} 0 (omega (arith, clean_size)) (clean_set 0) u,
            );
            nonempty = room;
            holds_network = ground (arith, u.bits 0);
            holds_gateway = λ f. absurd (cc);
            holds_broadcast = λ f. absurd (cc);
          };
          shape = SameShape-with a _ _;
          counted = rw six;
          only_reserved = λ j. ground (arith, u.bits j, clean_set j);
        },
      )

  reserve_four :
      a.is_ipv4 ≡ true → 4 ≤ a.size → (a' : Allocator) × (reserve a ≡ some a') × Reserves a a'
  unfolding reserve is_taken
  reserve_four four room =
      let (b, e, u) = set_lem a.bitmap 0 clean-IsValid (omega (arith, clean_size)) in
      let (c, f, w) = set_lem b 1 u.valid (omega (arith, clean_size, u.same_size)) in
      let (d, g, x) =
        set_lem c (a.size - 1) w.valid (omega (arith, clean_size, u.same_size, w.same_size)) in
      let m : count b ≡ suc (count a.bitmap) =
        count_set {b = a.bitmap} {b' = b} 0 (omega (arith, clean_size)) (clean_set 0) u in
      let m' : count c ≡ suc (count b) =
        count_set {b = b} {b' = c} 1 (omega (arith, clean_size, u.same_size))
          (ground (arith, u.bits 1, clean_set 1)) w in
      let m'' : count d ≡ suc (count c) =
        count_set {b = c} {b' = d} (a.size - 1)
          (omega (arith, clean_size, u.same_size, w.same_size))
          (ground (arith, u.bits (a.size - 1), w.bits (a.size - 1), clean_set (a.size - 1))) x in
      (
        record a { bitmap = d; used = 3 },
        rw (four, e, f) (ground (arith, g)),
        record {
          valid = record {
            bitmap_valid = x.valid;
            sized = x.same_size ∙ w.same_size ∙ u.same_size ∙ clean_size;
            range = range;
            counted = omega (arith, clean_count, m, m', m'');
            nonempty = omega arith;
            holds_network = ground (arith, u.bits 0, w.bits 0, x.bits 0);
            holds_gateway = λ h. ground (arith, w.bits 1, x.bits 1);
            holds_broadcast = λ h. ground (arith, x.bits (a.size - 1));
          };
          shape = SameShape-with a _ _;
          counted = rw four;
          only_reserved = λ j. ground (arith, u.bits j, w.bits j, x.bits j, clean_set j);
        },
      )

module _ (n : IpNet) (persistent : Bool) (net : IsNetwork n) (bound : host_bits n ≤ 20) where
  size-le : 2 ^ host_bits n ≤ 2 ^ 20
  size-le = pow-le-pow_right (omega arith) bound

  fresh-IsRange : IsRange (fresh n persistent).base_ip (fresh n persistent).ip_len (2 ^ host_bits n)
  unfolding fresh
  fresh-IsRange = elim net.family [
    | inl (b, l) ↦ ground (arith, to4-of_four n.ip l, size-le, net.whole)
    | inr (b, l) ↦ ground (arith, to16-of_sixteen n.ip l, size-le, net.whole)
  ]

  Reserves-IsNew : {a : Allocator} → Reserves (fresh n persistent) a → IsNew n persistent a
  unfolding fresh
  Reserves-IsNew r = record {
    valid = r.valid;
    over = r.shape.same_network;
    sized = r.shape.same_size;
    is_four = r.shape.same_is_ipv4;
    persists = r.shape.same_persistent;
    counted = r.counted;
    only_reserved = λ j. ground (arith, r.only_reserved j, r.shape.same_size, r.shape.same_is_ipv4);
    shape = r.shape;
  }

  pub reserve-fresh :
      (if n.bits == 32 then 4 else 2) ≤ 2 ^ host_bits n
      → (a : Allocator) × (reserve (fresh n persistent) ≡ some a) × IsNew n persistent a
  unfolding fresh
  reserve-fresh room = elim (Bool-cases (n.bits == 32)) [
    | inl four ↦
        let (a, e, r) = reserve_four (fresh n persistent) fresh-IsRange refl four (ground arith) in
        (a, e, Reserves-IsNew r)
    | inr six ↦
        let (a, e, r) = reserve_six (fresh n persistent) fresh-IsRange refl six (ground arith) in
        (a, e, Reserves-IsNew r)
  ]

-- The fewest addresses that a network must have.
abbrev pub least_size : IpNet → ℕ
least_size n = if n.bits == 32 then 4 else 2

-- Without a state directory the constructor does not panic. It refuses a network of more than 20
-- host bits, and one of fewer than 4 (IPv4) or 2 (IPv6) addresses; for any other it returns a valid
-- allocator in which exactly the reserved indices are taken, three (IPv4) or one (IPv6).
pub new_allocator_lem :
    (names : Naming) (n : IpNet)
    → IsNetwork n
    → ((20 < host_bits n) × (new_allocator names (some n) ≡ some (err cidr_too_large)))
      ⊎ ((host_bits n ≤ 20)
          × (2 ^ host_bits n < least_size n)
          × (new_allocator names (some n) ≡ some (err cidr_too_small)))
      ⊎ ((host_bits n ≤ 20)
          × (least_size n ≤ 2 ^ host_bits n)
          × ((a : Allocator) × (new_allocator names (some n) ≡ some (ok a)) × IsNew n false a))
unfolding new_allocator
new_allocator_lem names n net = elim (dec_lt 20 (host_bits n)) [
  | yes large ↦ inl (large, ground arith)
  | no fits ↦ elim (dec_lt (2 ^ host_bits n) (least_size n)) [
    | yes small ↦ inr (inl (omega arith, small, ground arith))
    | no room ↦ inr (
        inr (
          omega arith,
          omega arith,
          built (reserve-fresh n false net (omega arith) (omega arith)) (omega arith) (omega arith),
        ))
  ]
]
  where
    built :
        (a : Allocator) × (reserve (fresh n false) ≡ some a) × IsNew n false a
        → host_bits n ≤ 20
        → least_size n ≤ 2 ^ host_bits n
        → (a : Allocator) × (new_allocator names (some n) ≡ some (ok a)) × IsNew n false a
    built (a, e, new) fits room = (a, ground (arith, e), new)
