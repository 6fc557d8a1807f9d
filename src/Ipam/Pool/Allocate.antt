-- ===== src/Ipam/Pool/Allocate.antt =====
-- `Allocate` of internal/ipam/pool.go.
use mathlib.Core.Logic.{if_pos, if_neg}
use novanet.Base.{
  ℕ, ◌+◌, ◌≡◌, ◌≢◌, refl, sym, ap, ◌∙◌, ◌⊎◌, inl, inr, Bool, true, false, Option, none, some, List,
  [], ◌∷◌, arith, Result, ok, err, Option-cases, length, some_inj,
}
use novanet.Base.Assoc.{lookup, insert, Distinct}
use novanet.Base.Counting.{LeastFree}
use novanet.Ipam.Bitmap.{Bitmap, find_free}
use novanet.Ipam.Bitmap.Laws.{find_free-LeastFree}
use novanet.Ipam.Address.{Ip, Text, text_dec, Naming, or_nil, set_bytes}
use novanet.Ipam.Address.Index.{ip_to_index-index_to_ip}
use novanet.Ipam.Pool.{
  Pool, AllocationInfo, CidrRange, Error, no_free_addresses, allocate_range, free_address, allocate,
}
use novanet.Ipam.Pool.Ranges.{IsValid, AllValid, Marks, is_taken, set_range}

-- Every address of every range is allocated.
abbrev pub AllFull : List CidrRange → Type 0
AllFull [] = Unit {0}
AllFull (cr ∷ ranges) = LeastFree (is_taken cr) 0 cr.size none × AllFull ranges

-- The first range that has a free address gives its least one; the other ranges stay.
abbrev pub Takes : List CidrRange → List CidrRange → Ip → Type 0
Takes [] ranges' ip = ⊥
Takes (cr ∷ ranges) [] ip = ⊥
Takes (cr ∷ ranges) (d ∷ ds) ip =
    (LeastFree (is_taken cr) 0 cr.size none × (d ≡ cr) × Takes ranges ds ip)
    ⊎ ((idx : ℕ) × (b : Bitmap) × LeastFree (is_taken cr) 0 cr.size (some idx)
        × (set_bytes ip ≡ set_bytes cr.base_ip + idx)
        × (length ip ≡ cr.ip_len)
        × (d ≡ record cr { bitmap = b })
        × Marks true idx cr b
        × (ds ≡ ranges))

abbrev Found : List CidrRange → Option (List CidrRange × Ip) → Type 0
Found ranges none = AllFull ranges
Found ranges (some (ranges', ip)) = AllValid ranges' × Takes ranges ranges' ip

least : (cr : CidrRange) → IsValid cr → LeastFree (is_taken cr) 0 cr.size (find_free cr.bitmap)
unfolding is_taken
least cr v = rw (← v.sized) (find_free-LeastFree cr.bitmap v.bitmap_valid)

abbrev Finding : List CidrRange → Type 0
Finding ranges =
    (r : Option (List CidrRange × Ip)) × (allocate_range ranges ≡ some r) × Found ranges r

module _ (cr : CidrRange) (ranges : List CidrRange) (v : AllValid (cr ∷ ranges)) where
  from_rest :
      find_free cr.bitmap ≡ none
      → LeastFree (is_taken cr) 0 cr.size none
      → Finding ranges
      → Finding (cr ∷ ranges)
  unfolding allocate_range
  from_rest e l (none, q, f) = (none, rw (e, allocate_range) (rw q), (l, f))
  from_rest e l (some (ranges', ip), q, (w, t)) =
      (some (cr ∷ ranges', ip), rw (e, allocate_range) (rw q), ((v.0, w), inl (l, refl, t)))

  from_first :
      (idx : ℕ)
      → find_free cr.bitmap ≡ some idx
      → LeastFree (is_taken cr) 0 cr.size (some idx)
      → Finding (cr ∷ ranges)
  unfolding allocate_range
  from_first idx e l =
      let (b, f, m) = set_range cr idx v.0 l.1 in
      let (ip, g, n, s, i) =
        ip_to_index-index_to_ip cr.base_ip cr.ip_len cr.size idx v.0.range l.1 in
      (
        some (record cr { bitmap = b } ∷ ranges, ip),
        rw (e, allocate_range) (rw (f, g)),
        ((m.valid, v.1), inr (idx, b, l, s, n, refl, m, refl)),
      )

allocate_range-Found : (ranges : List CidrRange) → AllValid ranges → Finding ranges
unfolding allocate_range
allocate_range-Found [] v = (none, refl, tt)
allocate_range-Found (cr ∷ ranges) v =
    go (find_free cr.bitmap) refl (least cr v.0) (allocate_range-Found ranges v.1)
  where
    go :
        (o : Option ℕ)
        → find_free cr.bitmap ≡ o
        → LeastFree (is_taken cr) 0 cr.size o
        → Finding ranges
        → Finding (cr ∷ ranges)
    go none e l rest = from_rest cr ranges v e l rest
    go (some idx) e l rest = from_first cr ranges v idx e l

-- The address that the loop settles on is one that is not allocated; it settles on none only if
-- all are.
free_address-lookup :
    (m : List (Text × Bool)) (addr : Text)
    → Distinct text_dec m
    → free_address m ≡ some addr
    → lookup text_dec addr m ≡ some false
unfolding free_address lookup
free_address-lookup [] addr d e = absurd (cc)
free_address-lookup ((key, true) ∷ m) addr d e =
    let rest = free_address-lookup m addr d.1 e in
    if_neg (text_dec key addr) (λ p. absurd (cc (sym d.0, ap (λ t. lookup text_dec t m) p, rest))) _
      _
    ∙ rest
free_address-lookup ((key, false) ∷ m) addr d e = if_pos (text_dec key addr) (some_inj e) _ _

free_address-none :
    (m : List (Text × Bool)) (addr : Text)
    → free_address m ≡ none
    → lookup text_dec addr m ≢ some false
unfolding free_address lookup
free_address-none [] addr e q = absurd (cc)
free_address-none ((key, true) ∷ m) addr e q = elim (text_dec key addr) [
  | yes p ↦ absurd (
      cc (
        sym q,
        if_pos {C = Option Bool} (text_dec key addr) p (some true) (lookup text_dec addr m),
      ))
  | no p ↦ free_address-none m addr e (
      sym (if_neg {C = Option Bool} (text_dec key addr) p (some true) (lookup text_dec addr m)) ∙ q)
]
free_address-none ((key, false) ∷ m) addr e q = absurd (cc)

module _ (names : Naming) (now : ℕ) (owner resource : Text) (p : Pool) where
  -- The entry of an address that is handed out.
  abbrev pub info : Ip → AllocationInfo
  info ip = record { ip = ip; owner = owner; resource = resource; timestamp = now }

  -- What `Allocate` may do, by its result.
  abbrev pub Allocates : Pool → Result Error Ip → Type 0
  Allocates p' (ok ip) =
      (Takes p.ranges p'.ranges ip
        × (p'.discrete_addrs ≡ p.discrete_addrs)
        × (p'.allocations ≡ insert text_dec (names.text ip) (info ip) p.allocations))
      ⊎ ((addr : Text) × AllFull p.ranges
          × (p'.ranges ≡ p.ranges)
          × (lookup text_dec addr p.discrete_addrs ≡ some false)
          × (ip ≡ or_nil (names.parse_ip addr))
          × (p'.discrete_addrs ≡ insert text_dec addr true p.discrete_addrs)
          × (p'.allocations ≡ insert text_dec addr (info ip) p.allocations))
  Allocates p' (err e) =
      (e ≡ no_free_addresses)
      × (p' ≡ p)
      × AllFull p.ranges
      × ((addr : Text) → lookup text_dec addr p.discrete_addrs ≢ some false)

  abbrev Allocating : Type 0
  Allocating =
      (p' : Pool) × (r : Result Error Ip) × (allocate names now owner resource p ≡ some (p', r))
      × AllValid p'.ranges
      × Allocates p' r

  from_addresses :
      AllValid p.ranges
      → Distinct text_dec p.discrete_addrs
      → allocate_range p.ranges ≡ some none
      → AllFull p.ranges
      → Allocating
  unfolding allocate
  from_addresses v d e full = elim (Option-cases (free_address p.discrete_addrs)) [
    | inl f ↦ (
      p,
      err no_free_addresses,
      ground (arith, e, f),
      v,
      (refl, refl, full, λ addr. free_address-none p.discrete_addrs addr f),
    )
    | inr (addr, f) ↦
        let ip : Ip = or_nil (names.parse_ip addr) in
        (
          record p {
            discrete_addrs = insert text_dec addr true p.discrete_addrs;
            allocations = insert text_dec addr (info ip) p.allocations;
          },
          ok ip,
          ground (arith, e, f),
          v,
          inr (addr, full, refl, free_address-lookup p.discrete_addrs addr d f, refl, refl, refl),
        )
  ]

  -- `Allocate` on a pool of valid ranges, whose single addresses are distinct, does not panic and
  -- keeps the ranges valid. The first range that has a free address gives its least one; when
  -- all are full, a single address that is not allocated is handed out; either is entered under its
  -- text. When there is none of these, it reports so and changes nothing.
  pub pool_allocate-Allocates : AllValid p.ranges → Distinct text_dec p.discrete_addrs → Allocating
  unfolding allocate
  pool_allocate-Allocates v d = go (allocate_range-Found p.ranges v)
    where
      go : Finding p.ranges → Allocating
      go (none, e, full) = from_addresses v d e full
      go (some (ranges, ip), e, (w, t)) = (
        record p {
          ranges = ranges;
          allocations = insert text_dec (names.text ip) (info ip) p.allocations;
        },
        ok ip,
        rw e,
        w,
        inl (t, refl, refl),
      )
