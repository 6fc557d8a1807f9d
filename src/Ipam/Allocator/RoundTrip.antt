-- ===== src/Ipam/Allocator/RoundTrip.antt =====
-- `Allocate` and `Release` of internal/ipam/allocator.go together, over an IPv4 network.
use novanet.Base.{
  ℕ, ◌+◌, ◌*◌, ◌^◌, ◌≡◌, ◌≢◌, sym, ap, ◌∙◌, ◌≤◌, ◌<◌, inl, inr, Bool, true, false, some, Result, ok,
  err, arith, length,
}
use novanet.Ipam.Address.{Ip, host_bits, set_bytes, Naming}
use novanet.Ipam.Address.Index.{
  ip_to_index-index_to_ip, index_below-pos, contains-of_four, normalize_ip-of_four,
}
use novanet.Ipam.Allocator.{
  Allocator, Disk, Error, written, allocate, release, available, allocator_index_to_ip,
  allocator_ip_to_index,
}
use novanet.Ipam.Allocator.Invariant.{
  IsValid, IsFreeable, Changes, SameState, is_taken, Changes-Changes, IsFreeable-of_free,
  IsFreeable-over,
}
use novanet.Ipam.Allocator.Allocate.{Allocates, allocate-Allocates, free_iff, next_index}
use novanet.Ipam.Allocator.Specific.{Addresses}
use novanet.Ipam.Allocator.Release.{Releases, release-Releases}
use novanet.Base.Counting.{LeastFree-unique}

-- The allocator covers an IPv4 network.
pub record IsFour (a : Allocator) : Type 0 where
  pub ip_len_four : a.ip_len ≡ 4
  pub network_length : length a.network.ip ≡ 4
  pub at_base : a.base_ip ≡ a.network.ip
  pub whole : a.size ≡ 2 ^ host_bits a.network
  pub masked : (q : ℕ) × (set_bytes a.network.ip ≡ q * 2 ^ host_bits a.network)

pub Changes-IsFour :
    {on : Bool} {idx : ℕ} {a a' : Allocator} → Changes on idx a a' → IsFour a → IsFour a'
Changes-IsFour c f = record {
  ip_len_four = c.same_ip_len ∙ f.ip_len_four;
  network_length = rw c.same_network f.network_length;
  at_base = c.same_base ∙ f.at_base ∙ ap (λ t. t.ip) (sym c.same_network);
  whole = c.same_size ∙ f.whole ∙ ap (λ t. 2 ^ host_bits t) (sym c.same_network);
  masked = rw c.same_network f.masked;
}

-- The address of an index is looked up under that index.
pub index-Addresses :
    (a : Allocator) (idx : ℕ) (ip : Ip)
    → IsValid a
    → IsFour a
    → idx < a.size
    → allocator_index_to_ip a idx ≡ some ip
    → Addresses a ip idx × (length ip ≡ 4)
unfolding allocator_index_to_ip allocator_ip_to_index
index-Addresses a idx ip v f h e =
    let (ip', e', l, s, i) = ip_to_index-index_to_ip a.base_ip a.ip_len a.size idx v.range h in
    let same : ip' ≡ ip = cc (sym e', e) in
    let len : length ip ≡ 4 = omega (arith, ap length same, f.ip_len_four) in
    let value : set_bytes ip ≡ set_bytes a.network.ip + idx =
      ap set_bytes (sym same) ∙ s ∙ ap (λ t. set_bytes t + idx) f.at_base in
    let (q, m) = f.masked in
    (
      (
        rw (normalize_ip-of_four ip len) (
            contains-of_four a.network ip idx q f.network_length len m value
              (omega (arith, f.whole))),
        rw (normalize_ip-of_four ip len, ← same, i) (index_below-pos idx a.size h),
      ),
      len,
    )

-- Two ways to look an address up give one index.
Addresses-unique : (a : Allocator) (ip : Ip) {i j : ℕ} → Addresses a ip i → Addresses a ip j → i ≡ j
Addresses-unique a ip p q = cc (sym p.1, q.1)

module _ (names : Naming) (a : Allocator) (disk : Disk) (v : IsValid a) (f : IsFour a) where
  -- While an address is available, and files can be written, one is handed out.
  allocate-some :
      available a ≢ 0
      → (a' : Allocator) × (disk' : Disk) × (ip : Ip) × (idx : ℕ) × (allocate names written a disk
          ≡ some (a', disk', ok ip))
        × IsValid a'
        × Changes true idx a a'
        × Addresses a ip idx
        × (is_taken a idx ≡ false)
        × (a'.used ≡ a.used + 1)
  allocate-some some_left = go (allocate-Allocates names written a disk v)
    where
      go :
          (a' : Allocator) × (disk' : Disk) × (r : Result Error Ip) × (allocate names written a disk
              ≡ some (a', disk', r))
            × IsValid a'
            × Allocates names written a disk a' disk' r
          → (a' : Allocator) × (disk' : Disk) × (ip : Ip) × (idx : ℕ) × (allocate names written a
                disk
              ≡ some (a', disk', ok ip))
            × IsValid a'
            × Changes true idx a a'
            × Addresses a ip idx
            × (is_taken a idx ≡ false)
            × (a'.used ≡ a.used + 1)
      go (a', disk', ok ip, e, v', (idx, l, i, (r, w, c, n, d))) =
          (a', disk', ip, idx, e, v', c, (index-Addresses a idx ip v f l.1 i).0, l.2, n)
      go (a', disk', err x, e, v', inl (p, l, q, d)) = absurd (
          some_left (
            (free_iff names written a disk v).0
              (LeastFree-unique (is_taken a) 0 a.size _ _ (next_index a v) l)))
      go (a', disk', err x, e, v', inr (p, w, s, d)) = absurd (ground arith)

-- The lookup of an address does not depend on what is taken.
Addresses-over :
    {on : Bool} {j idx : ℕ} {a a' : Allocator} (ip : Ip)
    → Changes on j a a'
    → Addresses a ip idx
    → Addresses a' ip idx
unfolding allocator_ip_to_index
Addresses-over ip c (p, q) = (rw c.same_network p, rw (c.same_base, c.same_ip_len, c.same_size) q)

-- A taken address that is not reserved can be given back.
release_taken :
    (names : Naming) (remove_ok : Bool) (a : Allocator) (disk : Disk) (ip : Ip) (idx : ℕ)
    → IsValid a
    → Addresses a ip idx
    → is_taken a idx ≡ true
    → IsFreeable a idx
    → (a' : Allocator) × (disk' : Disk) × (release names remove_ok a disk ip
        ≡ some (a', disk', ok tt))
      × Changes false idx a a'
      × (a'.used + 1 ≡ a.used)
release_taken names remove_ok a disk ip idx v at t free =
    go (release-Releases names remove_ok a disk ip v)
  where
    go :
        (a' : Allocator) × (disk' : Disk) × (r : Result Error (Unit {0})) × (release names remove_ok
              a disk ip
            ≡ some (a', disk', r))
          × IsValid a'
          × Releases names remove_ok a disk ip a' disk' r
        → (a' : Allocator) × (disk' : Disk) × (release names remove_ok a disk ip
            ≡ some (a', disk', ok tt))
          × Changes false idx a a'
          × (a'.used + 1 ≡ a.used)
    go (a', disk', ok r, e, v', (i, at', fr, tk, c, n, d)) =
        (a', disk', e, rw (Addresses-unique a ip at at') c, n)
    go (a', disk', err x, e, v', (p, q, inl (inl (y, o)))) = absurd (cc (sym at.0, o))
    go (a', disk', err x, e, v', (p, q, inl (inr (y, o, m)))) = absurd (cc (sym at.1, m))
    go (a', disk', err x, e, v', (p, q, inr (i, at', inl (inl (y, z))))) =
        absurd (free.0 (Addresses-unique a ip at at' ∙ z))
    go (a', disk', err x, e, v', (p, q, inr (i, at', inl (inr (inl (y, w, z)))))) =
        absurd ((free.1 w).0 (Addresses-unique a ip at at' ∙ z))
    go (a', disk', err x, e, v', (p, q, inr (i, at', inl (inr (inr (y, w, z)))))) =
        absurd ((free.1 w).1 (Addresses-unique a ip at at' ∙ z))
    go (a', disk', err x, e, v', (p, q, inr (i, at', inr (y, z)))) =
        absurd (ground (arith, ap (is_taken a) (Addresses-unique a ip at at')))

-- On a valid allocator over an IPv4 network, while an address is available and its file can be
-- written, `Allocate` hands one out, and to `Release` it leads back to the same allocations.
pub allocate-release :
    (names : Naming) (remove_ok : Bool) (a : Allocator) (disk : Disk)
    → IsValid a
    → IsFour a
    → available a ≢ 0
    → (a' : Allocator) × (disk' : Disk) × (ip : Ip) × (a'' : Allocator) × (disk'' : Disk)
      × (allocate names written a disk ≡ some (a', disk', ok ip))
      × (release names remove_ok a' disk' ip ≡ some (a'', disk'', ok tt))
      × SameState a a''
allocate-release names remove_ok a disk v f some_left =
    let (a', disk', ip, idx, e, v', c, at, off, n) = allocate-some names a disk v f some_left in
    let (a'', disk'', e', c', n') =
      release_taken names remove_ok a' disk' ip idx v' (Addresses-over ip c at)
        (ground (arith, c.taken idx)) (IsFreeable-over c (IsFreeable-of_free a idx v off)) in
    (a', disk', ip, a'', disk'', e, e', Changes-Changes idx off c c' (omega arith))

-- On a valid allocator over an IPv4 network with two addresses left, whose files can be written, two
-- allocations in a row succeed and hand out two different addresses.
pub allocate-allocate-ne :
    (names : Naming) (a : Allocator) (disk : Disk)
    → IsValid a
    → IsFour a
    → 2 ≤ available a
    → (b c : Allocator) × (d e : Disk) × (ip ip' : Ip) × (allocate names written a disk
        ≡ some (b, d, ok ip))
      × (allocate names written b d ≡ some (c, e, ok ip'))
      × (ip ≢ ip')
unfolding available
allocate-allocate-ne names a disk v f two_left =
    let (b, d, ip, idx, e, v', c, at, off, n) =
      allocate-some names a disk v f (λ z. absurd (omega arith)) in
    let (b', d', ip', idx', e', v'', c', at', off', n') =
      allocate-some names b d v' (Changes-IsFour c f) (λ z. absurd (omega (arith, c.same_size))) in
    (
      b,
      b',
      d,
      d',
      ip,
      ip',
      e,
      e',
      λ same.
          let i : idx ≡ idx' = Addresses-unique b ip (Addresses-over ip c at) (rw same at') in
          ground (arith, c.taken idx, ap (is_taken b) i),
    )
