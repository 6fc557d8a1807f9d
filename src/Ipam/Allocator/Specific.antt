-- ===== src/Ipam/Allocator/Specific.antt =====
-- `AllocateSpecific` of internal/ipam/allocator.go.
use novanet.Base.{
  ℕ, ◌≡◌, refl, ◌<◌, ◌⊎◌, inl, inr, true, false, not, ◌&&◌, none, some, Result, ok, err, arith,
  Bool-cases, Option-cases,
}
use novanet.Ipam.Address.{Ip, Naming, contains, normalize_ip}
use novanet.Ipam.Address.Index.{index_below-lt}
use novanet.Ipam.Bitmap.{get}
use novanet.Ipam.Bitmap.Laws.{get_lem}
use novanet.Ipam.Allocator.{
  Allocator, Disk, Error, Write, wrote, after_failure, ip_outside_cidr, ip_out_of_range,
  ip_already_alloc, persisting_ip, claim, allocate_specific, allocator_ip_to_index,
}
use novanet.Ipam.Allocator.Invariant.{IsValid, SameState, is_taken}
use novanet.Ipam.Allocator.Claim.{Claims, claim-Claims}

-- The index that an address is looked up under, with the checks passed.
abbrev pub Addresses : Allocator → Ip → ℕ → Type 0
Addresses a ip idx =
    (contains a.network (normalize_ip ip) ≡ true)
    × (allocator_ip_to_index a (normalize_ip ip) ≡ some idx)

pub index-lt-size :
    (a : Allocator) (ip : Ip) (idx : ℕ) → allocator_ip_to_index a ip ≡ some idx → idx < a.size
unfolding allocator_ip_to_index
index-lt-size a ip idx e = (index_below-lt _ a.size idx e).1

pub taken_lem :
    (a : Allocator) (idx : ℕ) → IsValid a → idx < a.size → get a.bitmap idx ≡ some (is_taken a idx)
unfolding is_taken
taken_lem a idx v h = get_lem a.bitmap idx v.bitmap_valid (omega (arith, v.sized))

-- Why an address that is asked for, or given back, is turned down before anything else is looked at.
abbrev pub IsOutside : Allocator → Ip → Error → Type 0
IsOutside a ip e =
    ((e ≡ ip_outside_cidr) × (contains a.network (normalize_ip ip) ≡ false))
    ⊎ ((e ≡ ip_out_of_range)
        × (contains a.network (normalize_ip ip) ≡ true)
        × (allocator_ip_to_index a (normalize_ip ip) ≡ none))

module _ (names : Naming) (write : Write) (a : Allocator) (disk : Disk) (ip : Ip) where
  -- What `AllocateSpecific` may do, by its result.
  abbrev pub Allocates : Allocator → Disk → Result Error (Unit {0}) → Type 0
  Allocates a' disk' (ok r) =
      (idx : ℕ) × Addresses a ip idx
      × (is_taken a idx ≡ false)
      × Claims names write a disk idx (normalize_ip ip) tt a' disk' (ok r)
  Allocates a' disk' (err e) =
      SameState a a'
      × ((IsOutside a ip e × (disk' ≡ disk))
          ⊎ ((idx : ℕ) × Addresses a ip idx
              × (((e ≡ ip_already_alloc) × (is_taken a idx ≡ true) × (disk' ≡ disk))
                  ⊎ ((e ≡ persisting_ip)
                      × (is_taken a idx ≡ false)
                      × ((a.persistent && not (wrote write)) ≡ true)
                      × (disk' ≡ after_failure write (names.text (normalize_ip ip)) disk)))))

  abbrev Allocating : Type 0
  Allocating =
      (a' : Allocator) × (disk' : Disk) × (r : Result Error (Unit {0})) × (allocate_specific names
          write a disk ip
        ≡ some (a', disk', r))
      × IsValid a'
      × Allocates a' disk' r

  unchanged : SameState a a
  unchanged = record {
    taken = λ j. refl;
    same_used = refl;
    same_network = refl;
    same_base = refl;
    same_size = refl;
    same_ip_len = refl;
    same_is_ipv4 = refl;
    same_persistent = refl;
  }

  with_index : (idx : ℕ) → Addresses a ip idx → IsValid a → Allocating
  unfolding allocate_specific
  with_index idx (c, i) v = elim (Bool-cases (is_taken a idx)) [
    | inl t ↦ (
      a,
      disk,
      err ip_already_alloc,
      rw (c, i, taken_lem a idx v (index-lt-size a _ idx i), t),
      v,
      (unchanged, inr (idx, (c, i), inl (refl, t, refl))),
    )
    | inr t ↦
        claimed t
          (claim-Claims names write a disk idx (normalize_ip ip) tt v (index-lt-size a _ idx i) t)
  ]
    where
      claimed :
          is_taken a idx ≡ false
          → (a' : Allocator) × (disk' : Disk) × (r : Result Error (Unit {0})) × (claim names write a
                disk idx
                (normalize_ip ip)
                tt
              ≡ some (a', disk', r))
            × IsValid a'
            × Claims names write a disk idx (normalize_ip ip) tt a' disk' r
          → Allocating
      claimed t (a', disk', ok r, g, v', k) = (
        a',
        disk',
        ok r,
        rw (c, i, taken_lem a idx v (index-lt-size a _ idx i), t) g,
        v',
        (idx, (c, i), t, k),
      )
      claimed t (a', disk', err x, g, v', k) = (
        a',
        disk',
        err x,
        rw (c, i, taken_lem a idx v (index-lt-size a _ idx i), t) g,
        v',
        (k.2, inr (idx, (c, i), inr (k.0, t, k.1, k.3))),
      )

  -- `AllocateSpecific` on a valid allocator does not panic and keeps it valid. It takes exactly the
  -- index of the address, if that is free and its file can be written; otherwise it changes
  -- nothing but the file of the address, if a write that failed left one, and the error names the first of the reasons in the order of the code.
  pub allocate_specific-Allocates : IsValid a → Allocating
  unfolding allocate_specific
  allocate_specific-Allocates v = elim (Bool-cases (contains a.network (normalize_ip ip))) [
    | inr c ↦ (a, disk, err ip_outside_cidr, rw c, v, (unchanged, inl (inl (refl, c), refl)))
    | inl c ↦ elim (Option-cases (allocator_ip_to_index a (normalize_ip ip))) [
      | inl i ↦
          (a, disk, err ip_out_of_range, rw (c, i), v, (unchanged, inl (inr (refl, c, i), refl)))
      | inr (idx, i) ↦ with_index idx (c, i) v
    ]
  ]
