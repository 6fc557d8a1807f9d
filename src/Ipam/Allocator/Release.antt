-- ===== src/Ipam/Allocator/Release.antt =====
-- `Release` of internal/ipam/allocator.go.
use novanet.Base.{
  ℕ, ◌+◌, ◌-◌, ◌≡◌, refl, ◌⊎◌, inl, inr, Bool, true, false, ◌&&◌, none, some, Result, ok, err,
  if◌then◌else◌, arith, Bool-cases, Option-cases,
}
use novanet.Base.Assoc.{delete}
use novanet.Ipam.Address.{Ip, Naming, text_dec, contains, normalize_ip}
use novanet.Ipam.Allocator.{
  Allocator, Disk, Error, ip_outside_cidr, ip_out_of_range, ip_not_allocated, release_network,
  release_gateway, release_broadcast, release, release_guard, release_index, allocator_ip_to_index,
}
use novanet.Ipam.Allocator.Invariant.{IsValid, IsFreeable, Changes, is_taken, drop_index_lem}
use novanet.Ipam.Allocator.Specific.{Addresses, IsOutside, index-lt-size, taken_lem}

-- Why an index may not be given back.
abbrev pub IsKept : Allocator → ℕ → Error → Type 0
IsKept a idx e =
    ((e ≡ release_network) × (idx ≡ 0))
    ⊎ ((e ≡ release_gateway) × (a.is_ipv4 ≡ true) × (idx ≡ 1))
    ⊎ ((e ≡ release_broadcast) × (a.is_ipv4 ≡ true) × (idx ≡ a.size - 1))

release_guard-none : (a : Allocator) (idx : ℕ) → release_guard a idx ≡ none → IsFreeable a idx
unfolding release_guard
release_guard-none a idx h = ((λ e. ground arith), λ f. ((λ e. ground arith), λ e. ground arith))

release_guard-some :
    (a : Allocator) (idx : ℕ) (e : Error) → release_guard a idx ≡ some e → IsKept a idx e
unfolding release_guard
release_guard-some a idx e h = ground arith

module _ (names : Naming) (remove_ok : Bool) (a : Allocator) (disk : Disk) (ip : Ip) where
  -- What `Release` may do, by its result.
  abbrev pub Releases : Allocator → Disk → Result Error (Unit {0}) → Type 0
  Releases a' disk' (ok r) =
      (idx : ℕ) × Addresses a ip idx
      × IsFreeable a idx
      × (is_taken a idx ≡ true)
      × Changes false idx a a'
      × (a'.used + 1 ≡ a.used)
      × (disk' ≡ (
          if a.persistent && remove_ok
          then delete text_dec (names.text (normalize_ip ip)) disk
          else disk))
  Releases a' disk' (err e) =
      (a' ≡ a)
      × (disk' ≡ disk)
      × (IsOutside a ip e
          ⊎ ((idx : ℕ) × Addresses a ip idx
              × (IsKept a idx e ⊎ ((e ≡ ip_not_allocated) × (is_taken a idx ≡ false)))))

  abbrev Releasing : Type 0
  Releasing =
      (a' : Allocator) × (disk' : Disk) × (r : Result Error (Unit {0})) × (release names remove_ok a
          disk ip
        ≡ some (a', disk', r))
      × IsValid a'
      × Releases a' disk' r

  unguarded : (idx : ℕ) → Addresses a ip idx → release_guard a idx ≡ none → IsValid a → Releasing
  unfolding release release_index
  unguarded idx (c, i) g v =
      let h = index-lt-size a _ idx i in
      elim (Bool-cases (is_taken a idx)) [
        | inr t ↦ (
          a,
          disk,
          err ip_not_allocated,
          rw (c, i, g, taken_lem a idx v h, t),
          v,
          (refl, refl, inr (idx, (c, i), inr (refl, t))),
        )
        | inl t ↦
            let free = release_guard-none a idx g in
            let (a', e, v', k, n) = drop_index_lem a idx v h t free in
            (
              a',
              (if a.persistent && remove_ok
                  then delete text_dec (names.text (normalize_ip ip)) disk
                  else disk),
              ok tt,
              rw (c, i, g, taken_lem a idx v h, t, e),
              v',
              (idx, (c, i), free, t, k, n, refl),
            )
      ]

  -- `Release` on a valid allocator does not panic and keeps it valid. It frees exactly the index of
  -- the address and removes its file, if that index is taken and is not reserved; otherwise it
  -- changes nothing, and the error names the reason.
  pub release-Releases : IsValid a → Releasing
  unfolding release
  release-Releases v = elim (Bool-cases (contains a.network (normalize_ip ip))) [
    | inr c ↦ (a, disk, err ip_outside_cidr, rw c, v, (refl, refl, inl (inl (refl, c))))
    | inl c ↦ elim (Option-cases (allocator_ip_to_index a (normalize_ip ip))) [
      | inl i ↦ (a, disk, err ip_out_of_range, rw (c, i), v, (refl, refl, inl (inr (refl, c, i))))
      | inr (idx, i) ↦ elim (Option-cases (release_guard a idx)) [
        | inl g ↦ unguarded idx (c, i) g v
        | inr (e, g) ↦ (
          a,
          disk,
          err e,
          rw (c, i, g),
          v,
          (refl, refl, inr (idx, (c, i), inl (release_guard-some a idx e g))),
        )
      ]
    ]
  ]
