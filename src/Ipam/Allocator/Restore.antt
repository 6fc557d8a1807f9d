-- ===== src/Ipam/Allocator/Restore.antt =====
-- `loadState` of internal/ipam/allocator.go: what a restart makes of the state directory.
use novanet.Base.{
  ℕ, ◌^◌, ◌≡◌, refl, ap, ◌≤◌, inl, inr, Bool, true, false, ◌||◌, Option, none, some, [], ◌∷◌, ok,
  ◌>>=◌, ◌==◌, if◌then◌else◌, arith, Bool-cases, Option-cases,
}
use novanet.Ipam.Address.{Ip, IpNet, host_bits, Text, Naming, contains, normalize_ip}
use novanet.Ipam.Allocator.{
  Allocator, Disk, StateDir, fresh, reserve, load_entry, load_state, new_allocator_with_state_dir,
  allocator_ip_to_index,
}
use novanet.Ipam.Allocator.Invariant.{
  IsValid, is_taken, take_index_lem, SameShape, SameShape-refl, SameShape-trans, Changes-SameShape,
}
use novanet.Ipam.Allocator.Specific.{index-lt-size, taken_lem}
use novanet.Ipam.Allocator.Construct.{IsNetwork, least_size, reserved, reserve-fresh}

abbrev pub hits : Option ℕ → ℕ → Bool
hits none j = false
hits (some i) j = i == j

-- The index of an address that lies in the network.
unfoldable pub index_of : Allocator → Ip → Option ℕ
index_of a ip =
    if contains a.network (normalize_ip ip) then allocator_ip_to_index a (normalize_ip ip) else none

module _ (names : Naming) where
  -- The index that an entry of the directory stands for, if it is the file of an address.
  unfoldable pub entry_index : Allocator → Text × Bool → Option ℕ
  entry_index a (name, is_dir) = if is_dir then none else (names.parse_ip name >>= index_of a)

  -- Whether some file in the directory stands for an index.
  unfoldable pub named : Allocator → Disk → ℕ → Bool
  named a [] j = false
  named a (entry ∷ entries) j = hits (entry_index a entry) j || named a entries j

  entry_index_over :
      {a a' : Allocator} (entry : Text × Bool)
      → SameShape a a'
      → entry_index a' entry ≡ entry_index a entry
  unfolding entry_index index_of allocator_ip_to_index
  entry_index_over entry s = rw (s.same_network, s.same_base, s.same_ip_len, s.same_size)

  pub named_over :
      {a a' : Allocator} (entries : Disk) (j : ℕ)
      → SameShape a a'
      → named a' entries j ≡ named a entries j
  unfolding named
  named_over [] j s = refl
  named_over (entry ∷ entries) j s = rw (entry_index_over entry s, named_over entries j s)

  -- Reading one entry takes the index that it stands for.
  load_entry_lem :
      (a : Allocator) (entry : Text × Bool)
      → IsValid a
      → (a' : Allocator) × (load_entry names a entry ≡ some a')
        × IsValid a'
        × SameShape a a'
        × ((j : ℕ) → is_taken a' j ≡ (is_taken a j || hits (entry_index a entry) j))
  unfolding load_entry entry_index index_of
  load_entry_lem a (name, true) v = (a, refl, v, SameShape-refl a, λ j. ground arith)
  load_entry_lem a (name, false) v = elim (Option-cases (names.parse_ip name)) [
    | inl p ↦ (a, rw p, v, SameShape-refl a, λ j. rw p (ground arith))
    | inr (ip, p) ↦ elim (Bool-cases (contains a.network (normalize_ip ip))) [
      | inr c ↦ (a, rw (p, c), v, SameShape-refl a, λ j. rw (p, c) (ground arith))
      | inl c ↦ elim (Option-cases (allocator_ip_to_index a (normalize_ip ip))) [
        | inl i ↦ (a, rw (p, c, i), v, SameShape-refl a, λ j. rw (p, c, i) (ground arith))
        | inr (idx, i) ↦
            let h = index-lt-size a (normalize_ip ip) idx i in
            elim (Bool-cases (is_taken a idx)) [
              | inl t ↦ (
                a,
                rw (p, c, i, taken_lem a idx v h, t),
                v,
                SameShape-refl a,
                λ j. rw (p, c, i) (ground (arith, ap (is_taken a) {x = idx} {y = j})),
              )
              | inr t ↦
                  let (a', e, v', k, n) = take_index_lem a idx v h t in
                  (
                    a',
                    rw (p, c, i, taken_lem a idx v h, t) e,
                    v',
                    Changes-SameShape k,
                    λ j. rw (p, c, i) (ground (arith, k.taken j)),
                  )
            ]
      ]
    ]
  ]

  pub load_state_lem :
      (a : Allocator) (entries : Disk)
      → IsValid a
      → (a' : Allocator) × (load_state names a entries ≡ some a')
        × IsValid a'
        × SameShape a a'
        × ((j : ℕ) → is_taken a' j ≡ (is_taken a j || named a entries j))
  unfolding load_state named
  load_state_lem a [] v = (a, refl, v, SameShape-refl a, λ j. ground arith)
  load_state_lem a (entry ∷ entries) v =
      let (b, e, v', s, t) = load_entry_lem a entry v in
      let (c, e', v'', s', t') = load_state_lem b entries v' in
      (
        c,
        rw e e',
        v'',
        SameShape-trans s s',
        λ j. ground (arith, t j, t' j, named_over entries j s),
      )

  -- Over a network of a size that is allowed, and a state directory that can be made and read, the
  -- constructor does not panic and returns a valid allocator. Exactly the reserved indices, and
  -- those whose address has a file in the directory, are taken in it; all other entries of the
  -- directory are passed over, and the rest of the allocator is made from the network.
  pub restart_lem :
      (n : IpNet) (entries : Disk)
      → IsNetwork n
      → host_bits n ≤ 20
      → least_size n ≤ 2 ^ host_bits n
      → (a : Allocator) × (new_allocator_with_state_dir names
            (some n)
            (some (record { mkdir_ok = true; read_ok = true; entries = entries }))
          ≡ some (ok a))
        × IsValid a
        × ((j : ℕ) → is_taken a j ≡ (reserved a j || named a entries j))
        × SameShape (fresh n true) a
  unfolding new_allocator_with_state_dir
  restart_lem n entries net fits room =
      let (a, e, new) = reserve-fresh n true net fits room in
      let (b, e', v, s, t) = load_state_lem a entries new.valid in
      (
        b,
        started a b e e',
        v,
        λ j.
            ground (
              arith,
              t j,
              new.only_reserved j,
              named_over entries j s,
              s.same_size,
              s.same_is_ipv4,
            ),
        SameShape-trans new.shape s,
      )
    where
      dir : StateDir
      dir = record { mkdir_ok = true; read_ok = true; entries = entries }

      started :
          (a b : Allocator)
          → reserve (fresh n true) ≡ some a
          → load_state names a entries ≡ some b
          → new_allocator_with_state_dir names (some n) (some dir) ≡ some (ok b)
      started a b e e' = ground (arith, e, e')
