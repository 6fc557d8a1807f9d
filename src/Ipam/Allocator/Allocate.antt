-- ===== src/Ipam/Allocator/Allocate.antt =====
-- `Allocate` of internal/ipam/allocator.go.
use novanet.Base.{
  ℕ, ◌-◌, ◌≡◌, refl, sym, ap, ◌∙◌, ◌⊎◌, inl, inr, true, not, ◌&&◌, Option, none, some, Result, ok,
  err, ◌↔◌, arith,
}
use novanet.Base.Counting.{LeastFree, LeastFree-unique, count_below_all, count_below_lt}
use novanet.Ipam.Address.{Ip, Naming, index_to_ip}
use novanet.Ipam.Address.Index.{ip_to_index-index_to_ip}
use novanet.Ipam.Bitmap.{find_free}
use novanet.Ipam.Bitmap.Laws.{is_set, count, find_free-LeastFree}
use novanet.Ipam.Allocator.{
  Allocator, Disk, Error, Write, wrote, after_failure, no_free_addresses, persisting_ip, claim,
  allocate, allocator_index_to_ip, available,
}
use novanet.Ipam.Allocator.Invariant.{IsValid, SameState, is_taken}
use novanet.Ipam.Allocator.Claim.{Claims, claim-Claims}

-- The index that is handed out next.
pub next_index : (a : Allocator) → IsValid a → LeastFree (is_taken a) 0 a.size (find_free a.bitmap)
unfolding is_taken
next_index a v = rw (← v.sized) (find_free-LeastFree a.bitmap v.bitmap_valid)

module _ (names : Naming) (write : Write) (a : Allocator) (disk : Disk) where
  -- What `Allocate` may do, by its result.
  abbrev pub Allocates : Allocator → Disk → Result Error Ip → Type 0
  Allocates a' disk' (ok ip) =
      (idx : ℕ) × LeastFree (is_taken a) 0 a.size (some idx)
      × (allocator_index_to_ip a idx ≡ some ip)
      × Claims names write a disk idx ip ip a' disk' (ok ip)
  Allocates a' disk' (err e) =
      ((e ≡ no_free_addresses) × LeastFree (is_taken a) 0 a.size none × (a' ≡ a) × (disk' ≡ disk))
      ⊎ ((e ≡ persisting_ip)
          × ((a.persistent && not (wrote write)) ≡ true)
          × SameState a a'
          × ((idx : ℕ) × (ip : Ip) × LeastFree (is_taken a) 0 a.size (some idx)
              × (allocator_index_to_ip a idx ≡ some ip)
              × (disk' ≡ after_failure write (names.text ip) disk)))

  abbrev Allocating : Type 0
  Allocating =
      (a' : Allocator) × (disk' : Disk) × (r : Result Error Ip) × (allocate names write a disk
        ≡ some (a', disk', r))
      × IsValid a'
      × Allocates a' disk' r

  -- `Allocate` on a valid allocator does not panic and keeps it valid. It hands out the address of
  -- the least free index, counts it and writes its file; or reports that no index is free and
  -- changes nothing; or, if the file cannot be written, takes the index back and changes nothing but the file of that
  -- address, if the write left one.
  pub allocate-Allocates :
      IsValid a
      → (a' : Allocator) × (disk' : Disk) × (r : Result Error Ip) × (allocate names write a disk
          ≡ some (a', disk', r))
        × IsValid a'
        × Allocates a' disk' r
  unfolding allocate allocator_index_to_ip
  allocate-Allocates v = go (find_free a.bitmap) refl (next_index a v)
    where
      claimed :
          (idx : ℕ) (ip : Ip)
          → index_to_ip a.base_ip idx a.ip_len ≡ some ip
          → find_free a.bitmap ≡ some idx
          → LeastFree (is_taken a) 0 a.size (some idx)
          → (a' : Allocator) × (disk' : Disk) × (r : Result Error Ip) × (claim names write a disk
                idx ip ip
              ≡ some (a', disk', r))
            × IsValid a'
            × Claims names write a disk idx ip ip a' disk' r
          → Allocating
      claimed idx ip e f l (a', disk', ok r, g, v', c) = (
        a',
        disk',
        ok ip,
        rw (f, allocate) (rw e (g ∙ ap (λ t. some (a', disk', ok t)) c.0)),
        v',
        (idx, l, e, (refl, c.1, c.2, c.3, c.4)),
      )
      claimed idx ip e f l (a', disk', err x, g, v', c) = (
        a',
        disk',
        err x,
        rw (f, allocate) (rw e g),
        v',
        inr (c.0, c.1, c.2, (idx, ip, l, e, c.3)),
      )

      go : (o : Option ℕ) → find_free a.bitmap ≡ o → LeastFree (is_taken a) 0 a.size o → Allocating
      go none e l = (a, disk, err no_free_addresses, rw (e, allocate), v, inl (refl, l, refl, refl))
      go (some idx) e l =
          let (ip, f, _, _, _) =
            ip_to_index-index_to_ip a.base_ip a.ip_len a.size idx v.range l.1 in
          claimed idx ip f e l (claim-Claims names write a disk idx ip ip v l.1 l.2)

  pub free_iff : IsValid a → (find_free a.bitmap ≡ none) ↔ (available a ≡ 0)
  unfolding available is_taken count
  free_iff v =
      (empty (find_free a.bitmap) (next_index a v), full (find_free a.bitmap) (next_index a v))
    where
      empty :
          (o : Option ℕ) → LeastFree (is_set a.bitmap) 0 a.size o → o ≡ none → a.size - a.used ≡ 0
      empty none l e = omega (
        arith,
        v.counted,
        v.sized,
        count_below_all a.bitmap.size (is_set a.bitmap)
            (λ j m. l j (omega arith) (omega (arith, v.sized))),
      )
      empty (some idx) l e = absurd (cc)

      full :
          (o : Option ℕ) → LeastFree (is_set a.bitmap) 0 a.size o → a.size - a.used ≡ 0 → o ≡ none
      full none l e = refl
      full (some idx) l e = absurd (
          omega (
            arith,
            v.counted,
            v.sized,
            count_below_lt a.bitmap.size (is_set a.bitmap) idx (omega (arith, v.sized)) l.2,
          ))

  -- On a valid allocator `Allocate` reports that there is no free address exactly when `Available`
  -- is 0.
  pub allocate-available_iff :
      IsValid a
      → (allocate names write a disk ≡ some (a, disk, err no_free_addresses)) ↔ (available a ≡ 0)
  unfolding allocate
  allocate-available_iff v = (to, λ e. rw ((free_iff v).1 e, allocate))
    where
      reported :
          Allocating
          → allocate names write a disk ≡ some (a, disk, err no_free_addresses)
          → LeastFree (is_taken a) 0 a.size none
      reported (a', disk', ok ip, g, v', c) e = absurd (cc (sym g, e))
      reported (a', disk', err x, g, v', inl (p, l, q, d)) e = l
      reported (a', disk', err x, g, v', inr (p, q, d, k)) e = absurd (cc (sym g, e, p))

      to : allocate names write a disk ≡ some (a, disk, err no_free_addresses) → available a ≡ 0
      to e = (free_iff v).0 (
          LeastFree-unique (is_taken a) 0 a.size _ _ (next_index a v)
            (reported (allocate-Allocates v) e))
