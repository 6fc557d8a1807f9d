-- ===== src/Ipam/Allocator/History.antt =====
-- A history of calls of internal/ipam/allocator.go.
use novanet.Base.{
  ℕ, ◌≡◌, ◌∙◌, ◌⊎◌, ◌&&◌, not, refl, inl, inr, Bool, true, false, Option, none, some, List, [], ◌∷◌,
  length, ◌>>=◌, Result, ok, err,
}
use novanet.Ipam.Address.{Ip, IpNet, Naming, IsFaithful, Text, normalize_ip}
use novanet.Ipam.Address.Bytes.{IsBytes}
use novanet.Ipam.Address.Index.{normalize_ip-of_four, index_to_ip-IsBytes}
use novanet.Ipam.Allocator.{
  Allocator, Disk, Error, Write, written, failed, wrote, after_failure, ip_already_alloc,
  persisting_ip, allocate, allocate_specific, release, allocator_index_to_ip,
}
use novanet.Ipam.Allocator.Invariant.{IsValid, is_taken}
use novanet.Ipam.Allocator.RoundTrip.{index-Addresses}
use novanet.Ipam.Allocator.Specific.{IsOutside, Addresses, allocate_specific-Allocates}
use novanet.Ipam.Allocator.Specific
use novanet.Ipam.Allocator.Allocate.{allocate-Allocates, Allocates}
use novanet.Ipam.Allocator.Release.{release-Releases, Releases}
use novanet.Ipam.Allocator.Tracks.{Tracks, Tracks-take, Tracks-drop, Tracks-same}

-- A call, with whether its file can be written, and is not left if it cannot; a file that is to go is
-- removed.
pub data Call : Type 0 where
  allocates : Bool → Call
  claims : Bool → Ip → Call
  releases : Ip → Call

-- The address of a call has four bytes.
abbrev pub IsFourCall : Call → Type 0
IsFourCall (allocates write_ok) = Unit {0}
IsFourCall (claims write_ok ip) = (length ip ≡ 4) × IsBytes ip
IsFourCall (releases ip) = (length ip ≡ 4) × IsBytes ip

abbrev dropped {ℓ} :
    {A : Type ℓ} → Option (Allocator × Disk × Result Error A) → Option (Allocator × Disk)
dropped none = none
dropped (some (a, disk, r)) = some (a, disk)

-- A write that succeeds, or fails without a file.
abbrev pub whole : Bool → Write
whole true = written
whole false = failed false

nothing_left :
    (write_ok : Bool) (name : Text) (disk : Disk) → after_failure (whole write_ok) name disk ≡ disk
nothing_left true name disk = refl
nothing_left false name disk = refl

-- The state after a call, whatever its result.
unfoldable pub step : Naming → Call → Allocator → Disk → Option (Allocator × Disk)
step names (allocates write_ok) a disk = dropped (allocate names (whole write_ok) a disk)
step names (claims write_ok ip) a disk =
    dropped (allocate_specific names (whole write_ok) a disk ip)
step names (releases ip) a disk = dropped (release names true a disk ip)

unfoldable pub run : Naming → List Call → Allocator → Disk → Option (Allocator × Disk)
unfolding step
run names [] a disk = some (a, disk)
run names (call ∷ calls) a disk = do (a', disk') ← step names call a disk; run names calls a' disk'

abbrev pub AllFour : List Call → Type 0
AllFour [] = Unit {0}
AllFour (call ∷ calls) = IsFourCall call × AllFour calls

module _ (names : Naming) (faithful : IsFaithful names) (network : IpNet) where
  abbrev Follows : Call → Allocator → Disk → Type 0
  Follows call a disk =
      (a' : Allocator) × (disk' : Disk) × (step names call a disk ≡ some (a', disk'))
      × Tracks names network a' disk'

  allocates-Follows :
      (write_ok : Bool) (a : Allocator) (disk : Disk)
      → Tracks names network a disk
      → Follows (allocates write_ok) a disk
  unfolding step
  allocates-Follows write_ok a disk t =
      go (allocate-Allocates names (whole write_ok) a disk t.persistent.valid)
    where
      open t use {persistent as p}

      go :
          (a' : Allocator) × (disk' : Disk) × (r : Result Error Ip) × (allocate names
                (whole write_ok)
                a
                disk
              ≡ some (a', disk', r))
            × IsValid a'
            × Allocates names (whole write_ok) a disk a' disk' r
          → Follows (allocates write_ok) a disk
      go (a', disk', ok ip, e, v', (idx, l, i, (r, w, c, n, d))) =
          let (at, four) = index-Addresses a idx ip p.valid p.four l.1 i in
          (
            a',
            disk',
            rw e,
            rw (d, p.persists)
                (Tracks-take names faithful network a disk a' ip idx t v' c four (bytes ip idx i)
                  at),
          )
        where
          bytes : (ip : Ip) (idx : ℕ) → allocator_index_to_ip a idx ≡ some ip → IsBytes ip
          bytes ip idx i =
              unfold allocator_index_to_ip in index_to_ip-IsBytes a.base_ip ip idx a.ip_len i
      go (a', disk', err x, e, v', inl (y, l, q, d)) = (a', disk', rw e, rw (q, d) t)
      go (a', disk', err x, e, v', inr (y, w, s, (idx, ip, l, i, d))) = (
        a',
        disk',
        rw e,
        rw (d ∙ nothing_left write_ok (names.text ip) disk)
            (Tracks-same names faithful network a disk a' t v' s),
      )

  claims-Follows :
      (write_ok : Bool) (ip : Ip) (a : Allocator) (disk : Disk)
      → (length ip ≡ 4) × IsBytes ip
      → Tracks names network a disk
      → Follows (claims write_ok ip) a disk
  unfolding step
  claims-Follows write_ok ip a disk (l, b) t =
      go (allocate_specific-Allocates names (whole write_ok) a disk ip t.persistent.valid)
    where
      open t use {persistent as p}

      same_disk :
          {x : Error} {disk' : Disk}
          → (IsOutside a ip x × (disk' ≡ disk))
            ⊎ ((idx : ℕ) × Addresses a ip idx
                × (((x ≡ ip_already_alloc) × (is_taken a idx ≡ true) × (disk' ≡ disk))
                    ⊎ ((x ≡ persisting_ip)
                        × (is_taken a idx ≡ false)
                        × ((a.persistent && not (wrote (whole write_ok))) ≡ true)
                        × (disk'
                            ≡ after_failure (whole write_ok) (names.text (normalize_ip ip)) disk))))
          → disk' ≡ disk
      same_disk (inl (o, d)) = d
      same_disk (inr (idx, at, inl (y, tk, d))) = d
      same_disk (inr (idx, at, inr (y, tk, w, d))) =
          d ∙ nothing_left write_ok (names.text (normalize_ip ip)) disk

      go :
          (a' : Allocator) × (disk' : Disk) × (r : Result Error (Unit {0})) × (allocate_specific
                names
                (whole write_ok)
                a
                disk
                ip
              ≡ some (a', disk', r))
            × IsValid a'
            × Specific.Allocates names (whole write_ok) a disk ip a' disk' r
          → Follows (claims write_ok ip) a disk
      go (a', disk', ok r, e, v', (idx, at, off, (q, w, c, n, d))) = (
        a',
        disk',
        rw e,
        rw (d, p.persists, normalize_ip-of_four ip l)
            (Tracks-take names faithful network a disk a' ip idx t v' c l b at),
      )
      go (a', disk', err x, e, v', (s, why)) = (
        a',
        disk',
        rw e,
        rw (same_disk why) (Tracks-same names faithful network a disk a' t v' s),
      )

  releases-Follows :
      (ip : Ip) (a : Allocator) (disk : Disk)
      → (length ip ≡ 4) × IsBytes ip
      → Tracks names network a disk
      → Follows (releases ip) a disk
  unfolding step
  releases-Follows ip a disk (l, b) t =
      go (release-Releases names true a disk ip t.persistent.valid)
    where
      open t use {persistent as p}

      go :
          (a' : Allocator) × (disk' : Disk) × (r : Result Error (Unit {0})) × (release names true a
                disk ip
              ≡ some (a', disk', r))
            × IsValid a'
            × Releases names true a disk ip a' disk' r
          → Follows (releases ip) a disk
      go (a', disk', ok r, e, v', (idx, at, free, tk, c, n, d)) = (
        a',
        disk',
        rw e,
        rw (d, p.persists, normalize_ip-of_four ip l)
            (Tracks-drop names faithful network a disk a' ip idx t v' c free l b at),
      )
      go (a', disk', err x, e, v', (q, d, why)) = (a', disk', rw e, rw (q, d) t)

  -- No call panics, and each keeps the directory in step.
  step-Follows :
      (call : Call) (a : Allocator) (disk : Disk)
      → IsFourCall call
      → Tracks names network a disk
      → Follows call a disk
  step-Follows (allocates write_ok) a disk g t = allocates-Follows write_ok a disk t
  step-Follows (claims write_ok ip) a disk g t = claims-Follows write_ok ip a disk g t
  step-Follows (releases ip) a disk g t = releases-Follows ip a disk g t

  -- No history of calls on an IPv4 allocator with a state directory panics, some of whose writes
  -- may fail but whose removals succeed; after it exactly the reserved indices and those with a
  -- file are taken.
  pub run-Tracks :
      (calls : List Call) (a : Allocator) (disk : Disk)
      → AllFour calls
      → Tracks names network a disk
      → (a' : Allocator) × (disk' : Disk) × (run names calls a disk ≡ some (a', disk'))
        × Tracks names network a' disk'
  unfolding run
  run-Tracks [] a disk g t = (a, disk, refl, t)
  run-Tracks (call ∷ calls) a disk g t =
      let (b, d, e, t') = step-Follows call a disk g.0 t in
      let (c, d', e', t'') = run-Tracks calls b d g.1 t' in (c, d', rw e e', t'')
