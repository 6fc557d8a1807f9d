-- ===== src/Examples/Addresses.antt =====
-- The allocator of internal/ipam/allocator.go over 10.0.0.0/29.
use novanet.Base.{
  ℕ, ◌+◌, ◌^◌, ◌≤◌, ◌<◌, ◌≡◌, ◌≢◌, ◌⊎◌, ◌↔◌, refl, true, false, ◌||◌, some, List, [], ◌∷◌, Result,
  ok, err, arith, length,
}
use novanet.Base.Int.{pos}
use novanet.Base.Counting.{LeastFree}
use novanet.Base.Assoc.{insert}
use novanet.Ipam.Address.Bytes.{IsBytes}
use novanet.Ipam.Bitmap.{find_free, set, get}
use novanet.Ipam.Bitmap.Laws as BitmapLaws
use novanet.Ipam.Address.{Ip, host_bits, set_bytes, index_to_ip, ip_to_index}
use novanet.Ipam.Address.Index.{ip_to_index-index_to_ip}
use novanet.Ipam.Allocator.{
  Allocator, Disk, Error, written, allocate, allocate_specific, release, available,
  no_free_addresses, used, new_allocator, new_allocator_with_state_dir, cidr_too_large,
  cidr_too_small, fresh,
}
use novanet.Ipam.Allocator.Invariant.{IsValid, SameState, SameShape, is_taken}
use novanet.Ipam.Allocator.Allocate.{Allocates, allocate-Allocates, allocate-available_iff}
use novanet.Ipam.Allocator.Specific
use novanet.Ipam.Allocator.Release.{Releases, release-Releases}
use novanet.Ipam.Allocator.Construct.{IsNew, least_size, reserved, new_allocator_lem}
use novanet.Ipam.Allocator.RoundTrip.{allocate-release, allocate-allocate-ne}
use novanet.Ipam.Allocator.Restore.{named, restart_lem}
use novanet.Ipam.Allocator.History.{Call, allocates, claims, releases, run, AllFour}
use novanet.Ipam.Allocator.Recovery.{restart_recovers, readable}
use novanet.Examples.Fixtures.{
  names, names-IsFaithful, network, network-IsNetwork, network-IsFourNetwork, bitmap,
  bitmap-IsValid, pods, pods-IsRange, pods-IsValid, pods-IsFour,
}

abbrev web : Ip
web = 10 ∷ 0 ∷ 0 ∷ 2 ∷ []

abbrev disk : Disk
disk = (web, false) ∷ []

abbrev calls : List Call
calls = allocates true ∷ claims true (10 ∷ 0 ∷ 0 ∷ 5 ∷ []) ∷ allocates false ∷ releases web ∷ []

four-IsBytes :
    (b : ℕ) → b < 256 → (length (10 ∷ 0 ∷ 0 ∷ b ∷ []) ≡ 4) × IsBytes (10 ∷ 0 ∷ 0 ∷ b ∷ [])
four-IsBytes b h = (refl, (omega arith, (omega arith, (omega arith, (h, tt)))))

calls-AllFour : AllFour calls
calls-AllFour = (tt, (four-IsBytes 5 (omega arith), (tt, (four-IsBytes 2 (omega arith), tt))))

find_free_test : find_free bitmap ≡ some 3
unfolding find_free
find_free_test = refl

allocate_test :
    allocate names written pods []
    ≡ some (
      record pods { bitmap = record { words = 143 ∷ []; size = 8 }; used = 5 },
      (10 ∷ 0 ∷ 0 ∷ 3 ∷ [], false) ∷ [],
      ok (10 ∷ 0 ∷ 0 ∷ 3 ∷ []),
    )
unfolding allocate find_free index_to_ip set insert
allocate_test = refl

restart_recovers_example :
    (start a : Allocator) × (left : Disk) × (b : Allocator) × (new_allocator_with_state_dir names
        (some network)
        (some (readable []))
      ≡ some (ok start))
    × (run names calls start [] ≡ some (a, left))
    × (new_allocator_with_state_dir names (some network) (some (readable left)) ≡ some (ok b))
    × ((j : ℕ) → is_taken b j ≡ is_taken a j)
    × (used b ≡ used a)
restart_recovers_example =
    restart_recovers names network calls names-IsFaithful network-IsFourNetwork calls-AllFour

allocate_example :
    (a' : Allocator) × (disk' : Disk) × (r : Result Error Ip) × (allocate names written pods disk
      ≡ some (a', disk', r))
    × IsValid a'
    × Allocates names written pods disk a' disk' r
allocate_example = allocate-Allocates names written pods disk pods-IsValid

allocate-available_iff_example :
    (allocate names written pods disk ≡ some (pods, disk, err no_free_addresses))
    ↔ (available pods ≡ 0)
allocate-available_iff_example = allocate-available_iff names written pods disk pods-IsValid

allocate_specific_example :
    (a' : Allocator) × (disk' : Disk) × (r : Result Error (Unit {0})) × (allocate_specific names
        written pods disk web
      ≡ some (a', disk', r))
    × IsValid a'
    × Specific.Allocates names written pods disk web a' disk' r
allocate_specific_example =
    Specific.allocate_specific-Allocates names written pods disk web pods-IsValid

release_example :
    (a' : Allocator) × (disk' : Disk) × (r : Result Error (Unit {0})) × (release names true pods
        disk web
      ≡ some (a', disk', r))
    × IsValid a'
    × Releases names true pods disk web a' disk' r
release_example = release-Releases names true pods disk web pods-IsValid

allocate-release_example :
    (a' : Allocator) × (disk' : Disk) × (ip : Ip) × (a'' : Allocator) × (disk'' : Disk) × (allocate
        names written pods disk
      ≡ some (a', disk', ok ip))
    × (release names true a' disk' ip ≡ some (a'', disk'', ok tt))
    × SameState pods a''
unfolding available
allocate-release_example =
    allocate-release names true pods disk pods-IsValid pods-IsFour (λ e. absurd (omega arith))

allocate-allocate-ne_example :
    (b c : Allocator) × (d e : Disk) × (ip ip' : Ip) × (allocate names written pods disk
      ≡ some (b, d, ok ip))
    × (allocate names written b d ≡ some (c, e, ok ip'))
    × (ip ≢ ip')
unfolding available
allocate-allocate-ne_example =
    allocate-allocate-ne names pods disk pods-IsValid pods-IsFour (omega arith)

restart_example :
    (a : Allocator) × (new_allocator_with_state_dir names
        (some network)
        (some (record { mkdir_ok = true; read_ok = true; entries = disk }))
      ≡ some (ok a))
    × IsValid a
    × ((j : ℕ) → is_taken a j ≡ (reserved a j || named names a disk j))
    × SameShape (fresh network true) a
restart_example = restart_lem names network disk network-IsNetwork (omega arith) (omega arith)

new_allocator_example :
    ((20 < host_bits network) × (new_allocator names (some network) ≡ some (err cidr_too_large)))
    ⊎ ((host_bits network ≤ 20)
        × (2 ^ host_bits network < least_size network)
        × (new_allocator names (some network) ≡ some (err cidr_too_small)))
    ⊎ ((host_bits network ≤ 20)
        × (least_size network ≤ 2 ^ host_bits network)
        × ((a : Allocator) × (new_allocator names (some network) ≡ some (ok a))
            × IsNew network false a))
new_allocator_example = new_allocator_lem names network network-IsNetwork

find_free_example : LeastFree (BitmapLaws.is_set bitmap) 0 8 (find_free bitmap)
find_free_example = BitmapLaws.find_free-LeastFree bitmap bitmap-IsValid

get_example : get bitmap 2 ≡ some (BitmapLaws.is_set bitmap 2)
get_example = BitmapLaws.get_lem bitmap 2 bitmap-IsValid (omega arith)

ip_to_index_example :
    (ip : Ip) × (index_to_ip (10 ∷ 0 ∷ 0 ∷ 0 ∷ []) 5 4 ≡ some ip)
    × (length ip ≡ 4)
    × (set_bytes ip ≡ set_bytes (10 ∷ 0 ∷ 0 ∷ 0 ∷ []) + 5)
    × (ip_to_index (10 ∷ 0 ∷ 0 ∷ 0 ∷ []) ip 4 ≡ pos 5)
ip_to_index_example = ip_to_index-index_to_ip (10 ∷ 0 ∷ 0 ∷ 0 ∷ []) 4 8 5 pods-IsRange (omega arith)
