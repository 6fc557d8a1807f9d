-- ===== src/Ipam/Allocator.antt =====
-- internal/ipam/allocator.go. The state directory is a map from the names of its entries to whether
-- each is a directory; an operation takes it and gives it back, beside the allocator and its result.
-- Which system calls succeed is an argument, and so is what `net.ParseCIDR` makes of the text.
pub mod Invariant
pub mod Claim
pub mod Allocate
pub mod RoundTrip
pub mod History
pub mod Recovery
pub mod Tracks
pub mod Persist
pub mod Directory
pub mod Restore
pub mod Construct
pub mod Release
pub mod Specific
use novanet.Base.{
  ℕ, zero, suc, ◌+◌, ◌-◌, ◌^◌, Bool, true, false, not, ◌&&◌, Option, none, some, List, [], ◌∷◌,
  Result, ok, err, ◌>>=◌, ◌==◌, leb, ltb, if◌then◌else◌,
}
use novanet.Base.Assoc.{insert, delete}
use novanet.Ipam.Bitmap.{Bitmap, new_bitmap, set, clear, get, find_free}
use novanet.Ipam.Address.{
  Ip, to4, to16, or_nil, normalize_ip, index_to_ip, ip_to_index, index_below, IpNet, host_bits,
  contains, Text, text_dec, Naming,
}

pub data Error : Type 0 where
  parsing_cidr cidr_too_large cidr_too_small no_free_addresses ip_outside_cidr ip_out_of_range :
      Error
  ip_already_alloc ip_not_allocated release_network release_gateway release_broadcast : Error
  creating_state_dir loading_state persisting_ip : Error

abbrev pub Disk : Type 0
Disk = List (Text × Bool)

-- `persistent` is `stateDir != ""`.
pub record Allocator : Type 0 where
  pub network : IpNet
  pub base_ip : Ip
  pub size : ℕ
  pub bitmap : Bitmap
  pub used : ℕ
  pub prefix_len : ℕ
  pub ip_len : ℕ
  pub is_ipv4 : Bool
  pub persistent : Bool

unfoldable pub allocator_index_to_ip : Allocator → ℕ → Option Ip
allocator_index_to_ip a idx = index_to_ip a.base_ip idx a.ip_len

-- `allocatorIPToIndex` and the check of the sign and the size that follows each call.
unfoldable pub allocator_ip_to_index : Allocator → Ip → Option ℕ
allocator_ip_to_index a ip = index_below (ip_to_index a.base_ip ip a.ip_len) a.size

-- `bitmap.Set` and `used++`; then `bitmap.Clear` and `used--`.
unfoldable pub take_index : Allocator → ℕ → Option Allocator
take_index a idx = do
  bitmap ← set a.bitmap idx
  some (record a { bitmap = bitmap; used = a.used + 1 })

unfoldable pub drop_index : Allocator → ℕ → Option Allocator
drop_index a idx = do
  bitmap ← clear a.bitmap idx
  some (record a { bitmap = bitmap; used = a.used - 1 })

-- The guards of `Release` on a reserved index.
unfoldable pub release_guard : Allocator → ℕ → Option Error
release_guard a idx =
    if idx == 0
    then some release_network
    else if a.is_ipv4 && idx == 1
    then some release_gateway
    else if a.is_ipv4 && idx == a.size - 1
    then some release_broadcast
    else none

-- How `os.WriteFile` of the file of an address ends: it is written, or the call fails, and has then
-- left a file of that name or not.
pub data Write : Type 0 where
  written : Write
  failed : Bool → Write

abbrev pub wrote : Write → Bool
wrote written = true
wrote (failed left) = false

-- The state directory after a write of a file that failed.
abbrev pub after_failure : Write → Text → Disk → Disk
after_failure written name disk = disk
after_failure (failed true) name disk = insert text_dec name false disk
after_failure (failed false) name disk = disk

module _ (names : Naming) where
  open names use {text, parse_ip}

  -- The loop body of `loadState`.
  unfoldable pub load_entry : Allocator → Text × Bool → Option Allocator
  unfolding take_index allocator_ip_to_index
  load_entry a (name, is_dir) = if is_dir then some a else elim (parse_ip name) [
    | none ↦ some a
    | some ip ↦
        let ip_norm = normalize_ip ip in
        if contains a.network ip_norm
        then elim (allocator_ip_to_index a ip_norm) [
          | none ↦ some a
          | some idx ↦ do taken ← get a.bitmap idx; if taken then some a else take_index a idx
        ]
        else some a
  ]

  unfoldable pub load_state : Allocator → Disk → Option Allocator
  unfolding load_entry
  load_state a [] = some a
  load_state a (entry ∷ entries) = do a' ← load_entry a entry; load_state a' entries

  -- The end of `Allocate` and `AllocateSpecific`: take the index, write its file, and roll back if
  -- that fails. A file that a failed write has left is not removed.
  unfoldable pub claim {ℓ} :
      {A : Type ℓ}
      → Write
      → Allocator
      → Disk
      → ℕ
      → Ip
      → A
      → Option (Allocator × Disk × Result Error A)
  unfolding take_index drop_index
  claim write a disk idx ip result = do
    a' ← take_index a idx
    if a.persistent
        then (if wrote write then some (a', insert text_dec (text ip) false disk, ok result) else do
          a'' ← drop_index a' idx
          some (a'', after_failure write (text ip) disk, err persisting_ip))
        else some (a', disk, ok result)

  unfoldable pub allocate : Write → Allocator → Disk → Option (Allocator × Disk × Result Error Ip)
  unfolding claim allocator_index_to_ip
  allocate write a disk = elim (find_free a.bitmap) [
    | none ↦ some (a, disk, err no_free_addresses)
    | some idx ↦ do ip ← allocator_index_to_ip a idx; claim write a disk idx ip ip
  ]

  unfoldable pub allocate_specific :
      Write → Allocator → Disk → Ip → Option (Allocator × Disk × Result Error (Unit {0}))
  unfolding claim allocator_ip_to_index
  allocate_specific write a disk ip =
      let ip_norm = normalize_ip ip in
      if contains a.network ip_norm
      then elim (allocator_ip_to_index a ip_norm) [
        | none ↦ some (a, disk, err ip_out_of_range)
        | some idx ↦ do
          taken ← get a.bitmap idx
          if taken then some (a, disk, err ip_already_alloc) else claim write a disk idx ip_norm tt
      ]
      else some (a, disk, err ip_outside_cidr)

  -- The rest of `Release`. `removeIP` only logs an error.
  unfoldable pub release_index :
      Bool → Allocator → Disk → ℕ → Ip → Option (Allocator × Disk × Result Error (Unit {0}))
  unfolding drop_index
  release_index remove_ok a disk idx ip_norm = do
    taken ← get a.bitmap idx
    if taken
        then (do
          a' ← drop_index a idx
          some (
            a',
            if a.persistent && remove_ok then delete text_dec (text ip_norm) disk else disk,
            ok tt,
          ))
        else some (a, disk, err ip_not_allocated)

  unfoldable pub release :
      Bool → Allocator → Disk → Ip → Option (Allocator × Disk × Result Error (Unit {0}))
  unfolding release_guard release_index allocator_ip_to_index
  release remove_ok a disk ip =
      let ip_norm = normalize_ip ip in
      if contains a.network ip_norm
      then elim (allocator_ip_to_index a ip_norm) [
        | none ↦ some (a, disk, err ip_out_of_range)
        | some idx ↦ elim (release_guard a idx) [
          | some e ↦ some (a, disk, err e)
          | none ↦ release_index remove_ok a disk idx ip_norm
        ]
      ]
      else some (a, disk, err ip_outside_cidr)

-- `Used`, `Available`, `Gateway`.
unfoldable pub used : Allocator → ℕ
used a = a.used

unfoldable pub available : Allocator → ℕ
available a = a.size - a.used

unfoldable pub gateway : Allocator → Option Ip
gateway a = allocator_index_to_ip a 1

-- The addresses that `NewAllocatorWithStateDir` reserves.
unfoldable pub reserve : Allocator → Option Allocator
reserve a =
    if a.is_ipv4
    then (do
      b ← set a.bitmap 0
      b' ← set b 1
      if ltb 2 a.size
          then (do b'' ← set b' (a.size - 1); some (record a { bitmap = b''; used = 3 }))
          else some (record a { bitmap = b'; used = 2 }))
    else (do b ← set a.bitmap 0; some (record a { bitmap = b; used = 1 }))

-- The allocator before anything is reserved.
unfoldable pub fresh : IpNet → Bool → Allocator
unfolding to4 to16
fresh network persistent =
    let size = 2 ^ host_bits network in
    let is_ipv4 = network.bits == 32 in
    record {
      network = network;
      base_ip = if is_ipv4 then or_nil (to4 network.ip) else or_nil (to16 network.ip);
      size = size;
      bitmap = new_bitmap size;
      used = 0;
      prefix_len = network.ones;
      ip_len = if is_ipv4 then 4 else 16;
      is_ipv4 = is_ipv4;
      persistent = persistent;
    }

-- The directory of the state, or none; and whether `MkdirAll` and `ReadDir` succeed.
pub record StateDir : Type 0 where
  pub mkdir_ok : Bool
  pub read_ok : Bool
  pub entries : Disk

unfoldable pub restore : Naming → Allocator → StateDir → Option (Result Error Allocator)
unfolding load_state
restore names a dir =
    if not dir.mkdir_ok
    then some (err creating_state_dir)
    else if not dir.read_ok
    then some (err loading_state)
    else do a' ← load_state names a dir.entries; some (ok a')

unfoldable pub new_allocator_with_state_dir :
    Naming → Option IpNet → Option StateDir → Option (Result Error Allocator)
unfolding restore reserve fresh
new_allocator_with_state_dir names none dir = some (err parsing_cidr)
new_allocator_with_state_dir names (some network) dir =
    if ltb 20 (host_bits network)
    then some (err cidr_too_large)
    else if network.bits == 32 && ltb (2 ^ host_bits network) 4
    then some (err cidr_too_small)
    else if not (network.bits == 32) && ltb (2 ^ host_bits network) 2
    then some (err cidr_too_small)
    else elim dir [
      | none ↦ do a ← reserve (fresh network false); some (ok a)
      | some state_dir ↦ do a ← reserve (fresh network true); restore names a state_dir
    ]

unfoldable pub new_allocator : Naming → Option IpNet → Option (Result Error Allocator)
unfolding new_allocator_with_state_dir
new_allocator names network = new_allocator_with_state_dir names network none
