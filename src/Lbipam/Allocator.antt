-- ===== src/Lbipam/Allocator.antt =====
-- `Allocator` of internal/lbipam/allocator.go. A call returns the allocator that it leaves with its result,
-- and `none` where it panics. `net.ParseCIDR` and `IP.String` are parameters, beside the trailing zeros.
use novanet.Base.{
  ℕ, ◌^◌, Bool, true, false, Option, none, some, List, [], ◌∷◌, ◌>>=◌, leb, if◌then◌else◌, Result,
  ok, err,
}
use novanet.Base.Assoc.{lookup, insert, delete}
use novanet.Base.Text.{Text, text_dec, same_text}
use novanet.Ipam.Bitmap.{Bitmap}
use novanet.Ipam.Address.{Ip, IpNet, or_nil, index_below}
use novanet.Lbipam.{
  new_lb_bitmap, lb_set, lb_clear, lb_find_free, lb_pool_size, add_to_ip, ip_to_offset,
}

pub data LbError : Type 0 where
  no_pool_space pool_not_found pool_exists invalid_cidr pool_exhausted : LbError

pub record LbLibrary : Type 0 where
  pub trailing_zeros : ℕ → ℕ
  pub text : Ip → Text
  pub parse_cidr : Text → Option IpNet

-- `used` has the service of each address, by its text.
pub record LbPool : Type 0 where
  pub name : Text
  pub cidr : IpNet
  pub used : List (Text × Text)
  pub bm : Bitmap
  pub pool_size : ℕ
  pub base_ip : Ip

pub record LbAllocator : Type 0 where
  pub pools : List LbPool

unfoldable pub new_lb_allocator : LbAllocator
new_lb_allocator = record { pools = [] }

abbrev has_pool : Text → List LbPool → Bool
has_pool name [] = false
has_pool name (p ∷ pools) = if same_text p.name name then true else has_pool name pools

abbrev append : List LbPool → LbPool → List LbPool
append [] p = p ∷ []
append (q ∷ pools) p = q ∷ append pools p

-- A size that is negative as an int is a panic of `make`.
unfoldable pub lb_add_pool :
    LbLibrary → LbAllocator → Text → Text → Option (LbAllocator × Result {0, 0} LbError Unit)
lb_add_pool lib a name cidr =
    if has_pool name a.pools then some (a, err pool_exists) else elim (lib.parse_cidr cidr) [
      | none ↦ some (a, err invalid_cidr)
      | some net ↦
          let size = lb_pool_size net in
          if leb (2 ^ 63) size
          then none
          else some (
            record {
              pools = append a.pools (record {
                name = name;
                cidr = net;
                used = [];
                bm = new_lb_bitmap size;
                pool_size = size;
                base_ip = net.ip;
              });
            },
            ok tt,
          )
    ]

abbrev without_pool : Text → List LbPool → List LbPool
without_pool name [] = []
without_pool name (p ∷ pools) =
    let rest = without_pool name pools in if same_text p.name name then pools else p ∷ rest

unfoldable pub lb_remove_pool : LbAllocator → Text → LbAllocator
lb_remove_pool a name = record { pools = without_pool name a.pools }

-- `none` inside is the error that the pool is exhausted.
unfoldable pub allocate_from_pool_locked : LbLibrary → LbPool → Text → Option (LbPool × Option Ip)
allocate_from_pool_locked lib pool service_key = elim (lb_find_free lib.trailing_zeros pool.bm) [
  | none ↦ some (pool, none)
  | some idx ↦
      let candidate = or_nil (add_to_ip pool.base_ip idx) in
      lb_set pool.bm idx >>= (λ bm. some (
        record pool { bm = bm; used = insert text_dec (lib.text candidate) service_key pool.used },
        some candidate,
      ))
]

-- The loop of `Allocate` over the pools.
unfoldable pub lb_allocate_in : LbLibrary → List LbPool → Text → Option (List LbPool × Option Ip)
unfolding allocate_from_pool_locked
lb_allocate_in lib [] service_key = some ([], none)
lb_allocate_in lib (p ∷ pools) service_key =
    let rest = lb_allocate_in lib pools service_key in
    allocate_from_pool_locked lib p service_key >>= (λ (p', ip). elim ip [
      | some ip ↦ some (p' ∷ pools, some ip)
      | none ↦ rest >>= (λ (pools', found). some (p' ∷ pools', found))
    ])

unfoldable pub lb_allocate :
    LbLibrary → LbAllocator → Text → Option (LbAllocator × Result {0, 0} LbError Ip)
unfolding lb_allocate_in
lb_allocate lib a service_key = lb_allocate_in lib a.pools service_key >>= (λ (pools, found).
    elim found [
      | none ↦ some (record { pools = pools }, err no_pool_space)
      | some ip ↦ some (record { pools = pools }, ok ip)
    ])

-- The loop of `AllocateFromPool`.
unfoldable pub lb_allocate_named :
    LbLibrary → List LbPool → Text → Text → Option (List LbPool × Result {0, 0} LbError Ip)
unfolding allocate_from_pool_locked
lb_allocate_named lib [] pool_name service_key = some ([], err pool_not_found)
lb_allocate_named lib (p ∷ pools) pool_name service_key =
    let rest = lb_allocate_named lib pools pool_name service_key in
    if same_text p.name pool_name
    then allocate_from_pool_locked lib p service_key >>= (λ (p', ip). elim ip [
      | none ↦ some (p' ∷ pools, err pool_exhausted)
      | some ip ↦ some (p' ∷ pools, ok ip)
    ])
    else (rest >>= (λ (pools', r). some (p ∷ pools', r)))

unfoldable pub lb_allocate_from_pool :
    LbLibrary → LbAllocator → Text → Text → Option (LbAllocator × Result {0, 0} LbError Ip)
unfolding lb_allocate_named
lb_allocate_from_pool lib a pool_name service_key =
    lb_allocate_named lib a.pools pool_name service_key
    >>= (λ (pools, r). some (record { pools = pools }, r))

-- The address is forgotten, and its bit cleared if it has one.
unfoldable pub release_in_pool : LbPool → Text → Ip → Option LbPool
release_in_pool p key ip =
    let used = delete text_dec key p.used in
    elim (index_below (ip_to_offset p.base_ip ip) p.pool_size) [
      | none ↦ some (record p { used = used })
      | some offset ↦ lb_clear p.bm offset >>= (λ bm. some (record p { used = used; bm = bm }))
    ]

-- The loop of `Release`.
unfoldable pub lb_release_in : List LbPool → Text → Ip → Option (List LbPool × Bool)
unfolding release_in_pool
lb_release_in [] key ip = some ([], false)
lb_release_in (p ∷ pools) key ip =
    let rest = lb_release_in pools key ip in
    elim (lookup text_dec key p.used) [
      | some svc ↦ release_in_pool p key ip >>= (λ p'. some (p' ∷ pools, true))
      | none ↦ rest >>= (λ (pools', released). some (p ∷ pools', released))
    ]

unfoldable pub lb_release : LbLibrary → LbAllocator → Ip → Option (LbAllocator × Bool)
unfolding lb_release_in
lb_release lib a ip =
    lb_release_in a.pools (lib.text ip) ip
    >>= (λ (pools, released). some (record { pools = pools }, released))

abbrev service_in : List LbPool → Text → Option Text
service_in [] key = none
service_in (p ∷ pools) key =
    let rest = service_in pools key in
    elim (lookup text_dec key p.used) [ some svc ↦ some svc | none ↦ rest ]

unfoldable pub get_service_for_ip : LbLibrary → LbAllocator → Ip → Option Text
get_service_for_ip lib a ip = service_in a.pools (lib.text ip)

abbrev insert_all : List (Text × Text) → List (Text × Text) → List (Text × Text)
insert_all [] result = result
insert_all ((ip, svc) ∷ used) result = insert_all used (insert text_dec ip svc result)

abbrev all_used : List LbPool → List (Text × Text) → List (Text × Text)
all_used [] result = result
all_used (p ∷ pools) result = all_used pools (insert_all p.used result)

unfoldable pub lb_list_allocations : LbAllocator → List (Text × Text)
lb_list_allocations a = all_used a.pools []
