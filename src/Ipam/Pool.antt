-- ===== src/Ipam/Pool.antt =====
-- The pools of internal/ipam/pool.go: address ranges, each with a bitmap, and single addresses. A Go map
-- is an association list, and is walked in its order. `none` is a panic. What `net.ParseCIDR` and
-- `net.ParseIP` make of the texts of a configuration, and the time, are arguments.
pub mod Ranges
pub mod Allocate
pub mod Claiming
pub mod Specific
use novanet.Base.{
  ℕ, zero, suc, ◌+◌, ◌-◌, ◌^◌, Bool, true, false, not, ◌&&◌, Option, none, some, List, [], ◌∷◌, map,
  Result, ok, err, ◌>>=◌, ◌==◌, leb, ltb, if◌then◌else◌, length,
}
use novanet.Base.Int.{ℤ, sub_ℕ}
use novanet.Base.Assoc.{lookup, insert, delete}
use novanet.Ipam.Bitmap.{Bitmap, new_bitmap, set, clear, get, find_free}
use novanet.Ipam.Address.{
  Ip, to4, to16, or_nil, normalize_ip, index_to_ip, ip_to_index, index_below, IpNet, host_bits,
  contains, Text, text_dec, Naming,
}

pub data Error : Type 0 where
  parsing_cidr cidr_too_large invalid_ip_address no_free_addresses ip_outside_cidr : Error
  ip_out_of_range ip_already_alloc ip_not_allocated : Error

pub record AllocationInfo : Type 0 where
  pub ip : Ip
  pub owner : Text
  pub resource : Text
  pub timestamp : ℕ

pub record CidrRange : Type 0 where
  pub network : IpNet
  pub base_ip : Ip
  pub size : ℕ
  pub bitmap : Bitmap
  pub prefix_len : ℕ
  pub ip_len : ℕ

pub record Pool : Type 0 where
  pub name : Text
  pub pool_type : Text
  pub auto_assign : Bool
  pub owner : Text
  pub ranges : List CidrRange
  pub discrete_addrs : List (Text × Bool)
  pub allocations : List (Text × AllocationInfo)

-- A configuration, with its ranges parsed.
pub record PoolConfig : Type 0 where
  pub name : Text
  pub pool_type : Text
  pub cidrs : List (Option IpNet)
  pub addresses : List Text
  pub auto_assign : Bool
  pub owner : Text

unfoldable pub parse_cidr_range : Option IpNet → Result Error CidrRange
parse_cidr_range none = err parsing_cidr
parse_cidr_range (some network) =
    if ltb 20 (host_bits network)
    then err cidr_too_large
    else ok (record {
      network = network;
      base_ip = if network.bits == 128 then or_nil (to16 network.ip) else or_nil (to4 network.ip);
      size = 2 ^ host_bits network;
      bitmap = new_bitmap (2 ^ host_bits network);
      prefix_len = network.ones;
      ip_len = if network.bits == 128 then 16 else 4;
    })

unfoldable pub parse_cidrs : List (Option IpNet) → Result Error (List CidrRange)
unfolding parse_cidr_range
parse_cidrs [] = ok []
parse_cidrs (cidr ∷ cidrs) =
    let rest = parse_cidrs cidrs in
    elim (parse_cidr_range cidr) [
      | err e ↦ err e
      | ok cr ↦ elim rest [ err e ↦ err e | ok crs ↦ ok (cr ∷ crs) ]
    ]

-- The index of an address in a range, unless it is negative or not below the size.
unfoldable pub range_index : CidrRange → Ip → Option ℕ
range_index cr ip = index_below (ip_to_index cr.base_ip ip cr.ip_len) cr.size

-- The loop of `Allocate` over the ranges: the first one with a free address gives it.
unfoldable pub allocate_range : List CidrRange → Option (Option (List CidrRange × Ip))
allocate_range [] = some none
allocate_range (cr ∷ ranges) =
    let rest = allocate_range ranges in
    elim (find_free cr.bitmap) [
      | none ↦ do
        found ← rest
        elim found [ none ↦ some none | some (ranges', ip) ↦ some (some (cr ∷ ranges', ip)) ]
      | some idx ↦ do
        bitmap ← set cr.bitmap idx
        ip ← index_to_ip cr.base_ip idx cr.ip_len
        some (some (record cr { bitmap = bitmap } ∷ ranges, ip))
    ]

-- The loop over the single addresses: the first that is not allocated.
unfoldable pub free_address : List (Text × Bool) → Option Text
free_address [] = none
free_address ((addr, allocated) ∷ addrs) = if allocated then free_address addrs else some addr

-- The loop of `AllocateSpecific` over the ranges.
unfoldable pub claim_range : List CidrRange → Ip → Option (Result Error (List CidrRange))
unfolding range_index
claim_range [] ip = some (err ip_outside_cidr)
claim_range (cr ∷ ranges) ip =
    let rest = claim_range ranges ip in
    if contains cr.network ip
    then elim (range_index cr ip) [
      | none ↦ some (err ip_out_of_range)
      | some idx ↦ do
        taken ← get cr.bitmap idx
        if taken
            then some (err ip_already_alloc)
            else (do bitmap ← set cr.bitmap idx; some (ok (record cr { bitmap = bitmap } ∷ ranges)))
    ]
    else (do
      claimed ← rest
      elim claimed [ err e ↦ some (err e) | ok ranges' ↦ some (ok (cr ∷ ranges')) ])

-- The loop of `Release` over the ranges.
unfoldable pub free_range : List CidrRange → Ip → Option (List CidrRange)
unfolding range_index
free_range [] ip = some []
free_range (cr ∷ ranges) ip =
    let rest = (do ranges' ← free_range ranges ip; some (cr ∷ ranges')) in
    if contains cr.network ip
    then elim (range_index cr ip) [
      | none ↦ rest
      | some idx ↦ do bitmap ← clear cr.bitmap idx; some (record cr { bitmap = bitmap } ∷ ranges)
    ]
    else rest

-- The loop of `IsAvailable` over the ranges.
unfoldable pub available_range : List CidrRange → Ip → Option Bool
unfolding range_index
available_range [] ip = some false
available_range (cr ∷ ranges) ip =
    let rest = available_range ranges ip in
    if contains cr.network ip
    then elim (range_index cr ip) [
      | none ↦ rest
      | some idx ↦ do taken ← get cr.bitmap idx; some (not taken)
    ]
    else rest

-- The loop of `Contains` over the ranges.
unfoldable pub contains_range : List CidrRange → Ip → Bool
contains_range [] ip = false
contains_range (cr ∷ ranges) ip = if contains cr.network ip then true else contains_range ranges ip

unfoldable pub total_size : List CidrRange → ℕ
total_size [] = 0
total_size (cr ∷ ranges) = cr.size + total_size ranges

pub record PoolStatus : Type 0 where
  pub name : Text
  pub pool_type : Text
  pub allocated : ℕ
  pub total : ℕ
  pub available : ℤ
  pub allocations : List AllocationInfo

unfoldable pub status : Pool → PoolStatus
unfolding total_size
status p =
    let total = length p.discrete_addrs + total_size p.ranges in
    let allocated = length p.allocations in
    record {
      name = p.name;
      pool_type = p.pool_type;
      allocated = allocated;
      total = total;
      available = sub_ℕ total allocated;
      allocations = map (λ e. e.1) p.allocations;
    }

module _ (names : Naming) where
  open names use {text, parse_ip}

  -- The loop of `NewPool` over the addresses.
  unfoldable pub parse_addresses :
      List Text → List (Text × Bool) → Result Error (List (Text × Bool))
  parse_addresses [] addrs = ok addrs
  parse_addresses (addr ∷ rest) addrs = elim (parse_ip addr) [
    | none ↦ err invalid_ip_address
    | some ip ↦ parse_addresses rest (insert text_dec (text ip) false addrs)
  ]

  unfoldable pub new_pool : PoolConfig → Result Error Pool
  unfolding parse_cidrs parse_addresses
  new_pool cfg = elim (parse_cidrs cfg.cidrs) [
    | err e ↦ err e
    | ok ranges ↦ elim (parse_addresses cfg.addresses []) [
      | err e ↦ err e
      | ok addrs ↦ ok (record {
        name = cfg.name;
        pool_type = cfg.pool_type;
        auto_assign = cfg.auto_assign;
        owner = cfg.owner;
        ranges = ranges;
        discrete_addrs = addrs;
        allocations = [];
      })
    ]
  ]

  unfoldable pub allocate : ℕ → Text → Text → Pool → Option (Pool × Result Error Ip)
  unfolding allocate_range free_address
  allocate now owner resource p = do
    found ← allocate_range p.ranges
    elim found [
      | some (ranges, ip) ↦ some (
        record p {
          ranges = ranges;
          allocations =
              insert text_dec (text ip)
                (record { ip = ip; owner = owner; resource = resource; timestamp = now })
                p.allocations;
        },
        ok ip,
      )
      | none ↦ elim (free_address p.discrete_addrs) [
        | none ↦ some (p, err no_free_addresses)
        | some addr ↦
            let ip = or_nil (parse_ip addr) in
            some (
              record p {
                discrete_addrs = insert text_dec addr true p.discrete_addrs;
                allocations =
                    insert text_dec addr
                      (record { ip = ip; owner = owner; resource = resource; timestamp = now })
                      p.allocations;
              },
              ok ip,
            )
      ]
    ]

  -- The entry that `AllocateSpecific` adds, on either of its paths.
  unfoldable pub record_specific : ℕ → Text → Text → Pool → Ip → Pool
  record_specific now owner resource p ip_norm = record p {
    allocations =
        insert text_dec (text ip_norm)
          (record { ip = ip_norm; owner = owner; resource = resource; timestamp = now })
          p.allocations;
  }

  unfoldable pub allocate_specific :
      ℕ → Text → Text → Pool → Ip → Option (Pool × Result Error (Unit {0}))
  unfolding claim_range record_specific
  allocate_specific now owner resource p ip =
      let ip_norm = normalize_ip ip in
      elim (lookup text_dec (text ip_norm) p.discrete_addrs) [
        | some allocated ↦
            if allocated
            then some (p, err ip_already_alloc)
            else some (
              record_specific now owner resource
                  (record p {
                    discrete_addrs = insert text_dec (text ip_norm) true p.discrete_addrs;
                  })
                  ip_norm,
              ok tt,
            )
        | none ↦ do
          claimed ← claim_range p.ranges ip_norm
          elim claimed [
            | err e ↦ some (p, err e)
            | ok ranges ↦
                some
                  (record_specific now owner resource (record p { ranges = ranges }) ip_norm, ok tt)
          ]
      ]

  unfoldable pub release : Pool → Ip → Option (Pool × Result Error (Unit {0}))
  unfolding free_range
  release p ip =
      let ip_norm = normalize_ip ip in
      let allocations = delete text_dec (text ip_norm) p.allocations in
      elim (lookup text_dec (text ip_norm) p.allocations) [
        | none ↦ some (p, err ip_not_allocated)
        | some info ↦ elim (lookup text_dec (text ip_norm) p.discrete_addrs) [
          | some allocated ↦ some (
            record p {
              discrete_addrs = insert text_dec (text ip_norm) false p.discrete_addrs;
              allocations = allocations;
            },
            ok tt,
          )
          | none ↦ do
            ranges ← free_range p.ranges ip_norm
            some (record p { ranges = ranges; allocations = allocations }, ok tt)
        ]
      ]

  unfoldable pub is_available : Pool → Ip → Option Bool
  unfolding available_range
  is_available p ip =
      let ip_norm = normalize_ip ip in
      elim (lookup text_dec (text ip_norm) p.discrete_addrs) [
        | some allocated ↦ some (not allocated)
        | none ↦ available_range p.ranges ip_norm
      ]

  unfoldable pub pool_contains : Pool → Ip → Bool
  unfolding contains_range
  pool_contains p ip =
      let ip_norm = normalize_ip ip in
      elim (lookup text_dec (text ip_norm) p.discrete_addrs) [
        | some allocated ↦ true
        | none ↦ contains_range p.ranges ip_norm
      ]
