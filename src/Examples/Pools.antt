-- ===== src/Examples/Pools.antt =====
-- A pool of internal/ipam/pool.go with the range 10.0.0.0/29 and one single address.
use mathlib.Core.Logic.{if_pos}
use mathlib.Core.Path.{subst}
use novanet.Base.{
  sym, ◌∙◌, some_inj, Option, none, ℕ, ◌≡◌, ◌≤◌, ◌<◌, ◌⊎◌, ◌^◌, refl, true, false, some, [], ◌∷◌,
  Result, ok, err,
}
use novanet.Base.Assoc.{Distinct, lookup}
use novanet.Ipam.Address.{Ip, host_bits, text_dec}
use novanet.Ipam.Pool.{Pool, CidrRange, Error, cidr_too_large, allocate, parse_cidr_range}
use novanet.Ipam.Pool.Ranges.{AllValid, IsValid, is_taken, parse_cidr_range_lem}
use novanet.Ipam.Pool.Allocate.{Allocates, pool_allocate-Allocates}
use novanet.Ipam.Pool.Specific
use novanet.Ipam.Manager.{Manager}
use novanet.Ipam.Manager
use novanet.Ipam.Manager.Named.{named_allocate-Allocates}
use novanet.Ipam.Manager.Named
use novanet.Examples.Fixtures.{
  names, network, network-IsNetwork, bitmap, bitmap-IsValid, pods-IsRange,
}

abbrev single : Ip
single = 192 ∷ 168 ∷ 0 ∷ 1 ∷ []

abbrev vips : Pool
vips = record {
  name = 118 ∷ [];
  pool_type = 76 ∷ [];
  auto_assign = true;
  owner = [];
  ranges =
      record {
        network = network;
        base_ip = 10 ∷ 0 ∷ 0 ∷ 0 ∷ [];
        size = 8;
        bitmap = bitmap;
        prefix_len = 29;
        ip_len = 4;
      }
      ∷ [];
  discrete_addrs = (single, false) ∷ [];
  allocations = [];
}

vips-AllValid : AllValid vips.ranges
vips-AllValid = (record { bitmap_valid = bitmap-IsValid; sized = refl; range = pods-IsRange }, tt)

vips-Distinct : Distinct text_dec vips.discrete_addrs
unfolding lookup
vips-Distinct = (refl, tt)

pool_allocate_example :
    (p : Pool) × (r : Result Error Ip) × (allocate names 7 [] [] vips ≡ some (p, r))
    × AllValid p.ranges
    × Allocates names 7 [] [] vips p r
pool_allocate_example = pool_allocate-Allocates names 7 [] [] vips vips-AllValid vips-Distinct

parse_cidr_range_example :
    ((20 < host_bits network) × (parse_cidr_range (some network) ≡ err cidr_too_large))
    ⊎ ((host_bits network ≤ 20)
        × ((cr : CidrRange) × (parse_cidr_range (some network) ≡ ok cr)
            × IsValid cr
            × (cr.network ≡ network)
            × (cr.size ≡ 2 ^ host_bits network)
            × ((j : ℕ) → is_taken cr j ≡ false)))
parse_cidr_range_example = parse_cidr_range_lem network network-IsNetwork

abbrev manager : Manager
manager = record { pools = (118 ∷ [], vips) ∷ [] }

only_pool :
    (p : Pool)
    → lookup text_dec (118 ∷ []) manager.pools ≡ some p
    → AllValid p.ranges × Distinct text_dec p.discrete_addrs
unfolding lookup
only_pool p e =
    subst (λ t. AllValid t.ranges × Distinct text_dec t.discrete_addrs)
      (some_inj
        (sym (if_pos {C = Option Pool} (text_dec (118 ∷ []) (118 ∷ [])) refl (some vips) none) ∙ e))
      (vips-AllValid, vips-Distinct)

named_allocate_example :
    (m : Manager) × (r : Result Manager.Error Ip) × (Manager.allocate names 7 [] [] manager
        (118 ∷ [])
      ≡ some (m, r))
    × Named.Allocates names 7 [] [] manager (118 ∷ []) m r
named_allocate_example = named_allocate-Allocates names 7 [] [] manager (118 ∷ []) only_pool
