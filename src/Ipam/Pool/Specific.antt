-- ===== src/Ipam/Pool/Specific.antt =====
-- `AllocateSpecific`, `Release` and `IsAvailable` of internal/ipam/pool.go.
use novanet.Base.{ℕ, ◌≡◌, ◌≢◌, ◌⊎◌, true, false, none, some, Result, ok, err}
use novanet.Ipam.Address.{Ip}
use novanet.Ipam.Pool.{Error, ip_outside_cidr, ip_out_of_range, ip_already_alloc}
use novanet.Base.Assoc.{lookup}
use novanet.Ipam.Address.{Text, text_dec, Naming, normalize_ip}
use novanet.Ipam.Pool.{
  Pool, AllocationInfo, allocate_specific, release, is_available, pool_contains,
}
use novanet.Ipam.Pool.Ranges.{AllValid, AllSame}
use novanet.Ipam.Pool.Claiming.{Claiming}

module _ (names : Naming) (now : ℕ) (owner resource : Text) (p : Pool) (ip : Ip) where
  abbrev key : Text
  key = names.text (normalize_ip ip)

  abbrev entry : AllocationInfo
  entry = record { ip = normalize_ip ip; owner = owner; resource = resource; timestamp = now }

  -- The allocation is recorded under the text of the address, and all others stay.
  abbrev pub Records : Pool → Type 0
  Records p' =
      (lookup text_dec key p'.allocations
        ≡ some
            (record { ip = normalize_ip ip; owner = owner; resource = resource; timestamp = now }))
      × ((other : Text)
          → key ≢ other
          → lookup text_dec other p'.allocations ≡ lookup text_dec other p.allocations)

  -- The address is a single one that is marked and the ranges stay, or the single addresses stay.
  abbrev pub MarksSingle : Pool → Type 0
  MarksSingle p' =
      ((lookup text_dec key p.discrete_addrs ≡ none) × (p'.discrete_addrs ≡ p.discrete_addrs))
      ⊎ ((lookup text_dec key p.discrete_addrs ≡ some false)
          × (lookup text_dec key p'.discrete_addrs ≡ some true)
          × ((other : Text)
              → key ≢ other
              → lookup text_dec other p'.discrete_addrs ≡ lookup text_dec other p.discrete_addrs)
          × (p'.ranges ≡ p.ranges))

  -- The single addresses are as they were, and the allocation of the address alone is gone.
  abbrev pub TakesBack : Pool → Type 0
  TakesBack back =
      ((q : Text) → lookup text_dec q back.discrete_addrs ≡ lookup text_dec q p.discrete_addrs)
      × (lookup text_dec key back.allocations ≡ none)
      × ((other : Text)
          → key ≢ other
          → lookup text_dec other back.allocations ≡ lookup text_dec other p.allocations)

  -- What `AllocateSpecific` may do, by its result.
  abbrev pub Allocates : Pool → Result Error (Unit {0}) → Type 0
  Allocates p' (ok r) =
      AllValid p'.ranges
      × (is_available names p ip ≡ some true)
      × (is_available names p' ip ≡ some false)
      × Records p'
      × MarksSingle p'
      × ((back : Pool) × (release names p' ip ≡ some (back, ok tt))
          × AllValid back.ranges
          × (is_available names back ip ≡ some true)
          × AllSame p.ranges back.ranges
          × TakesBack back)
  Allocates p' (err e) =
      (p' ≡ p)
      × (((e ≡ ip_outside_cidr) × (pool_contains names p ip ≡ false))
          ⊎ ((e ≡ ip_out_of_range) × (pool_contains names p ip ≡ true))
          ⊎ ((e ≡ ip_already_alloc) × (is_available names p ip ≡ some false)))

  abbrev Allocating : Type 0
  Allocating =
      (p' : Pool) × (r : Result Error (Unit {0})) × (allocate_specific names now owner resource p ip
        ≡ some (p', r))
      × Allocates p' r
