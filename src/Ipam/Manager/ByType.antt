-- ===== src/Ipam/Manager/ByType.antt =====
-- `AllocateByType` of internal/ipam/manager.go.
use novanet.Base.{ℕ, ◌≡◌, ◌≢◌, ◌⊎◌, true, false, Option, none, some, [], ◌∷◌, Result, ok, err}
use novanet.Base.Assoc.{lookup, Distinct}
use novanet.Ipam.Address.{Ip, Text, text_dec, Naming}
use novanet.Ipam.Pool.{Pool}
use novanet.Ipam.Pool
use novanet.Ipam.Pool.Ranges.{AllValid}
use novanet.Ipam.Pool.Allocate.{AllFull, Allocates}
use novanet.Ipam.Manager.{Manager, Pools, Error, no_free_addresses, suits, first_of_type}

-- Every pool has valid ranges and distinct single addresses.
abbrev pub AllWell : Pools → Type 0
AllWell [] = Unit {0}
AllWell (entry ∷ pools) =
    (AllValid entry.1.ranges × Distinct text_dec entry.1.discrete_addrs) × AllWell pools

-- A pool has no address left.
abbrev pub IsExhausted : Pool → Type 0
IsExhausted p =
    AllFull p.ranges × ((addr : Text) → lookup text_dec addr p.discrete_addrs ≢ some false)

-- A pool is not asked, or has no address left.
abbrev pub IsPassed : Text → Pool → Type 0
IsPassed pool_type p = (suits pool_type p ≡ false) ⊎ IsExhausted p

module _ (names : Naming) (now : ℕ) (owner resource pool_type : Text) where
  abbrev pub AllPassed : Pools → Type 0
  AllPassed [] = Unit {0}
  AllPassed (entry ∷ pools) = IsPassed pool_type entry.1 × AllPassed pools

  -- The pools before the chosen one are passed over; it gives the address; the others stay.
  abbrev pub Chooses : Pools → Pools → Ip → Text → Type 0
  Chooses [] pools' ip chosen = ⊥
  Chooses (entry ∷ pools) [] ip chosen = ⊥
  Chooses (entry ∷ pools) (entry' ∷ pools') ip chosen =
      (IsPassed pool_type entry.1 × (entry' ≡ entry) × Chooses pools pools' ip chosen)
      ⊎ ((suits pool_type entry.1 ≡ true)
          × (entry'.0 ≡ entry.0)
          × (chosen ≡ entry.1.name)
          × Allocates names now owner resource entry.1 entry'.1 (ok ip)
          × (pools' ≡ pools))

  abbrev Found : Pools → Option (Pools × Ip × Text) → Type 0
  Found pools none = AllPassed pools
  Found pools (some (pools', ip, chosen)) = Chooses pools pools' ip chosen

  abbrev Finding : Pools → Type 0
  Finding pools =
      (r : Option (Pools × Ip × Text)) × (first_of_type names now owner resource pool_type pools
        ≡ some r)
      × Found pools r

  -- What `AllocateByType` may do, by its result.
  abbrev pub Serves : Manager → Manager → Result Error (Ip × Text) → Type 0
  Serves m m' (ok (ip, chosen)) = Chooses m.pools m'.pools ip chosen
  Serves m m' (err e) = (e ≡ no_free_addresses) × (m' ≡ m) × AllPassed m.pools
