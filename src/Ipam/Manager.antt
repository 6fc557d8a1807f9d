-- ===== src/Ipam/Manager.antt =====
-- internal/ipam/manager.go: the pools by their names. `GetPool` hands out a pointer, so what an operation
-- does to a pool it does to the pool in the map. A map is walked in the order of its list.
pub mod ByType
pub mod Named
use mathlib.Core.Logic.{ite}
use novanet.Base.{
  ℕ, ◌+◌, ◌++◌, Bool, true, false, not, ◌&&◌, Option, none, some, List, [], ◌∷◌, map, Result, ok,
  err, ◌>>=◌, if◌then◌else◌,
}
use novanet.Base.Text.{same_text}
use novanet.Base.Assoc.{lookup, insert, delete}
use novanet.Ipam.Address.{Ip, Text, text_dec, Naming}
use novanet.Ipam.Pool.{
  Pool, PoolConfig, PoolStatus, AllocationInfo, new_pool, is_available, pool_contains, status,
}
use novanet.Ipam.Pool

pub data Error : Type 0 where
  pool_already_registered pool_not_found no_free_addresses : Error
  of_pool : Pool.Error → Error

abbrev pub Pools : Type 0
Pools = List (Text × Pool)

pub record Manager : Type 0 where
  pub pools : Pools

unfoldable pub new_manager : Manager
new_manager = record { pools = [] }

-- An optional filter, by a test on it.
abbrev pub passes {ℓ} : {A : Type ℓ} → (A → Bool) → Option A → Bool
passes test none = true
passes test (some x) = test x

-- `getPool`.
unfoldable pub find_pool : Manager → Text → Result Error Pool
find_pool m name = elim (lookup text_dec name m.pools) [
  | none ↦ err pool_not_found
  | some pool ↦ ok pool
]

unfoldable pub unregister_pool : Manager → Text → Manager
unregister_pool m name = record { pools = delete text_dec name m.pools }

-- An operation of the pool with a name, on the pool in the map.
unfoldable pub with_pool {ℓ} :
    {A : Type ℓ}
    → Manager
    → Text
    → (Pool → Option (Pool × Result Pool.Error A))
    → Option (Manager × Result Error A)
unfolding find_pool
with_pool m name operation = elim (find_pool m name) [
  | err e ↦ some (m, err e)
  | ok pool ↦ do
    (pool', r) ← operation pool
    elim r [
      | err e ↦ some (record { pools = insert text_dec name pool' m.pools }, err (of_pool e))
      | ok x ↦ some (record { pools = insert text_dec name pool' m.pools }, ok x)
    ]
]

unfoldable pub get_pool : Manager → Text → Result Error PoolStatus
unfolding find_pool
get_pool m name = elim (find_pool m name) [ err e ↦ err e | ok pool ↦ ok (status pool) ]

unfoldable pub list_pools : Pools → Option Text → List PoolStatus
list_pools [] filter_type = []
list_pools ((name, pool) ∷ pools) filter_type =
    let rest = list_pools pools filter_type in
    if passes (same_text pool.pool_type) filter_type then status pool ∷ rest else rest

-- The allocations of a pool that the filter on the owner lets through.
unfoldable pub owned : Option Text → List AllocationInfo → List AllocationInfo
owned filter_owner [] = []
owned filter_owner (a ∷ allocations) =
    let rest = owned filter_owner allocations in
    if passes (same_text a.owner) filter_owner then a ∷ rest else rest

-- An empty filter on the pool or the owner is `none`.
unfoldable pub list_allocations :
    Pools → Option Text → Option Text → Option Text → List AllocationInfo
unfolding owned
list_allocations [] filter_pool filter_owner filter_type = []
list_allocations ((name, pool) ∷ pools) filter_pool filter_owner filter_type =
    let rest = list_allocations pools filter_pool filter_owner filter_type in
    if passes (same_text pool.name) filter_pool && passes (same_text pool.pool_type) filter_type
    then owned filter_owner (status pool).allocations ++ rest
    else rest

-- A pool that is left behind stands before what the loop finds.
abbrev pub after : Text × Pool → Option (Pools × Ip × Text) → Option (Pools × Ip × Text)
after entry none = none
after entry (some (pools, ip, chosen)) = some (entry ∷ pools, ip, chosen)

-- Whether `AllocateByType` tries a pool.
unfoldable pub suits : Text → Pool → Bool
suits pool_type pool = same_text pool.pool_type pool_type && pool.auto_assign

module _ (names : Naming) where
  unfoldable pub register_pool : Manager → PoolConfig → Manager × Result Error (Unit {0})
  register_pool m cfg = elim (lookup text_dec cfg.name m.pools) [
    | some pool ↦ (m, err pool_already_registered)
    | none ↦ elim (new_pool names cfg) [
      | err e ↦ (m, err (of_pool e))
      | ok pool ↦ (record { pools = insert text_dec cfg.name pool m.pools }, ok tt)
    ]
  ]

  unfoldable pub update_pool : Manager → PoolConfig → Manager × Result Error (Unit {0})
  update_pool m cfg = elim (new_pool names cfg) [
    | err e ↦ (m, err (of_pool e))
    | ok pool ↦ (record { pools = insert text_dec cfg.name pool m.pools }, ok tt)
  ]

  unfoldable pub allocate : ℕ → Text → Text → Manager → Text → Option (Manager × Result Error Ip)
  unfolding with_pool
  allocate now owner resource m name = with_pool m name (Pool.allocate names now owner resource)

  -- The loop of `AllocateByType`.
  unfoldable pub first_of_type :
      ℕ → Text → Text → Text → Pools → Option (Option (Pools × Ip × Text))
  unfolding suits
  first_of_type now owner resource pool_type [] = some none
  first_of_type now owner resource pool_type ((name, pool) ∷ pools) =
      let rest = first_of_type now owner resource pool_type pools in
      let next : Pool → Option (Option (Pools × Ip × Text)) =
        λ pool'. (do found ← rest; some (after (name, pool') found)) in
      if suits pool_type pool
      then (do
        (pool', r) ← Pool.allocate names now owner resource pool
        elim r [ err e ↦ next pool' | ok ip ↦ some (some ((name, pool') ∷ pools, ip, pool.name)) ])
      else next pool

  unfoldable pub allocate_by_type :
      ℕ → Text → Text → Manager → Text → Option (Manager × Result Error (Ip × Text))
  unfolding first_of_type
  allocate_by_type now owner resource m pool_type = do
    found ← first_of_type now owner resource pool_type m.pools
    elim found [
      | none ↦ some (m, err no_free_addresses)
      | some (pools, ip, chosen) ↦ some (record { pools = pools }, ok (ip, chosen))
    ]

  unfoldable pub allocate_specific :
      ℕ → Text → Text → Manager → Text → Ip → Option (Manager × Result Error (Unit {0}))
  unfolding with_pool
  allocate_specific now owner resource m name ip =
      with_pool m name (λ pool. Pool.allocate_specific names now owner resource pool ip)

  unfoldable pub release : Manager → Text → Ip → Option (Manager × Result Error (Unit {0}))
  unfolding with_pool
  release m name ip = with_pool m name (λ pool. Pool.release names pool ip)

  unfoldable pub validate : Manager → Text → Ip → Option (Result Error Bool)
  unfolding find_pool
  validate m name ip = elim (find_pool m name) [
    | err e ↦ some (err e)
    | ok pool ↦ do available ← is_available names pool ip; some (ok available)
  ]

  -- The loop of `FindPoolForIP`.
  unfoldable pub find_pool_for_ip : Pools → Ip → Option Text
  find_pool_for_ip [] ip = none
  find_pool_for_ip ((name, pool) ∷ pools) ip =
      if pool_contains names pool ip then some name else find_pool_for_ip pools ip
