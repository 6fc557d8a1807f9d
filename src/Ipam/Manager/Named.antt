-- ===== src/Ipam/Manager/Named.antt =====
-- The operations of internal/ipam/manager.go on the pool with a name.
use novanet.Base.{ℕ, ◌≡◌, ◌≢◌, refl, ◌⊎◌, inl, inr, none, some, Result, ok, err, Option-cases}
use novanet.Base.Assoc.{lookup, insert, lookup-insert_self, lookup-insert_ne, Distinct}
use novanet.Ipam.Address.{Ip, Text, text_dec, Naming}
use novanet.Ipam.Pool.{Pool}
use novanet.Ipam.Pool
use novanet.Ipam.Pool.Ranges.{AllValid}
use novanet.Ipam.Pool.Allocate.{pool_allocate-Allocates}
use novanet.Ipam.Pool.Allocate
use novanet.Ipam.Manager.{Manager, Error, pool_not_found, of_pool, find_pool, with_pool, allocate}

-- The result of a pool's operation, as the manager passes it on.
abbrev pub passed_on {ℓ} : {A : Type ℓ} → Result Pool.Error A → Result Error A
passed_on (err e) = err (of_pool e)
passed_on (ok x) = ok x

-- One pool is replaced by another.
abbrev pub Replaces : Manager → Manager → Text → Pool → Type 0
Replaces m m' name p' =
    (lookup text_dec name m'.pools ≡ some p')
    × ((other : Text)
        → name ≢ other
        → lookup text_dec other m'.pools ≡ lookup text_dec other m.pools)

module _ (names : Naming) (now : ℕ) (owner resource : Text) (m : Manager) (name : Text) where
  -- What `Allocate` may do, by whether there is a pool with the name.
  abbrev pub Allocates : Manager → Result Error Ip → Type 0
  Allocates m' r =
      ((lookup text_dec name m.pools ≡ none) × (m' ≡ m) × (r ≡ err pool_not_found))
      ⊎ ((p p' : Pool) × (r' : Result Pool.Error Ip) × (lookup text_dec name m.pools ≡ some p)
          × (r ≡ passed_on r')
          × AllValid p'.ranges
          × Allocate.Allocates names now owner resource p p' r'
          × Replaces m m' name p')

  abbrev Allocating : Type 0
  Allocating =
      (m' : Manager) × (r : Result Error Ip) × (allocate names now owner resource m name
        ≡ some (m', r))
      × Allocates m' r

  find_pool-some : (p : Pool) → lookup text_dec name m.pools ≡ some p → find_pool m name ≡ ok p
  unfolding find_pool
  find_pool-some p e = rw (e, find_pool)

  find_pool-none : lookup text_dec name m.pools ≡ none → find_pool m name ≡ err pool_not_found
  unfolding find_pool
  find_pool-none e = rw (e, find_pool)

  handed_on :
      (p p' : Pool) (r : Result Pool.Error Ip)
      → find_pool m name ≡ ok p
      → Pool.allocate names now owner resource p ≡ some (p', r)
      → allocate names now owner resource m name
        ≡ some (record { pools = insert text_dec name p' m.pools }, passed_on r)
  unfolding allocate with_pool
  handed_on p p' (err x) e a = rw (e, with_pool) (rw a)
  handed_on p p' (ok ip) e a = rw (e, with_pool) (rw a)

  served :
      (p : Pool)
      → lookup text_dec name m.pools ≡ some p
      → (p' : Pool) × (r : Result Pool.Error Ip) × (Pool.allocate names now owner resource p
          ≡ some (p', r))
        × AllValid p'.ranges
        × Allocate.Allocates names now owner resource p p' r
      → Allocating
  served p e (p', r, a, v, k) = (
    record { pools = insert text_dec name p' m.pools },
    passed_on r,
    handed_on p p' r (find_pool-some p e) a,
    inr (
      p,
      p',
      r,
      e,
      refl,
      v,
      k,
      (
        lookup-insert_self text_dec name p' m.pools,
        λ other h. lookup-insert_ne text_dec name other p' m.pools h,
      ),
    ),
  )

  -- `Allocate` from a pool with a name does not panic, if that pool has valid ranges and distinct single
  -- addresses. It does to that pool in the map what the pool's own `Allocate` does, and to no other;
  -- without such a pool it reports so and changes nothing.
  pub named_allocate-Allocates :
      ((p : Pool)
        → lookup text_dec name m.pools ≡ some p
        → AllValid p.ranges × Distinct text_dec p.discrete_addrs)
      → Allocating
  unfolding allocate with_pool
  named_allocate-Allocates well = elim (Option-cases (lookup text_dec name m.pools)) [
    | inl e ↦ (m, err pool_not_found, rw (find_pool-none e, with_pool), inl (e, refl, refl))
    | inr (p, e) ↦
        let (v, d) = well p e in served p e (pool_allocate-Allocates names now owner resource p v d)
  ]
