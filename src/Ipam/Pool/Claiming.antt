-- ===== src/Ipam/Pool/Claiming.antt =====
-- The loop of `AllocateSpecific` over the ranges of a pool, of internal/ipam/pool.go.
use novanet.Base.{
  ℕ, ◌≡◌, refl, ap, ◌∙◌, ◌<◌, ◌⊎◌, inl, inr, true, false, not, some, List, [], ◌∷◌, arith, Result,
  ok, err, Bool-cases, Option-cases,
}
use novanet.Ipam.Bitmap.{Bitmap}
use novanet.Ipam.Address.{Ip, contains}
use novanet.Ipam.Pool.{
  CidrRange, Error, ip_outside_cidr, ip_out_of_range, ip_already_alloc, range_index, claim_range,
  free_range, available_range, contains_range,
}
use novanet.Ipam.Pool.Ranges.{
  AllValid, AllSame, SameRange, SameRange-refl, AllSame-refl, Marks, is_taken, range_index-with,
  range_index-lt, get_range, set_range, clear_range,
}

-- The ranges with an address given back.
abbrev Restores : List CidrRange → List CidrRange → Ip → Type 0
Restores ranges ranges' ip =
    (back : List CidrRange) × (free_range ranges' ip ≡ some back)
    × AllValid back
    × (available_range back ip ≡ some true)
    × AllSame ranges back

-- What the loop of `AllocateSpecific` comes to.
abbrev Claimed : List CidrRange → Ip → Result Error (List CidrRange) → Type 0
Claimed ranges ip (ok ranges') =
    AllValid ranges'
    × (available_range ranges ip ≡ some true)
    × (available_range ranges' ip ≡ some false)
    × Restores ranges ranges' ip
Claimed ranges ip (err e) =
    ((e ≡ ip_outside_cidr) × (contains_range ranges ip ≡ false))
    ⊎ ((e ≡ ip_out_of_range) × (contains_range ranges ip ≡ true))
    ⊎ ((e ≡ ip_already_alloc) × (available_range ranges ip ≡ some false))

abbrev pub Claiming : List CidrRange → Ip → Type 0
Claiming ranges ip =
    (r : Result Error (List CidrRange)) × (claim_range ranges ip ≡ some r) × Claimed ranges ip r

module _ (cr : CidrRange) (ranges : List CidrRange) (ip : Ip) (v : AllValid (cr ∷ ranges)) where
  -- A range of another network is passed over.
  pass : contains cr.network ip ≡ false → Claiming ranges ip → Claiming (cr ∷ ranges) ip
  unfolding claim_range free_range available_range contains_range
  pass c (err e, q, k) = (err e, rw (c, q), rw c k)
  pass c (ok ranges', q, (v', b, f, (back, g, w, z, s))) = (
    ok (cr ∷ ranges'),
    rw (c, q),
    ((v.0, v'), rw c b, rw c f, (cr ∷ back, rw (c, g), (v.0, w), rw c z, (SameRange-refl cr, s))),
  )

  module _ (c : contains cr.network ip ≡ true) (idx : ℕ) (i : range_index cr ip ≡ some idx) where
    low : idx < cr.size
    low = range_index-lt cr ip idx i

    available_here : available_range (cr ∷ ranges) ip ≡ some (not (is_taken cr idx))
    unfolding available_range
    available_here = rw (c, i, get_range cr idx v.0 low)

  same_range :
      (idx : ℕ) (b b' : Bitmap) (m : Marks true idx cr b)
      → is_taken cr idx ≡ false
      → Marks false idx (record cr { bitmap = b }) b'
      → SameRange cr (record cr { bitmap = b' })
  unfolding is_taken
  same_range idx b b' m off m' = record {
    same_network = refl;
    same_base = refl;
    same_size = refl;
    same_ip_len = refl;
    taken = λ j. ground (arith, m.bits j, m'.bits j, off);
  }

module _ (cr : CidrRange) (ranges : List CidrRange) (ip : Ip) (v : AllValid (cr ∷ ranges))
    (c : contains cr.network ip ≡ true) (idx : ℕ) (i : range_index cr ip ≡ some idx) where
  taken_here : is_taken cr idx ≡ true → Claiming (cr ∷ ranges) ip
  unfolding claim_range
  taken_here t = (
    err ip_already_alloc,
    rw (c, i, get_range cr idx v.0 (low cr ranges ip v c idx i), t),
    inr (inr (refl, available_here cr ranges ip v c idx i ∙ ap (λ b. some (not b)) t)),
  )

  free_here : is_taken cr idx ≡ false → Claiming (cr ∷ ranges) ip
  unfolding claim_range free_range is_taken
  free_here t =
      let l = low cr ranges ip v c idx i in
      let (b, e, m) = set_range cr idx v.0 l in
      let set_cr : CidrRange = record cr { bitmap = b } in
      let (b', e', m') = clear_range set_cr idx m.valid l in
      let i' : range_index set_cr ip ≡ some idx = range_index-with cr b ip ∙ i in
      let off : is_taken (record cr { bitmap = b' }) idx ≡ false = ground (arith, m'.bits idx) in
      let on : is_taken set_cr idx ≡ true = ground (arith, m.bits idx) in
      (
        ok (set_cr ∷ ranges),
        rw (c, i, get_range cr idx v.0 l, t, e),
        (
          (m.valid, v.1),
          available_here cr ranges ip v c idx i ∙ ap (λ x. some (not x)) t,
          available_here set_cr ranges ip (m.valid, v.1) c idx i' ∙ ap (λ x. some (not x)) on,
          (
            record cr { bitmap = b' } ∷ ranges,
            rw (c, i', e'),
            (m'.valid, v.1),
            available_here (record cr { bitmap = b' }) ranges ip (m'.valid, v.1) c idx
                  (range_index-with cr b' ip ∙ i)
                ∙ ap (λ x. some (not x)) off,
            (same_range cr ranges ip v idx b b' m t m', AllSame-refl ranges),
          ),
        ),
      )

pub claim_range-Claimed : (ranges : List CidrRange) (ip : Ip) → AllValid ranges → Claiming ranges ip
unfolding claim_range contains_range
claim_range-Claimed [] ip v = (err ip_outside_cidr, refl, inl (refl, refl))
claim_range-Claimed (cr ∷ ranges) ip v = elim (Bool-cases (contains cr.network ip)) [
  | inr c ↦ pass cr ranges ip v c (claim_range-Claimed ranges ip v.1)
  | inl c ↦ elim (Option-cases (range_index cr ip)) [
    | inl i ↦ (err ip_out_of_range, rw (c, i), inr (inl (refl, rw c)))
    | inr (idx, i) ↦ elim (Bool-cases (is_taken cr idx)) [
      | inl t ↦ taken_here cr ranges ip v c idx i t
      | inr t ↦ free_here cr ranges ip v c idx i t
    ]
  ]
]
