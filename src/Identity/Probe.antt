-- ===== src/Identity/Probe.antt =====
-- The probing loop of internal/identity/allocator.go ends.
use novanet.Base.{
  ℕ, zero, suc, ◌+◌, ◌%◌, ◌^◌, ◌≤◌, ◌<◌, ◌≡◌, ◌⊎◌, inl, inr, sym, ◌∙◌, none, some, List, ℕ_discrete,
  length, arith, Option-cases,
}
use mathlib.Core.Logic.{if_pos, if_neg}
use novanet.Base.Assoc.{lookup, insert, delete, lookup-delete_ne}
use novanet.Base.Assoc
use novanet.Identity.Labels.{Text, text_dec, Labels, canonical_labels}
use novanet.Identity.Allocator.{probe}

-- What a loop that has ended says of the identity.
abbrev pub IsFor : List (ℕ × Labels) → Text → ℕ → Type 0
IsFor m canonical id =
    (lookup ℕ_discrete id m ≡ none)
    ⊎ ((stored : Labels) × (lookup ℕ_discrete id m ≡ some stored)
        × (canonical_labels stored ≡ canonical))

-- Among more consecutive identities than the map has entries one is not taken.
free_slot :
    (k : ℕ) (m : List (ℕ × Labels)) (id : ℕ)
    → length m < k
    → k ≤ 2 ^ 64
    → (j : ℕ) × (j < k) × (lookup ℕ_discrete ((id + j) % 2 ^ 64) m ≡ none)
free_slot zero m id h l = absurd (omega arith)
free_slot (suc k) m id h l = elim (Option-cases (lookup ℕ_discrete ((id + 0) % 2 ^ 64) m)) [
  | inl e ↦ (0, omega arith, e)
  | inr (v, e) ↦
      let (j, b, f) =
        free_slot k (delete ℕ_discrete ((id + 0) % 2 ^ 64) m) (id + 1)
          (omega (arith, Assoc.length-delete-lt ℕ_discrete ((id + 0) % 2 ^ 64) v m e))
          (omega arith) in
      let same : (id + 1 + j) % 2 ^ 64 ≡ (id + suc j) % 2 ^ 64 = omega arith in
      (
        suc j,
        omega arith,
        rw (← same) (
            sym (
              lookup-delete_ne ℕ_discrete ((id + 0) % 2 ^ 64) ((id + 1 + j) % 2 ^ 64) m
                (omega arith))
            ∙ f),
      )
]

probe-ends :
    (fuel : ℕ) (m : List (ℕ × Labels)) (canonical : Text) (id j : ℕ)
    → id < 2 ^ 64
    → j < fuel
    → lookup ℕ_discrete ((id + j) % 2 ^ 64) m ≡ none
    → (r : ℕ) × (probe fuel m canonical id ≡ some r) × IsFor m canonical r
unfolding probe
probe-ends zero m canonical id j small h e = elim h [ ]
probe-ends (suc fuel) m canonical id zero small h e =
    let same : (id + 0) % 2 ^ 64 ≡ id = omega arith in
    let e' : lookup ℕ_discrete id m ≡ none = rw same at e in (id, rw (e', probe), inl e')
probe-ends (suc fuel) m canonical id (suc j) small h e =
    elim (Option-cases (lookup ℕ_discrete id m)) [
      | inl e' ↦ (id, rw (e', probe), inl e')
      | inr (stored, e') ↦ elim (text_dec (canonical_labels stored) canonical) [
        | yes p ↦ (
          id,
          rw (e', probe) (if_pos (text_dec (canonical_labels stored) canonical) p _ _),
          inr (stored, e', p),
        )
        | no p ↦
            let same : ((id + 1) % 2 ^ 64 + j) % 2 ^ 64 ≡ (id + suc j) % 2 ^ 64 = omega arith in
            let (r, f, w) =
              probe-ends fuel m canonical ((id + 1) % 2 ^ 64) j (omega arith) (omega arith)
                (rw same e) in
            (r, rw (e', probe) (if_neg (text_dec (canonical_labels stored) canonical) p _ _ ∙ f), w)
      ]
    ]

-- With one round more than there are entries, and fewer than 2^64 of them, the loop ends; and then
-- the identity is not taken, or its labels have the same canonical text.
pub probe_total :
    (m : List (ℕ × Labels)) (canonical : Text) (id : ℕ)
    → id < 2 ^ 64
    → length m < 2 ^ 64
    → (r : ℕ) × (probe (length m + 1) m canonical id ≡ some r) × IsFor m canonical r
probe_total m canonical id small room =
    let (j, h, e) = free_slot (length m + 1) m id (omega arith) (omega arith) in
    probe-ends (length m + 1) m canonical id j small h e
