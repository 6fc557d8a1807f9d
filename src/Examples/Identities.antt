-- ===== src/Examples/Identities.antt =====
-- The identity allocator of internal/identity/allocator.go with one identity.
use novanet.Base.{
  ℕ, ◌^◌, ◌<◌, ◌≡◌, ◌∙◌, sym, ap, refl, Option, none, some, [], ◌∷◌, ℕ_discrete, arith, some_inj,
}
use mathlib.Core.Logic.{if_pos, if_neg}
use novanet.Base.Assoc.{lookup}
use novanet.Identity.Labels.{Text, Labels, text_dec, canonical_labels}
use novanet.Identity.Allocator.{
  Allocator, probe, allocate_identity, remove_identity, get_labels, get_identity, count,
  count_or_zero,
}
use novanet.Identity.Probe.{IsFor, probe_total}
use novanet.Identity.Invariant.{IsValid, Binds, refs, identity_of, allocate_identity-Binds}
use novanet.Identity.Remove.{Removes, remove_identity-Removes}
use novanet.Identity.Undo.{allocate-remove}

-- `app=web` and `app=db`.
abbrev web : Labels
web = (97 ∷ 112 ∷ 112 ∷ [], 119 ∷ 101 ∷ 98 ∷ []) ∷ []

abbrev db : Labels
db = (97 ∷ 112 ∷ 112 ∷ [], 100 ∷ 98 ∷ []) ∷ []

-- `app=web` has identity 5, and two references.
abbrev identities : Allocator
identities = record {
  id_to_labels = (5, web) ∷ [];
  ref_count = (5, 2) ∷ [];
  labels_to_id = (canonical_labels web, 5) ∷ [];
}

labels_here : get_labels identities 5 ≡ some web
unfolding get_labels lookup
labels_here = if_pos (ℕ_discrete 5 5) refl _ _

identity_here : identity_of identities (canonical_labels web) ≡ some 5
unfolding identity_of lookup
identity_here = if_pos (text_dec (canonical_labels web) (canonical_labels web)) refl _ _

refs_here : refs identities 5 ≡ 2
unfolding refs lookup
refs_here = ap count_or_zero (if_pos (ℕ_discrete 5 5) refl _ _)

only_id : (id : ℕ) (l : Labels) → get_labels identities id ≡ some l → 5 ≡ id
unfolding get_labels lookup
only_id id l e = elim (ℕ_discrete 5 id) [
  | yes p ↦ p
  | no p ↦ absurd (cc (e, if_neg (ℕ_discrete 5 id) p (some web) none))
]

only_ref : (id n : ℕ) → lookup ℕ_discrete id identities.ref_count ≡ some n → 5 ≡ id
unfolding lookup
only_ref id n e = elim (ℕ_discrete 5 id) [
  | yes p ↦ p
  | no p ↦ absurd (cc (e, if_neg {C = Option ℕ} (ℕ_discrete 5 id) p (some 2) none))
]

only_text : (c : Text) (id : ℕ) → identity_of identities c ≡ some id → canonical_labels web ≡ c
unfolding identity_of lookup
only_text c id e = elim (text_dec (canonical_labels web) c) [
  | yes p ↦ p
  | no p ↦
      absurd (cc (e, if_neg {C = Option ℕ} (text_dec (canonical_labels web) c) p (some 5) none))
]

identities-IsValid : IsValid identities
identities-IsValid = record {
  forward = λ c id e.
      let c' = only_text c id e in
      let id' : 5 ≡ id = some_inj (sym identity_here ∙ ap (identity_of identities) c' ∙ e) in
      (web, ap (get_labels identities) (sym id') ∙ labels_here, c');
  backward = λ id l e.
      let id' = only_id id l e in
      let l' : web ≡ l = some_inj (sym labels_here ∙ ap (get_labels identities) id' ∙ e) in
      ap (λ t. identity_of identities (canonical_labels t)) (sym l') ∙ identity_here ∙ ap some id';
  counted = λ id h. elim (ℕ_discrete 5 id) [
    | yes p ↦ (web, ap (get_labels identities) (sym p) ∙ labels_here)
    | no p ↦ absurd (omega (arith, unreferenced id p))
  ];
  held = λ id l e. omega (arith, refs_here, ap (refs identities) (only_id id l e));
  positive = λ id n e.
      let q : 2 ≡ n =
        some_inj
          (sym two ∙ ap (λ t. lookup ℕ_discrete t identities.ref_count) (only_ref id n e) ∙ e) in
      omega arith;
}
  where
    unreferenced : (id : ℕ) → ¬ (5 ≡ id) → refs identities id ≡ 0
    unreferenced id p =
        unfold refs lookup in
        ap count_or_zero (if_neg {C = Option ℕ} (ℕ_discrete 5 id) p (some 2) none)

    two : lookup ℕ_discrete 5 identities.ref_count ≡ some 2
    two = unfold lookup in if_pos {C = Option ℕ} (ℕ_discrete 5 5) refl (some 2) none

few : count identities < 2 ^ 64
unfolding count
few = omega arith

-- `app=web` in FNV-1a.
hash_test : canonical_labels web ≡ 97 ∷ 112 ∷ 112 ∷ 61 ∷ 119 ∷ 101 ∷ 98 ∷ []
unfolding canonical_labels
hash_test = refl

allocate_identity_example :
    (a : Allocator) × (id : ℕ) × (l : Labels) × (allocate_identity identities db ≡ some (a, id))
    × IsValid a
    × Binds identities a id (canonical_labels db) l
    × ((i : ℕ) → get_identity identities db ≡ some i → i ≡ id)
allocate_identity_example = allocate_identity-Binds identities db identities-IsValid few

remove_identity_example :
    IsValid (remove_identity identities 5) × Removes identities (remove_identity identities 5) 5
remove_identity_example = remove_identity-Removes identities 5 identities-IsValid

allocate-remove_example :
    (a : Allocator) × (id : ℕ) × (allocate_identity identities web ≡ some (a, id))
    × ((j : ℕ) → get_labels (remove_identity a id) j ≡ get_labels identities j)
    × ((d : Text) → identity_of (remove_identity a id) d ≡ identity_of identities d)
    × ((j : ℕ) → refs (remove_identity a id) j ≡ refs identities j)
allocate-remove_example = allocate-remove identities web identities-IsValid few

probe_example :
    (r : ℕ) × (probe 2 ((5, web) ∷ []) (canonical_labels db) 5 ≡ some r)
    × IsFor ((5, web) ∷ []) (canonical_labels db) r
probe_example = probe_total ((5, web) ∷ []) (canonical_labels db) 5 (omega arith) (omega arith)
