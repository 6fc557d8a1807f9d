-- ===== src/Identity/Undo.antt =====
-- `AllocateIdentity` and then `RemoveIdentity` of internal/identity/allocator.go.
use mathlib.Core.Path.{subst}
use novanet.Base.{
  ℕ, ◌-◌, ◌^◌, ◌<◌, ◌≡◌, inl, inr, sym, ap, ◌∙◌, none, some, ℕ_discrete, arith, Option-cases,
  some_inj,
}
use novanet.Identity.Labels.{Text, text_dec, Labels, canonical_labels}
use novanet.Identity.Allocator.{
  Allocator, allocate_identity, get_labels, get_identity, remove_identity, count,
}
use novanet.Identity.Invariant.{refs, identity_of, IsValid, Binds, allocate_identity-Binds}
use novanet.Identity.Remove.{Unbinds, Recounts, Removes, remove_identity-Removes}

module _ (a a' : Allocator) (id : ℕ) (c : Text) (l : Labels) (v : IsValid a) (b : Binds a a' id c l)
    (own : (i : ℕ) → identity_of a c ≡ some i → i ≡ id) where
  -- All that the readers of two allocators see.
  abbrev Same : Allocator → Type 0
  Same a'' =
      ((j : ℕ) → get_labels a'' j ≡ get_labels a j)
      × ((d : Text) → identity_of a'' d ≡ identity_of a d)
      × ((j : ℕ) → refs a'' j ≡ refs a j)

  not_yet : refs a id ≡ 0 → (get_labels a id ≡ none) × (identity_of a c ≡ none)
  not_yet none_left = (
    elim (Option-cases (get_labels a id)) [
      | inl e ↦ e
      | inr (l', e) ↦ absurd (omega (arith, none_left, v.held id l' e))
    ],
    elim (Option-cases (identity_of a c)) [
      | inl e ↦ e
      | inr (i, e) ↦
          let (l', f, t) = v.forward c i e in
          absurd (omega (arith, none_left, v.held id l' (ap (get_labels a) (sym (own i e)) ∙ f)))
    ],
  )

  already : 0 < refs a id → (get_labels a id ≡ some l) × (identity_of a c ≡ some id)
  already some_left =
      let (l', e) = v.counted id some_left in
      let same : l' ≡ l = b.labels_kept l' e in
      (
        e ∙ ap some same,
        ap (identity_of a) (sym (ap canonical_labels same ∙ b.text_here)) ∙ v.backward id l' e,
      )

  undone_last : (a'' : Allocator) → refs a id ≡ 0 → Unbinds a' a'' id c → Same a''
  undone_last a'' none_left u =
      let (no_labels, no_identity) = not_yet none_left in
      (
        λ j. elim (ℕ_discrete id j) [
          | yes p ↦ rw (← p) (u.labels_here ∙ sym no_labels)
          | no p ↦ u.labels_else j p ∙ b.labels_else j p
        ],
        λ d. elim (text_dec c d) [
          | yes p ↦ rw (← p) (u.identity_here ∙ sym no_identity)
          | no p ↦ u.identity_else d p ∙ b.identity_else d p
        ],
        λ j. elim (ℕ_discrete id j) [
          | yes p ↦ rw (← p) (u.refs_here ∙ sym none_left)
          | no p ↦ u.refs_else j p ∙ b.refs_else j p
        ],
      )

  undone_one : (a'' : Allocator) → 0 < refs a id → Recounts a' a'' id (refs a' id - 1) → Same a''
  undone_one a'' some_left r =
      let (labels, identity) = already some_left in
      (
        λ j. elim (ℕ_discrete id j) [
          | yes p ↦ rw (← p) (r.labels_same id ∙ b.labels_here ∙ sym labels)
          | no p ↦ r.labels_same j ∙ b.labels_else j p
        ],
        λ d. elim (text_dec c d) [
          | yes p ↦ rw (← p) (r.identity_same c ∙ b.identity_here ∙ sym identity)
          | no p ↦ r.identity_same d ∙ b.identity_else d p
        ],
        λ j. elim (ℕ_discrete id j) [
          | yes p ↦ rw (← p) (omega (arith, r.refs_here, b.refs_here))
          | no p ↦ r.refs_else j p ∙ b.refs_else j p
        ],
      )

  undone : (a'' : Allocator) → Removes a' a'' id → Same a''
  undone a'' (inl (zero_left, e)) = absurd (omega (arith, b.refs_here))
  undone a'' (inr (inl (l', one_left, e, u))) =
      let same : l' ≡ l = some_inj (sym e ∙ b.labels_here) in
      undone_last a'' (omega (arith, b.refs_here))
        (subst (λ t. Unbinds a' a'' id t) (ap canonical_labels same ∙ b.text_here) u)
  undone a'' (inr (inr (more, r))) = undone_one a'' (omega (arith, b.refs_here)) r

-- An allocation that is taken back leaves no trace: every identity has the labels and the references
-- that it had, and every text its identity.
pub allocate-remove :
    (a : Allocator) (lbls : Labels)
    → IsValid a
    → count a < 2 ^ 64
    → (a' : Allocator) × (id : ℕ) × (allocate_identity a lbls ≡ some (a', id))
      × ((j : ℕ) → get_labels (remove_identity a' id) j ≡ get_labels a j)
      × ((d : Text) → identity_of (remove_identity a' id) d ≡ identity_of a d)
      × ((j : ℕ) → refs (remove_identity a' id) j ≡ refs a j)
unfolding get_identity identity_of
allocate-remove a lbls v room =
    let (a', id, l, e, v', b, own) = allocate_identity-Binds a lbls v room in
    let (labels_same, identity_same, refs_same) =
      undone a a' id (canonical_labels lbls) l v b own (remove_identity a' id)
        (remove_identity-Removes a' id v').1 in
    (a', id, e, labels_same, identity_same, refs_same)
