-- ===== src/Identity/Remove.antt =====
-- `RemoveIdentity` of internal/identity/allocator.go.
use novanet.Base.{
  ℕ, ◌-◌, ◌<◌, ◌≡◌, ◌≢◌, ◌⊎◌, inl, inr, refl, sym, ap, ◌∙◌, true, false, Option, none, some, leb,
  ℕ_discrete, arith, Option-cases, Bool-cases, some_inj,
}
use novanet.Base.Assoc.{
  lookup, insert, delete, lookup-insert_self, lookup-insert_ne, lookup-delete_self,
  lookup-delete_ne,
}
use novanet.Identity.Labels.{Text, text_dec, Labels, canonical_labels}
use novanet.Identity.Allocator.{Allocator, count_or_zero, get_labels, remove_identity, forget_text}
use novanet.Identity.Invariant.{refs, identity_of, IsValid}

-- The identity and its text are gone.
pub record Unbinds (a a' : Allocator) (id : ℕ) (c : Text) : Type 0 where
  pub labels_here : get_labels a' id ≡ none
  pub identity_here : identity_of a' c ≡ none
  pub labels_else : (j : ℕ) → id ≢ j → get_labels a' j ≡ get_labels a j
  pub identity_else : (d : Text) → c ≢ d → identity_of a' d ≡ identity_of a d
  pub refs_here : refs a' id ≡ 0
  pub refs_else : (j : ℕ) → id ≢ j → refs a' j ≡ refs a j

-- All but the references of one identity is the same.
pub record Recounts (a a' : Allocator) (id : ℕ) (n : ℕ) : Type 0 where
  pub labels_same : (j : ℕ) → get_labels a' j ≡ get_labels a j
  pub identity_same : (d : Text) → identity_of a' d ≡ identity_of a d
  pub refs_here : refs a' id ≡ n
  pub refs_else : (j : ℕ) → id ≢ j → refs a' j ≡ refs a j

module _ {a a' : Allocator} (id : ℕ) (l : Labels) (v : IsValid a)
    (at : get_labels a id ≡ some l) where
  Unbinds-IsValid :
      Unbinds a a' id (canonical_labels l)
      → ((j n : ℕ) → lookup ℕ_discrete j a'.ref_count ≡ some n → 0 < n)
      → IsValid a'
  Unbinds-IsValid u pos = record {
    forward = forward';
    backward = backward';
    counted = λ j h. elim (ℕ_discrete id j) [
      | yes p ↦ absurd (omega (arith, u.refs_here, ap (refs a') p))
      | no p ↦ let (l', e) = v.counted j (rw (u.refs_else j p) at h) in (l', u.labels_else j p ∙ e)
    ];
    held = λ j l' e. elim (ℕ_discrete id j) [
      | yes p ↦ absurd (cc (u.labels_here, ap (get_labels a') p, e))
      | no p ↦ rw (u.refs_else j p) (v.held j l' (sym (u.labels_else j p) ∙ e))
    ];
    positive = pos;
  }
    where
      forward' :
          (d : Text) (j : ℕ)
          → identity_of a' d ≡ some j
          → (l' : Labels) × (get_labels a' j ≡ some l') × (canonical_labels l' ≡ d)
      forward' d j e = elim (text_dec (canonical_labels l) d) [
        | yes p ↦ absurd (cc (u.identity_here, ap (identity_of a') p, e))
        | no p ↦
            let (l', f, t) = v.forward d j (sym (u.identity_else d p) ∙ e) in
            (
              l',
              u.labels_else j
                    (λ q. p (ap canonical_labels (some_inj (sym at ∙ ap (get_labels a) q ∙ f)) ∙ t))
                  ∙ f,
              t,
            )
      ]

      backward' :
          (j : ℕ) (l' : Labels)
          → get_labels a' j ≡ some l'
          → identity_of a' (canonical_labels l') ≡ some j
      backward' j l' e = elim (ℕ_discrete id j) [
        | yes p ↦ absurd (cc (u.labels_here, ap (get_labels a') p, e))
        | no p ↦
            let f = v.backward j l' (sym (u.labels_else j p) ∙ e) in
            u.identity_else (canonical_labels l')
              (λ q. p (some_inj (sym (v.backward id l at) ∙ ap (identity_of a) q ∙ f)))
            ∙ f
      ]

  Recounts-IsValid :
      {n : ℕ}
      → 0 < n
      → Recounts a a' id n
      → ((j n : ℕ) → lookup ℕ_discrete j a'.ref_count ≡ some n → 0 < n)
      → IsValid a'
  Recounts-IsValid some_left r pos = record {
    forward = λ d j e.
        let (l', f, t) = v.forward d j (sym (r.identity_same d) ∙ e) in
        (l', r.labels_same j ∙ f, t);
    backward = λ j l' e.
        r.identity_same (canonical_labels l') ∙ v.backward j l' (sym (r.labels_same j) ∙ e);
    counted = λ j h. elim (ℕ_discrete id j) [
      | yes p ↦ (l, r.labels_same j ∙ ap (get_labels a) (sym p) ∙ at)
      | no p ↦ let (l', e) = v.counted j (rw (r.refs_else j p) at h) in (l', r.labels_same j ∙ e)
    ];
    held = λ j l' e. elim (ℕ_discrete id j) [
      | yes p ↦ rw (← p) (omega (arith, r.refs_here))
      | no p ↦ rw (r.refs_else j p) (v.held j l' (sym (r.labels_same j) ∙ e))
    ];
    positive = pos;
  }

-- What `RemoveIdentity` does, by the references that there are.
abbrev pub Removes : Allocator → Allocator → ℕ → Type 0
Removes a a' id =
    ((refs a id ≡ 0) × (a' ≡ a))
    ⊎ ((l : Labels) × (refs a id ≡ 1)
        × (get_labels a id ≡ some l)
        × Unbinds a a' id (canonical_labels l))
    ⊎ ((1 < refs a id) × Recounts a a' id (refs a id - 1))

module _ (a : Allocator) (id : ℕ) (v : IsValid a) where
  positive-delete :
      (j n : ℕ) → lookup ℕ_discrete j (delete ℕ_discrete id a.ref_count) ≡ some n → 0 < n
  positive-delete j n e = elim (ℕ_discrete id j) [
    | yes p ↦ absurd (
        cc (
          lookup-delete_self ℕ_discrete id a.ref_count,
          ap (λ t. lookup ℕ_discrete t (delete ℕ_discrete id a.ref_count)) p,
          e,
        ))
    | no p ↦ v.positive j n (sym (lookup-delete_ne ℕ_discrete id j a.ref_count p) ∙ e)
  ]

  positive-insert :
      (m : ℕ)
      → 0 < m
      → (j n : ℕ) → lookup ℕ_discrete j (insert ℕ_discrete id m a.ref_count) ≡ some n
      → 0 < n
  positive-insert m h j n e = elim (ℕ_discrete id j) [
    | yes p ↦
        let q : m ≡ n = some_inj (
          sym (lookup-insert_self ℕ_discrete id m a.ref_count)
          ∙ ap (λ t. lookup ℕ_discrete t (insert ℕ_discrete id m a.ref_count)) p
          ∙ e) in
        omega arith
    | no p ↦ v.positive j n (sym (lookup-insert_ne ℕ_discrete id j m a.ref_count p) ∙ e)
  ]

  last_ref :
      (l : Labels)
      → get_labels a id ≡ some l
      → Unbinds a
          (record a {
            id_to_labels = delete ℕ_discrete id a.id_to_labels;
            ref_count = delete ℕ_discrete id a.ref_count;
            labels_to_id = delete text_dec (canonical_labels l) a.labels_to_id;
          })
          id
          (canonical_labels l)
  unfolding get_labels identity_of refs
  last_ref l at = record {
    labels_here = lookup-delete_self ℕ_discrete id a.id_to_labels;
    identity_here = lookup-delete_self text_dec (canonical_labels l) a.labels_to_id;
    labels_else = λ j h. lookup-delete_ne ℕ_discrete id j a.id_to_labels h;
    identity_else = λ d h. lookup-delete_ne text_dec (canonical_labels l) d a.labels_to_id h;
    refs_here = ap count_or_zero (lookup-delete_self ℕ_discrete id a.ref_count);
    refs_else = λ j h. ap count_or_zero (lookup-delete_ne ℕ_discrete id j a.ref_count h);
  }

  one_less : (m : ℕ) → Recounts a (record a { ref_count = insert ℕ_discrete id m a.ref_count }) id m
  unfolding get_labels identity_of refs
  one_less m = record {
    labels_same = λ j. refl;
    identity_same = λ d. refl;
    refs_here = ap count_or_zero (lookup-insert_self ℕ_discrete id m a.ref_count);
    refs_else = λ j h. ap count_or_zero (lookup-insert_ne ℕ_discrete id j m a.ref_count h);
  }

  refs-lookup : (o : Option ℕ) → lookup ℕ_discrete id a.ref_count ≡ o → refs a id ≡ count_or_zero o
  unfolding refs
  refs-lookup o e = ap count_or_zero e

  removed_last :
      (n : ℕ) (l : Labels)
      → lookup ℕ_discrete id a.ref_count ≡ some n
      → leb n 1 ≡ true
      → get_labels a id ≡ some l
      → remove_identity a id ≡ record a {
        id_to_labels = delete ℕ_discrete id a.id_to_labels;
        ref_count = delete ℕ_discrete id a.ref_count;
        labels_to_id = delete text_dec (canonical_labels l) a.labels_to_id;
      }
  unfolding get_labels remove_identity delete
  removed_last n l e h at = rw (e, remove_identity) (rw h (rw (at, forget_text)))

  removed_one :
      (n : ℕ)
      → lookup ℕ_discrete id a.ref_count ≡ some n
      → leb n 1 ≡ false
      → remove_identity a id ≡ record a { ref_count = insert ℕ_discrete id (n - 1) a.ref_count }
  unfolding remove_identity
  removed_one n e h = rw (e, remove_identity) (rw h)

  removed_none : lookup ℕ_discrete id a.ref_count ≡ none → remove_identity a id ≡ a
  unfolding remove_identity
  removed_none e = rw (e, remove_identity)

  -- `RemoveIdentity` keeps the allocator valid. An identity without references is left alone; the
  -- last reference takes the identity and its text away, and nothing else; any other reference is
  -- only counted down.
  pub remove_identity-Removes : IsValid (remove_identity a id) × Removes a (remove_identity a id) id
  remove_identity-Removes = elim (Option-cases (lookup ℕ_discrete id a.ref_count)) [
    | inl e ↦ (rw (removed_none e) v, inl (refs-lookup none e, removed_none e))
    | inr (n, e) ↦ elim (Bool-cases (leb n 1)) [
      | inl h ↦ last n e h (v.counted id (omega (arith, refs-lookup (some n) e, v.positive id n e)))
      | inr h ↦ rw (removed_one n e h) (
        one_left n e h,
        inr (
            inr (
              ground (arith, refs-lookup (some n) e),
              rw (refs-lookup (some n) e) (one_less (n - 1)),
            )),
      )
    ]
  ]
    where
      one_left :
          (n : ℕ)
          → lookup ℕ_discrete id a.ref_count ≡ some n
          → leb n 1 ≡ false
          → IsValid (record a { ref_count = insert ℕ_discrete id (n - 1) a.ref_count })
      one_left n e h =
          let (l, at) = v.counted id (omega (arith, refs-lookup (some n) e, v.positive id n e)) in
          let low : 0 < n - 1 = ground arith in
          Recounts-IsValid id l v at low (one_less (n - 1)) (positive-insert (n - 1) low)

      last :
          (n : ℕ)
          → lookup ℕ_discrete id a.ref_count ≡ some n
          → leb n 1 ≡ true
          → (l : Labels) × (get_labels a id ≡ some l)
          → IsValid (remove_identity a id) × Removes a (remove_identity a id) id
      last n e h (l, at) = rw (removed_last n l e h at) (
        Unbinds-IsValid id l v at (last_ref l at) positive-delete,
        inr (inl (l, ground (arith, refs-lookup (some n) e, v.positive id n e), at, last_ref l at)),
      )
