-- ===== src/Identity/Invariant.antt =====
-- What `AllocateIdentity` and `RemoveIdentity` of internal/identity/allocator.go keep.
use novanet.Base.{
  ℕ, ◌+◌, ◌^◌, ◌<◌, ◌≡◌, ◌≢◌, inl, inr, refl, sym, ap, ◌∙◌, Option, none, some, ℕ_discrete, arith,
  Option-cases, some_inj,
}
use novanet.Base.Assoc.{lookup, insert, lookup-insert_self, lookup-insert_ne}
use novanet.Identity.Labels.{
  Text, text_dec, Labels, canonical_labels, hash_canonical, hash_canonical-lt,
}
use novanet.Identity.Allocator.{
  Allocator, count_or_zero, add_ref, store, allocate_identity, get_labels, get_identity, count,
}
use novanet.Identity.Probe.{IsFor, probe_total}

-- How many references an identity has.
unfoldable pub refs : Allocator → ℕ → ℕ
refs a id = count_or_zero (lookup ℕ_discrete id a.ref_count)

-- The identity of a canonical text.
unfoldable pub identity_of : Allocator → Text → Option ℕ
identity_of a canonical = lookup text_dec canonical a.labels_to_id

-- The two maps between identities and labels are each other's inverse, and exactly the identities
-- with labels have references.
pub record IsValid (a : Allocator) : Type 0 where
  pub forward :
      (c : Text) (id : ℕ)
      → identity_of a c ≡ some id
      → (l : Labels) × (get_labels a id ≡ some l) × (canonical_labels l ≡ c)
  pub backward :
      (id : ℕ) (l : Labels)
      → get_labels a id ≡ some l
      → identity_of a (canonical_labels l) ≡ some id
  pub counted : (id : ℕ) → 0 < refs a id → (l : Labels) × (get_labels a id ≡ some l)
  pub held : (id : ℕ) (l : Labels) → get_labels a id ≡ some l → 0 < refs a id
  pub positive : (id n : ℕ) → lookup ℕ_discrete id a.ref_count ≡ some n → 0 < n

-- One identity is bound to labels, new or already bound to the same canonical text, and the
-- references of that identity are changed.
pub record Binds (a a' : Allocator) (id : ℕ) (c : Text) (l : Labels) : Type 0 where
  pub labels_here : get_labels a' id ≡ some l
  pub text_here : canonical_labels l ≡ c
  pub identity_here : identity_of a' c ≡ some id
  pub labels_kept : (l' : Labels) → get_labels a id ≡ some l' → l' ≡ l
  pub labels_else : (j : ℕ) → id ≢ j → get_labels a' j ≡ get_labels a j
  pub identity_else : (d : Text) → c ≢ d → identity_of a' d ≡ identity_of a d
  pub refs_here : refs a' id ≡ refs a id + 1
  pub refs_else : (j : ℕ) → id ≢ j → refs a' j ≡ refs a j

refs-add_ref_self : (a : Allocator) (id : ℕ) → refs (add_ref a id) id ≡ refs a id + 1
unfolding refs add_ref
refs-add_ref_self a id = ap count_or_zero (
    lookup-insert_self ℕ_discrete id (count_or_zero (lookup ℕ_discrete id a.ref_count) + 1)
      a.ref_count)

refs-add_ref_ne : (a : Allocator) (id j : ℕ) → id ≢ j → refs (add_ref a id) j ≡ refs a j
unfolding refs add_ref
refs-add_ref_ne a id j h = ap count_or_zero (lookup-insert_ne ℕ_discrete id j _ a.ref_count h)

positive-add_ref :
    (a : Allocator) (id : ℕ)
    → ((j n : ℕ) → lookup ℕ_discrete j a.ref_count ≡ some n → 0 < n)
    → (j n : ℕ) → lookup ℕ_discrete j (add_ref a id).ref_count ≡ some n
    → 0 < n
unfolding add_ref
positive-add_ref a id v j n e = elim (ℕ_discrete id j) [
  | yes p ↦
      let m : ℕ = count_or_zero (lookup ℕ_discrete id a.ref_count) + 1 in
      let e' : lookup ℕ_discrete id (insert ℕ_discrete id m a.ref_count) ≡ some n = rw (← p) at e in
      let q : m ≡ n = some_inj (sym (lookup-insert_self ℕ_discrete id m a.ref_count) ∙ e') in
      omega arith
  | no p ↦ v j n (sym (lookup-insert_ne ℕ_discrete id j _ a.ref_count p) ∙ e)
]

-- Labels with their text already known.
rebind :
    (a : Allocator) (c : Text) (id : ℕ)
    → IsValid a
    → identity_of a c ≡ some id
    → (l : Labels) × Binds a (add_ref a id) id c l
unfolding add_ref get_labels identity_of
rebind a c id v e =
    let (l, f, t) = v.forward c id e in
    (
      l,
      record {
        labels_here = f;
        text_here = t;
        identity_here = e;
        labels_kept = λ l' q. some_inj (sym q ∙ f);
        labels_else = λ j h. refl;
        identity_else = λ d h. refl;
        refs_here = refs-add_ref_self a id;
        refs_else = λ j h. refs-add_ref_ne a id j h;
      },
    )

ref_count-store :
    (a : Allocator) (lbls : Labels) (c : Text) (id : ℕ)
    → (store a lbls c id).ref_count ≡ a.ref_count
unfolding store
ref_count-store a lbls c id = elim (Option-cases (lookup ℕ_discrete id a.id_to_labels)) [
  | inl e ↦ rw (e, store)
  | inr (stored, e) ↦ rw (e, store)
]

-- A new identity for a text that is not known.
bind_new :
    (a : Allocator) (lbls : Labels) (id : ℕ)
    → get_labels a id ≡ none
    → Binds a (add_ref (store a lbls (canonical_labels lbls) id) id) id (canonical_labels lbls) lbls
unfolding get_labels store
bind_new a lbls id f = rw (f, store) (bound f)
  where
    stored : Allocator
    stored = record a {
      id_to_labels = insert ℕ_discrete id lbls a.id_to_labels;
      labels_to_id = insert text_dec (canonical_labels lbls) id a.labels_to_id;
    }

    bound : get_labels a id ≡ none → Binds a (add_ref stored id) id (canonical_labels lbls) lbls
    bound f =
        unfold add_ref identity_of refs in
        record {
          labels_here = lookup-insert_self ℕ_discrete id lbls a.id_to_labels;
          text_here = refl;
          labels_kept = λ l' q. absurd (cc (sym q, f));
          identity_here = lookup-insert_self text_dec (canonical_labels lbls) id a.labels_to_id;
          labels_else = λ j h. lookup-insert_ne ℕ_discrete id j lbls a.id_to_labels h;
          identity_else =
              λ d h. lookup-insert_ne text_dec (canonical_labels lbls) d id a.labels_to_id h;
          refs_here = refs-add_ref_self stored id;
          refs_else = λ j h. refs-add_ref_ne stored id j h;
        }

-- To bind a text to an identity that is free or its own keeps the maps inverse.
module _ {a a' : Allocator} (id : ℕ) (c : Text) {l : Labels} (v : IsValid a)
    (b : Binds a a' id c l) where
  Binds-IsValid :
      ((l' : Labels) → get_labels a id ≡ some l' → canonical_labels l' ≡ c)
      → ((i : ℕ) → identity_of a c ≡ some i → i ≡ id)
      → ((j n : ℕ) → lookup ℕ_discrete j a'.ref_count ≡ some n → 0 < n)
      → IsValid a'
  Binds-IsValid own own_id pos = record {
    forward = forward';
    backward = backward';
    counted = λ j h. elim (ℕ_discrete id j) [
      | yes p ↦ (l, rw (← p) b.labels_here)
      | no p ↦ let (l', e) = v.counted j (rw (b.refs_else j p) at h) in (l', b.labels_else j p ∙ e)
    ];
    held = λ j l' e. elim (ℕ_discrete id j) [
      | yes p ↦ rw (← p) (omega (arith, b.refs_here))
      | no p ↦ rw (b.refs_else j p) (v.held j l' (sym (b.labels_else j p) ∙ e))
    ];
    positive = pos;
  }
    where
      forward' :
          (d : Text) (j : ℕ)
          → identity_of a' d ≡ some j
          → (l' : Labels) × (get_labels a' j ≡ some l') × (canonical_labels l' ≡ d)
      forward' d j e = elim (text_dec c d) [
        | yes p ↦
            let q : id ≡ j = some_inj (sym b.identity_here ∙ ap (identity_of a') p ∙ e) in
            (l, ap (get_labels a') (sym q) ∙ b.labels_here, b.text_here ∙ p)
        | no p ↦
            let (l', f, t) = v.forward d j (sym (b.identity_else d p) ∙ e) in
            (l', b.labels_else j (λ q. p (sym (own l' (ap (get_labels a) q ∙ f)) ∙ t)) ∙ f, t)
      ]

      backward' :
          (j : ℕ) (l' : Labels)
          → get_labels a' j ≡ some l'
          → identity_of a' (canonical_labels l') ≡ some j
      backward' j l' e = elim (ℕ_discrete id j) [
        | yes p ↦
            let q : l ≡ l' = some_inj (sym b.labels_here ∙ ap (get_labels a') p ∙ e) in
            ap (identity_of a') (ap canonical_labels (sym q) ∙ b.text_here)
            ∙ b.identity_here
            ∙ ap some p
        | no p ↦
            let f = v.backward j l' (sym (b.labels_else j p) ∙ e) in
            b.identity_else (canonical_labels l')
              (λ q. p (sym (own_id j (ap (identity_of a) q ∙ f))))
            ∙ f
      ]

-- `AllocateIdentity` on a valid allocator of fewer than 2^64 identities ends and keeps it valid. The
-- identity that it returns is bound to the labels' canonical text and has one reference more; all
-- other identities and texts stay as they were; and a text that had an identity keeps it.
pub allocate_identity-Binds :
    (a : Allocator) (lbls : Labels)
    → IsValid a
    → count a < 2 ^ 64
    → (a' : Allocator) × (id : ℕ) × (l : Labels) × (allocate_identity a lbls ≡ some (a', id))
      × IsValid a'
      × Binds a a' id (canonical_labels lbls) l
      × ((i : ℕ) → get_identity a lbls ≡ some i → i ≡ id)
unfolding allocate_identity get_identity count identity_of
allocate_identity-Binds a lbls v room = elim (Option-cases (lookup text_dec c a.labels_to_id)) [
  | inr (id, e) ↦
      let (l, b) = rebind a c id v e in
      (
        add_ref a id,
        id,
        l,
        rw (e, allocate_identity),
        Binds-IsValid id c v b (known_labels id e) (λ i q. some_inj (sym q ∙ e))
            (positive-add_ref a id v.positive),
        b,
        λ i q. some_inj (sym q ∙ e),
      )
  | inl e ↦
      let (id, f, w) = probe_total a.id_to_labels c (hash_canonical c) (hash_canonical-lt c) room in
      let free = unbound id e w in
      let b = bind_new a lbls id free in
      (
        add_ref (store a lbls c id) id,
        id,
        lbls,
        rw (e, allocate_identity) (rw f),
        Binds-IsValid id c v b (λ l q. absurd (cc (sym q, free))) (λ i q. absurd (cc (sym q, e)))
            (positive-add_ref (store a lbls c id) id (positive-store id)),
        b,
        λ i q. absurd (cc (sym q, e)),
      )
]
  where
    c : Text
    c = canonical_labels lbls

    known_labels :
        (id : ℕ)
        → identity_of a c ≡ some id
        → (l' : Labels) → get_labels a id ≡ some l'
        → canonical_labels l' ≡ c
    known_labels id e l' f =
        let (l, g, t) = v.forward c id e in ap canonical_labels (some_inj (sym f ∙ g)) ∙ t

    unbound : (id : ℕ) → identity_of a c ≡ none → IsFor a.id_to_labels c id → get_labels a id ≡ none
    unbound id e (inl free) = unfold get_labels in free
    unbound id e (inr (stored, g, t)) =
        absurd (cc (e, t, v.backward id stored (unfold get_labels in g)))

    positive-store :
        (id : ℕ) (j n : ℕ) → lookup ℕ_discrete j (store a lbls c id).ref_count ≡ some n → 0 < n
    positive-store id j n q =
        v.positive j n (ap (lookup ℕ_discrete j) (sym (ref_count-store a lbls c id)) ∙ q)
