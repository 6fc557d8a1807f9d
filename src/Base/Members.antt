-- ===== src/Base/Members.antt =====
-- Which values a list holds, with where: the list as a set. A loop that appends is a map, an append or
-- a `concat_map`.
use novanet.Base.{
  ◌≡◌, refl, ap, ◌∙◌, ◌↔◌, ◌⊎◌, inl, inr, Bool, true, false, List, [], ◌∷◌, ◌++◌, map,
}

abbrev pub In : {A : Type 0} → A → List A → Type 0
In a [] = ⊥
In a (x ∷ xs) = (x ≡ a) ⊎ In a xs

abbrev pub concat_map {ℓ κ} : {A : Type ℓ} {B : Type κ} → (A → List B) → List A → List B
concat_map f [] = []
concat_map f (x ∷ xs) = f x ++ concat_map f xs

abbrev pub is_nil {ℓ} : {A : Type ℓ} → List A → Bool
is_nil [] = true
is_nil (x ∷ xs) = false

pub is_nil_iff {ℓ} : {A : Type ℓ} (xs : List A) → (is_nil xs ≡ true) ↔ (xs ≡ [])
is_nil_iff [] = (λ e. refl, λ e. refl)
is_nil_iff (x ∷ xs) = (λ e. absurd (cc), λ e. absurd (cc))

module _ {A : Type 0} where
  pub In-append : (a : A) (xs ys : List A) → In a (xs ++ ys) ↔ (In a xs ⊎ In a ys)
  In-append a [] ys = (λ h. inr h, λ h. elim h [ inl e ↦ absurd e | inr m ↦ m ])
  In-append a (x ∷ xs) ys =
      let rest = In-append a xs ys in
      (
        λ h. elim h [
          | inl e ↦ inl (inl e)
          | inr m ↦ elim (rest.0 m) [ inl k ↦ inl (inr k) | inr k ↦ inr k ]
        ],
        λ h. elim h [
          | inl k ↦ elim k [ inl e ↦ inl e | inr m ↦ inr (rest.1 (inl m)) ]
          | inr m ↦ inr (rest.1 (inr m))
        ],
      )

  pub In-single : (a b : A) → In a (b ∷ []) ↔ (b ≡ a)
  In-single a b = (λ h. elim h [ inl e ↦ e | inr m ↦ absurd m ], λ e. inl e)

module _ {A B : Type 0} where
  pub In-concat_map :
      (b : B) (f : A → List B) (xs : List A)
      → In b (concat_map f xs) ↔ ((x : A) × In x xs × In b (f x))
  In-concat_map b f [] = (λ h. absurd h, λ h. absurd h.1)
  In-concat_map b f (x ∷ xs) =
      let rest = In-concat_map b f xs in
      (
        λ h. elim ((In-append b (f x) (concat_map f xs)).0 h) [
          | inl m ↦ (x, inl refl, m)
          | inr m ↦ let (y, k, l) = rest.0 m in (y, inr k, l)
        ],
        λ h. elim h.1 [
          | inl e ↦ (In-append b (f x) (concat_map f xs)).1 (inl (rw e h.2))
          | inr m ↦ (In-append b (f x) (concat_map f xs)).1 (inr (rest.1 (h.0, m, h.2)))
        ],
      )

  pub In-map : (b : B) (f : A → B) (xs : List A) → In b (map f xs) ↔ ((x : A) × In x xs × (f x ≡ b))
  In-map b f [] = (λ h. absurd h, λ h. absurd h.1)
  In-map b f (x ∷ xs) =
      let rest = In-map b f xs in
      (
        λ h. elim h [
          | inl e ↦ (x, inl refl, e)
          | inr m ↦ let (y, k, l) = rest.0 m in (y, inr k, l)
        ],
        λ h. elim h.1 [ inl e ↦ inl (ap f e ∙ h.2) | inr m ↦ inr (rest.1 (h.0, m, h.2)) ],
      )
