-- ===== src/Base/Assoc.antt =====
-- Go maps as association lists: lookup, assignment and `delete`.
use mathlib.Core.Logic.{ite, if_pos, if_neg}
use novanet.Base.{
  suc, ◌≤◌, ◌<◌, ◌≡◌, refl, sym, ap, ◌∙◌, ◌≢◌, Option, none, some, List, [], ◌∷◌, arith, length,
}

module _ {ℓ} {K V : Type ℓ} (dec : Discrete K) where
  unfoldable pub lookup : K → List (K × V) → Option V
  lookup k [] = none
  lookup k ((j, v) ∷ m) = ite (dec j k) (some v) (lookup k m)

  unfoldable pub insert : K → V → List (K × V) → List (K × V)
  insert k v [] = (k, v) ∷ []
  insert k v ((j, w) ∷ m) = ite (dec j k) ((k, v) ∷ m) ((j, w) ∷ insert k v m)

  unfoldable pub delete : K → List (K × V) → List (K × V)
  delete k [] = []
  delete k ((j, w) ∷ m) = ite (dec j k) (delete k m) ((j, w) ∷ delete k m)

  pub lookup-insert_self : (k : K) (v : V) (m : List (K × V)) → lookup k (insert k v m) ≡ some v
  unfolding lookup insert
  lookup-insert_self k v [] = if_pos (dec k k) refl _ _
  lookup-insert_self k v ((j, w) ∷ m) = elim (dec j k) [
    | yes p ↦ rw (if_pos (dec j k) p) (if_pos (dec k k) refl _ _)
    | no p ↦ rw (if_neg (dec j k) p, if_neg (dec j k) p) (lookup-insert_self k v m)
  ]

  pub lookup-insert_ne :
      (k q : K) (v : V) (m : List (K × V)) → k ≢ q → lookup q (insert k v m) ≡ lookup q m
  unfolding lookup insert
  lookup-insert_ne k q v [] h = if_neg (dec k q) h _ _
  lookup-insert_ne k q v ((j, w) ∷ m) h = ground (arith, lookup-insert_ne k q v m)

  pub lookup-delete_self : (k : K) (m : List (K × V)) → lookup k (delete k m) ≡ none
  unfolding lookup delete
  lookup-delete_self k [] = refl
  lookup-delete_self k ((j, w) ∷ m) = ground (arith, lookup-delete_self k m)

  pub lookup-delete_ne : (k q : K) (m : List (K × V)) → k ≢ q → lookup q (delete k m) ≡ lookup q m
  unfolding lookup delete
  lookup-delete_ne k q [] h = refl
  lookup-delete_ne k q ((j, w) ∷ m) h = ground (arith, lookup-delete_ne k q m)

  pub delete_absent : (k : K) (m : List (K × V)) → lookup k m ≡ none → delete k m ≡ m
  unfolding lookup delete
  delete_absent k [] h = refl
  delete_absent k ((j, w) ∷ m) h = ground (arith, delete_absent k m)

  -- A new key makes the map one longer.
  pub length-insert_absent :
      (k : K) (v : V) (m : List (K × V))
      → lookup k m ≡ none
      → length (insert k v m) ≡ suc (length m)
  unfolding lookup insert
  length-insert_absent k v [] h = refl
  length-insert_absent k v ((j, w) ∷ m) h = ground (arith, length-insert_absent k v m)

  pub length-insert_present :
      (k : K) (v w : V) (m : List (K × V)) → lookup k m ≡ some w → length (insert k v m) ≡ length m
  unfolding lookup insert
  length-insert_present k v w [] h = absurd (cc)
  length-insert_present k v w ((j, u) ∷ m) h = ground (arith, length-insert_present k v w m)

  -- Each key stands once.
  abbrev pub Distinct : List (K × V) → Type ℓ
  Distinct [] = Unit
  Distinct ((j, w) ∷ m) = (lookup j m ≡ none) × Distinct m

  pub insert-Distinct : (k : K) (v : V) (m : List (K × V)) → Distinct m → Distinct (insert k v m)
  unfolding lookup insert
  insert-Distinct k v [] h = (refl, tt)
  insert-Distinct k v ((j, w) ∷ m) h = elim (dec j k) [
    | yes p ↦ rw (if_pos (dec j k) p) (rw (← p) h.0, h.1)
    | no p ↦
        rw (if_neg (dec j k) p)
          (lookup-insert_ne k j v m (λ e. p (sym e)) ∙ h.0, insert-Distinct k v m h.1)
  ]

  pub delete-Distinct : (k : K) (m : List (K × V)) → Distinct m → Distinct (delete k m)
  unfolding delete
  delete-Distinct k [] h = tt
  delete-Distinct k ((j, w) ∷ m) h = elim (dec j k) [
    | yes p ↦ rw (if_pos (dec j k) p) (delete-Distinct k m h.1)
    | no p ↦
        rw (if_neg (dec j k) p)
          (lookup-delete_ne k j m (λ e. p (sym e)) ∙ h.0, delete-Distinct k m h.1)
  ]

  -- A key that stands once leaves a map one shorter.
  pub length-delete_present :
      (k : K) (v : V) (m : List (K × V))
      → Distinct m
      → lookup k m ≡ some v
      → suc (length (delete k m)) ≡ length m
  unfolding lookup delete
  length-delete_present k v [] d h = absurd (cc)
  length-delete_present k v ((j, w) ∷ m) d h = elim (dec j k) [
    | yes p ↦ rw (if_pos (dec j k) p) (ap (λ t. suc (length t)) (delete_absent k m (rw (← p) d.0)))
    | no p ↦
        rw (if_neg (dec j k) p)
          (ap suc (length-delete_present k v m d.1 (rw (if_neg (dec j k) p) at h)))
  ]

  length-delete-le : (k : K) (m : List (K × V)) → length (delete k m) ≤ length m
  unfolding delete
  length-delete-le k [] = omega arith
  length-delete-le k ((j, w) ∷ m) = elim (dec j k) [
    | yes p ↦ rw (if_pos (dec j k) p) (omega (arith, length-delete-le k m))
    | no p ↦ rw (if_neg (dec j k) p) (omega (arith, length-delete-le k m))
  ]

  -- Deleting a key that is there makes the map shorter.
  pub length-delete-lt :
      (k : K) (v : V) (m : List (K × V)) → lookup k m ≡ some v → length (delete k m) < length m
  unfolding lookup delete
  length-delete-lt k v [] h = absurd (cc)
  length-delete-lt k v ((j, w) ∷ m) h = elim (dec j k) [
    | yes p ↦ rw (if_pos (dec j k) p) (omega (arith, length-delete-le k m))
    | no p ↦
        rw (if_neg (dec j k) p)
          (omega (arith, length-delete-lt k v m (rw (if_neg (dec j k) p) at h)))
  ]
