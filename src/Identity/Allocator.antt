-- ===== src/Identity/Allocator.antt =====
-- `Allocator` of internal/identity/allocator.go. The probing loop takes fuel: `none` is a loop that
-- has not ended.
use novanet.Base.{
  ℕ, zero, suc, ◌+◌, ◌-◌, ◌%◌, ◌^◌, Bool, Option, none, some, List, [], ◌∷◌, map, ◌>>=◌, leb,
  if◌then◌else◌, ℕ_discrete, length,
}
use mathlib.Core.Logic.{ite}
use novanet.Base.Assoc.{lookup, insert, delete}
use novanet.Identity.Labels.{Text, text_dec, Labels, canonical_labels, hash_canonical}

pub record Allocator : Type 0 where
  pub id_to_labels : List (ℕ × Labels)
  pub ref_count : List (ℕ × ℕ)
  pub labels_to_id : List (Text × ℕ)

unfoldable pub new_allocator : Allocator
new_allocator = record { id_to_labels = []; ref_count = []; labels_to_id = [] }

-- A missing count reads as 0.
abbrev pub count_or_zero : Option ℕ → ℕ
count_or_zero none = 0
count_or_zero (some n) = n

-- `refCount[id]++`.
unfoldable pub add_ref : Allocator → ℕ → Allocator
add_ref a id = record a {
  ref_count =
      insert ℕ_discrete id (count_or_zero (lookup ℕ_discrete id a.ref_count) + 1) a.ref_count;
}

-- The probing loop: the first identity from `id` on that is not taken by other labels.
unfoldable pub probe : ℕ → List (ℕ × Labels) → Text → ℕ → Option ℕ
probe zero m canonical id = none
probe (suc fuel) m canonical id =
    let next = probe fuel m canonical ((id + 1) % 2 ^ 64) in
    elim (lookup ℕ_discrete id m) [
      | none ↦ some id
      | some stored ↦ ite (text_dec (canonical_labels stored) canonical) (some id) next
    ]

-- The end of `AllocateIdentity`, once the loop has settled on an identity.
unfoldable pub store : Allocator → Labels → Text → ℕ → Allocator
store a lbls canonical id = elim (lookup ℕ_discrete id a.id_to_labels) [
  | none ↦ record a {
    id_to_labels = insert ℕ_discrete id lbls a.id_to_labels;
    labels_to_id = insert text_dec canonical id a.labels_to_id;
  }
  | some stored ↦ a
]

unfoldable pub allocate_identity : Allocator → Labels → Option (Allocator × ℕ)
unfolding add_ref probe store
allocate_identity a lbls =
    let canonical = canonical_labels lbls in
    elim (lookup text_dec canonical a.labels_to_id) [
      | some existing ↦ some (add_ref a existing, existing)
      | none ↦ do
        id ← probe (length a.id_to_labels + 1) a.id_to_labels canonical (hash_canonical canonical)
        some (add_ref (store a lbls canonical id) id, id)
    ]

unfoldable pub get_labels : Allocator → ℕ → Option Labels
get_labels a id = lookup ℕ_discrete id a.id_to_labels

unfoldable pub get_identity : Allocator → Labels → Option ℕ
get_identity a lbls = lookup text_dec (canonical_labels lbls) a.labels_to_id

-- The identity's text is forgotten, if it has labels.
unfoldable pub forget_text : Allocator → ℕ → List (Text × ℕ)
forget_text a id = elim (lookup ℕ_discrete id a.id_to_labels) [
  | none ↦ a.labels_to_id
  | some lbls ↦ delete text_dec (canonical_labels lbls) a.labels_to_id
]

unfoldable pub remove_identity : Allocator → ℕ → Allocator
unfolding forget_text
remove_identity a id = elim (lookup ℕ_discrete id a.ref_count) [
  | none ↦ a
  | some count ↦
      if leb count 1
      then record a {
        id_to_labels = delete ℕ_discrete id a.id_to_labels;
        ref_count = delete ℕ_discrete id a.ref_count;
        labels_to_id = forget_text a id;
      }
      else record a { ref_count = insert ℕ_discrete id (count - 1) a.ref_count }
]

-- `Entry` and `ListAll`.
pub record Entry : Type 0 where
  pub id : ℕ
  pub labels : Labels
  pub refs : ℕ

unfoldable pub list_all : Allocator → List Entry
list_all a =
    map
      (λ e. record {
        id = e.0;
        labels = e.1;
        refs = count_or_zero (lookup ℕ_discrete e.0 a.ref_count);
      })
      a.id_to_labels

-- The identities whose labels a selector matches. The selector is Kubernetes' own.
unfoldable pub matching : (Labels → Bool) → List (ℕ × Labels) → List ℕ
matching selects [] = []
matching selects ((id, lbls) ∷ m) =
    if selects lbls then id ∷ matching selects m else matching selects m

unfoldable pub find_matching_identities : Allocator → (Labels → Bool) → List ℕ
unfolding matching
find_matching_identities a selects = matching selects a.id_to_labels

unfoldable pub count : Allocator → ℕ
count a = length a.id_to_labels
