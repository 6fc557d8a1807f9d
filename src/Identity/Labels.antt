-- ===== src/Identity/Labels.antt =====
-- The label sets of internal/identity/allocator.go, their canonical text, and its hash. A text is a list of
-- bytes, and a label set lists its keys with their values.
use Prim.Native.Nat.{bit_xor}
unfoldable pub use novanet.Base.Text.{Text, text_dec}
use novanet.Base.{
  ℕ, ◌*◌, ◌%◌, ◌^◌, ◌<◌, arith, Bool, true, false, List, [], ◌∷◌, ◌++◌, map, ltb, if◌then◌else◌,
}

abbrev pub Labels : Type 0
Labels = List (Text × Text)

-- The order of Go's strings, by their bytes.
unfoldable pub before : Text → Text → Bool
before [] ys = true
before (x ∷ xs) [] = false
before (x ∷ xs) (y ∷ ys) = if ltb x y then true else if ltb y x then false else before xs ys

unfoldable pub sort_in : Text × Text → Labels → Labels
unfolding before
sort_in x [] = x ∷ []
sort_in (k, v) ((k', v') ∷ ls) =
    if before k k' then (k, v) ∷ (k', v') ∷ ls else (k', v') ∷ sort_in (k, v) ls

-- The keys in their order, each with its value.
unfoldable pub sort_keys : Labels → Labels
unfolding sort_in
sort_keys [] = []
sort_keys (x ∷ ls) = sort_in x (sort_keys ls)

-- `strings.Join` with a comma.
unfoldable pub join : List Text → Text
join [] = []
join (part ∷ []) = part
join (part ∷ part' ∷ parts) = part ++ b',' ∷ join (part' ∷ parts)

unfoldable pub canonical_labels : Labels → Text
unfolding sort_keys join
canonical_labels lbls = join (map (λ l. l.0 ++ b'=' ∷ l.1) (sort_keys lbls))

-- `hash/fnv`'s 64-bit FNV-1a.
unfoldable pub fnv1a : ℕ → Text → ℕ
fnv1a h [] = h
fnv1a h (c ∷ cs) = fnv1a (bit_xor h c * 1099511628211 % 2 ^ 64) cs

unfoldable pub hash_canonical : Text → ℕ
unfolding fnv1a
hash_canonical canonical = fnv1a 14695981039346656037 canonical

unfoldable pub hash_labels : Labels → ℕ
unfolding hash_canonical canonical_labels
hash_labels lbls = hash_canonical (canonical_labels lbls)

fnv1a-lt : (h : ℕ) (cs : Text) → h < 2 ^ 64 → fnv1a h cs < 2 ^ 64
unfolding fnv1a
fnv1a-lt h [] l = l
fnv1a-lt h (c ∷ cs) l = fnv1a-lt (bit_xor h c * 1099511628211 % 2 ^ 64) cs (omega arith)

pub hash_canonical-lt : (canonical : Text) → hash_canonical canonical < 2 ^ 64
unfolding hash_canonical
hash_canonical-lt canonical = fnv1a-lt 14695981039346656037 canonical (omega arith)
