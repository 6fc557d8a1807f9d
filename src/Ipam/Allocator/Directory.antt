-- ===== src/Ipam/Allocator/Directory.antt =====
-- How the files of the state directory of internal/ipam/allocator.go change what they stand for.
use novanet.Base.{
  ℕ, ◌+◌, ◌≡◌, ◌≢◌, refl, ap, ◌∙◌, ◌⊎◌, inl, inr, Bool, true, false, ◌&&◌, ◌||◌, Option, none, some,
  [], ◌∷◌, ◌==◌, if◌then◌else◌, arith, Bool-cases, ℕ_discrete, length,
}
use mathlib.Core.Logic.{if_pos, if_neg}
use novanet.Base.Assoc.{insert, delete}
use novanet.Ipam.Address.{
  Ip, Text, text_dec, Naming, IsFaithful, normalize_ip, contains, set_bytes, index_below,
  ip_to_index,
}
use novanet.Ipam.Address.Bytes.{IsBytes}
use novanet.Ipam.Address.Index.{normalize_ip-of_four}
use novanet.Ipam.Address.Four.{four_index, four-lt}
use novanet.Ipam.Allocator.{Allocator, Disk, allocator_ip_to_index}
use novanet.Ipam.Allocator.RoundTrip.{IsFour}
use novanet.Ipam.Allocator.Specific.{Addresses}
use novanet.Ipam.Allocator.Restore.{hits, index_of, entry_index, named}

pub index_of_addressed :
    (a : Allocator) (ip : Ip) (idx : ℕ) → Addresses a ip idx → index_of a ip ≡ some idx
unfolding index_of
index_of_addressed a ip idx (c, i) = rw (c, i)

-- An address of four bytes whose index is known.
pub index_value :
    (a : Allocator) (ip : Ip) (idx : ℕ)
    → IsFour a
    → IsBytes a.network.ip
    → length ip ≡ 4
    → IsBytes ip
    → index_of a ip ≡ some idx
    → set_bytes ip ≡ set_bytes a.base_ip + idx
unfolding index_of allocator_ip_to_index
index_value a ip idx f b l v e = rw f.at_base (
    four_index a.network.ip ip a.size idx f.network_length l v
      (omega (arith, four-lt a.network.ip f.network_length b))
      (looked_up (Bool-cases (contains a.network (normalize_ip ip)))))
  where
    looked_up :
        (contains a.network (normalize_ip ip) ≡ true)
          ⊎ (contains a.network (normalize_ip ip) ≡ false)
        → index_below (ip_to_index a.network.ip ip 4) a.size ≡ some idx
    looked_up (inl c) = ground (arith, e, c, normalize_ip-of_four ip l, f.ip_len_four, f.at_base)
    looked_up (inr c) = absurd (ground (arith, e, c))

module _ (names : Naming) (a : Allocator) where
  pub entry_index-text :
      (ip : Ip)
      → IsFaithful names
      → length ip ≡ 4
      → entry_index names a (names.text ip, false) ≡ index_of a ip
  unfolding entry_index index_of
  entry_index-text ip faithful l = let (back, p, q) = faithful.parse-text ip (inl l) in rw (p, q)

  -- Writing a file adds what it stands for.
  pub named-insert :
      (k : Text) (m : Disk) (j : ℕ)
      → named names a (insert text_dec k false m) j
        ≡ (named names a m j || hits (entry_index names a (k, false)) j)
  unfolding named insert entry_index
  named-insert k [] j = ground arith
  named-insert k ((k', true) ∷ m) j = elim (text_dec k' k) [
    | yes p ↦ rw (if_pos (text_dec k' k) p) (ground arith)
    | no p ↦ rw (if_neg (text_dec k' k) p) (named-insert k m j)
  ]
  named-insert k ((k', false) ∷ m) j = elim (text_dec k' k) [
    | yes p ↦ rw (if_pos (text_dec k' k) p, p) (ground arith)
    | no p ↦ rw (if_neg (text_dec k' k) p) (ground (arith, named-insert k m j))
  ]

  -- No other file stands for the index.
  abbrev pub OnlyKey : Text → ℕ → Disk → Type 0
  OnlyKey k idx [] = Unit {0}
  OnlyKey k idx ((k', w) ∷ m) = (entry_index names a (k', w) ≡ some idx → k' ≡ k) × OnlyKey k idx m

  -- Removing the one file of an index frees that index alone.
  pub named-delete :
      (k : Text) (idx : ℕ) (m : Disk) (j : ℕ)
      → entry_index names a (k, false) ≡ some idx
      → OnlyKey k idx m
      → named names a (delete text_dec k m) j ≡ (if idx == j then false else named names a m j)
  unfolding named delete entry_index
  named-delete k idx [] j e o = ground arith
  named-delete k idx ((k', w) ∷ m) j e o = elim (text_dec k' k) [
    | yes p ↦
        rw (if_pos (text_dec k' k) p, p)
          (named-delete k idx m j e o.1 ∙ removed w (named names a m j))
    | no p ↦ rw (if_neg (text_dec k' k) p) (
        ground (
          arith,
          named-delete k idx m j e o.1,
          other (entry_index names a (k', w)) (λ q. p (o.0 q)),
        ))
  ]
    where
      removed :
          (w r : Bool)
          → (if idx == j then false else r)
            ≡ (if idx == j then false else hits (entry_index names a (k, w)) j || r)
      removed true r = refl
      removed false r = ground (arith, e)

      other : (o : Option ℕ) → o ≢ some idx → (hits o j && idx == j) ≡ false
      other none h = refl
      other (some i) h = elim (ℕ_discrete i idx) [
        | yes q ↦ absurd (h (ap some q))
        | no q ↦ ground arith
      ]
