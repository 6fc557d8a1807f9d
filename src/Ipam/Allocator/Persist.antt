-- ===== src/Ipam/Allocator/Persist.antt =====
-- The state directory of internal/ipam/allocator.go follows the allocator.
use novanet.Base.{ℕ, ◌≡◌, refl, sym, ap, ◌∙◌, Bool, true, false, some, [], ◌∷◌, length}
use mathlib.Core.Logic.{if_pos, if_neg}
use novanet.Base.Assoc.{insert, delete}
use novanet.Ipam.Address.{Ip, IpNet, Text, text_dec, Naming, IsFaithful}
use novanet.Ipam.Address.Bytes.{IsBytes}
use novanet.Ipam.Address.Four.{four_injective}
use novanet.Ipam.Allocator.{Allocator, Disk}
use novanet.Ipam.Allocator.Invariant.{IsValid}
use novanet.Ipam.Allocator.RoundTrip.{IsFour}
use novanet.Ipam.Allocator.Restore.{index_of, entry_index}
use novanet.Ipam.Allocator.Directory.{index_value, entry_index-text, OnlyKey}

-- Every file in the directory is named by an address of four bytes.
abbrev pub Canonical : Naming → Disk → Type 0
Canonical names [] = Unit {0}
Canonical names ((k, w) ∷ m) =
    (w ≡ false → (ip : Ip) × (length ip ≡ 4) × IsBytes ip × (k ≡ names.text ip)) × Canonical names m

pub insert-Canonical :
    (names : Naming) (ip : Ip) (m : Disk)
    → length ip ≡ 4
    → IsBytes ip
    → Canonical names m
    → Canonical names (insert text_dec (names.text ip) false m)
unfolding insert
insert-Canonical names ip [] l b c = ((λ w. (ip, l, b, refl)), tt)
insert-Canonical names ip ((k, w) ∷ m) l b c = elim (text_dec k (names.text ip)) [
  | yes p ↦ rw (if_pos (text_dec k (names.text ip)) p) ((λ w. (ip, l, b, refl)), c.1)
  | no p ↦ rw (if_neg (text_dec k (names.text ip)) p) (c.0, insert-Canonical names ip m l b c.1)
]

pub delete-Canonical :
    (names : Naming) (t : Text) (m : Disk)
    → Canonical names m
    → Canonical names (delete text_dec t m)
unfolding delete
delete-Canonical names t [] c = tt
delete-Canonical names t ((k, w) ∷ m) c = elim (text_dec k t) [
  | yes p ↦ rw (if_pos (text_dec k t) p) (delete-Canonical names t m c.1)
  | no p ↦ rw (if_neg (text_dec k t) p) (c.0, delete-Canonical names t m c.1)
]

-- An allocator with a state directory, over an IPv4 network.
pub record IsPersistent (n : IpNet) (a : Allocator) : Type 0 where
  pub valid : IsValid a
  pub four : IsFour a
  pub bytes : IsBytes a.network.ip
  pub persists : a.persistent ≡ true
  pub is_four : a.is_ipv4 ≡ true
  pub over : a.network ≡ n

module _ (names : Naming) (faithful : IsFaithful names) where
  -- In a directory of such files an address is the only one that stands for its index.
  pub Canonical-OnlyKey :
      (n : IpNet) (a : Allocator) (ip : Ip) (idx : ℕ) (m : Disk)
      → IsPersistent n a
      → length ip ≡ 4
      → IsBytes ip
      → index_of a ip ≡ some idx
      → Canonical names m
      → OnlyKey names a (names.text ip) idx m
  Canonical-OnlyKey n a ip idx [] p l b i c = tt
  Canonical-OnlyKey n a ip idx ((k, w) ∷ m) p l b i c =
      (same w c.0, Canonical-OnlyKey n a ip idx m p l b i c.1)
    where
      same_text :
          (ip' : Ip)
          → length ip' ≡ 4
          → IsBytes ip'
          → index_of a ip' ≡ some idx
          → names.text ip' ≡ names.text ip
      same_text ip' l' b' i' =
          ap (λ t. names.text t)
            (four_injective ip' ip l' l b' b (
              index_value a ip' idx p.four p.bytes l' b' i'
              ∙ sym (index_value a ip idx p.four p.bytes l b i)))

      same :
          (w : Bool)
          → (w ≡ false → (ip' : Ip) × (length ip' ≡ 4) × IsBytes ip' × (k ≡ names.text ip'))
          → entry_index names a (k, w) ≡ some idx
          → k ≡ names.text ip
      same true h e = absurd (unfold entry_index in cc (e))
      same false h e =
          let (ip', l', b', q) = h refl in
          q
          ∙ same_text ip' l' b' (
              sym (entry_index-text names a ip' faithful l')
              ∙ ap (λ t. entry_index names a (t, false)) (sym q)
              ∙ e)
