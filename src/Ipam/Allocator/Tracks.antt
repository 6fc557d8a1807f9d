-- ===== src/Ipam/Allocator/Tracks.antt =====
-- Each operation of internal/ipam/allocator.go keeps the state directory in step with the bitmap.
use novanet.Base.{ℕ, ◌≡◌, sym, ap, ◌∙◌, Bool, true, false, ◌&&◌, ◌||◌, ◌==◌, arith, length, ◌^◌}
use novanet.Base.Assoc.{insert, delete}
use novanet.Ipam.Address.{Ip, IpNet, text_dec, Naming, IsFaithful, host_bits}
use novanet.Ipam.Address.Bytes.{IsBytes}
use novanet.Ipam.Allocator.{Allocator, Disk}
use novanet.Ipam.Allocator.Invariant.{
  SameShape, Changes-SameShape, IsValid, IsFreeable, Changes, SameState, is_taken,
}
use novanet.Ipam.Allocator.RoundTrip.{Changes-IsFour}
use novanet.Ipam.Allocator.Specific.{Addresses}
use novanet.Ipam.Allocator.Construct.{reserved}
use novanet.Ipam.Allocator.Restore.{named, named_over}
use novanet.Ipam.Allocator.Directory.{
  index_of_addressed, entry_index-text, named-insert, named-delete,
}
use novanet.Ipam.Allocator.Persist.{
  Canonical, insert-Canonical, delete-Canonical, Canonical-OnlyKey, IsPersistent,
}

-- The taken indices are the reserved ones and those with a file.
pub record Tracks (names : Naming) (n : IpNet) (a : Allocator) (disk : Disk) : Type 0 where
  pub persistent : IsPersistent n a
  pub canonical : Canonical names disk
  pub held : (j : ℕ) → is_taken a j ≡ (reserved a j || named names a disk j)

Changes-IsPersistent :
    {on : Bool} {idx : ℕ} {n : IpNet} {a a' : Allocator}
    → Changes on idx a a'
    → IsValid a'
    → IsPersistent n a
    → IsPersistent n a'
Changes-IsPersistent c v p = record {
  valid = v;
  four = Changes-IsFour c p.four;
  bytes = rw c.same_network p.bytes;
  persists = c.same_persistent ∙ p.persists;
  is_four = c.same_is_ipv4 ∙ p.is_four;
  over = c.same_network ∙ p.over;
}

module _ (names : Naming) (faithful : IsFaithful names) (n : IpNet) (a : Allocator)
    (disk : Disk) where
  -- An index is taken and its file written.
  pub Tracks-take :
      (a' : Allocator) (ip : Ip) (idx : ℕ)
      → Tracks names n a disk
      → IsValid a'
      → Changes true idx a a'
      → length ip ≡ 4
      → IsBytes ip
      → Addresses a ip idx
      → Tracks names n a' (insert text_dec (names.text ip) false disk)
  Tracks-take a' ip idx t v c l b at = record {
    persistent = Changes-IsPersistent c v t.persistent;
    canonical = insert-Canonical names ip disk l b t.canonical;
    held = λ j. ground (
      arith,
      c.taken j,
      t.held j,
      c.same_size,
      c.same_is_ipv4,
      named_over names (insert text_dec (names.text ip) false disk) j (Changes-SameShape c),
      named-insert names a (names.text ip) disk j,
      entry_index-text names a ip faithful l,
      index_of_addressed a ip idx at,
    );
  }

  -- An index is dropped and its file removed.
  pub Tracks-drop :
      (a' : Allocator) (ip : Ip) (idx : ℕ)
      → Tracks names n a disk
      → IsValid a'
      → Changes false idx a a'
      → IsFreeable a idx
      → length ip ≡ 4
      → IsBytes ip
      → Addresses a ip idx
      → Tracks names n a' (delete text_dec (names.text ip) disk)
  Tracks-drop a' ip idx t v c free l b at = record {
    persistent = Changes-IsPersistent c v t.persistent;
    canonical = delete-Canonical names (names.text ip) disk t.canonical;
    held = λ j. ground (
      arith,
      c.taken j,
      t.held j,
      c.same_size,
      c.same_is_ipv4,
      unreserved j,
      named_over names (delete text_dec (names.text ip) disk) j (Changes-SameShape c),
      named-delete names a (names.text ip) idx disk j
          (entry_index-text names a ip faithful l ∙ index_of_addressed a ip idx at)
          (Canonical-OnlyKey names faithful n a ip idx disk t.persistent l b
            (index_of_addressed a ip idx at) t.canonical),
    );
  }
    where
      unreserved : (j : ℕ) → (idx == j && reserved a j) ≡ false
      unreserved j = ground (arith, free.0, free.1)

  -- Nothing has changed.
  pub Tracks-same :
      (a' : Allocator)
      → Tracks names n a disk
      → IsValid a'
      → SameState a a'
      → Tracks names n a' disk
  Tracks-same a' t v s = record {
    persistent = record {
      valid = v;
      four = record {
        ip_len_four = s.same_ip_len ∙ p.four.ip_len_four;
        network_length = rw s.same_network p.four.network_length;
        at_base = s.same_base ∙ p.four.at_base ∙ ap (λ t. t.ip) (sym s.same_network);
        whole = s.same_size ∙ p.four.whole ∙ ap (λ t. 2 ^ host_bits t) (sym s.same_network);
        masked = rw s.same_network p.four.masked;
      };
      bytes = rw s.same_network p.bytes;
      persists = s.same_persistent ∙ p.persists;
      is_four = s.same_is_ipv4 ∙ p.is_four;
      over = s.same_network ∙ p.over;
    };
    canonical = t.canonical;
    held = λ j.
        ground
          (arith, s.taken j, t.held j, s.same_size, s.same_is_ipv4, named_over names disk j shape);
  }
    where
      open t use {persistent as p}

      shape : SameShape a a'
      shape = record {
        same_network = s.same_network;
        same_base = s.same_base;
        same_size = s.same_size;
        same_ip_len = s.same_ip_len;
        same_is_ipv4 = s.same_is_ipv4;
        same_persistent = s.same_persistent;
      }
