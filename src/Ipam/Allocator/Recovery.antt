-- ===== src/Ipam/Allocator/Recovery.antt =====
-- The restart of the agent, after a history of calls of internal/ipam/allocator.go.
use novanet.Base.{ℕ, ◌≡◌, sym, ap, ◌∙◌, ◌≤◌, true, some, List, [], arith, length, ◌^◌, ok}
use novanet.Base.Counting.{count_below, count_below_ext}
use novanet.Ipam.Bitmap.Laws.{is_set, count}
use novanet.Ipam.Address.{IpNet, host_bits, Naming, IsFaithful}
use novanet.Ipam.Address.Bytes.{IsBytes}
use novanet.Ipam.Address.Index.{to4-of_four}
use novanet.Ipam.Allocator.{Allocator, Disk, StateDir, fresh, new_allocator_with_state_dir, used}
use novanet.Ipam.Allocator.Invariant.{IsValid, SameShape, is_taken}
use novanet.Ipam.Allocator.Construct.{IsNetwork, least_size}
use novanet.Ipam.Allocator.Restore.{named_over, restart_lem}
use novanet.Ipam.Allocator.Persist.{IsPersistent}
use novanet.Ipam.Allocator.Tracks.{Tracks}
use novanet.Ipam.Allocator.History.{Call, run, AllFour, run-Tracks}

-- The size of an IPv4 allocator follows from its network, so do its addresses.
SameShape-of : {n : IpNet} {a b : Allocator} → IsPersistent n a → IsPersistent n b → SameShape a b
SameShape-of p q =
    let w = q.over ∙ sym p.over in
    record {
      same_network = w;
      same_base = q.four.at_base ∙ ap (λ t. t.ip) w ∙ sym p.four.at_base;
      same_size = q.four.whole ∙ ap (λ t. 2 ^ host_bits t) w ∙ sym p.four.whole;
      same_ip_len = q.four.ip_len_four ∙ sym p.four.ip_len_four;
      same_is_ipv4 = q.is_four ∙ sym p.is_four;
      same_persistent = q.persists ∙ sym p.persists;
    }

-- An IPv4 network of an allowed size.
pub record IsFourNetwork (n : IpNet) : Type 0 where
  pub net : IsNetwork n
  pub bits_four : n.bits ≡ 32
  pub four : length n.ip ≡ 4
  pub bytes : IsBytes n.ip
  pub fits : host_bits n ≤ 20
  pub room : 4 ≤ 2 ^ host_bits n

restored-IsPersistent :
    (n : IpNet) (a : Allocator)
    → IsFourNetwork n
    → IsValid a
    → SameShape (fresh n true) a
    → IsPersistent n a
unfolding fresh
restored-IsPersistent n a h v s = record {
  valid = v;
  four = record {
    ip_len_four = ground (arith, s.same_ip_len, h.bits_four);
    network_length = rw s.same_network h.four;
    at_base =
        s.same_base
        ∙ ground (arith, h.bits_four, to4-of_four n.ip h.four)
        ∙ ap (λ t. t.ip) (sym s.same_network);
    whole = s.same_size ∙ ap (λ t. 2 ^ host_bits t) (sym s.same_network);
    masked = rw s.same_network h.net.masked;
  };
  bytes = rw s.same_network h.bytes;
  persists = s.same_persistent;
  is_four = ground (arith, s.same_is_ipv4, h.bits_four);
  over = s.same_network;
}

abbrev pub readable : Disk → StateDir
readable entries = record { mkdir_ok = true; read_ok = true; entries = entries }

-- Allocators that hold the same addresses count the same.
same_count :
    {a b : Allocator}
    → IsValid a
    → IsValid b
    → SameShape a b
    → ((j : ℕ) → is_taken b j ≡ is_taken a j)
    → used b ≡ used a
unfolding is_taken count used
same_count {a} {b} v w s t =
    let z : b.bitmap.size ≡ a.bitmap.size = w.sized ∙ s.same_size ∙ sym v.sized in
    w.counted
    ∙ ap (λ m. count_below m (is_set b.bitmap)) z
    ∙ count_below_ext a.bitmap.size (is_set b.bitmap) (is_set a.bitmap) (λ j l. t j)
    ∙ sym v.counted

-- A restart loses nothing and leaks nothing. Over an IPv4 network of 4 to 2^20 addresses, a new
-- allocator with an empty state directory goes through any history of calls on four-byte addresses,
-- some of whose writes may fail, leaving no file, but whose removals succeed, without a panic; an
-- allocator made anew from the directory that is left then holds exactly the addresses that were
-- held, and counts as many.
pub restart_recovers :
    (names : Naming) (n : IpNet) (calls : List Call)
    → IsFaithful names
    → IsFourNetwork n
    → AllFour calls
    → (start a : Allocator) × (disk : Disk) × (b : Allocator) × (new_allocator_with_state_dir names
          (some n)
          (some (readable []))
        ≡ some (ok start))
      × (run names calls start [] ≡ some (a, disk))
      × (new_allocator_with_state_dir names (some n) (some (readable disk)) ≡ some (ok b))
      × ((j : ℕ) → is_taken b j ≡ is_taken a j)
      × (used b ≡ used a)
restart_recovers names n calls faithful h four_calls =
    let (start, e, v, t, s) = restart_lem names n [] h.net h.fits large in
    let begun : Tracks names n start [] = record {
      persistent = restored-IsPersistent n start h v s;
      canonical = tt;
      held = t;
    } in
    let (a, disk, r, tr) = run-Tracks names faithful n calls start [] four_calls begun in
    let (b, e', v', t', s') = restart_lem names n disk h.net h.fits large in
    let shape : SameShape a b = SameShape-of tr.persistent (restored-IsPersistent n b h v' s') in
    let same : (j : ℕ) → is_taken b j ≡ is_taken a j = λ j. ground (
      arith,
      t' j,
      tr.held j,
      shape.same_size,
      shape.same_is_ipv4,
      named_over names disk j shape,
    ) in
    (start, a, disk, b, e, r, e', same, same_count tr.persistent.valid v' shape same)
  where
    large : least_size n ≤ 2 ^ host_bits n
    large = ground (arith, h.bits_four, h.room)
