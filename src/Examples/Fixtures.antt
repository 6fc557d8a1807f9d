-- ===== src/Examples/Fixtures.antt =====
-- Data for the tests of internal/ipam: the network 10.0.0.0/29.
use novanet.Base.{inl, refl, true, ◌||◌, none, some, [], ◌∷◌, ◌==◌, if◌then◌else◌, arith, length}
use novanet.Base.Counting.{count_below}
use novanet.Base.Bits.{bit}
use novanet.Ipam.Bitmap.{Bitmap}
use novanet.Ipam.Bitmap.Laws as BitmapLaws
use novanet.Ipam.Bitmap.FindFree.{word_bit}
use novanet.Ipam.Address.{IpNet, Naming, IsFaithful, read_bytes}
use novanet.Ipam.Address.Index.{IsRange}
use novanet.Ipam.Allocator.{Allocator}
use novanet.Ipam.Allocator.Invariant.{IsValid, is_taken}
use novanet.Ipam.Allocator.Construct.{IsNetwork}
use novanet.Ipam.Allocator.RoundTrip.{IsFour}
use novanet.Ipam.Allocator.Recovery.{IsFourNetwork}

-- Names that are the bytes themselves.
abbrev pub names : Naming
names = record {
  text = λ ip. ip;
  parse_ip = λ t. if length t == 4 || length t == 16 then some t else none;
}

pub names-IsFaithful : IsFaithful names
names-IsFaithful = record { parse-text = λ ip h. (ip, ground arith, refl) }

abbrev pub network : IpNet
network = record { ip = 10 ∷ 0 ∷ 0 ∷ 0 ∷ []; ones = 29; bits = 32 }

pub network-IsNetwork : IsNetwork network
unfolding read_bytes
network-IsNetwork = record {
  family = inl (refl, refl);
  prefix = omega arith;
  masked = (20971520, refl);
  whole = omega arith;
}

pub network-IsFourNetwork : IsFourNetwork network
network-IsFourNetwork = record {
  net = network-IsNetwork;
  bits_four = refl;
  four = refl;
  bytes = (omega arith, (omega arith, (omega arith, (omega arith, tt))));
  fits = omega arith;
  room = omega arith;
}

-- Addresses 0, 1 and 7 are reserved, and 2 is taken.
abbrev pub bitmap : Bitmap
bitmap = record { words = 135 ∷ []; size = 8 }

abbrev pub pods : Allocator
pods = record {
  network = network;
  base_ip = 10 ∷ 0 ∷ 0 ∷ 0 ∷ [];
  size = 8;
  bitmap = bitmap;
  used = 4;
  prefix_len = 29;
  ip_len = 4;
  is_ipv4 = true;
  persistent = true;
}

pub bitmap-IsValid : BitmapLaws.IsValid bitmap
bitmap-IsValid = record { covered = refl }

pub pods-IsRange : IsRange (10 ∷ 0 ∷ 0 ∷ 0 ∷ []) 4 8
unfolding read_bytes
pods-IsRange = record {
  family = inl refl;
  base_length = refl;
  fits = omega arith;
  small = omega arith;
}

pub pods-IsValid : IsValid pods
unfolding is_taken BitmapLaws.is_set word_bit BitmapLaws.count count_below bit
pods-IsValid = record {
  bitmap_valid = bitmap-IsValid;
  sized = refl;
  range = pods-IsRange;
  counted = refl;
  nonempty = omega arith;
  holds_network = refl;
  holds_gateway = λ f. refl;
  holds_broadcast = λ f. refl;
}

pub pods-IsFour : IsFour pods
unfolding read_bytes
pods-IsFour = record {
  ip_len_four = refl;
  network_length = refl;
  at_base = refl;
  whole = refl;
  masked = (20971520, refl);
}
