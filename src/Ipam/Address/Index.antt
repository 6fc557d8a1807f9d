-- ===== src/Ipam/Address/Index.antt =====
-- `indexToIP` and `ipToIndex` undo one another over a range.
use novanet.Base.{
  ℕ, ◌+◌, ◌*◌, ◌/◌, ◌^◌, ◌≤◌, ◌<◌, ◌≡◌, ◌∙◌, ◌⊎◌, inl, inr, true, some, length, arith,
}
use novanet.Base.Int.{ℤ, pos, negsuc, int64-pos}
use novanet.Base.Bits.{pow-pos}
use novanet.Ipam.Address.{
  Ip, set_bytes, bytes_of, to4, to16, normalize_ip, index_to_ip, ip_to_index, index_below,
  bytes_offset, contains, IpNet, host_bits,
}
use novanet.Ipam.Address.Bytes.{IsBytes, length-bytes_of, bytes_of-IsBytes, set_bytes-bytes_of}

-- A run of addresses of one family that fits its address length.
pub record IsRange (base_ip : Ip) (ip_len size : ℕ) : Type 0 where
  pub family : (ip_len ≡ 4) ⊎ (ip_len ≡ 16)
  pub base_length : length base_ip ≡ ip_len
  pub fits : set_bytes base_ip + size ≤ 256 ^ ip_len
  pub small : size < 2 ^ 63

bytes_offset-of_slices :
    (base addr : Ip) (idx : ℕ)
    → set_bytes addr ≡ set_bytes base + idx
    → idx < 2 ^ 63
    → bytes_offset (some base) (some addr) ≡ pos idx
unfolding bytes_offset
bytes_offset-of_slices base addr idx e h = ground (arith, int64-pos idx h)

pub to4-of_four : (ip : Ip) → length ip ≡ 4 → to4 ip ≡ some ip
unfolding to4
to4-of_four ip h = ground arith

pub to16-of_sixteen : (ip : Ip) → length ip ≡ 16 → to16 ip ≡ some ip
unfolding to16
to16-of_sixteen ip h = ground arith

pub normalize_ip-of_four : (ip : Ip) → length ip ≡ 4 → normalize_ip ip ≡ ip
unfolding normalize_ip
normalize_ip-of_four ip h = ground arith

ip_to_index-slices :
    (base ip : Ip) (ip_len : ℕ)
    → (ip_len ≡ 4) ⊎ (ip_len ≡ 16)
    → length base ≡ ip_len
    → length ip ≡ ip_len
    → ip_to_index base ip ip_len ≡ bytes_offset (some base) (some ip)
unfolding ip_to_index
ip_to_index-slices base ip ip_len (inl e) h k = ground (arith, to4-of_four base, to4-of_four ip)
ip_to_index-slices base ip ip_len (inr e) h k =
    ground (arith, to16-of_sixteen base, to16-of_sixteen ip)

-- Over a range that fits its address length, an index below the size has an address, of that
-- length and the base's number plus the index, and its index is the one that it was made from.
pub ip_to_index-index_to_ip :
    (base_ip : Ip) (ip_len size idx : ℕ)
    → IsRange base_ip ip_len size
    → idx < size
    → (ip : Ip) × (index_to_ip base_ip idx ip_len ≡ some ip)
      × (length ip ≡ ip_len)
      × (set_bytes ip ≡ set_bytes base_ip + idx)
      × (ip_to_index base_ip ip ip_len ≡ pos idx)
unfolding index_to_ip
ip_to_index-index_to_ip base_ip ip_len size idx r h =
    let sum : ℕ = set_bytes base_ip + idx in
    let back : set_bytes (bytes_of ip_len sum) ≡ sum =
      set_bytes-bytes_of ip_len sum (omega arith) in
    (
      bytes_of ip_len sum,
      ground arith,
      length-bytes_of ip_len sum,
      back,
      ip_to_index-slices base_ip _ ip_len r.family r.base_length (length-bytes_of ip_len sum)
          ∙ bytes_offset-of_slices base_ip _ idx back (omega arith),
    )

pub index_below-pos : (idx size : ℕ) → idx < size → index_below (pos idx) size ≡ some idx
unfolding index_below
index_below-pos idx size h = ground arith

-- The check lets an index through exactly when it is not negative and below the size.
pub index_below-lt :
    (z : ℤ) (size idx : ℕ) → index_below z size ≡ some idx → (z ≡ pos idx) × (idx < size)
unfolding index_below
index_below-lt (pos n) size idx h = ground arith
index_below-lt (negsuc n) size idx h = absurd (cc)

-- An IPv4 network contains each address of its range.
pub contains-of_four :
    (n : IpNet) (ip : Ip) (idx q : ℕ)
    → length n.ip ≡ 4
    → length ip ≡ 4
    → set_bytes n.ip ≡ q * 2 ^ host_bits n
    → set_bytes ip ≡ set_bytes n.ip + idx
    → idx < 2 ^ host_bits n
    → contains n ip ≡ true
unfolding contains
contains-of_four n ip idx q h k e f l =
    ground (arith, to4-of_four n.ip, to4-of_four ip, block q, block_add q idx l)
  where
    block : (q : ℕ) → q * 2 ^ host_bits n / 2 ^ host_bits n ≡ q
    block q = grind (arith, pow-pos (host_bits n))

    block_add :
        (q idx : ℕ) → idx < 2 ^ host_bits n → (q * 2 ^ host_bits n + idx) / 2 ^ host_bits n ≡ q
    block_add q idx l = grind (arith, pow-pos (host_bits n))

pub index_to_ip-IsBytes :
    (base_ip ip : Ip) (idx ip_len : ℕ) → index_to_ip base_ip idx ip_len ≡ some ip → IsBytes ip
unfolding index_to_ip
index_to_ip-IsBytes base_ip ip idx ip_len e =
    ground (arith, bytes_of-IsBytes ip_len (set_bytes base_ip + idx))
