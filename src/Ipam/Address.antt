-- ===== src/Ipam/Address.antt =====
-- The conversions at the end of internal/ipam/pool.go, and what they use of Go's `net`: an address is
-- a slice of bytes, and `[]` is nil.
pub mod Bytes
pub mod Index
pub mod Four
unfoldable pub use novanet.Base.Text.{Text, text_dec}
use novanet.Base.{
  ℕ, zero, suc, ◌+◌, ◌-◌, ◌*◌, ◌/◌, ◌%◌, ◌^◌, ◌≤◌, ◌<◌, ◌≡◌, Bool, true, false, ◌&&◌, Option, none,
  some, List, [], ◌∷◌, ◌++◌, ◌==◌, leb, ltb, if◌then◌else◌, length, get_or, drop, take, ◌⊎◌,
  ℕ_discrete,
}
use novanet.Base.Int.{ℤ, pos, negsuc, sub_ℕ, int64}

abbrev pub Ip : Type 0
Ip = List ℕ

abbrev pub v4_prefix : Ip
v4_prefix = 0 ∷ 0 ∷ 0 ∷ 0 ∷ 0 ∷ 0 ∷ 0 ∷ 0 ∷ 0 ∷ 0 ∷ 0xff ∷ 0xff ∷ []

unfoldable pub same_bytes : Ip → Ip → Bool
same_bytes [] [] = true
same_bytes [] (y ∷ ys) = false
same_bytes (x ∷ xs) [] = false
same_bytes (x ∷ xs) (y ∷ ys) = x == y && same_bytes xs ys

-- `IP.To4`: nil unless the address is IPv4, in 4 bytes or mapped into 16.
unfoldable pub to4 : Ip → Option Ip
unfolding same_bytes
to4 ip =
    if length ip == 4
    then some ip
    else if length ip == 16 && same_bytes (take 12 ip) v4_prefix
    then some (drop 12 ip)
    else none

-- `IP.To16`.
unfoldable pub to16 : Ip → Option Ip
to16 ip =
    if length ip == 4 then some (v4_prefix ++ ip) else if length ip == 16 then some ip else none

-- A slice that may be nil, as a slice.
abbrev pub or_nil : Option Ip → Ip
or_nil none = []
or_nil (some ip) = ip

unfoldable pub normalize_ip : Ip → Ip
unfolding to4 to16
normalize_ip ip = elim (to4 ip) [ some ip4 ↦ ip4 | none ↦ or_nil (to16 ip) ]

-- `big.Int.SetBytes`, onto what was read so far.
unfoldable pub read_bytes : ℕ → Ip → ℕ
read_bytes acc [] = acc
read_bytes acc (b ∷ bytes) = read_bytes (acc * 256 + b) bytes

abbrev pub set_bytes : Ip → ℕ
set_bytes = read_bytes 0

-- The bytes of a number, right-aligned in a slice of a given length.
unfoldable pub bytes_of : ℕ → ℕ → Ip
bytes_of zero n = []
bytes_of (suc len) n = bytes_of len (n / 256) ++ n % 256 ∷ []

-- A sum that needs more bytes than the slice has is a panic.
unfoldable pub index_to_ip : Ip → ℕ → ℕ → Option Ip
unfolding read_bytes bytes_of
index_to_ip base_ip idx ip_len =
    let result = set_bytes base_ip + idx in
    if ltb result (256 ^ ip_len) then some (bytes_of ip_len result) else none

-- The tail of `ipToIndex`, on slices that may be nil.
unfoldable pub bytes_offset : Option Ip → Option Ip → ℤ
unfolding read_bytes int64
bytes_offset (some base) (some addr) = int64 (sub_ℕ (set_bytes addr) (set_bytes base))
bytes_offset (some base) none = negsuc 0
bytes_offset none addr = negsuc 0

unfoldable pub ip_to_index : Ip → Ip → ℕ → ℤ
unfolding bytes_offset to4 to16
ip_to_index base_ip ip ip_len =
    if ip_len == 4
    then bytes_offset (to4 base_ip) (to4 ip)
    else bytes_offset (to16 base_ip) (to16 ip)

-- The index of an address in a range, unless `idx < 0 || idx >= size`.
unfoldable pub index_below : ℤ → ℕ → Option ℕ
index_below (pos idx) size = if leb size idx then none else some idx
index_below (negsuc n) size = none

-- `net.IPNet`: the network's address, and its mask as the `ones` and `bits` of `Mask.Size`.
pub record IpNet : Type 0 where
  pub ip : Ip
  pub ones : ℕ
  pub bits : ℕ

abbrev pub host_bits : IpNet → ℕ
host_bits n = n.bits - n.ones

-- The shorter form, if there is one.
abbrev pub shorten : Ip → Option Ip → Ip
shorten ip (some ip4) = ip4
shorten ip none = ip

-- `IPNet.Contains`: the network's number and the address agree but for the host bits.
unfoldable pub contains : IpNet → Ip → Bool
unfolding to4 read_bytes
contains n ip =
    let number = shorten n.ip (to4 n.ip) in
    let x = shorten ip (to4 ip) in
    length x == length number && set_bytes x / 2 ^ host_bits n == set_bytes number / 2 ^ host_bits n

-- `IP.String` and `net.ParseIP`.
pub record Naming : Type 0 where
  pub text : Ip → Text
  pub parse_ip : Text → Option Ip

-- What their documentation promises: the text of an address parses to the same address, which may
-- then be in the other form.
pub record IsFaithful (names : Naming) : Type 0 where
  pub parse-text :
      (ip : Ip)
      → (length ip ≡ 4) ⊎ (length ip ≡ 16)
      → (back : Ip) × (names.parse_ip (names.text ip) ≡ some back)
        × (normalize_ip back ≡ normalize_ip ip)
