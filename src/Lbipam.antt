-- ===== src/Lbipam.antt =====
-- The bitmap and the addresses of internal/lbipam/allocator.go. `lbBitmap` has the fields of the bitmap of
-- internal/ipam. `bits.TrailingZeros64` is a parameter; an index out of range is `none`, as a panic.
pub mod Allocator
pub mod FindFree
use novanet.Base.{
  ℕ, ◌+◌, ◌-◌, ◌*◌, ◌/◌, ◌%◌, ◌^◌, bit_or, Bool, true, false, ◌||◌, Option, none, some, List, [],
  ◌∷◌, ◌++◌, ◌>>=◌, ◌==◌, ltb, leb, if◌then◌else◌, get_elem?, set as set_elem, replicate, take,
  drop,
}
use novanet.Base.Bits.{and_not}
use novanet.Base.Int.{ℤ, pos, negsuc, int64}
use novanet.Ipam.Bitmap.{Bitmap}
use novanet.Ipam.Address.{Ip, IpNet, to4, to16, or_nil, read_bytes, bytes_of}

unfoldable pub new_lb_bitmap : ℕ → Bitmap
new_lb_bitmap size = record { words = replicate ((size + 63) / 64) 0; size = size }

unfoldable pub lb_set : Bitmap → ℕ → Option Bitmap
lb_set b idx = do
  word ← get_elem? b.words (idx / 64)
  some (record b { words = set_elem b.words (idx / 64) (bit_or word (2 ^ (idx % 64))) })

unfoldable pub lb_clear : Bitmap → ℕ → Option Bitmap
lb_clear b idx = do
  word ← get_elem? b.words (idx / 64)
  some (record b { words = set_elem b.words (idx / 64) (and_not word (2 ^ (idx % 64))) })

-- The loop of `findFree` from word `i`; `none` is -1.
unfoldable pub lb_find_from : (ℕ → ℕ) → ℕ → List ℕ → ℕ → Option ℕ
lb_find_from trailing_zeros i [] size = none
lb_find_from trailing_zeros i (w ∷ words) size =
    let rest = lb_find_from trailing_zeros (i + 1) words size in
    let inv = 2 ^ 64 - 1 - w in
    let idx = i * 64 + trailing_zeros inv in
    if inv == 0 then rest else if leb size idx then none else some idx

unfoldable pub lb_find_free : (ℕ → ℕ) → Bitmap → Option ℕ
unfolding lb_find_from
lb_find_free trailing_zeros b = lb_find_from trailing_zeros 0 b.words b.size

-- `poolSize`, for a mask whose `ones` are at most its `bits`, as a uint64.
unfoldable pub lb_pool_size : IpNet → ℕ
lb_pool_size cidr =
    if ltb cidr.bits cidr.ones || ltb 63 (cidr.bits - cidr.ones)
    then 0
    else 2 ^ (cidr.bits - cidr.ones)

-- `binary.BigEndian.Uint64` of the last eight of sixteen bytes.
unfoldable pub low_half : Ip → ℕ
low_half ip = read_bytes 0 (drop 8 ip)

-- The offset is a uint64, and the sum wraps.
unfoldable pub add_to_ip : Ip → ℕ → Option Ip
unfolding low_half
add_to_ip base offset = elim (to16 base) [
  | none ↦ none
  | some ip ↦
      let result = take 8 ip ++ bytes_of 8 ((low_half ip + offset) % 2 ^ 64) in
      elim (to4 base) [ none ↦ some result | some b ↦ to4 result ]
]

-- The difference is a uint64 that is read as an int.
unfoldable pub ip_to_offset : Ip → Ip → ℤ
unfolding low_half
ip_to_offset base ip = elim (to16 base) [
  | none ↦ negsuc 0
  | some b ↦ elim (to16 ip) [
    | none ↦ negsuc 0
    | some i ↦
        if ltb (low_half i) (low_half b) then negsuc 0 else int64 (pos (low_half i - low_half b))
  ]
]
