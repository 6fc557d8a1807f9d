-- ===== src/Ipam/Address/Bytes.antt =====
-- Big-endian bytes and the numbers that they stand for.
use native.Mathlib.Nat.{pow-suc}
use novanet.Base.{
  ℕ, zero, suc, ◌+◌, ◌*◌, ◌/◌, ◌%◌, ◌^◌, ◌<◌, ◌≡◌, refl, [], ◌∷◌, ◌++◌, length, arith,
  length-append,
}
use novanet.Ipam.Address.{Ip, read_bytes, set_bytes, bytes_of}

-- Every element is a byte.
abbrev pub IsBytes : Ip → Type 0
IsBytes [] = Unit {0}
IsBytes (b ∷ bytes) = (b < 256) × IsBytes bytes

read_bytes-snoc :
    (acc : ℕ) (xs : Ip) (b : ℕ) → read_bytes acc (xs ++ b ∷ []) ≡ read_bytes acc xs * 256 + b
unfolding read_bytes
read_bytes-snoc acc [] b = refl
read_bytes-snoc acc (x ∷ xs) b = read_bytes-snoc (acc * 256 + x) xs b

IsBytes-append : (xs ys : Ip) → IsBytes xs → IsBytes ys → IsBytes (xs ++ ys)
IsBytes-append [] ys hx hy = hy
IsBytes-append (x ∷ xs) ys hx hy = (hx.0, IsBytes-append xs ys hx.1 hy)

pub length-bytes_of : (len n : ℕ) → length (bytes_of len n) ≡ len
unfolding bytes_of
length-bytes_of zero n = refl
length-bytes_of (suc len) n =
    omega
      (arith, length-append (bytes_of len (n / 256)) (n % 256 ∷ []), length-bytes_of len (n / 256))

pub bytes_of-IsBytes : (len n : ℕ) → IsBytes (bytes_of len n)
unfolding bytes_of
bytes_of-IsBytes zero n = tt
bytes_of-IsBytes (suc len) n =
    IsBytes-append (bytes_of len (n / 256)) _ (bytes_of-IsBytes len (n / 256)) (omega arith, tt)

-- Reading the bytes of a number that fits gives the number.
pub set_bytes-bytes_of : (len n : ℕ) → n < 256 ^ len → set_bytes (bytes_of len n) ≡ n
unfolding bytes_of read_bytes
set_bytes-bytes_of zero n h = omega arith
set_bytes-bytes_of (suc len) n h = omega (
  arith,
  read_bytes-snoc 0 (bytes_of len (n / 256)) (n % 256),
  set_bytes-bytes_of len (n / 256) (omega (arith, pow-suc 256 len)),
)
