-- ===== src/Ipam/Address/Four.antt =====
-- IPv4 addresses: four bytes and the number that they stand for determine each other.
use novanet.Base.{ℕ, ◌+◌, ◌*◌, ◌^◌, ◌≡◌, refl, sym, ap, ◌∙◌, ◌≤◌, ◌<◌, some, [], ◌∷◌, arith, length}
use novanet.Base.Int.{int64-sub_ℕ}
use novanet.Ipam.Address.{Ip, set_bytes, read_bytes, ip_to_index, bytes_offset, index_below}
use novanet.Ipam.Address.Bytes.{IsBytes}
use novanet.Ipam.Address.Index.{to4-of_four, index_below-lt}

four-IsBytes :
    (ip : Ip) → length ip ≡ 4 → (a : ℕ) × (b : ℕ) × (c : ℕ) × (d : ℕ) × (ip ≡ a ∷ b ∷ c ∷ d ∷ [])
four-IsBytes (a ∷ b ∷ c ∷ d ∷ []) h = (a, b, c, d, refl)
four-IsBytes _ h = absurd (omega arith)

quad_value :
    (a b c d : ℕ) → set_bytes (a ∷ b ∷ c ∷ d ∷ []) ≡ a * 2 ^ 24 + b * 2 ^ 16 + c * 2 ^ 8 + d
unfolding read_bytes
quad_value a b c d = omega arith

pub four-lt : (ip : Ip) → length ip ≡ 4 → IsBytes ip → set_bytes ip < 2 ^ 32
four-lt ip h v = let (a, b, c, d, e) = four-IsBytes ip h in bounded a b c d e (rw e at v)
  where
    bounded :
        (a b c d : ℕ)
        → ip ≡ a ∷ b ∷ c ∷ d ∷ []
        → IsBytes (a ∷ b ∷ c ∷ d ∷ [])
        → set_bytes ip < 2 ^ 32
    bounded a b c d e v = rw e (omega (arith, quad_value a b c d))

pub four_injective :
    (ip ip' : Ip)
    → length ip ≡ 4
    → length ip' ≡ 4
    → IsBytes ip
    → IsBytes ip'
    → set_bytes ip ≡ set_bytes ip'
    → ip ≡ ip'
four_injective ip ip' h h' v v' same =
    let (a, b, c, d, e) = four-IsBytes ip h in
    let (a', b', c', d', e') = four-IsBytes ip' h' in
    e
    ∙ quads a b c d a' b' c' d' (rw e at v) (rw e' at v')
        (ap set_bytes (sym e) ∙ same ∙ ap set_bytes e')
    ∙ sym e'
  where
    quads :
        (a b c d a' b' c' d' : ℕ)
        → IsBytes (a ∷ b ∷ c ∷ d ∷ [])
        → IsBytes (a' ∷ b' ∷ c' ∷ d' ∷ [])
        → set_bytes (a ∷ b ∷ c ∷ d ∷ []) ≡ set_bytes (a' ∷ b' ∷ c' ∷ d' ∷ [])
        → ◌≡◌ {A = Ip} (a ∷ b ∷ c ∷ d ∷ []) (a' ∷ b' ∷ c' ∷ d' ∷ [])
    quads a b c d a' b' c' d' v v' s =
        let n : a * 2 ^ 24 + b * 2 ^ 16 + c * 2 ^ 8 + d
            ≡ a' * 2 ^ 24 + b' * 2 ^ 16 + c' * 2 ^ 8 + d' =
          sym (quad_value a b c d) ∙ s ∙ quad_value a' b' c' d' in
        let p : a ≡ a' = omega arith in
        let q : b ≡ b' = omega arith in
        let r : c ≡ c' = omega arith in let t : d ≡ d' = omega arith in cc

-- The index of an IPv4 address that passes the checks is its distance from the base.
pub four_index :
    (base ip : Ip) (size idx : ℕ)
    → length base ≡ 4
    → length ip ≡ 4
    → IsBytes ip
    → set_bytes base ≤ 2 ^ 32
    → index_below (ip_to_index base ip 4) size ≡ some idx
    → set_bytes ip ≡ set_bytes base + idx
unfolding ip_to_index bytes_offset
four_index base ip size idx hb hi v low e =
    int64-sub_ℕ (set_bytes ip) (set_bytes base) idx (omega (arith, four-lt ip hi v)) (omega arith)
      ((rw (to4-of_four base hb, to4-of_four ip hi) at (index_below-lt _ size idx e)).0)
