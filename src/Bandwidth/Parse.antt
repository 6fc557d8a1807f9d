-- ===== src/Bandwidth/Parse.antt =====
-- `ParseBandwidth` of internal/bandwidth/manager.go.
use novanet.Base.{
  ℕ, ◌*◌, ◌/◌, ◌%◌, ◌^◌, ◌<◌, ◌≡◌, ◌⊎◌, ◌↔◌, refl, sym, ap, ◌∙◌, true, false, Option, some, [], ◌∷◌,
  ◌++◌, Result, ok, ◌==◌, arith, Bool-cases, inl, inr,
}
use novanet.Bandwidth.{Text, Error, is_empty, unit, split_suffix, parse_bandwidth}

-- The suffixes of a rate, K, M and G in large and small letters, and what they stand for.
abbrev pub Suffix : ℕ → ℕ → Type 0
Suffix c k =
    (((c ≡ 75) ⊎ (c ≡ 107)) × (k ≡ 1000))
    ⊎ (((c ≡ 77) ⊎ (c ≡ 109)) × (k ≡ 1000000))
    ⊎ (((c ≡ 71) ⊎ (c ≡ 103)) × (k ≡ 1000000000))

unit-Suffix : (c k : ℕ) → Suffix c k → unit c ≡ some k
unfolding unit
unit-Suffix c k (inl (inl p, q)) = rw (p, q) refl
unit-Suffix c k (inl (inr p, q)) = rw (p, q) refl
unit-Suffix c k (inr (inl (inl p, q))) = rw (p, q) refl
unit-Suffix c k (inr (inl (inr p, q))) = rw (p, q) refl
unit-Suffix c k (inr (inr (inl p, q))) = rw (p, q) refl
unit-Suffix c k (inr (inr (inr p, q))) = rw (p, q) refl

split_suffix-append : (t : Text) (c k : ℕ) → unit c ≡ some k → split_suffix (t ++ c ∷ []) ≡ (k, t)
unfolding split_suffix
split_suffix-append [] c k h = rw (h, split_suffix)
split_suffix-append (d ∷ []) c k h = rw (split_suffix-append [] c k h)
split_suffix-append (d ∷ e ∷ t) c k h = rw (split_suffix-append (e ∷ t) c k h)

is_empty-append : (t : Text) (c : ℕ) → is_empty (t ++ c ∷ []) ≡ false
is_empty-append [] c = refl
is_empty-append (d ∷ t) c = refl

-- The bytes per second of a number of bits, modulo 2^64, are right exactly if the bits fit.
exact_iff : (bits : ℕ) → (bits % 2 ^ 64 / 8 ≡ bits / 8) ↔ (bits < 2 ^ 64)
exact_iff bits = (λ e. omega arith, λ h. omega arith)

is_zero : (m : ℕ) → (m == 0) ≡ true → m ≡ 0
is_zero m e = ground arith

abbrev rate : ℕ → Result Error ℕ
rate x = ok x

-- A value that is a text for the number `n` and one of the suffixes K, M and G or their small letters,
-- which stand for `k` as 10^3, 10^6 and 10^9, with no spaces around it, is read as `n * k` bits per
-- second modulo 2^64, in bytes. That is the true rate exactly if `n * k` is below 2^64.
pub parse_bandwidth-append :
    (trim_space : Text → Text) (parse_uint : Text → Option ℕ) (t : Text) (c k n : ℕ)
    → Suffix c k
    → trim_space (t ++ c ∷ []) ≡ t ++ c ∷ []
    → parse_uint (trim_space t) ≡ some n
    → (parse_bandwidth trim_space parse_uint (t ++ c ∷ []) ≡ ok (n * k % 2 ^ 64 / 8))
      × ((parse_bandwidth trim_space parse_uint (t ++ c ∷ []) ≡ ok (n * k / 8)) ↔ (n * k < 2 ^ 64))
parse_bandwidth-append trim_space parse_uint t c k n suffix trimmed number = (
  read,
  (λ e. (exact_iff (n * k)).0 (ok_inj (sym read ∙ e)), λ l. read ∙ ap ok ((exact_iff (n * k)).1 l)),
)
  where
    h : unit c ≡ some k
    h = unit-Suffix c k suffix

    multiplied : (split_suffix (trim_space (t ++ c ∷ []))).0 ≡ k
    multiplied = ap (λ x. (split_suffix x).0) trimmed ∙ ap (λ x. x.0) (split_suffix-append t c k h)

    ok_inj : {x y : ℕ} → rate x ≡ rate y → x ≡ y
    ok_inj e = cc

    read : parse_bandwidth trim_space parse_uint (t ++ c ∷ []) ≡ ok (n * k % 2 ^ 64 / 8)
    read =
        unfold parse_bandwidth in
        rw (trimmed, is_empty-append t c, split_suffix-append t c k h, number)
          (elim (Bool-cases (n == 0)) [
            | inl z ↦ ground (arith, ap (λ m. m * k) (is_zero n z))
            | inr z ↦ rw (z, multiplied)
          ])
