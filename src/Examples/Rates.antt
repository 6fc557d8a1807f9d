-- ===== src/Examples/Rates.antt =====
-- Bandwidth values and limits of internal/bandwidth/manager.go.
use novanet.Base.{
  ℕ, ◌*◌, ◌/◌, ◌%◌, ◌^◌, ◌<◌, ◌≡◌, ◌↔◌, refl, inl, true, Option, none, some, [], ◌∷◌, ok,
}
use novanet.Bandwidth.{Text, Limit, parse_bandwidth, apply_limit, remove_limit, new_manager}
use novanet.Bandwidth.Parse.{Suffix, parse_bandwidth-append}
use novanet.Bandwidth.Limits.{Applies, Removes, apply_limit-Applies, remove_limit-Removes}

-- Reading of one digit, which is all that the test needs.
abbrev parse_digit : Text → Option ℕ
parse_digit [] = none
parse_digit (c ∷ []) = some (c % 48)
parse_digit (c ∷ d ∷ cs) = none

kilo-Suffix : Suffix 75 1000
kilo-Suffix = inl (inl refl, refl)

-- "8K" is 1000 bytes per second.
parse_test : parse_bandwidth (λ t. t) parse_digit (56 ∷ 75 ∷ []) ≡ ok 1000
unfolding parse_bandwidth
parse_test = refl

parse_bandwidth_example :
    (parse_bandwidth (λ t. t) parse_digit (56 ∷ 75 ∷ []) ≡ ok (8 * 1000 % 2 ^ 64 / 8))
    × ((parse_bandwidth (λ t. t) parse_digit (56 ∷ 75 ∷ []) ≡ ok (8 * 1000 / 8))
        ↔ (8 * 1000 < 2 ^ 64))
parse_bandwidth_example =
    parse_bandwidth-append (λ t. t) parse_digit (56 ∷ []) 75 1000 8 kilo-Suffix refl refl

abbrev limit : Limit
limit = record { pod_key = 97 ∷ []; host_veth = 118 ∷ []; ingress_bps = 0; egress_bps = 1000 }

apply_limit_example :
    let (m, calls, r) = apply_limit true new_manager (some limit) in
    Applies true new_manager (some limit) m calls r
apply_limit_example = apply_limit-Applies true new_manager (some limit)

remove_limit_example :
    let (m, calls, r) = remove_limit true (record { limits = (97 ∷ [], limit) ∷ [] }) (97 ∷ []) in
    Removes (record { limits = (97 ∷ [], limit) ∷ [] }) (97 ∷ []) m calls r
remove_limit_example =
    remove_limit-Removes true (record { limits = (97 ∷ [], limit) ∷ [] }) (97 ∷ [])
