-- ===== src/Bandwidth.antt =====
-- internal/bandwidth/manager.go: the annotation values, and the limits of the pods. A call of the kernel's
-- traffic control is an element of the list of calls that an operation returns; whether it succeeds
-- is an argument. `strings.TrimSpace` and `strconv.ParseUint` are arguments too.
pub mod Parse
pub mod Limits
unfoldable pub use novanet.Base.Text.{Text, text_dec, is_empty}
use novanet.Base.{
  ℕ, zero, suc, ◌+◌, ◌*◌, ◌/◌, ◌%◌, ◌^◌, Bool, true, false, ◌&&◌, ◌||◌, not, Option, none, some,
  List, [], ◌∷◌, map, Result, ok, err, ◌==◌, ltb, if◌then◌else◌, ℕ_discrete, length,
}
use novanet.Base.Assoc.{lookup, insert, delete}

pub data Error : Type 0 where
  empty_value invalid_value nil_limit empty_pod_key empty_host_veth apply_failed remove_failed :
      Error

pub record Limit : Type 0 where
  pub pod_key : Text
  pub host_veth : Text
  pub ingress_bps : ℕ
  pub egress_bps : ℕ

pub record Manager : Type 0 where
  pub limits : List (Text × Limit)

unfoldable pub new_manager : Manager
new_manager = record { limits = [] }

-- The multiplier of a suffix: K, M or G, or the small letter.
unfoldable pub unit : ℕ → Option ℕ
unit c =
    if c == 75 || c == 107
    then some 1000
    else if c == 77 || c == 109
    then some (1000 * 1000)
    else if c == 71 || c == 103
    then some (1000 * 1000 * 1000)
    else none

-- The multiplier of a value, and its text without the suffix.
unfoldable pub split_suffix : Text → ℕ × Text
unfolding unit
split_suffix [] = (1, [])
split_suffix (c ∷ []) = elim (unit c) [ some k ↦ (k, []) | none ↦ (1, c ∷ []) ]
split_suffix (c ∷ d ∷ cs) = ((split_suffix (d ∷ cs)).0, c ∷ (split_suffix (d ∷ cs)).1)

unfoldable pub parse_bandwidth : (Text → Text) → (Text → Option ℕ) → Text → Result Error ℕ
unfolding split_suffix
parse_bandwidth trim_space parse_uint value =
    let trimmed = trim_space value in
    if is_empty trimmed
    then err empty_value
    else (let (multiplier, num_str) = split_suffix trimmed in
        elim (parse_uint (trim_space num_str)) [
          | none ↦ err invalid_value
          | some num ↦ if num == 0 then ok 0 else ok (num * multiplier % 2 ^ 64 / 8)
        ])

-- A call of traffic control.
pub data Call : Type 0 where
  apply_qdisc : Text → ℕ → Call
  remove_qdisc : Text → Call

-- `none` is a nil limit.
unfoldable pub apply_limit :
    Bool → Manager → Option Limit → Manager × List Call × Result Error (Unit {0})
apply_limit tc_ok m none = (m, [], err nil_limit)
apply_limit tc_ok m (some limit) =
    let stored : Manager = record { limits = insert text_dec limit.pod_key limit m.limits } in
    let call = apply_qdisc limit.host_veth limit.egress_bps in
    if is_empty limit.pod_key
    then (m, [], err empty_pod_key)
    else if is_empty limit.host_veth
    then (m, [], err empty_host_veth)
    else if ltb 0 limit.egress_bps
    then if tc_ok then (stored, call ∷ [], ok tt) else (m, call ∷ [], err apply_failed)
    else (stored, [], ok tt)

unfoldable pub remove_limit : Bool → Manager → Text → Manager × List Call × Result Error (Unit {0})
remove_limit tc_ok m pod_key = elim (lookup text_dec pod_key m.limits) [
  | none ↦ (m, [], ok tt)
  | some limit ↦ (
    record { limits = delete text_dec pod_key m.limits },
    remove_qdisc limit.host_veth ∷ [],
    if tc_ok then ok tt else err remove_failed,
  )
]

unfoldable pub get_limit : Manager → Text → Option Limit
get_limit m pod_key = lookup text_dec pod_key m.limits

unfoldable pub list_limits : Manager → List Limit
list_limits m = map (λ e. e.1) m.limits

unfoldable pub limit_count : Manager → ℕ
limit_count m = length m.limits
