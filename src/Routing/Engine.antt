-- ===== src/Routing/Engine.antt =====
-- The policy engine of internal/routing/policy/engine.go, which says what an owner may ask for. What
-- `net.ParseCIDR` returns, the address and the network, is a parameter, and so is `strings.ToLower`.
pub mod Allowed
use novanet.Base.{
  ℕ, ◌-◌, Bool, true, false, ◌||◌, ◌&&◌, not, Option, none, some, List, [], ◌∷◌, ◌==◌, ltb, leb,
  if◌then◌else◌, Result, ok, err,
}
use novanet.Base.Assoc.{lookup}
use novanet.Base.Members.{is_nil}
use novanet.Base.Text.{Text, text_dec, same_text, codes, is_empty}
use novanet.Ipam.Address.{Ip, IpNet, to4, contains}

pub data EngineError : Type 0 where
  unknown_owner invalid_token invalid_prefix host_only_ipv4 host_only_ipv6 subnet_ipv4 : EngineError
  subnet_ipv6 unknown_prefix_type invalid_allowed_cidr not_in_allowed_cidr ownership_conflict :
      EngineError

abbrev pub Verdict : Type 0
Verdict = Result {0, 0} EngineError Unit

-- `PrefixPolicy` and `OwnerConfig` of internal/routing/config/config.go.
pub record PrefixPolicy : Type 0 where
  pub prefix_type : Text
  pub allowed_cidrs : List Text

pub record OwnerConfig : Type 0 where
  pub token : Text
  pub allowed_prefixes : PrefixPolicy

pub record Engine : Type 0 where
  pub owners : List (Text × OwnerConfig)

pub record Parsing : Type 0 where
  pub parse_cidr : Text → Option (Ip × IpNet)
  pub to_lower : Text → Text

unfoldable pub validate_token : Engine → Text → Text → Verdict
validate_token e owner token = elim (lookup text_dec owner e.owners) [
  | none ↦ err unknown_owner
  | some cfg ↦ if same_text cfg.token token then ok tt else err invalid_token
]

abbrev pub is_ipv4 : Ip → Bool
is_ipv4 ip = elim (to4 ip) [ none ↦ false | some ip4 ↦ true ]

unfoldable pub host_only : Ip → IpNet → Verdict
host_only ip net =
    if is_ipv4 ip && not (net.ones == 32)
    then err host_only_ipv4
    else if not (is_ipv4 ip) && not (net.ones == 128)
    then err host_only_ipv6
    else ok tt

unfoldable pub subnet : Ip → IpNet → Verdict
subnet ip net =
    if is_ipv4 ip
    then if ltb net.ones 8 || ltb 28 net.ones then err subnet_ipv4 else ok tt
    else if net.ones == net.bits
    then err subnet_ipv6
    else ok tt

-- The switch on the type of the policy.
unfoldable pub check_type : Parsing → Text → Ip → IpNet → Verdict
unfolding host_only subnet
check_type p prefix_type ip net =
    let lower = p.to_lower prefix_type in
    if same_text lower (codes "host_only")
    then host_only ip net
    else if same_text lower (codes "subnet")
    then subnet ip net
    else if same_text lower (codes "any")
    then ok tt
    else err unknown_prefix_type

unfoldable pub validate_allowed_cidrs : Parsing → Ip → IpNet → List Text → Verdict
validate_allowed_cidrs p ip net [] = err not_in_allowed_cidr
validate_allowed_cidrs p ip net (cidr ∷ allowed_cidrs) =
    let rest = validate_allowed_cidrs p ip net allowed_cidrs in
    elim (p.parse_cidr cidr) [
      | none ↦ err invalid_allowed_cidr
      | some parsed ↦ if contains parsed.1 ip && leb parsed.1.ones net.ones then ok tt else rest
    ]

-- `if len(AllowedCIDRs) > 0`.
unfoldable pub check_allowed : Parsing → Ip → IpNet → List Text → Verdict
unfolding validate_allowed_cidrs
check_allowed p ip net allowed_cidrs =
    if is_nil allowed_cidrs then ok tt else validate_allowed_cidrs p ip net allowed_cidrs

unfoldable pub validate_prefix : Parsing → Engine → Text → Text → Verdict
unfolding check_type check_allowed
validate_prefix p e owner prefix_text = elim (lookup text_dec owner e.owners) [
  | none ↦ err unknown_owner
  | some cfg ↦ elim (p.parse_cidr prefix_text) [
    | none ↦ err invalid_prefix
    | some parsed ↦ elim (check_type p cfg.allowed_prefixes.prefix_type parsed.0 parsed.1) [
      | err x ↦ err x
      | ok u ↦ check_allowed p parsed.0 parsed.1 cfg.allowed_prefixes.allowed_cidrs
    ]
  ]
]

-- What the three checks of an operation share, which is all that they do.
abbrev known_owner : Engine → Text → Verdict
known_owner e owner = elim (lookup text_dec owner e.owners) [
  | none ↦ err unknown_owner
  | some cfg ↦ ok tt
]

unfoldable pub validate_peer_operation : Engine → Text → Verdict
validate_peer_operation e owner = known_owner e owner

unfoldable pub validate_bfd_operation : Engine → Text → Verdict
validate_bfd_operation e owner = known_owner e owner

unfoldable pub validate_ospf_operation : Engine → Text → Verdict
validate_ospf_operation e owner = known_owner e owner

unfoldable pub check_conflict : Text → Text → Verdict
check_conflict owner existing_owner =
    if is_empty existing_owner || same_text existing_owner owner
    then ok tt
    else if same_text owner (codes "admin")
    then ok tt
    else err ownership_conflict
