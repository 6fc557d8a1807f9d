-- ===== src/Examples/Owners.antt =====
-- The policy engine of internal/routing/policy with one owner.
use mathlib.Core.Logic.{if_pos}
use novanet.Base.{
  ◌≡◌, refl, true, false, some, [], ◌∷◌, ok, replicate, inl, inr, Bool-cases, some_inj,
}
use novanet.Base.Assoc.{lookup}
use novanet.Base.Members.{In}
use novanet.Base.Text.{Text, text_dec, codes, same_text, same_text_iff}
use novanet.Ipam.Address.{Ip, IpNet, contains, to4, same_bytes, read_bytes}
use novanet.Routing.Engine.{
  OwnerConfig, Engine, Parsing, check_type, validate_allowed_cidrs, validate_prefix, check_allowed,
}
use novanet.Routing.Engine.Allowed.{validate_prefix-contains}
use novanet.Examples.Fixtures.{network}

abbrev address : Ip
address = 10 ∷ 0 ∷ 0 ∷ 1 ∷ []

-- Each text is the same address in the same network.
abbrev parsing : Parsing
parsing = record { parse_cidr = λ t. some (address, network); to_lower = λ t. t }

abbrev config : OwnerConfig
config = record {
  token = codes "secret";
  allowed_prefixes = record { prefix_type = codes "any"; allowed_cidrs = codes "10.0.0.0/29" ∷ [] };
}

abbrev engine : Engine
engine = record { owners = (codes "edge", config) ∷ [] }

edge_here : lookup text_dec (codes "edge") engine.owners ≡ some config
unfolding lookup
edge_here = if_pos (text_dec (codes "edge") (codes "edge")) refl _ _

inside : contains network address ≡ true
unfolding contains to4 same_bytes read_bytes
inside = refl

-- An address of IPv4 in the form of IPv6, with a short mask, has a network far outside; it is accepted.
abbrev wide : IpNet
wide = record { ip = replicate 16 0; ones = 29; bits = 128 }

accepted_anyway :
    validate_allowed_cidrs parsing
      (0 ∷ 0 ∷ 0 ∷ 0 ∷ 0 ∷ 0 ∷ 0 ∷ 0 ∷ 0 ∷ 0 ∷ 255 ∷ 255 ∷ address)
      wide
      (codes "10.0.0.0/29" ∷ [])
    ≡ ok tt
unfolding validate_allowed_cidrs contains to4 same_bytes read_bytes
accepted_anyway = refl

not_host_only : same_text (codes "any") (codes "host_only") ≡ false
not_host_only = elim (Bool-cases (same_text (codes "any") (codes "host_only"))) [
  | inl t ↦ absurd (cc ((same_text_iff (codes "any") (codes "host_only")).0 t))
  | inr f ↦ f
]

not_subnet : same_text (codes "any") (codes "subnet") ≡ false
not_subnet = elim (Bool-cases (same_text (codes "any") (codes "subnet"))) [
  | inl t ↦ absurd (cc ((same_text_iff (codes "any") (codes "subnet")).0 t))
  | inr f ↦ f
]

any_length : check_type parsing (codes "any") address network ≡ ok tt
unfolding check_type
any_length = rw (not_host_only, not_subnet, (same_text_iff (codes "any") (codes "any")).1 refl) refl

in_list : check_allowed parsing address network (codes "10.0.0.0/29" ∷ []) ≡ ok tt
unfolding check_allowed validate_allowed_cidrs contains to4 same_bytes read_bytes
in_list = refl

accepted : validate_prefix parsing engine (codes "edge") (codes "10.0.0.1/29") ≡ ok tt
unfolding validate_prefix
accepted = rw (validate_prefix, edge_here, any_length) in_list

validate_prefix-contains_example :
    (cidr : Text) × In cidr (codes "10.0.0.0/29" ∷ [])
    × ((r : Ip × IpNet) × (some (address, network) ≡ some r)
        × ((x : Ip) → contains network x ≡ true → contains r.1 x ≡ true))
validate_prefix-contains_example =
    validate_prefix-contains parsing engine (codes "edge") (codes "10.0.0.1/29") config address
      network edge_here refl refl inside (λ cidr r m e. rw (← some_inj e) refl) accepted
