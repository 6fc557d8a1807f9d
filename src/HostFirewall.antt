-- ===== src/HostFirewall.antt =====
-- internal/hostfirewall/manager.go, on the types of api/v1alpha1/hostendpointpolicy_types.go: the rules
-- that a policy for the host compiles to. `net.ParseCIDR` is a parameter, with what it returns for
-- "0.0.0.0/0", and so is how `fmt` writes a number.
pub mod Manager
pub mod Wanted
pub mod Contents
pub mod Numbering
pub mod Applying
use novanet.Base.{
  ℕ, ◌+◌, Bool, true, false, Option, none, some, List, [], ◌∷◌, ◌++◌, map, length, leb,
  if◌then◌else◌, Result, ok, err,
}
use novanet.Base.Int.{ℤ, pos, negsuc}
use novanet.Base.Members.{concat_map}
use novanet.Base.Text.{Text, same_text, codes}
use novanet.Ipam.Address.{IpNet}
use novanet.Policy.{
  action_allow, action_deny, protocol_any, protocol_tcp, protocol_udp, protocol_sctp,
}

pub data HostError : Type 0 where
  nil_policy unknown_action invalid_cidr : HostError

pub data Direction : Type 0 where
  direction_ingress direction_egress : Direction

pub record HostPort : Type 0 where
  pub port : ℤ
  pub end_port : Option ℤ

pub record HostRule : Type 0 where
  pub action : Text
  pub protocol : Option Text
  pub cidrs : List Text
  pub ports : List HostPort

pub record HostEndpointPolicy : Type 0 where
  pub name : Text
  pub ingress : List HostRule
  pub egress : List HostRule

pub record CompiledHostRule : Type 0 where
  pub rule_id : Text
  pub direction : Direction
  pub protocol : ℕ
  pub cidr : IpNet
  pub port : ℕ
  pub end_port : ℕ
  pub action : ℕ
  pub policy_name : Text

pub record Library : Type 0 where
  pub parse_cidr : Text → Option IpNet
  pub all_net : IpNet
  pub decimal : ℕ → Text

pub record PortRange : Type 0 where
  pub port : ℕ
  pub end_port : ℕ

unfoldable pub convert_action : Text → Result {0, 0} HostError ℕ
convert_action action =
    if same_text action (codes "Allow")
    then ok action_allow
    else if same_text action (codes "Deny")
    then ok action_deny
    else err unknown_action

unfoldable pub convert_protocol : Option Text → ℕ
convert_protocol none = protocol_any
convert_protocol (some proto) =
    if same_text proto (codes "TCP")
    then protocol_tcp
    else if same_text proto (codes "UDP")
    then protocol_udp
    else if same_text proto (codes "SCTP")
    then protocol_sctp
    else protocol_any

unfoldable pub parse_host_cidrs :
    (Text → Option IpNet) → List Text → Result {0, 0} HostError (List IpNet)
parse_host_cidrs parse [] = ok []
parse_host_cidrs parse (c ∷ cidrs) =
    let rest = parse_host_cidrs parse cidrs in
    elim (parse c) [
      | none ↦ err invalid_cidr
      | some net ↦ elim rest [ err e ↦ err e | ok nets ↦ ok (net ∷ nets) ]
    ]

unfoldable pub int32_to_uint16 : ℤ → ℕ
int32_to_uint16 (pos n) = if leb n 65535 then n else 0
int32_to_uint16 (negsuc n) = 0

abbrev pub end_or_zero : Option ℤ → ℕ
end_or_zero none = 0
end_or_zero (some e) = int32_to_uint16 e

-- `p.Port < 0 || p.Port > math.MaxUint16`.
abbrev is_port : ℤ → Bool
is_port (pos n) = leb n 65535
is_port (negsuc n) = false

unfoldable pub expand_ports : List HostPort → List PortRange
unfolding int32_to_uint16
expand_ports [] = []
expand_ports (p ∷ ports) =
    let rest = expand_ports ports in
    if is_port p.port
    then record { port = int32_to_uint16 p.port; end_port = end_or_zero p.end_port } ∷ rest
    else rest

abbrev pub or_default {ℓ} : {A : Type ℓ} → A → List A → List A
or_default a [] = a ∷ []
or_default a (x ∷ xs) = x ∷ xs

abbrev pub dir_str : Direction → Text
dir_str direction_ingress = codes "ingress"
dir_str direction_egress = codes "egress"

-- `fmt.Sprintf("%s/%s/%d", policyName, dirStr, idx)`.
abbrev pub rule_id_of : Library → Text → Direction → ℕ → Text
rule_id_of lib policy_name dir idx =
    policy_name ++ (codes "/" ++ (dir_str dir ++ (codes "/" ++ lib.decimal idx)))

-- What the two inner loops append, for the pairs of a CIDR and a range of ports.
unfoldable pub number_rules :
    Library → Text → Direction → ℕ → ℕ → ℕ → List (IpNet × PortRange) → List CompiledHostRule
number_rules lib policy_name dir action proto idx [] = []
number_rules lib policy_name dir action proto idx ((cidr, pr) ∷ pairs) =
    record {
      rule_id = rule_id_of lib policy_name dir idx;
      direction = dir;
      protocol = proto;
      cidr = cidr;
      port = pr.port;
      end_port = pr.end_port;
      action = action;
      policy_name = policy_name;
    }
    ∷ number_rules lib policy_name dir action proto (idx + 1) pairs

-- A rule with no CIDR is for all addresses, and one with no port is for all ports.
unfoldable pub pairs_of : Library → List IpNet → List HostPort → List (IpNet × PortRange)
pairs_of lib cidrs ports =
    concat_map
      (λ cidr.
        map (λ pr. (cidr, pr))
          (or_default (record { port = 0; end_port = 0 }) (expand_ports ports)))
      (or_default lib.all_net cidrs)

abbrev pub Compiled : Type 0
Compiled = Result {0, 0} HostError (List CompiledHostRule)

-- One round of the loop over the rules, with the number of the next compiled rule.
unfoldable pub compile_host_rule : Library → Text → Direction → ℕ → HostRule → Compiled
unfolding number_rules
compile_host_rule lib policy_name dir idx rule = elim (convert_action rule.action) [
  | err e ↦ err e
  | ok action ↦ elim (parse_host_cidrs lib.parse_cidr rule.cidrs) [
    | err e ↦ err e
    | ok cidrs ↦
        let proto = convert_protocol rule.protocol in
        ok (number_rules lib policy_name dir action proto idx (pairs_of lib cidrs rule.ports))
  ]
]

unfoldable pub compile_rules_from : Library → Text → Direction → ℕ → List HostRule → Compiled
unfolding compile_host_rule
compile_rules_from lib policy_name dir idx [] = ok []
compile_rules_from lib policy_name dir idx (rule ∷ rules) =
    elim (compile_host_rule lib policy_name dir idx rule) [
      | err e ↦ err e
      | ok compiled ↦ elim (compile_rules_from lib policy_name dir (idx + length compiled) rules) [
        | err e ↦ err e
        | ok rest ↦ ok (compiled ++ rest)
      ]
    ]

unfoldable pub compile_rules : Library → Text → Direction → List HostRule → Compiled
unfolding compile_rules_from
compile_rules lib policy_name dir rules = compile_rules_from lib policy_name dir 0 rules

-- `CompilePolicy`.
unfoldable pub compile_host_policy : Library → Option HostEndpointPolicy → Compiled
unfolding compile_rules
compile_host_policy lib none = err nil_policy
compile_host_policy lib (some policy) =
    elim (compile_rules lib policy.name direction_ingress policy.ingress) [
      | err e ↦ err e
      | ok ingress_rules ↦ elim (compile_rules lib policy.name direction_egress policy.egress) [
        | err e ↦ err e
        | ok egress_rules ↦ ok (ingress_rules ++ egress_rules)
      ]
    ]
