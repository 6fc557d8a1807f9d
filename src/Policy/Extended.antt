-- ===== src/Policy/Extended.antt =====
-- `ExtendedCompiler` of internal/policy/extended.go, on the types of api/v1alpha1. The loop over a range
-- of ports is on fuel, with `none` for a loop that has not ended. What the DNS cache answers for a name
-- is an argument: the CIDRs of its addresses.
pub mod Ports
pub mod Compile
pub mod Ending
use novanet.Base.{
  ℕ, ◌+◌, ◌-◌, ◌%◌, ◌^◌, suc, zero, Bool, true, false, Option, none, some, List, [], ◌∷◌, ◌++◌, ltb,
  leb, ◌&&◌, if◌then◌else◌, ◌>>=◌,
}
use novanet.Base.Int.{ℤ, pos, negsuc}
use novanet.Base.Text.{Text}
use novanet.Policy.{PortProto, LabelSelector, IpBlock, PolicyType}
use novanet.Policy.Ports.{protocol_or_tcp, with_protocol}

-- `int32` fields are integers.
pub record NovaNetworkPolicyPort : Type 0 where
  pub protocol : Option Text
  pub port : Option ℤ
  pub end_port : Option ℤ

pub record ServiceAccountPeer : Type 0 where
  pub name : Text
  pub namespace : Text

pub record NovaNetworkPolicyPeer : Type 0 where
  pub pod_selector : Option LabelSelector
  pub namespace_selector : Option LabelSelector
  pub ip_block : Option IpBlock
  pub fqdn : Option Text
  pub service_account : Option ServiceAccountPeer

-- `NovaNetworkPolicyIngressRule` and `NovaNetworkPolicyEgressRule`: `peers` is `From` or `To`.
pub record NovaNetworkPolicyRule : Type 0 where
  pub ports : List NovaNetworkPolicyPort
  pub peers : List NovaNetworkPolicyPeer

pub record NovaNetworkPolicy : Type 0 where
  pub namespace : Text
  pub pod_selector : LabelSelector
  pub policy_types : List PolicyType
  pub ingress_rules : List NovaNetworkPolicyRule
  pub egress_rules : List NovaNetworkPolicyRule

abbrev pub max_expandable_port_range : ℕ
max_expandable_port_range = 100

-- `if portVal < 0 || portVal > math.MaxUint16`, with the number where it is a port.
unfoldable pub as_port : ℤ → Option ℕ
as_port (pos n) = if leb n 65535 then some n else none
as_port (negsuc n) = none

-- `for port := startPort; port <= endPort; port++`, with `port` a uint16.
unfoldable pub expand : ℕ → ℕ → ℕ → ℕ → Option (List PortProto)
expand zero proto port end_port = none
expand (suc fuel) proto port end_port =
    let rest = expand fuel proto ((port + 1) % 2 ^ 16) end_port in
    if leb port end_port then rest >>= (λ pps. some (with_protocol proto port ∷ pps)) else some []

-- A range of ports: none where it ends before it starts, any port where it is large.
unfoldable pub expand_range : ℕ → ℕ → ℕ → ℕ → Option (List PortProto)
unfolding expand
expand_range fuel proto start_port end_port =
    let loop = expand fuel proto start_port end_port in
    if ltb end_port start_port
    then some []
    else if ltb max_expandable_port_range (end_port + 1 - start_port)
    then some (with_protocol proto 0 ∷ [])
    else loop

-- A port that is a number, with its `EndPort`.
unfoldable pub expand_port : ℕ → ℕ → ℕ → Option ℤ → Option (List PortProto)
unfolding expand_range as_port
expand_port fuel proto start_port none = some (with_protocol proto start_port ∷ [])
expand_port fuel proto start_port (some e) = elim (as_port e) [
  | none ↦ some []
  | some end_port ↦ expand_range fuel proto start_port end_port
]

-- The body of the loop for one port.
unfoldable pub resolve_extended_port : ℕ → NovaNetworkPolicyPort → Option (List PortProto)
unfolding expand_port protocol_or_tcp
resolve_extended_port fuel p =
    let proto = protocol_or_tcp p.protocol in
    elim p.port [
      | none ↦ some (with_protocol proto 0 ∷ [])
      | some n ↦ elim (as_port n) [
        | none ↦ some []
        | some start_port ↦ expand_port fuel proto start_port p.end_port
      ]
    ]

-- The results of a loop, one after the other, where each has ended.
abbrev pub collect {ℓ κ} :
    {A : Type ℓ} {B : Type κ} → (A → Option (List B)) → List A → Option (List B)
collect f [] = some []
collect f (x ∷ xs) = f x >>= (λ ys. collect f xs >>= (λ zs. some (ys ++ zs)))

unfoldable pub resolve_extended_ports : ℕ → List NovaNetworkPolicyPort → Option (List PortProto)
unfolding resolve_extended_port
resolve_extended_ports fuel ports = collect (resolve_extended_port fuel) ports
