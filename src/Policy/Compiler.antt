-- ===== src/Policy/Compiler.antt =====
-- `Compiler` of internal/policy/compiler.go. What the code takes from elsewhere is the record `Compiler`:
-- the resolvers, the identities, and whether `net.ParseCIDR` accepts a text.
use novanet.Base.{ℕ, Bool, true, false, Option, none, some, List, [], ◌∷◌, ◌++◌, if◌then◌else◌}
use novanet.Base.Members.{concat_map, is_nil}
use novanet.Base.Text.{Text}
use novanet.Policy.{
  CompiledRule, CidrEntry, LabelSelector, empty_selector, IpBlock, PolicyType, ingress, egress,
  has_policy_type, action_deny, protocol_any, wildcard_identity,
}
use novanet.Policy.Rules.{build_identity_rules, build_cidr_rules, resolve_ip_block_cidrs}
use novanet.Policy.Peers.{PeerResolver, selector_to_identities, resolve_pod_and_ns_peers}
use novanet.Policy.Ports.{NetworkPolicyPort, PortResolver, resolve_ports, or_any_port}

pub record NetworkPolicyPeer : Type 0 where
  pub pod_selector : Option LabelSelector
  pub namespace_selector : Option LabelSelector
  pub ip_block : Option IpBlock

-- `NetworkPolicyIngressRule` and `NetworkPolicyEgressRule`: `peers` is `From` or `To`.
pub record PolicyRule : Type 0 where
  pub peers : List NetworkPolicyPeer
  pub ports : List NetworkPolicyPort

pub record NetworkPolicy : Type 0 where
  pub namespace : Text
  pub pod_selector : LabelSelector
  pub policy_types : List PolicyType
  pub ingress_rules : List PolicyRule
  pub egress_rules : List PolicyRule

pub record Compiler : Type 0 where
  pub resolver : PeerResolver
  pub port_resolver : Option PortResolver
  pub valid_cidr : Text → Bool

-- The identities of one peer.
unfoldable pub resolve_peer : Compiler → Text → NetworkPolicyPeer → List ℕ
resolve_peer c namespace peer = elim peer.ip_block [
  | some block ↦ []
  | none ↦ resolve_pod_and_ns_peers c.resolver peer.pod_selector peer.namespace_selector namespace
]

unfoldable pub resolve_peers : Compiler → List NetworkPolicyPeer → Text → List ℕ
unfolding resolve_peer
resolve_peers c peers namespace = concat_map (resolve_peer c namespace) peers

unfoldable pub resolve_peer_cidrs : Compiler → NetworkPolicyPeer → List CidrEntry
resolve_peer_cidrs c peer = elim peer.ip_block [
  | none ↦ []
  | some block ↦ resolve_ip_block_cidrs c.valid_cidr block.cidr block.except
]

unfoldable pub resolve_peers_with_ip_block : Compiler → List NetworkPolicyPeer → List CidrEntry
unfolding resolve_peer_cidrs
resolve_peers_with_ip_block c peers = concat_map (resolve_peer_cidrs c) peers

-- `if len(rule.From) == 0`: a rule with no peers is for any identity.
unfoldable pub identities_of : Compiler → List NetworkPolicyPeer → Text → List ℕ
unfolding resolve_peers
identities_of c peers namespace =
    if is_nil peers then wildcard_identity ∷ [] else resolve_peers c peers namespace

unfoldable pub compile_ingress_rule :
    Compiler → PolicyRule → ℕ → Text → LabelSelector → List CompiledRule
unfolding identities_of resolve_peers_with_ip_block
compile_ingress_rule c rule dst_identity namespace pod_selector =
    let ports = or_any_port (resolve_ports c.port_resolver rule.ports namespace pod_selector) in
    build_identity_rules (identities_of c rule.peers namespace) dst_identity ports false namespace
    ++ build_cidr_rules (resolve_peers_with_ip_block c rule.peers) dst_identity ports false
        namespace

unfoldable pub compile_egress_rule : Compiler → PolicyRule → ℕ → Text → List CompiledRule
unfolding identities_of resolve_peers_with_ip_block
compile_egress_rule c rule src_identity namespace =
    let ports = or_any_port (resolve_ports c.port_resolver rule.ports namespace empty_selector) in
    build_identity_rules (identities_of c rule.peers namespace) src_identity ports true namespace
    ++ build_cidr_rules (resolve_peers_with_ip_block c rule.peers) src_identity ports true namespace

unfoldable pub deny_rule : ℕ → ℕ → Bool → Text → CompiledRule
deny_rule src dst is_egress namespace = record {
  src_identity = src;
  dst_identity = dst;
  protocol = protocol_any;
  dst_port = 0;
  action = action_deny;
  cidr = [];
  is_egress = is_egress;
  namespace = namespace;
}

-- The rules for one target, in each direction that the policy has.
unfoldable pub ingress_part : Compiler → NetworkPolicy → ℕ → List CompiledRule
unfolding compile_ingress_rule deny_rule
ingress_part c np target =
    if has_policy_type np.policy_types ingress
    then if is_nil np.ingress_rules
      then deny_rule wildcard_identity target false np.namespace ∷ []
      else concat_map (λ rule. compile_ingress_rule c rule target np.namespace np.pod_selector)
          np.ingress_rules
    else []

-- The deny rule for egress leaves `IsEgress` false.
unfoldable pub egress_part : Compiler → NetworkPolicy → ℕ → List CompiledRule
unfolding compile_egress_rule deny_rule
egress_part c np target =
    if has_policy_type np.policy_types egress
    then if is_nil np.egress_rules
      then deny_rule target wildcard_identity false np.namespace ∷ []
      else concat_map (λ rule. compile_egress_rule c rule target np.namespace) np.egress_rules
    else []

unfoldable pub compile_policy : Compiler → Option NetworkPolicy → List CompiledRule
unfolding ingress_part egress_part
compile_policy c none = []
compile_policy c (some np) =
    concat_map (λ target. ingress_part c np target ++ egress_part c np target)
      (selector_to_identities c.resolver np.pod_selector np.namespace)

unfoldable pub compile_all : Compiler → List (Option NetworkPolicy) → List CompiledRule
unfolding compile_policy
compile_all c policies = concat_map (compile_policy c) policies
