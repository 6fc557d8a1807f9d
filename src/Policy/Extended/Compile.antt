-- ===== src/Policy/Extended/Compile.antt =====
-- The rest of internal/policy/extended.go: peers, rules and policies.
use novanet.Base.{
  ℕ, Bool, true, false, Option, none, some, List, [], ◌∷◌, ◌++◌, if◌then◌else◌, ◌>>=◌,
}
use novanet.Base.Members.{concat_map, is_nil}
use novanet.Base.Text.{Text, codes, is_empty}
use novanet.Identity.Labels.{hash_labels}
use novanet.Policy.{
  CompiledRule, CidrEntry, PolicyType, ingress, egress, has_policy_type, wildcard_identity,
}
use novanet.Policy.Rules.{
  build_identity_rules, build_cidr_rules, build_fqdn_cidr_rules, resolve_ip_block_cidrs,
}
use novanet.Policy.Peers.{
  PeerResolver, namespace_key, selector_to_identities, resolve_pod_and_ns_peers,
}
use novanet.Policy.Ports.{or_any_port}
use novanet.Policy.Compiler.{deny_rule}
use novanet.Policy.Extended.{
  ServiceAccountPeer, NovaNetworkPolicyPeer, NovaNetworkPolicyRule, NovaNetworkPolicy, collect,
  resolve_extended_ports,
}

-- `fqdn_cidrs` is what the DNS cache answers for a name, each address with its full length.
pub record ExtendedCompiler : Type 0 where
  pub resolver : PeerResolver
  pub valid_cidr : Text → Bool
  pub fqdn_cidrs : Text → List Text

unfoldable pub resolve_service_account_peer : ServiceAccountPeer → Text → ℕ
resolve_service_account_peer sa policy_namespace =
    let ns = if is_empty sa.namespace then policy_namespace else sa.namespace in
    hash_labels ((namespace_key, ns) ∷ (codes "novanet.io/service-account", sa.name) ∷ [])

-- The identities of one peer.
unfoldable pub resolve_extended_peer : ExtendedCompiler → Text → NovaNetworkPolicyPeer → List ℕ
unfolding resolve_service_account_peer
resolve_extended_peer c namespace peer = elim peer.ip_block [
  | some block ↦ []
  | none ↦ elim peer.fqdn [
    | some name ↦ []
    | none ↦ elim peer.service_account [
      | some sa ↦ resolve_service_account_peer sa namespace ∷ []
      | none ↦
          resolve_pod_and_ns_peers c.resolver peer.pod_selector peer.namespace_selector namespace
    ]
  ]
]

unfoldable pub resolve_extended_peers :
    ExtendedCompiler → List NovaNetworkPolicyPeer → Text → List ℕ
unfolding resolve_extended_peer
resolve_extended_peers c peers namespace = concat_map (resolve_extended_peer c namespace) peers

unfoldable pub extended_peer_cidrs : ExtendedCompiler → NovaNetworkPolicyPeer → List CidrEntry
extended_peer_cidrs c peer = elim peer.ip_block [
  | none ↦ []
  | some block ↦ resolve_ip_block_cidrs c.valid_cidr block.cidr block.except
]

unfoldable pub resolve_extended_cidrs :
    ExtendedCompiler → List NovaNetworkPolicyPeer → List CidrEntry
unfolding extended_peer_cidrs
resolve_extended_cidrs c peers = concat_map (extended_peer_cidrs c) peers

unfoldable pub fqdn_peer_cidrs : ExtendedCompiler → NovaNetworkPolicyPeer → List Text
fqdn_peer_cidrs c peer = elim peer.fqdn [ none ↦ [] | some name ↦ c.fqdn_cidrs name ]

unfoldable pub resolve_fqdn_peers : ExtendedCompiler → List NovaNetworkPolicyPeer → List Text
unfolding fqdn_peer_cidrs
resolve_fqdn_peers c peers = concat_map (fqdn_peer_cidrs c) peers

-- `if len(peers) == 0`.
unfoldable pub extended_identities : ExtendedCompiler → List NovaNetworkPolicyPeer → Text → List ℕ
unfolding resolve_extended_peers
extended_identities c peers namespace =
    if is_nil peers then wildcard_identity ∷ [] else resolve_extended_peers c peers namespace

unfoldable pub compile_directional_rule :
    ℕ → ExtendedCompiler → NovaNetworkPolicyRule → ℕ → Bool → Text → Option (List CompiledRule)
unfolding extended_identities resolve_extended_cidrs resolve_fqdn_peers
compile_directional_rule fuel c rule fixed_id is_egress namespace =
    resolve_extended_ports fuel rule.ports >>= (λ resolved.
      let ports = or_any_port resolved in
      some (
        build_identity_rules (extended_identities c rule.peers namespace) fixed_id ports is_egress
          namespace
        ++ (build_cidr_rules (resolve_extended_cidrs c rule.peers) fixed_id ports is_egress
              namespace
            ++ build_fqdn_cidr_rules (resolve_fqdn_peers c rule.peers) fixed_id ports is_egress
                namespace)))

-- The rules for one target in one direction.
unfoldable pub extended_part :
    ℕ
    → ExtendedCompiler
    → NovaNetworkPolicy
    → PolicyType
    → List NovaNetworkPolicyRule
    → Bool
    → CompiledRule
    → ℕ
    → Option (List CompiledRule)
unfolding compile_directional_rule
extended_part fuel c nnp direction rules is_egress deny target =
    if has_policy_type nnp.policy_types direction
    then if is_nil rules
      then some (deny ∷ [])
      else collect (λ rule. compile_directional_rule fuel c rule target is_egress nnp.namespace)
          rules
    else some []

-- The rules for one target. The deny rule for egress is marked as one.
unfoldable pub extended_target :
    ℕ → ExtendedCompiler → NovaNetworkPolicy → ℕ → Option (List CompiledRule)
unfolding extended_part
extended_target fuel c nnp target =
    extended_part fuel c nnp ingress nnp.ingress_rules false
      (deny_rule wildcard_identity target false nnp.namespace) target
    >>= (λ ins.
        extended_part fuel c nnp egress nnp.egress_rules true
          (deny_rule target wildcard_identity true nnp.namespace) target
        >>= (λ outs. some (ins ++ outs)))

unfoldable pub compile_extended_policy :
    ℕ → ExtendedCompiler → Option NovaNetworkPolicy → Option (List CompiledRule)
unfolding extended_target
compile_extended_policy fuel c none = some []
compile_extended_policy fuel c (some nnp) =
    collect (extended_target fuel c nnp)
      (selector_to_identities c.resolver nnp.pod_selector nnp.namespace)

unfoldable pub compile_all_extended :
    ℕ → ExtendedCompiler → List (Option NovaNetworkPolicy) → Option (List CompiledRule)
unfolding compile_extended_policy
compile_all_extended fuel c policies = collect (compile_extended_policy fuel c) policies
