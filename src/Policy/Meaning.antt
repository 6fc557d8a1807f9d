-- ===== src/Policy/Meaning.antt =====
-- What compiled rules and a policy mean for a flow between identities, apart from how
-- internal/policy/compiler.go gets from the one to the other. A rule's 0 stands for any value.
pub mod Flows
pub mod Ports
pub mod Rules
pub mod Denials
pub mod Policies
use novanet.Base.{ℕ, ◌<◌, ◌≤◌, ◌≡◌, ◌≢◌, ◌⊎◌, Bool, true, false, Option, none, some, List, []}
use novanet.Base.Int.{pos}
use novanet.Base.Members.{In}
use novanet.Base.Text.{Text, codes}
use novanet.Policy.{
  CompiledRule, PortProto, LabelSelector, empty_selector, ingress, egress, has_policy_type,
  action_allow,
}
use novanet.Policy.Peers.{selector_to_identities, resolve_pod_and_ns_peers}
use novanet.Policy.Ports.{
  NetworkPolicyPort, IntOrString, number, named, PortResolver, core_protocol,
}
use novanet.Policy.Compiler.{NetworkPolicyPeer, PolicyRule, NetworkPolicy, Compiler}

pub record Flow : Type 0 where
  pub src : ℕ
  pub dst : ℕ
  pub protocol : ℕ
  pub port : ℕ
  pub is_egress : Bool

abbrev pub Matches : ℕ → ℕ → Type 0
Matches v w = (v ≡ 0) ⊎ (v ≡ w)

abbrev pub RuleAllows : CompiledRule → Flow → Type 0
RuleAllows r f =
    (r.action ≡ action_allow)
    × (r.cidr ≡ [])
    × (r.is_egress ≡ f.is_egress)
    × Matches r.src_identity f.src
    × Matches r.dst_identity f.dst
    × Matches r.protocol f.protocol
    × Matches r.dst_port f.port

abbrev pub Allows : List CompiledRule → Flow → Type 0
Allows rules f = (r : CompiledRule) × In r rules × RuleAllows r f

-- One of the identities is this one, or any.
abbrev pub Names : List ℕ → ℕ → Type 0
Names ids id = (i : ℕ) × In i ids × Matches i id

abbrev pub PairAdmits : PortProto → Flow → Type 0
PairAdmits pp f = Matches pp.protocol f.protocol × Matches pp.port f.port

abbrev pub PortsAdmit : List PortProto → Flow → Type 0
PortsAdmit ports f = (pp : PortProto) × In pp ports × PairAdmits pp f

-- The number of the protocol of a port, which is that of TCP for every name but UDP and SCTP.
abbrev pub IsProtocol : Option Text → ℕ → Type 0
IsProtocol none n = n ≡ 6
IsProtocol (some name) n =
    ((name ≡ codes "TCP") × (n ≡ 6))
    ⊎ ((name ≡ codes "UDP") × (n ≡ 17))
    ⊎ ((name ≡ codes "SCTP") × (n ≡ 132))
    ⊎ ((name ≢ codes "UDP") × (name ≢ codes "SCTP") × (n ≡ 6))

-- A named port resolves to this number.
abbrev pub ResolvesTo : Compiler → Text → LabelSelector → Option Text → Text → ℕ → Type 0
ResolvesTo c namespace selector protocol name x =
    (r : PortResolver) × (c.port_resolver ≡ some r)
    × In x (r name (core_protocol protocol) namespace selector)

-- A port of a rule is for this number: it has none, or that one, or a name that resolves to it.
abbrev pub NumberAdmits :
    Compiler → Text → LabelSelector → Option Text → Option IntOrString → ℕ → Type 0
NumberAdmits c namespace selector protocol none port = Unit {0}
NumberAdmits c namespace selector protocol (some (number n)) port = n ≡ pos port
NumberAdmits c namespace selector protocol (some (named name)) port =
    (x : ℕ) × ResolvesTo c namespace selector protocol name x × Matches x port

abbrev pub PortAdmits : Compiler → Text → LabelSelector → NetworkPolicyPort → Flow → Type 0
PortAdmits c namespace selector p f =
    IsProtocol p.protocol f.protocol × NumberAdmits c namespace selector p.protocol p.port f.port

-- A port of a rule has no number, one from 1 to 65535, or a name that resolves.
abbrev pub Resolves : Compiler → Text → LabelSelector → Option Text → Option IntOrString → Type 0
Resolves c namespace selector protocol none = Unit {0}
Resolves c namespace selector protocol (some (number n)) =
    (m : ℕ) × (n ≡ pos m) × (0 < m) × (m ≤ 65535)
Resolves c namespace selector protocol (some (named name)) =
    (x : ℕ) × ResolvesTo c namespace selector protocol name x

abbrev pub AllResolve : Compiler → Text → LabelSelector → List PolicyRule → Type 0
AllResolve c namespace selector rules =
    (rule : PolicyRule)
    → In rule rules
    → (p : NetworkPolicyPort) → In p rule.ports
    → Resolves c namespace selector p.protocol p.port

-- The rule has no port, or one of its ports is for that of the flow.
abbrev pub RulePorts : Compiler → PolicyRule → Text → LabelSelector → Flow → Type 0
RulePorts c rule namespace selector f =
    (rule.ports ≡ [])
    ⊎ ((p : NetworkPolicyPort) × In p rule.ports × PortAdmits c namespace selector p f)

-- The rule names no peer, or one of its peers that is no block of addresses selects the identity.
abbrev pub RulePeers : Compiler → PolicyRule → Text → ℕ → Type 0
RulePeers c rule namespace id =
    (rule.peers ≡ [])
    ⊎ ((peer : NetworkPolicyPeer) × In peer rule.peers
        × (peer.ip_block ≡ none)
        × Names
            (resolve_pod_and_ns_peers c.resolver peer.pod_selector peer.namespace_selector
              namespace)
            id)

abbrev pub Selected : Compiler → NetworkPolicy → ℕ → Type 0
Selected c np id = Names (selector_to_identities c.resolver np.pod_selector np.namespace) id

abbrev pub PermitsIngress : Compiler → NetworkPolicy → Flow → Type 0
PermitsIngress c np f =
    (false ≡ f.is_egress)
    × (has_policy_type np.policy_types ingress ≡ true)
    × Selected c np f.dst
    × ((rule : PolicyRule) × In rule np.ingress_rules
        × RulePeers c rule np.namespace f.src
        × RulePorts c rule np.namespace np.pod_selector f)

abbrev pub PermitsEgress : Compiler → NetworkPolicy → Flow → Type 0
PermitsEgress c np f =
    (true ≡ f.is_egress)
    × (has_policy_type np.policy_types egress ≡ true)
    × Selected c np f.src
    × ((rule : PolicyRule) × In rule np.egress_rules
        × RulePeers c rule np.namespace f.dst
        × RulePorts c rule np.namespace empty_selector f)

abbrev pub Permits : Compiler → NetworkPolicy → Flow → Type 0
Permits c np f = PermitsIngress c np f ⊎ PermitsEgress c np f

-- A rule that denies all between these two identities, 0 standing for any. Its direction is left open.
abbrev pub IsDeny : CompiledRule → ℕ → ℕ → Type 0
IsDeny r src dst =
    (r.action ≡ 0)
    × (r.cidr ≡ [])
    × (r.src_identity ≡ src)
    × (r.dst_identity ≡ dst)
    × (r.protocol ≡ 0)
    × (r.dst_port ≡ 0)

abbrev pub Denies : List CompiledRule → ℕ → ℕ → Type 0
Denies rules src dst = (r : CompiledRule) × In r rules × IsDeny r src dst

-- A direction that the policy has and has no rule for is denied for each identity that it selects.
abbrev pub DeniesByDefault : Compiler → NetworkPolicy → ℕ → ℕ → Type 0
DeniesByDefault c np src dst =
    ((has_policy_type np.policy_types ingress ≡ true)
      × (np.ingress_rules ≡ [])
      × (src ≡ 0)
      × In dst (selector_to_identities c.resolver np.pod_selector np.namespace))
    ⊎ ((has_policy_type np.policy_types egress ≡ true)
        × (np.egress_rules ≡ [])
        × In src (selector_to_identities c.resolver np.pod_selector np.namespace)
        × (dst ≡ 0))
