-- ===== src/Policy/Meaning/Rules.antt =====
-- Which flows the rules allow that internal/policy/compiler.go makes of one rule of a policy.
use novanet.Base.{
  ℕ, ◌≡◌, ◌≢◌, refl, ◌↔◌, ◌⊎◌, inl, inr, Bool, true, false, none, List, [], ◌∷◌, ◌++◌, Option-cases,
}
use novanet.Base.Members.{In, In-concat_map}
use novanet.Base.Text.{Text}
use novanet.Policy.{CidrEntry, PortProto, LabelSelector, empty_selector}
use novanet.Policy.Rules.{build_identity_rules, build_cidr_rules}
use novanet.Policy.Peers.{resolve_pod_and_ns_peers}
use novanet.Policy.Ports.{any_port, or_any_port, resolve_ports}
use novanet.Policy.Compiler.{
  NetworkPolicyPeer, PolicyRule, Compiler, resolve_peer, resolve_peers, resolve_peer_cidrs,
  resolve_peers_with_ip_block, identities_of, compile_ingress_rule, compile_egress_rule,
}
use novanet.Policy.Meaning.{Flow, Matches, Allows, Names, PortsAdmit, RulePeers}
use novanet.Policy.Meaning.Flows.{
  own, other, Allows-append, Allows-build_identity_rules, Allows-build_cidr_rules,
  resolve_ip_block_cidrs-cidr,
}

-- None of the ports of the rule resolves, or one of those that they resolve to admits the flow.
abbrev pub ResolvedPorts : Compiler → PolicyRule → Text → LabelSelector → Flow → Type 0
ResolvedPorts c rule ns selector f =
    (resolve_ports c.port_resolver rule.ports ns selector ≡ [])
    ⊎ PortsAdmit (resolve_ports c.port_resolver rule.ports ns selector) f

PortsAdmit-or_any_port :
    (ports : List PortProto) (f : Flow)
    → PortsAdmit (or_any_port ports) f ↔ ((ports ≡ []) ⊎ PortsAdmit ports f)
unfolding or_any_port
PortsAdmit-or_any_port [] f = (λ h. inl refl, λ h. (any_port, inl refl, (inl refl, inl refl)))
PortsAdmit-or_any_port (pp ∷ ports) f =
    (λ h. inr h, λ h. elim h [ inl e ↦ absurd (cc) | inr m ↦ m ])

module _ (c : Compiler) (ns : Text) (id : ℕ) where
  Names-resolve_peers :
      (peers : List NetworkPolicyPeer)
      → Names (resolve_peers c peers ns) id ↔ (
          (peer : NetworkPolicyPeer) × In peer peers
          × (peer.ip_block ≡ none)
          × Names
              (resolve_pod_and_ns_peers c.resolver peer.pod_selector peer.namespace_selector ns)
              id)
  unfolding resolve_peers resolve_peer
  Names-resolve_peers peers = (
    λ h.
        let (i, m, k) = h in
        let (peer, n, l) = (In-concat_map i (resolve_peer c ns) peers).0 m in
        let (e, l') = of_peer peer i l in (peer, n, e, (i, l', k)),
    λ h.
        let (peer, n, e, (i, l, k)) = h in
        (i, (In-concat_map i (resolve_peer c ns) peers).1 (peer, n, to_peer peer i e l), k),
  )
    where
      of_peer :
          (peer : NetworkPolicyPeer) (i : ℕ)
          → In i (resolve_peer c ns peer)
          → (peer.ip_block ≡ none)
            × In i
                (resolve_pod_and_ns_peers c.resolver peer.pod_selector peer.namespace_selector ns)
      of_peer peer i l = elim (Option-cases peer.ip_block) [
        | inl e ↦ (e, rw e at l)
        | inr (b, e) ↦ absurd (rw e at l)
      ]

      to_peer :
          (peer : NetworkPolicyPeer) (i : ℕ)
          → peer.ip_block ≡ none
          → In i (resolve_pod_and_ns_peers c.resolver peer.pod_selector peer.namespace_selector ns)
          → In i (resolve_peer c ns peer)
      to_peer peer i e l = rw e l

  Names-identities_of :
      (rule : PolicyRule) → Names (identities_of c rule.peers ns) id ↔ RulePeers c rule ns id
  unfolding identities_of
  Names-identities_of rule = go rule.peers
    where
      go :
          (peers : List NetworkPolicyPeer)
          → Names (identities_of c peers ns) id ↔ (
              (peers ≡ [])
              ⊎ ((peer : NetworkPolicyPeer) × In peer peers
                  × (peer.ip_block ≡ none)
                  × Names
                      (resolve_pod_and_ns_peers c.resolver peer.pod_selector peer.namespace_selector
                        ns)
                      id))
      go [] = (λ h. inl refl, λ h. (0, inl refl, inl refl))
      go (peer ∷ peers) =
          let rest = Names-resolve_peers (peer ∷ peers) in
          (λ h. inr (rest.0 h), λ h. elim h [ inl e ↦ absurd (cc) | inr m ↦ rest.1 m ])

module _ (c : Compiler) (empty_invalid : c.valid_cidr [] ≡ false) where
  resolve_peer_cidrs-cidr :
      (e : CidrEntry) (peer : NetworkPolicyPeer) → In e (resolve_peer_cidrs c peer) → e.cidr ≢ []
  unfolding resolve_peer_cidrs
  resolve_peer_cidrs-cidr e peer l = elim (Option-cases peer.ip_block) [
    | inl q ↦ absurd (rw q at l)
    | inr (b, q) ↦
        resolve_ip_block_cidrs-cidr c.valid_cidr empty_invalid e b.cidr b.except (rw q at l)
  ]

  pub resolve_peers_with_ip_block-cidr :
      (e : CidrEntry) (peers : List NetworkPolicyPeer)
      → In e (resolve_peers_with_ip_block c peers)
      → e.cidr ≢ []
  unfolding resolve_peers_with_ip_block
  resolve_peers_with_ip_block-cidr e peers m =
      let (peer, n, l) = (In-concat_map e (resolve_peer_cidrs c) peers).0 m in
      resolve_peer_cidrs-cidr e peer l

  -- What the two directions share.
  of_rules :
      (rule : PolicyRule) (fixed : ℕ) (ports : List PortProto) (is_egress : Bool) (ns : Text)
      (f : Flow)
      → Allows
          (build_identity_rules
              (identities_of c rule.peers ns)
              fixed
              (or_any_port ports)
              is_egress
              ns
            ++ build_cidr_rules
                (resolve_peers_with_ip_block c rule.peers)
                fixed
                (or_any_port ports)
                is_egress
                ns)
          f
        ↔ ((is_egress ≡ f.is_egress)
            × Matches fixed (own is_egress f)
            × RulePeers c rule ns (other is_egress f)
            × ((ports ≡ []) ⊎ PortsAdmit ports f))
  of_rules rule fixed ports is_egress ns f =
      let on_ids =
        Allows-build_identity_rules (identities_of c rule.peers ns) fixed (or_any_port ports)
          is_egress ns f in
      let peers = Names-identities_of c ns (other is_egress f) rule in
      let split =
        Allows-append
          (build_identity_rules (identities_of c rule.peers ns) fixed (or_any_port ports) is_egress
            ns)
          (build_cidr_rules (resolve_peers_with_ip_block c rule.peers) fixed (or_any_port ports)
            is_egress ns)
          f in
      (
        λ h. elim (split.0 h) [
          | inl a ↦
              let (e, o, n, p) = on_ids.0 a in
              (e, o, peers.0 n, (PortsAdmit-or_any_port ports f).0 p)
          | inr a ↦ absurd (
              Allows-build_cidr_rules (resolve_peers_with_ip_block c rule.peers) fixed
                (or_any_port ports) is_egress ns f
                (λ e m. resolve_peers_with_ip_block-cidr e rule.peers m) a)
        ],
        λ h.
            let (e, o, n, p) = h in
            split.1 (inl (on_ids.1 (e, o, peers.1 n, (PortsAdmit-or_any_port ports f).1 p))),
      )

  pub Allows-compile_ingress_rule :
      (rule : PolicyRule) (target : ℕ) (ns : Text) (selector : LabelSelector) (f : Flow)
      → Allows (compile_ingress_rule c rule target ns selector) f ↔ (
          (false ≡ f.is_egress)
          × Matches target f.dst
          × RulePeers c rule ns f.src
          × ResolvedPorts c rule ns selector f)
  unfolding compile_ingress_rule
  Allows-compile_ingress_rule rule target ns selector f =
      of_rules rule target (resolve_ports c.port_resolver rule.ports ns selector) false ns f

  pub Allows-compile_egress_rule :
      (rule : PolicyRule) (target : ℕ) (ns : Text) (f : Flow)
      → Allows (compile_egress_rule c rule target ns) f ↔ (
          (true ≡ f.is_egress)
          × Matches target f.src
          × RulePeers c rule ns f.dst
          × ResolvedPorts c rule ns empty_selector f)
  unfolding compile_egress_rule
  Allows-compile_egress_rule rule target ns f =
      of_rules rule target (resolve_ports c.port_resolver rule.ports ns empty_selector) true ns f
