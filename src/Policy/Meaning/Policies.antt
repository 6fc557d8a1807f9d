-- ===== src/Policy/Meaning/Policies.antt =====
-- Which flows a compiled policy allows (internal/policy/compiler.go).
use novanet.Base.{
  ℕ, ◌≡◌, refl, ◌↔◌, inl, inr, Bool, true, false, some, List, [], ◌∷◌, ◌++◌, if◌then◌else◌,
}
use novanet.Base.Members.{In, concat_map, is_nil}
use novanet.Policy.{
  CompiledRule, ingress, egress, has_policy_type, wildcard_identity, empty_selector,
}
use novanet.Policy.Peers.{selector_to_identities}
use novanet.Policy.Compiler.{
  PolicyRule, NetworkPolicy, Compiler, deny_rule, compile_ingress_rule, compile_egress_rule,
  ingress_part, egress_part, compile_policy,
}
use novanet.Policy.Meaning.{
  Flow, Matches, Allows, RulePeers, AllResolve, Permits, Denies, DeniesByDefault,
}
use novanet.Policy.Meaning.Flows.{Allows-append, Allows-concat_map}
use novanet.Policy.Meaning.Ports.{RulePorts-iff}
use novanet.Policy.Meaning.Denials.{Denies-compile_policy}
use novanet.Policy.Meaning.Rules.{
  ResolvedPorts, Allows-compile_ingress_rule, Allows-compile_egress_rule,
}

-- A deny rule allows nothing.
Allows-deny_rule :
    (src dst : ℕ) (is_egress : Bool) (f : Flow) (np : NetworkPolicy)
    → ¬ Allows (deny_rule src dst is_egress np.namespace ∷ []) f
unfolding deny_rule
Allows-deny_rule src dst is_egress f np h =
    let (r, m, (a, rest1, e1, s, d, pr, po)) = h in elim m [ inl q ↦ cc | inr q ↦ absurd q ]

module _ {A : Type 0} (g : A → List CompiledRule) (deny : CompiledRule) (f : Flow) where
  -- A direction of a policy, which denies when it has no rule.
  Allows-or_deny :
      (on : Bool) (xs : List A)
      → ¬ Allows (deny ∷ []) f
      → Allows (if on then if is_nil xs then deny ∷ [] else concat_map g xs else []) f
        ↔ ((on ≡ true) × ((x : A) × In x xs × Allows (g x) f))
  Allows-or_deny false xs denies =
      (λ h. let (r, m, k) = h in absurd m, λ h. let (e, k) = h in absurd (cc))
  Allows-or_deny true [] denies = (λ h. absurd (denies h), λ h. let (e, (x, m, k)) = h in absurd m)
  Allows-or_deny true (x ∷ xs) denies =
      let rest = Allows-concat_map g (x ∷ xs) f in
      (λ h. (refl, rest.0 h), λ h. let (e, k) = h in rest.1 k)

module _ (c : Compiler) (empty_invalid : c.valid_cidr [] ≡ false) (np : NetworkPolicy)
    (f : Flow) where
  Allows-ingress_part :
      (target : ℕ)
      → Allows (ingress_part c np target) f ↔ (
          (false ≡ f.is_egress)
          × (has_policy_type np.policy_types ingress ≡ true)
          × Matches target f.dst
          × ((rule : PolicyRule) × In rule np.ingress_rules
              × RulePeers c rule np.namespace f.src
              × ResolvedPorts c rule np.namespace np.pod_selector f))
  unfolding ingress_part
  Allows-ingress_part target =
      let rules : PolicyRule → List CompiledRule =
        λ rule. compile_ingress_rule c rule target np.namespace np.pod_selector in
      let part =
        Allows-or_deny rules (deny_rule wildcard_identity target false np.namespace) f
          (has_policy_type np.policy_types ingress) np.ingress_rules
          (Allows-deny_rule wildcard_identity target false f np) in
      let one = λ (rule : PolicyRule).
        Allows-compile_ingress_rule c empty_invalid rule target np.namespace np.pod_selector f in
      (
        λ h.
            let (on, (rule, m, a)) = part.0 h in
            let (e, t, peers, ports) = (one rule).0 a in (e, on, t, (rule, m, peers, ports)),
        λ h.
            let (e, on, t, (rule, m, peers, ports)) = h in
            part.1 (on, (rule, m, (one rule).1 (e, t, peers, ports))),
      )

  Allows-egress_part :
      (target : ℕ)
      → Allows (egress_part c np target) f ↔ (
          (true ≡ f.is_egress)
          × (has_policy_type np.policy_types egress ≡ true)
          × Matches target f.src
          × ((rule : PolicyRule) × In rule np.egress_rules
              × RulePeers c rule np.namespace f.dst
              × ResolvedPorts c rule np.namespace empty_selector f))
  unfolding egress_part
  Allows-egress_part target =
      let rules : PolicyRule → List CompiledRule =
        λ rule. compile_egress_rule c rule target np.namespace in
      let part =
        Allows-or_deny rules (deny_rule target wildcard_identity false np.namespace) f
          (has_policy_type np.policy_types egress) np.egress_rules
          (Allows-deny_rule target wildcard_identity false f np) in
      let one = λ (rule : PolicyRule).
        Allows-compile_egress_rule c empty_invalid rule target np.namespace f in
      (
        λ h.
            let (on, (rule, m, a)) = part.0 h in
            let (e, t, peers, ports) = (one rule).0 a in (e, on, t, (rule, m, peers, ports)),
        λ h.
            let (e, on, t, (rule, m, peers, ports)) = h in
            part.1 (on, (rule, m, (one rule).1 (e, t, peers, ports))),
      )

  -- Where no text that is empty is a CIDR, and each port of a rule has no number, one from 1 to 65535,
  -- or a name that resolves: the rules that a policy compiles to allow exactly the flows between
  -- identities that the policy permits. It permits a flow in a direction that it has, between a pod
  -- that its selector resolves to and an identity that a peer of one of its rules resolves to, on a port
  -- of that rule; a rule with no peer is for all identities, and one with no port is for all ports.
  -- A rule that denies all between two identities is there exactly for each identity that the selector
  -- resolves to, against any, where the policy has a direction and no rule for it.
  pub compile_policy-Permits :
      AllResolve c np.namespace np.pod_selector np.ingress_rules
      → AllResolve c np.namespace empty_selector np.egress_rules
      → (Allows (compile_policy c (some np)) f ↔ Permits c np f)
        × ((src dst : ℕ)
            → Denies (compile_policy c (some np)) src dst ↔ DeniesByDefault c np src dst)
  unfolding compile_policy
  compile_policy-Permits ins outs =
      let parts : ℕ → List CompiledRule =
        λ target. ingress_part c np target ++ egress_part c np target in
      let targets = selector_to_identities c.resolver np.pod_selector np.namespace in
      let split =
        λ (target : ℕ). Allows-append (ingress_part c np target) (egress_part c np target) f in
      let in_ports = λ (rule : PolicyRule) (m : In rule np.ingress_rules).
        RulePorts-iff c np.namespace np.pod_selector f rule (ins rule m) in
      let out_ports = λ (rule : PolicyRule) (m : In rule np.egress_rules).
        RulePorts-iff c np.namespace empty_selector f rule (outs rule m) in
      (
        (
          λ h.
              let (target, m, a) = (Allows-concat_map parts targets f).0 h in
              elim ((split target).0 a) [
                | inl k ↦
                    let (e, on, t, (rule, i, peers, ports)) = (Allows-ingress_part target).0 k in
                    inl (e, on, (target, m, t), (rule, i, peers, (in_ports rule i).0 ports))
                | inr k ↦
                    let (e, on, t, (rule, i, peers, ports)) = (Allows-egress_part target).0 k in
                    inr (e, on, (target, m, t), (rule, i, peers, (out_ports rule i).0 ports))
              ],
          λ h. (Allows-concat_map parts targets f).1 (elim h [
            | inl (e, on, (target, m, t), (rule, i, peers, ports)) ↦ (
              target,
              m,
              (split target).1 (
                  inl (
                    (Allows-ingress_part target).1
                      (e, on, t, (rule, i, peers, (in_ports rule i).1 ports)))),
            )
            | inr (e, on, (target, m, t), (rule, i, peers, ports)) ↦ (
              target,
              m,
              (split target).1 (
                  inr (
                    (Allows-egress_part target).1
                      (e, on, t, (rule, i, peers, (out_ports rule i).1 ports)))),
            )
          ]),
        ),
        λ src dst. Denies-compile_policy c empty_invalid src dst np,
      )
