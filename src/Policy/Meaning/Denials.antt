-- ===== src/Policy/Meaning/Denials.antt =====
-- The deny rules between identities among those that internal/policy/compiler.go makes of a policy.
use novanet.Base.{
  ℕ, ◌≡◌, refl, sym, ap, ◌∙◌, ◌↔◌, inl, inr, Bool, true, false, some, List, [], ◌∷◌, ◌++◌, map,
  arith, if◌then◌else◌,
}
use novanet.Base.Members.{In-append, In-concat_map, In-map, concat_map, is_nil}
use novanet.Base.Text.{Text}
use novanet.Policy.{
  CompiledRule, CidrEntry, PortProto, ingress, egress, has_policy_type, wildcard_identity,
}
use novanet.Policy.Rules.{build_identity_rules, build_cidr_rules, identity_rule, cidr_rule}
use novanet.Policy.Peers.{selector_to_identities}
use novanet.Policy.Compiler.{
  PolicyRule, NetworkPolicy, Compiler, identities_of, resolve_peers_with_ip_block, deny_rule,
  compile_ingress_rule, compile_egress_rule, ingress_part, egress_part, compile_policy,
}
use novanet.Policy.Meaning.{IsDeny, Denies, DeniesByDefault}
use novanet.Policy.Meaning.Rules.{resolve_peers_with_ip_block-cidr}

module _ (c : Compiler) (empty_invalid : c.valid_cidr [] ≡ false) (src dst : ℕ) where
  -- The rules for the peers of a rule deny nothing between identities.
  allows_only :
      (ids : List ℕ) (rule : PolicyRule) (fixed : ℕ) (ports : List PortProto) (is_egress : Bool)
      (ns : Text)
      → ¬ Denies
          (build_identity_rules ids fixed ports is_egress ns
            ++ build_cidr_rules (resolve_peers_with_ip_block c rule.peers) fixed ports is_egress ns)
          src
          dst
  unfolding build_identity_rules build_cidr_rules identity_rule cidr_rule
  allows_only ids rule fixed ports is_egress ns (r, m, (denies, no_cidr, s, d, pr, po)) =
      let on_id : ℕ → List CompiledRule = λ id. map (identity_rule fixed is_egress ns id) ports in
      let on_cidr : CidrEntry → List CompiledRule =
        λ e. map (cidr_rule fixed is_egress ns e) ports in
      let entries = resolve_peers_with_ip_block c rule.peers in
      elim ((In-append r (concat_map on_id ids) (concat_map on_cidr entries)).0 m) [
        | inl i ↦
            let (id, j, k) = (In-concat_map r on_id ids).0 i in
            let (pp, l, q) = (In-map r (identity_rule fixed is_egress ns id) ports).0 k in
            absurd (omega (arith, ap (λ (t : CompiledRule). t.action) q, denies))
        | inr i ↦
            let (e, j, k) = (In-concat_map r on_cidr entries).0 i in
            let (pp, l, q) = (In-map r (cidr_rule fixed is_egress ns e) ports).0 k in
            absurd (
              resolve_peers_with_ip_block-cidr c empty_invalid e rule.peers j
                (ap (λ (t : CompiledRule). t.cidr) q ∙ no_cidr))
      ]

  module _ (g : PolicyRule → List CompiledRule) (deny : CompiledRule)
      (quiet : (rule : PolicyRule) → ¬ Denies (g rule) src dst) where
    -- One direction of a policy: where it is on and has no rule, it denies.
    Denies-or_IsDeny :
        (on : Bool) (rules : List PolicyRule)
        → Denies (if on then if is_nil rules then deny ∷ [] else concat_map g rules else []) src dst
          ↔ ((on ≡ true) × (rules ≡ []) × IsDeny deny src dst)
    Denies-or_IsDeny false rules = (λ (r, m, k). absurd m, λ (e, q, k). absurd (cc))
    Denies-or_IsDeny true [] = (
      λ (r, m, k). elim m [ inl q ↦ (refl, refl, rw q k) | inr z ↦ absurd z ],
      λ (e, q, k). (deny, inl refl, k),
    )
    Denies-or_IsDeny true (rule ∷ rules) = (
      λ (r, m, k).
          let (x, i, j) = (In-concat_map r g (rule ∷ rules)).0 m in absurd (quiet x (r, j, k)),
      λ (e, q, k). absurd (cc),
    )

  IsDeny-deny_rule :
      (a b : ℕ) (ns : Text) → IsDeny (deny_rule a b false ns) src dst ↔ ((a ≡ src) × (b ≡ dst))
  unfolding deny_rule
  IsDeny-deny_rule a b ns =
      (λ (d, n, s, t, pr, po). (s, t), λ (s, t). (refl, refl, s, t, refl, refl))

  module _ (np : NetworkPolicy) (target : ℕ) where
    Denies-ingress_part : Denies (ingress_part c np target) src dst ↔ (
        (has_policy_type np.policy_types ingress ≡ true)
        × (np.ingress_rules ≡ [])
        × (0 ≡ src)
        × (target ≡ dst))
    unfolding ingress_part compile_ingress_rule
    Denies-ingress_part =
        let part =
          Denies-or_IsDeny (λ rule. compile_ingress_rule c rule target np.namespace np.pod_selector)
            (deny_rule wildcard_identity target false np.namespace)
            (λ rule.
              allows_only (identities_of c rule.peers np.namespace) rule target _ false
                np.namespace)
            (has_policy_type np.policy_types ingress) np.ingress_rules in
        let rule = IsDeny-deny_rule wildcard_identity target np.namespace in
        (
          λ h. let (on, e, d) = part.0 h in let (s, t) = rule.0 d in (on, e, s, t),
          λ (on, e, s, t). part.1 (on, e, rule.1 (s, t)),
        )

    Denies-egress_part : Denies (egress_part c np target) src dst ↔ (
        (has_policy_type np.policy_types egress ≡ true)
        × (np.egress_rules ≡ [])
        × (target ≡ src)
        × (0 ≡ dst))
    unfolding egress_part compile_egress_rule
    Denies-egress_part =
        let part =
          Denies-or_IsDeny (λ rule. compile_egress_rule c rule target np.namespace)
            (deny_rule target wildcard_identity false np.namespace)
            (λ rule.
              allows_only (identities_of c rule.peers np.namespace) rule target _ true np.namespace)
            (has_policy_type np.policy_types egress) np.egress_rules in
        let rule = IsDeny-deny_rule target wildcard_identity np.namespace in
        (
          λ h. let (on, e, d) = part.0 h in let (s, t) = rule.0 d in (on, e, s, t),
          λ (on, e, s, t). part.1 (on, e, rule.1 (s, t)),
        )

  pub Denies-compile_policy :
      (np : NetworkPolicy)
      → Denies (compile_policy c (some np)) src dst ↔ DeniesByDefault c np src dst
  unfolding compile_policy
  Denies-compile_policy np =
      let targets = selector_to_identities c.resolver np.pod_selector np.namespace in
      let parts : ℕ → List CompiledRule =
        λ target. ingress_part c np target ++ egress_part c np target in
      (
        λ (r, m, k).
            let (target, i, j) = (In-concat_map r parts targets).0 m in
            elim ((In-append r (ingress_part c np target) (egress_part c np target)).0 j) [
              | inl l ↦
                  let (on, e, s, t) = (Denies-ingress_part np target).0 (r, l, k) in
                  inl (on, e, sym s, rw (← t) i)
              | inr l ↦
                  let (on, e, s, t) = (Denies-egress_part np target).0 (r, l, k) in
                  inr (on, e, rw (← s) i, sym t)
            ],
        λ h. elim h [
          | inl (on, e, s, i) ↦
              let (r, l, k) = (Denies-ingress_part np dst).1 (on, e, sym s, refl) in
              (r, (In-concat_map r parts targets).1 (dst, i, (In-append r _ _).1 (inl l)), k)
          | inr (on, e, i, t) ↦
              let (r, l, k) = (Denies-egress_part np src).1 (on, e, refl, sym t) in
              (r, (In-concat_map r parts targets).1 (src, i, (In-append r _ _).1 (inr l)), k)
        ],
      )
