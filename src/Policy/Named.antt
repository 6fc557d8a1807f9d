-- ===== src/Policy/Named.antt =====
-- Two things that internal/policy/compiler.go makes of a policy.
use novanet.Base.{
  ℕ, ◌≡◌, refl, ap, Bool, true, false, some, List, [], ◌∷◌, ◌++◌, map, if◌then◌else◌,
}
use novanet.Base.Members.{concat_map}
use novanet.Base.Text.{Text}
use novanet.Policy.{CompiledRule, CidrEntry, ingress, egress, has_policy_type, wildcard_identity}
use novanet.Policy.Peers.{selector_to_identities}
use novanet.Policy.Compiler.{
  PolicyRule, NetworkPolicy, Compiler, identities_of, resolve_peers_with_ip_block, deny_rule,
  ingress_part, egress_part, compile_policy,
}

concat_map-single :
    {A B : Type 0} (f : A → B) (xs : List A) → concat_map (λ x. f x ∷ []) xs ≡ map f xs
concat_map-single f [] = refl
concat_map-single f (x ∷ xs) = ap (λ ys. f x ∷ ys) (concat_map-single f xs)

-- The rule that allows all ports and protocols between the target and an identity.
abbrev pub identity_any_port : ℕ → Bool → Text → ℕ → CompiledRule
identity_any_port target is_egress ns id = record {
  src_identity = if is_egress then target else id;
  dst_identity = if is_egress then id else target;
  protocol = 0;
  dst_port = 0;
  action = 1;
  cidr = [];
  is_egress = is_egress;
  namespace = ns;
}

-- The rule for all ports and protocols between the target and the addresses of a CIDR.
abbrev pub cidr_any_port : ℕ → Bool → Text → CidrEntry → CompiledRule
cidr_any_port target is_egress ns entry = record {
  src_identity = if is_egress then target else wildcard_identity;
  dst_identity = if is_egress then wildcard_identity else target;
  protocol = 0;
  dst_port = 0;
  action = entry.action;
  cidr = entry.cidr;
  is_egress = is_egress;
  namespace = ns;
}

-- One rule for all ports for each identity, and one for each CIDR.
abbrev pub any_port_rules : Compiler → PolicyRule → ℕ → Bool → Text → List CompiledRule
any_port_rules c rule target is_egress ns =
    map (identity_any_port target is_egress ns) (identities_of c rule.peers ns)
    ++ map (cidr_any_port target is_egress ns) (resolve_peers_with_ip_block c rule.peers)

-- A policy for egress alone that has no rule compiles to one rule for each selected identity, which
-- denies what leaves it and is marked as a rule for ingress.
pub default_deny_egress :
    (c : Compiler) (np : NetworkPolicy)
    → has_policy_type np.policy_types ingress ≡ false
    → has_policy_type np.policy_types egress ≡ true
    → np.egress_rules ≡ []
    → compile_policy c (some np)
      ≡ map
          (λ target. deny_rule target wildcard_identity false np.namespace)
          (selector_to_identities c.resolver np.pod_selector np.namespace)
unfolding compile_policy ingress_part egress_part
default_deny_egress c np no_ingress on empty =
    rw (no_ingress, on, empty)
      (concat_map-single (λ target. deny_rule target wildcard_identity false np.namespace)
        (selector_to_identities c.resolver np.pod_selector np.namespace))
