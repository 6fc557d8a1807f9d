-- ===== src/HostFirewall/Numbering.antt =====
-- The IDs of the rules that internal/hostfirewall/manager.go compiles.
use novanet.Base.{
  ℕ, ◌+◌, ◌≡◌, refl, sym, ap, ◌∙◌, some, List, [], ◌∷◌, ◌++◌, map, length, ok, count_from,
  count_from-append, length-append,
}
use novanet.Base.Text.{Text}
use novanet.Ipam.Address.{IpNet}
use novanet.HostFirewall.{
  Direction, direction_ingress, direction_egress, HostRule, HostEndpointPolicy, CompiledHostRule,
  Library, PortRange, convert_action, convert_protocol, parse_host_cidrs, rule_id_of, number_rules,
  pairs_of, compile_host_rule, compile_rules_from, compile_rules, compile_host_policy,
}
use novanet.HostFirewall.Wanted.{AllLaidOut, map-append, bind-ok, ok_inj}
use novanet.HostFirewall.Contents.{compile_rules_from-AllLaidOut}

abbrev pub ids : List CompiledHostRule → List Text
ids rules = map (λ (r : CompiledHostRule). r.rule_id) rules

-- The IDs count up from this number, for one policy and direction.
abbrev pub Numbered : Library → Text → Direction → ℕ → List CompiledHostRule → Type 0
Numbered lib name dir idx rules =
    ids rules ≡ map (rule_id_of lib name dir) (count_from idx (length rules))

module _ (lib : Library) (name : Text) (dir : Direction) where
  number_rules-Numbered :
      (action proto idx : ℕ) (pairs : List (IpNet × PortRange))
      → Numbered lib name dir idx (number_rules lib name dir action proto idx pairs)
  unfolding number_rules
  number_rules-Numbered action proto idx [] = refl
  number_rules-Numbered action proto idx ((cidr, pr) ∷ pairs) =
      ap (λ is. rule_id_of lib name dir idx ∷ is)
        (number_rules-Numbered action proto (idx + 1) pairs)

  append-Numbered :
      (idx : ℕ) (xs ys : List CompiledHostRule)
      → Numbered lib name dir idx xs
      → Numbered lib name dir (idx + length xs) ys
      → Numbered lib name dir idx (xs ++ ys)
  append-Numbered idx xs ys p q =
      map-append (λ (r : CompiledHostRule). r.rule_id) xs ys
      ∙ ap (λ is. is ++ ids ys) p
      ∙ ap (λ is. map (rule_id_of lib name dir) (count_from idx (length xs)) ++ is) q
      ∙ sym (
          ap (λ n. map (rule_id_of lib name dir) (count_from idx n)) (length-append xs ys)
          ∙ ap (map (rule_id_of lib name dir)) (count_from-append idx (length xs) (length ys))
          ∙ map-append (rule_id_of lib name dir) (count_from idx (length xs))
              (count_from (idx + length xs) (length ys)))

  compile_host_rule-Numbered :
      (idx : ℕ) (rule : HostRule) (out : List CompiledHostRule)
      → compile_host_rule lib name dir idx rule ≡ ok out
      → Numbered lib name dir idx out
  unfolding compile_host_rule
  compile_host_rule-Numbered idx rule out h =
      let (action, p, h') = bind-ok (convert_action rule.action) _ out h in
      let (cidrs, q, h'') = bind-ok (parse_host_cidrs lib.parse_cidr rule.cidrs) _ out h' in
      rw (← ok_inj h'') (
        number_rules-Numbered action (convert_protocol rule.protocol) idx
          (pairs_of lib cidrs rule.ports))

  compile_rules_from-Numbered :
      (idx : ℕ) (rules : List HostRule) (out : List CompiledHostRule)
      → compile_rules_from lib name dir idx rules ≡ ok out
      → Numbered lib name dir idx out
  unfolding compile_rules_from
  compile_rules_from-Numbered idx [] out h = rw (← ok_inj h) refl
  compile_rules_from-Numbered idx (rule ∷ rules) out h =
      let (first, p, h') = bind-ok (compile_host_rule lib name dir idx rule) _ out h in
      let (rest, q, h'') =
        bind-ok (compile_rules_from lib name dir (idx + length first) rules) _ out h' in
      rw (← ok_inj h'') (
        append-Numbered idx first rest (compile_host_rule-Numbered idx rule first p)
          (compile_rules_from-Numbered (idx + length first) rules rest q))

-- What a policy compiles to, where it compiles: rules for ingress and then rules for egress, under the
-- name of the policy. In each direction the IDs count up from 0, and rule after rule there is, for
-- each network that its CIDRs parse to and each of its ranges of ports, in their order, one with these,
-- with the number of the rule's action and of its protocol. A rule with no CIDR is for all
-- addresses, and one that has no range with a start from 0 to 65535 is for all ports.
pub compile_host_policy-Numbered :
    (lib : Library) (policy : HostEndpointPolicy) (out : List CompiledHostRule)
    → compile_host_policy lib (some policy) ≡ ok out
    → (ins : List CompiledHostRule) × (outs : List CompiledHostRule) × (ins ++ outs ≡ out)
      × Numbered lib policy.name direction_ingress 0 ins
      × Numbered lib policy.name direction_egress 0 outs
      × AllLaidOut lib policy.name direction_ingress policy.ingress ins
      × AllLaidOut lib policy.name direction_egress policy.egress outs
unfolding compile_host_policy compile_rules
compile_host_policy-Numbered lib policy out h =
    let (ins, p, h') =
      bind-ok (compile_rules_from lib policy.name direction_ingress 0 policy.ingress) _ out h in
    let (outs, q, h'') =
      bind-ok (compile_rules_from lib policy.name direction_egress 0 policy.egress) _ out h' in
    (
      ins,
      outs,
      ok_inj h'',
      compile_rules_from-Numbered lib policy.name direction_ingress 0 policy.ingress ins p,
      compile_rules_from-Numbered lib policy.name direction_egress 0 policy.egress outs q,
      compile_rules_from-AllLaidOut lib policy.name direction_ingress 0 policy.ingress ins p,
      compile_rules_from-AllLaidOut lib policy.name direction_egress 0 policy.egress outs q,
    )
