-- ===== src/Policy/Extended/Ending.antt =====
-- When the compiler of internal/policy/extended.go ends.
use novanet.Base.{
  ℕ, ◌+◌, ◌-◌, ◌<◌, ◌≡◌, ◌≢◌, refl, ap, inl, inr, Bool, true, false, Option, none, some, List, [],
  ◌∷◌, ◌++◌, leb, ltb, arith, dec_lt, dec_le, Option-cases, Bool-cases,
}
use novanet.Base.Int.{ℤ, pos, negsuc}
use novanet.Base.Members.{In, is_nil}
use novanet.Policy.{CompiledRule, PolicyType, has_policy_type, ingress, egress, wildcard_identity}
use novanet.Policy.Peers.{selector_to_identities}
use novanet.Policy.Ports.{protocol_or_tcp}
use novanet.Policy.Compiler.{deny_rule}
use novanet.Policy.Extended.{
  NovaNetworkPolicyPort, NovaNetworkPolicyRule, NovaNetworkPolicy, as_port, expand_range,
  expand_port, resolve_extended_port, resolve_extended_ports, collect,
}
use novanet.Policy.Extended.Ports.{expand-count_from}
use novanet.Policy.Extended.Compile.{
  ExtendedCompiler, compile_directional_rule, extended_part, extended_target,
  compile_extended_policy,
}

abbrev pub Ends {ℓ} : {A : Type ℓ} → Option A → Type ℓ
Ends {A = A} o = (a : A) × (o ≡ some a)

-- A loop ends if its body ends on each element.
collect-Ends :
    {A B : Type 0} (f : A → Option (List B)) (xs : List A)
    → ((x : A) → In x xs → Ends (f x))
    → Ends (collect f xs)
collect-Ends f [] h = ([], refl)
collect-Ends f (x ∷ xs) h =
    let (ys, e) = h x (inl refl) in
    let (zs, e') = collect-Ends f xs (λ y m. h y (inr m)) in (ys ++ zs, rw (e, e') refl)

-- No port of the rule ends a range at the largest uint16.
abbrev pub EndsBelow : NovaNetworkPolicyRule → Type 0
EndsBelow rule = (p : NovaNetworkPolicyPort) → In p rule.ports → p.end_port ≢ some (pos 65535)

module _ (fuel : ℕ) (enough : 100 < fuel) where
  expand_range-Ends : (proto s e : ℕ) → e < 65535 → Ends (expand_range fuel proto s e)
  unfolding expand_range
  expand_range-Ends proto s e b = elim (dec_lt e s) [
    | yes l ↦ let order : ltb e s ≡ true = ground arith in ([], rw order refl)
    | no l ↦ elim (dec_lt 100 (e + 1 - s)) [
      | yes k ↦
          let order : ltb e s ≡ false = ground arith in
          let large : ltb 100 (e + 1 - s) ≡ true = ground arith in
          rw (expand_range, order, large) (_, refl)
      | no k ↦
          let order : ltb e s ≡ false = ground arith in
          let small : ltb 100 (e + 1 - s) ≡ false = ground arith in
          rw
            (
              expand_range,
              order,
              small,
              expand-count_from (e + 1 - s) fuel proto s e (omega arith) b (omega arith),
            )
            (_, refl)
    ]
  ]

  expand_port-Ends :
      (proto s : ℕ) (end_port : Option ℤ)
      → end_port ≢ some (pos 65535)
      → Ends (expand_port fuel proto s end_port)
  unfolding expand_port as_port
  expand_port-Ends proto s none h = (_, refl)
  expand_port-Ends proto s (some (negsuc e)) h = (_, refl)
  expand_port-Ends proto s (some (pos e)) h = elim (dec_le e 65535) [
    | yes l ↦
        let fits : leb e 65535 ≡ true = ground arith in
        let below : e ≢ 65535 = λ q. h (ap (λ n. some (pos n)) q) in
        rw (expand_port, as_port, fits) (expand_range-Ends proto s e (omega arith))
    | no l ↦
        let large : leb e 65535 ≡ false = ground arith in rw (expand_port, as_port, large) (_, refl)
  ]

  resolve_extended_port-Ends :
      (p : NovaNetworkPolicyPort)
      → p.end_port ≢ some (pos 65535)
      → Ends (resolve_extended_port fuel p)
  unfolding resolve_extended_port
  resolve_extended_port-Ends p h = elim (Option-cases p.port) [
    | inl e ↦ rw (resolve_extended_port, e) (_, refl)
    | inr (n, e) ↦ elim (Option-cases (as_port n)) [
      | inl q ↦ ([], ground (arith, e, q))
      | inr (s, q) ↦
          let (pps, r) = expand_port-Ends (protocol_or_tcp p.protocol) s p.end_port h in
          (pps, ground (arith, e, q, r))
    ]
  ]

  module _ (c : ExtendedCompiler) where
    compile_directional_rule-Ends :
        (rule : NovaNetworkPolicyRule) (id : ℕ) (is_egress : Bool) (nnp : NovaNetworkPolicy)
        → EndsBelow rule
        → Ends (compile_directional_rule fuel c rule id is_egress nnp.namespace)
    unfolding compile_directional_rule resolve_extended_ports
    compile_directional_rule-Ends rule id is_egress nnp h =
        let (ports, e) =
          collect-Ends (resolve_extended_port fuel) rule.ports
            (λ p m. resolve_extended_port-Ends p (h p m)) in
        rw (compile_directional_rule, resolve_extended_ports, e) (_, refl)

    extended_part-Ends :
        (nnp : NovaNetworkPolicy) (direction : PolicyType) (rules : List NovaNetworkPolicyRule)
        (is_egress : Bool) (deny : CompiledRule) (target : ℕ)
        → ((rule : NovaNetworkPolicyRule) → In rule rules → EndsBelow rule)
        → Ends (extended_part fuel c nnp direction rules is_egress deny target)
    unfolding extended_part
    extended_part-Ends nnp direction rules is_egress deny target h =
        elim (Bool-cases (has_policy_type nnp.policy_types direction)) [
          | inl on ↦ elim (Bool-cases (is_nil rules)) [
            | inl e ↦ rw (extended_part, on, e) (_, refl)
            | inr e ↦
                let (rs, q) =
                  collect-Ends
                    (λ rule. compile_directional_rule fuel c rule target is_egress nnp.namespace)
                    rules
                    (λ rule m.
                      compile_directional_rule-Ends rule target is_egress nnp (h rule m)) in
                (rs, rw (on, e) q)
          ]
          | inr off ↦ rw (extended_part, off) (_, refl)
        ]

    -- With fuel above a hundred, the compilation of a policy ends where no rule has a range of ports
    -- whose last is 65535.
    pub compile_extended_policy-Ends :
        (nnp : NovaNetworkPolicy)
        → ((rule : NovaNetworkPolicyRule) → In rule nnp.ingress_rules → EndsBelow rule)
        → ((rule : NovaNetworkPolicyRule) → In rule nnp.egress_rules → EndsBelow rule)
        → Ends (compile_extended_policy fuel c (some nnp))
    unfolding compile_extended_policy extended_target
    compile_extended_policy-Ends nnp ins outs =
        collect-Ends (extended_target fuel c nnp)
          (selector_to_identities c.resolver nnp.pod_selector nnp.namespace)
          (λ target m.
            let (is, e) =
              extended_part-Ends nnp ingress nnp.ingress_rules false
                (deny_rule wildcard_identity target false nnp.namespace) target ins in
            let (os, e') =
              extended_part-Ends nnp egress nnp.egress_rules true
                (deny_rule target wildcard_identity true nnp.namespace) target outs in
            (is ++ os, rw (e, e') refl))
