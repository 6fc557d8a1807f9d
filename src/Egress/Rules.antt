-- ===== src/Egress/Rules.antt =====
-- `AddEgressRule` and `RemoveEgressRule` of internal/egress/manager.go.
use novanet.Base.{◌≡◌, ◌≢◌, ◌⊎◌, inl, inr, refl, Option, none, some, [], ◌∷◌, ok, err, Option-cases}
use novanet.Base.Assoc.{
  insert, lookup-insert_self, lookup-insert_ne, lookup-delete_self, lookup-delete_ne,
}
use novanet.Ipam.Address.{IpNet, Text, text_dec}
use novanet.Egress.{
  parsing_cidr, Rule, CompiledEgressRule, Manager, rule_key, compile_rule, add_egress_rule,
  remove_egress_rule, get_rule,
}

-- No byte of a text is a slash, as in the name of a namespace.
abbrev pub HasNoSlash : Text → Type 0
HasNoSlash [] = Unit {0}
HasNoSlash (c ∷ cs) = (c ≢ 47) × HasNoSlash cs

-- Up to the first slash a key is the namespace, and after it the name.
rule_key_inj :
    (s t : Text) (name other : Text)
    → HasNoSlash s
    → HasNoSlash t
    → rule_key s name ≡ rule_key t other
    → (s ≡ t) × (name ≡ other)
unfolding rule_key
rule_key_inj [] [] name other h k e = (refl, cc)
rule_key_inj [] (d ∷ t) name other h k e = absurd (k.0 (cc))
rule_key_inj (c ∷ s) [] name other h k e = absurd (h.0 (cc))
rule_key_inj (c ∷ s) (d ∷ t) name other h k e =
    let rest : rule_key s name ≡ rule_key t other = cc in
    let same : c ≡ d = cc in let (p, q) = rule_key_inj s t name other h.1 k.1 rest in (cc, q)

-- One rule of one namespace is set or removed, and no other.
abbrev pub Sets : Manager → Manager → Text → Text → Option CompiledEgressRule → Type 0
Sets m m' namespace name rule =
    (get_rule m' namespace name ≡ rule)
    × ((s other : Text)
        → HasNoSlash s
        → ((namespace ≡ s) × (name ≡ other) → ⊥)
        → get_rule m' s other ≡ get_rule m s other)

-- `AddEgressRule` for a namespace without a slash stores under the namespace and the rule's name that
-- namespace, the rule's name, source identity, protocol, port and action and the network that its
-- CIDR parses to, and leaves what is stored under all others; a CIDR that does not parse is an error that changes nothing.
pub add_egress_rule_lem :
    (parse_cidr : Text → Option IpNet) (m : Manager) (namespace : Text) (rule : Rule)
    → HasNoSlash namespace
    → ((parse_cidr rule.dst_cidr ≡ none)
        × (add_egress_rule parse_cidr m namespace rule ≡ (m, err parsing_cidr)))
      ⊎ ((m' : Manager) × (cidr : IpNet) × (parse_cidr rule.dst_cidr ≡ some cidr)
          × (add_egress_rule parse_cidr m namespace rule ≡ (m', ok tt))
          × Sets m m' namespace rule.name (
              some (record {
                namespace = namespace;
                name = rule.name;
                src_identity = rule.src_identity;
                dst_cidr = cidr;
                protocol = rule.protocol;
                dst_port = rule.dst_port;
                action = rule.action;
              })))
unfolding add_egress_rule get_rule compile_rule
add_egress_rule_lem parse_cidr m namespace rule clean =
    elim (Option-cases (parse_cidr rule.dst_cidr)) [
      | inl e ↦ inl (e, rw (e, add_egress_rule))
      | inr (cidr, e) ↦
          let key : Text = rule_key namespace rule.name in
          let compiled : CompiledEgressRule = record {
            namespace = namespace;
            name = rule.name;
            src_identity = rule.src_identity;
            dst_cidr = cidr;
            protocol = rule.protocol;
            dst_port = rule.dst_port;
            action = rule.action;
          } in
          inr (
            record m { rules = insert text_dec key compiled m.rules },
            cidr,
            e,
            rw (e, add_egress_rule),
            (
              lookup-insert_self text_dec key compiled m.rules,
              λ s other h ne.
                  lookup-insert_ne text_dec key (rule_key s other) compiled m.rules
                    (λ q. ne (rule_key_inj namespace s rule.name other clean h q)),
            ),
          )
    ]

-- `RemoveEgressRule` for a namespace without a slash removes that rule and no other.
pub remove_egress_rule-Sets :
    (m : Manager) (namespace name : Text)
    → HasNoSlash namespace
    → Sets m (remove_egress_rule m namespace name) namespace name none
unfolding remove_egress_rule get_rule
remove_egress_rule-Sets m namespace name clean = (
  lookup-delete_self text_dec (rule_key namespace name) m.rules,
  λ s other h ne.
      lookup-delete_ne text_dec (rule_key namespace name) (rule_key s other) m.rules
        (λ q. ne (rule_key_inj namespace s name other clean h q)),
)
