-- ===== src/Examples/Policies.antt =====
-- The policy compilers of internal/policy with one identity and small policies.
use novanet.Base.{
  count_from, ℕ, ◌≡◌, ◌≢◌, ◌↔◌, refl, ap, true, false, none, some, [], ◌∷◌, map, arith, inl, inr,
  sym, ◌∙◌, ◌+◌, ◌-◌, if◌then◌else◌, some_inj,
}
use novanet.Base.Int.{pos}
use novanet.Base.Members.{In}
use novanet.Base.Text.{codes, is_empty}
use novanet.Policy.{empty_selector, ingress}
use novanet.Policy.Peers.{PeerResolver}
use novanet.Policy.Ports.{NetworkPolicyPort, number, named, with_protocol, protocol_or_tcp}
use novanet.Policy.Compiler.{PolicyRule, NetworkPolicy, Compiler, compile_policy}
use novanet.Policy.Meaning.{Flow, Allows, Permits, AllResolve, Denies, DeniesByDefault}
use novanet.Policy.Meaning.Policies.{compile_policy-Permits}
use novanet.Policy.Extended.{
  NovaNetworkPolicyPort, NovaNetworkPolicyRule, NovaNetworkPolicy, resolve_extended_port,
}
use novanet.Policy.Extended.Ports.{resolve_extended_port-count_from, resolve_extended_port_forever}
use novanet.Policy.Extended.Compile.{ExtendedCompiler, compile_extended_policy}
use novanet.Policy.Extended.Ending.{Ends, EndsBelow, compile_extended_policy-Ends}

-- No pod is there, and every selector selects all.
abbrev resolver : PeerResolver
resolver = record {
  identity_allocator = record {
    id_to_labels = (5, (codes "app", codes "web") ∷ []) ∷ [];
    ref_count = (5, 1) ∷ [];
    labels_to_id = [];
  };
  as_selector = λ selector. some (λ labels. true);
  namespace_resolver = none;
}

abbrev compiler : Compiler
compiler = record {
  resolver = resolver;
  port_resolver = none;
  valid_cidr = λ t. if is_empty t then false else true;
}

abbrev web_port : NetworkPolicyPort
web_port = record { protocol = some (codes "TCP"); port = some (number (pos 80)) }

abbrev named_port : NetworkPolicyPort
named_port = record { protocol = none; port = some (named (codes "http")) }

abbrev rule : PolicyRule
rule = record { peers = []; ports = web_port ∷ [] }

abbrev named_rule : PolicyRule
named_rule = record rule { ports = named_port ∷ [] }

abbrev policy : NetworkPolicy
policy = record {
  namespace = codes "shop";
  pod_selector = empty_selector;
  policy_types = ingress ∷ [];
  ingress_rules = rule ∷ [];
  egress_rules = [];
}

abbrev flow : Flow
flow = record { src = 9; dst = 5; protocol = 6; port = 80; is_egress = false }

web_rule-AllResolve : AllResolve compiler (codes "shop") empty_selector (rule ∷ [])
web_rule-AllResolve r m p n = elim m [
  | inl q ↦ elim (rw (← q) at n) [
    | inl e ↦ rw (← e) (80, refl, omega arith, omega arith)
    | inr z ↦ absurd z
  ]
  | inr z ↦ absurd z
]

no_rule-AllResolve : AllResolve compiler (codes "shop") empty_selector []
no_rule-AllResolve r m p n = absurd m

compile_policy-Permits_example :
    (Allows (compile_policy compiler (some policy)) flow ↔ Permits compiler policy flow)
    × ((src dst : ℕ)
        → Denies (compile_policy compiler (some policy)) src dst
          ↔ DeniesByDefault compiler policy src dst)
compile_policy-Permits_example =
    compile_policy-Permits compiler refl policy flow web_rule-AllResolve no_rule-AllResolve

abbrev range : NovaNetworkPolicyPort
range = record { protocol = none; port = some (pos 8000); end_port = some (pos 8002) }

abbrev last_range : NovaNetworkPolicyPort
last_range = record { protocol = none; port = some (pos 65500); end_port = some (pos 65535) }

resolve_extended_port-count_from_example :
    resolve_extended_port 101 range
    ≡ some (map (with_protocol (protocol_or_tcp none)) (count_from 8000 (8002 + 1 - 8000)))
resolve_extended_port-count_from_example =
    resolve_extended_port-count_from range 8000 8002 refl refl 101 (omega arith) (omega arith)
      (omega arith) (omega arith)

resolve_extended_port_forever_example : resolve_extended_port 1000 last_range ≡ none
resolve_extended_port_forever_example =
    resolve_extended_port_forever last_range 65500 65535 refl refl 1000 (omega arith) (omega arith)
      refl

abbrev extended_rule : NovaNetworkPolicyRule
extended_rule = record { ports = range ∷ []; peers = [] }

abbrev extended_policy : NovaNetworkPolicy
extended_policy = record {
  namespace = codes "shop";
  pod_selector = empty_selector;
  policy_types = [];
  ingress_rules = extended_rule ∷ [];
  egress_rules = [];
}

abbrev extended_compiler : ExtendedCompiler
extended_compiler = record {
  resolver = resolver;
  valid_cidr = λ t. if is_empty t then false else true;
  fqdn_cidrs = λ t. [];
}

pos_inj : (a b : ℕ) → pos a ≡ pos b → a ≡ b
pos_inj a b e = cc

ends_differ : some (pos 8002) ≢ some (pos 65535)
ends_differ q = let n = pos_inj 8002 65535 (some_inj q) in absurd (omega arith)

range_ends : EndsBelow extended_rule
range_ends p m = elim m [
  | inl e ↦ λ q. absurd (ends_differ (ap (λ (r : NovaNetworkPolicyPort). r.end_port) e ∙ q))
  | inr k ↦ absurd k
]

rules_end : (r : NovaNetworkPolicyRule) → In r (extended_rule ∷ []) → EndsBelow r
rules_end r m = elim m [ inl e ↦ rw (sym e) range_ends | inr k ↦ absurd k ]

compile_extended_policy-Ends_example :
    Ends (compile_extended_policy 101 extended_compiler (some extended_policy))
compile_extended_policy-Ends_example =
    compile_extended_policy-Ends 101 (omega arith) extended_compiler extended_policy rules_end
      (λ r m. absurd m)
