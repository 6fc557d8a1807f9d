-- ===== src/Egress.antt =====
-- internal/egress/manager.go: the rules on the traffic that leaves, by namespace and name. What
-- `net.ParseCIDR` makes of a text is an argument.
pub mod Rules
use novanet.Base.{
  ℕ, Bool, true, Option, none, some, List, [], ◌∷◌, ◌++◌, map, Result, ok, err, length,
}
use novanet.Base.Assoc.{lookup, insert, delete}
use novanet.Ipam.Address.{Ip, IpNet, Text, text_dec}

pub data Error : Type 0 where
  parsing_cidr : Error

pub record Rule : Type 0 where
  pub name : Text
  pub src_identity : ℕ
  pub dst_cidr : Text
  pub protocol : ℕ
  pub dst_port : ℕ
  pub action : ℕ

pub record CompiledEgressRule : Type 0 where
  pub namespace : Text
  pub name : Text
  pub src_identity : ℕ
  pub dst_cidr : IpNet
  pub protocol : ℕ
  pub dst_port : ℕ
  pub action : ℕ

pub record Manager : Type 0 where
  pub node_ip : Ip
  pub cluster_cidr : Option IpNet
  pub masquerade : Bool
  pub rules : List (Text × CompiledEgressRule)

unfoldable pub new_manager : Ip → Option IpNet → Manager
new_manager node_ip cluster_cidr = record {
  node_ip = node_ip;
  cluster_cidr = cluster_cidr;
  masquerade = true;
  rules = [];
}

unfoldable pub set_masquerade_enabled : Manager → Bool → Manager
set_masquerade_enabled m enabled = record m { masquerade = enabled }

-- The namespace, a slash and the name.
unfoldable pub rule_key : Text → Text → Text
rule_key namespace name = namespace ++ 47 ∷ name

unfoldable pub compile_rule : Text → Rule → IpNet → CompiledEgressRule
compile_rule namespace rule cidr = record {
  namespace = namespace;
  name = rule.name;
  src_identity = rule.src_identity;
  dst_cidr = cidr;
  protocol = rule.protocol;
  dst_port = rule.dst_port;
  action = rule.action;
}

unfoldable pub add_egress_rule :
    (Text → Option IpNet) → Manager → Text → Rule → Manager × Result Error (Unit {0})
unfolding compile_rule rule_key
add_egress_rule parse_cidr m namespace rule = elim (parse_cidr rule.dst_cidr) [
  | none ↦ (m, err parsing_cidr)
  | some cidr ↦ (
    record m {
      rules =
          insert text_dec (rule_key namespace rule.name) (compile_rule namespace rule cidr) m.rules;
    },
    ok tt,
  )
]

unfoldable pub remove_egress_rule : Manager → Text → Text → Manager
unfolding rule_key
remove_egress_rule m namespace name = record m {
  rules = delete text_dec (rule_key namespace name) m.rules;
}

unfoldable pub get_rules : Manager → List CompiledEgressRule
get_rules m = map (λ e. e.1) m.rules

unfoldable pub get_rule : Manager → Text → Text → Option CompiledEgressRule
unfolding rule_key
get_rule m namespace name = lookup text_dec (rule_key namespace name) m.rules

unfoldable pub rule_count : Manager → ℕ
rule_count m = length m.rules
