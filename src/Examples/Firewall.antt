-- ===== src/Examples/Firewall.antt =====
-- The host firewall of internal/hostfirewall with two policies.
use novanet.Base.{◌≡◌, ◌++◌, refl, none, some, List, [], ◌∷◌, ok, count_from}
use novanet.Base.Assoc.{lookup}
use novanet.Base.Int.{pos}
use novanet.Base.Text.{Text, text_dec, codes, same_text_iff}
use novanet.Policy.{action_allow, protocol_tcp}
use novanet.HostFirewall.{
  direction_ingress, direction_egress, HostRule, HostEndpointPolicy, CompiledHostRule, Library,
  compile_host_policy, rule_id_of, convert_action, convert_protocol, compile_rules,
  compile_rules_from, compile_host_rule, number_rules, pairs_of, expand_ports, parse_host_cidrs,
  int32_to_uint16,
}
use novanet.HostFirewall.Manager.{Manager, apply_rules}
use novanet.HostFirewall.Wanted.{AllLaidOut}
use novanet.HostFirewall.Numbering.{Numbered, compile_host_policy-Numbered}
use novanet.HostFirewall.Applying.{IsValid, last_with, or_else, unless_of, apply_rules_lem}
use novanet.Examples.Fixtures.{network}

-- Each text is one network, and a number is written as that many bytes.
abbrev library : Library
library = record {
  parse_cidr = λ t. some network;
  all_net = network;
  decimal = λ n. count_from 48 n;
}

abbrev web_rule : HostRule
web_rule = record {
  action = codes "Allow";
  protocol = some (codes "TCP");
  cidrs = [];
  ports =
      record { port = pos 80; end_port = none } ∷ record { port = pos 443; end_port = none } ∷ [];
}

abbrev policy : HostEndpointPolicy
policy = record { name = codes "web"; ingress = web_rule ∷ []; egress = [] }

abbrev rule : Text → Text → CompiledHostRule
rule id name = record {
  rule_id = id;
  direction = direction_ingress;
  protocol = 6;
  cidr = network;
  port = 80;
  end_port = 0;
  action = 1;
  policy_name = name;
}

abbrev manager : Manager
manager = record { rules = (codes "a", rule (codes "a") (codes "web")) ∷ [] }

manager-IsValid : IsValid manager
unfolding lookup
manager-IsValid = (refl, tt)

abbrev web_rules : List CompiledHostRule
web_rules =
    rule (rule_id_of library (codes "web") direction_ingress 0) (codes "web")
    ∷ record (rule (rule_id_of library (codes "web") direction_ingress 1) (codes "web")) {
      port = 443;
    }
    ∷ []

allowed : convert_action (codes "Allow") ≡ ok action_allow
unfolding convert_action
allowed = rw ((same_text_iff (codes "Allow") (codes "Allow")).1 refl) refl

over_tcp : convert_protocol (some (codes "TCP")) ≡ protocol_tcp
unfolding convert_protocol
over_tcp = rw ((same_text_iff (codes "TCP") (codes "TCP")).1 refl) refl

one_rule : compile_host_rule library (codes "web") direction_ingress 0 web_rule ≡ ok web_rules
unfolding compile_host_rule number_rules pairs_of expand_ports parse_host_cidrs int32_to_uint16
one_rule = rw (compile_host_rule, allowed, over_tcp) refl

all_rules :
    compile_rules_from library (codes "web") direction_ingress 0 (web_rule ∷ []) ≡ ok web_rules
unfolding compile_rules_from
all_rules = rw (compile_rules_from, one_rule) refl

compiles : compile_host_policy library (some policy) ≡ ok web_rules
unfolding compile_host_policy compile_rules compile_rules_from
compiles = rw (compile_host_policy, all_rules) refl

compile_host_policy-Numbered_example :
    (ins : List CompiledHostRule) × (outs : List CompiledHostRule) × (ins ++ outs ≡ web_rules)
    × Numbered library (codes "web") direction_ingress 0 ins
    × Numbered library (codes "web") direction_egress 0 outs
    × AllLaidOut library (codes "web") direction_ingress policy.ingress ins
    × AllLaidOut library (codes "web") direction_egress policy.egress outs
compile_host_policy-Numbered_example =
    compile_host_policy-Numbered library policy web_rules compiles

apply_rules_example :
    IsValid (apply_rules manager web_rules)
    × ((id : Text)
        → lookup text_dec id (apply_rules manager web_rules).rules
          ≡ or_else
              (last_with id web_rules)
              (unless_of (codes "web") (lookup text_dec id manager.rules)))
apply_rules_example =
    apply_rules_lem manager
      (rule (rule_id_of library (codes "web") direction_ingress 0) (codes "web"))
      (record (rule (rule_id_of library (codes "web") direction_ingress 1) (codes "web")) {
        port = 443;
      }
        ∷ [])
      manager-IsValid
