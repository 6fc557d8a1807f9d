-- ===== src/Examples/Egresses.antt =====
-- Rules of internal/egress/manager.go.
use novanet.Base.{◌≡◌, ◌⊎◌, none, some, [], ◌∷◌, ok, err, arith}
use novanet.Ipam.Address.{IpNet}
use novanet.Egress.{parsing_cidr, Rule, Manager, new_manager, add_egress_rule}
use novanet.Egress.Rules.{HasNoSlash, Sets, add_egress_rule_lem}
use novanet.Examples.Fixtures.{network}

abbrev rule : Rule
rule = record {
  name = 119 ∷ 47 ∷ [];
  src_identity = 5;
  dst_cidr = 99 ∷ [];
  protocol = 6;
  dst_port = 443;
  action = 1;
}

abbrev egress : Manager
egress = new_manager [] (some network)

clean : HasNoSlash (110 ∷ 115 ∷ [])
clean = ((λ e. absurd (omega arith)), ((λ e. absurd (omega arith)), tt))

add_egress_rule_example :
    ((some network ≡ none)
      × (add_egress_rule (λ t. some network) egress (110 ∷ 115 ∷ []) rule
          ≡ (egress, err parsing_cidr)))
    ⊎ ((m : Manager) × (cidr : IpNet) × (some network ≡ some cidr)
        × (add_egress_rule (λ t. some network) egress (110 ∷ 115 ∷ []) rule ≡ (m, ok tt))
        × Sets egress m (110 ∷ 115 ∷ []) (119 ∷ 47 ∷ []) (
            some (record {
              namespace = 110 ∷ 115 ∷ [];
              name = 119 ∷ 47 ∷ [];
              src_identity = 5;
              dst_cidr = cidr;
              protocol = 6;
              dst_port = 443;
              action = 1;
            })))
add_egress_rule_example = add_egress_rule_lem (λ t. some network) egress (110 ∷ 115 ∷ []) rule clean
