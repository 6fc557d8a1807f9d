-- ===== src/HostFirewall/Manager.antt =====
-- `Manager` of internal/hostfirewall/manager.go: the compiled rules by their IDs. Deleting from a map
-- while it is ranged over is a filter.
use novanet.Base.{ℕ, Bool, true, false, List, [], ◌∷◌, map, length, if◌then◌else◌}
use novanet.Base.Assoc.{insert}
use novanet.Base.Text.{Text, text_dec, same_text}
use novanet.HostFirewall.{CompiledHostRule, Direction, direction_ingress, direction_egress}

pub record Manager : Type 0 where
  pub rules : List (Text × CompiledHostRule)

unfoldable pub new_manager : Manager
new_manager = record { rules = [] }

-- The loop that deletes the rules of one policy.
unfoldable pub without_policy :
    Text → List (Text × CompiledHostRule) → List (Text × CompiledHostRule)
without_policy name [] = []
without_policy name ((id, r) ∷ m) =
    let rest = without_policy name m in
    if same_text r.policy_name name then rest else (id, r) ∷ rest

unfoldable pub store_rules :
    List CompiledHostRule → List (Text × CompiledHostRule) → List (Text × CompiledHostRule)
store_rules [] m = m
store_rules (r ∷ rules) m = store_rules rules (insert text_dec r.rule_id r m)

unfoldable pub apply_rules : Manager → List CompiledHostRule → Manager
unfolding without_policy store_rules
apply_rules m [] = m
apply_rules m (r ∷ rules) = record {
  rules = store_rules (r ∷ rules) (without_policy r.policy_name m.rules);
}

unfoldable pub remove_policy : Manager → Text → Manager
unfolding without_policy
remove_policy m name = record { rules = without_policy name m.rules }

unfoldable pub get_host_rules : Manager → List CompiledHostRule
get_host_rules m = map (λ (e : Text × CompiledHostRule). e.1) m.rules

abbrev same_direction : Direction → Direction → Bool
same_direction direction_ingress direction_ingress = true
same_direction direction_ingress direction_egress = false
same_direction direction_egress direction_ingress = false
same_direction direction_egress direction_egress = true

abbrev with_direction : Direction → List CompiledHostRule → List CompiledHostRule
with_direction dir [] = []
with_direction dir (r ∷ rules) =
    let rest = with_direction dir rules in if same_direction r.direction dir then r ∷ rest else rest

unfoldable pub get_host_rules_by_direction : Manager → Direction → List CompiledHostRule
unfolding get_host_rules
get_host_rules_by_direction m dir = with_direction dir (get_host_rules m)

unfoldable pub host_rule_count : Manager → ℕ
host_rule_count m = length m.rules
