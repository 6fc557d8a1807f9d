-- ===== src/HostFirewall/Applying.antt =====
-- What the operations of internal/hostfirewall/manager.go do to the rules.
use mathlib.Core.Logic.{ite, if_pos, if_neg}
use novanet.Base.{
  ◌≡◌, refl, ◌∙◌, inl, inr, Option, none, some, List, [], ◌∷◌, if◌then◌else◌, ok, Option-cases,
  Bool-cases,
}
use novanet.Base.Assoc.{
  lookup, insert, Distinct, insert-Distinct, lookup-insert_self, lookup-insert_ne,
}
use novanet.Base.Text.{Text, text_dec, same_text}
use novanet.HostFirewall.{
  CompiledHostRule, HostEndpointPolicy, Library, compile_host_policy, compile_rules,
  compile_rules_from,
}
use novanet.HostFirewall.Manager.{Manager, without_policy, store_rules, apply_rules, remove_policy}

-- The last rule with this ID.
abbrev pub last_with : Text → List CompiledHostRule → Option CompiledHostRule
last_with id [] = none
last_with id (r ∷ rules) = elim (last_with id rules) [
  | some q ↦ some q
  | none ↦ ite (text_dec r.rule_id id) (some r) none
]

abbrev pub or_else {ℓ} : {A : Type ℓ} → Option A → Option A → Option A
or_else none o = o
or_else (some a) o = some a

-- A rule, unless it is of this policy.
abbrev pub unless_of : Text → Option CompiledHostRule → Option CompiledHostRule
unless_of name none = none
unless_of name (some r) = if same_text r.policy_name name then none else some r

abbrev pub IsValid : Manager → Type 0
IsValid m = Distinct text_dec m.rules

store_rules-lookup :
    (id : Text) (rules : List CompiledHostRule) (m : List (Text × CompiledHostRule))
    → lookup text_dec id (store_rules rules m) ≡ or_else (last_with id rules) (lookup text_dec id m)
unfolding store_rules
store_rules-lookup id [] m = refl
store_rules-lookup id (r ∷ rules) m =
    let rest = store_rules-lookup id rules (insert text_dec r.rule_id r m) in
    elim (Option-cases (last_with id rules)) [
      | inr (q, e) ↦ rest ∙ rw e refl
      | inl e ↦ elim (text_dec r.rule_id id) [
        | yes p ↦
            rest
            ∙ rw (e, if_pos (text_dec r.rule_id id) p)
                (rw (← p) (lookup-insert_self text_dec r.rule_id r m))
        | no p ↦
            rest
            ∙ rw (e, if_neg (text_dec r.rule_id id) p)
                (lookup-insert_ne text_dec r.rule_id id r m p)
      ]
    ]

store_rules-Distinct :
    (rules : List CompiledHostRule) (m : List (Text × CompiledHostRule))
    → Distinct text_dec m
    → Distinct text_dec (store_rules rules m)
unfolding store_rules
store_rules-Distinct [] m d = d
store_rules-Distinct (r ∷ rules) m d =
    store_rules-Distinct rules (insert text_dec r.rule_id r m)
      (insert-Distinct text_dec r.rule_id r m d)

without_policy-lookup :
    (name id : Text) (m : List (Text × CompiledHostRule))
    → Distinct text_dec m
    → lookup text_dec id (without_policy name m) ≡ unless_of name (lookup text_dec id m)
unfolding without_policy lookup
without_policy-lookup name id [] d = refl
without_policy-lookup name id ((j, r) ∷ m) d =
    let rest = without_policy-lookup name id m d.1 in
    elim (Bool-cases (same_text r.policy_name name)) [
      | inl s ↦ elim (text_dec j id) [
        | yes p ↦ rw (s, if_pos (text_dec j id) p) (rest ∙ rw (rw p at d.0) (rw s refl))
        | no p ↦ rw (s, if_neg (text_dec j id) p) rest
      ]
      | inr s ↦ elim (text_dec j id) [
        | yes p ↦ rw (s, if_pos (text_dec j id) p, if_pos (text_dec j id) p) (rw s refl)
        | no p ↦ rw (s, if_neg (text_dec j id) p, if_neg (text_dec j id) p) rest
      ]
    ]

without_policy-Distinct :
    (name : Text) (m : List (Text × CompiledHostRule))
    → Distinct text_dec m
    → Distinct text_dec (without_policy name m)
unfolding without_policy
without_policy-Distinct name [] d = d
without_policy-Distinct name ((j, r) ∷ m) d = elim (Bool-cases (same_text r.policy_name name)) [
  | inl s ↦ rw s (without_policy-Distinct name m d.1)
  | inr s ↦
      rw s (without_policy-lookup name j m d.1 ∙ rw d.0 refl, without_policy-Distinct name m d.1)
]

-- ApplyRules of rules that begin with one of a policy leaves under each ID the last of them with that ID,
-- and else what was there, unless it is of that policy. The IDs stay distinct.
pub apply_rules_lem :
    (m : Manager) (r : CompiledHostRule) (rules : List CompiledHostRule)
    → IsValid m
    → IsValid (apply_rules m (r ∷ rules))
      × ((id : Text)
          → lookup text_dec id (apply_rules m (r ∷ rules)).rules
            ≡ or_else
                (last_with id (r ∷ rules))
                (unless_of r.policy_name (lookup text_dec id m.rules)))
unfolding apply_rules
apply_rules_lem m r rules d =
    let kept = without_policy r.policy_name m.rules in
    (
      store_rules-Distinct (r ∷ rules) kept (without_policy-Distinct r.policy_name m.rules d),
      λ id.
          store_rules-lookup id (r ∷ rules) kept
          ∙ rw (without_policy-lookup r.policy_name id m.rules d) refl,
    )

-- RemovePolicy leaves every rule but those of the policy, and the IDs stay distinct.
pub remove_policy_lem :
    (m : Manager) (name : Text)
    → IsValid m
    → IsValid (remove_policy m name)
      × ((id : Text)
          → lookup text_dec id (remove_policy m name).rules
            ≡ unless_of name (lookup text_dec id m.rules))
unfolding remove_policy
remove_policy_lem m name d =
    (without_policy-Distinct name m.rules d, λ id. without_policy-lookup name id m.rules d)

-- A policy that has no rule compiles to no rule, and ApplyRules then leaves all rules, those that the
-- policy had before as well.
pub apply_no_rule :
    (lib : Library) (policy : HostEndpointPolicy) (m : Manager)
    → policy.ingress ≡ []
    → policy.egress ≡ []
    → (compile_host_policy lib (some policy) ≡ ok []) × (apply_rules m [] ≡ m)
unfolding compile_host_policy compile_rules compile_rules_from apply_rules
apply_no_rule lib policy m i e = (rw (i, e) refl, refl)
