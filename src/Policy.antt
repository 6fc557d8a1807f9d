-- ===== src/Policy.antt =====
-- internal/policy: network policies compiled into rules on identities. The Kubernetes types that the
-- compilers read are records of the fields that they read; a pointer that may be nil is an option.
pub mod Rules
pub mod Peers
pub mod Ports
pub mod Compiler
pub mod Meaning
pub mod Named
pub mod Extended
pub mod Dns
use novanet.Base.{ℕ, Bool, true, false, Option, none, some, List, [], ◌∷◌, if◌then◌else◌}
use novanet.Base.Int.{ℤ}
use novanet.Base.Text.{Text, same_text}
use novanet.Identity.Labels.{Labels}

abbrev pub action_deny : ℕ
action_deny = 0

abbrev pub action_allow : ℕ
action_allow = 1

abbrev pub protocol_any : ℕ
protocol_any = 0

abbrev pub protocol_tcp : ℕ
protocol_tcp = 6

abbrev pub protocol_udp : ℕ
protocol_udp = 17

abbrev pub protocol_sctp : ℕ
protocol_sctp = 132

abbrev pub wildcard_identity : ℕ
wildcard_identity = 0

-- An empty `cidr` is a rule on identities.
pub record CompiledRule : Type 0 where
  pub src_identity : ℕ
  pub dst_identity : ℕ
  pub protocol : ℕ
  pub dst_port : ℕ
  pub action : ℕ
  pub cidr : Text
  pub is_egress : Bool
  pub namespace : Text

pub record CidrEntry : Type 0 where
  pub cidr : Text
  pub action : ℕ

pub record PortProto : Type 0 where
  pub protocol : ℕ
  pub port : ℕ

-- `metav1.LabelSelector`.
pub record Requirement : Type 0 where
  pub key : Text
  pub operator : Text
  pub values : List Text

pub record LabelSelector : Type 0 where
  pub match_labels : Labels
  pub match_expressions : List Requirement

abbrev pub empty_selector : LabelSelector
empty_selector = record { match_labels = []; match_expressions = [] }

pub record IpBlock : Type 0 where
  pub cidr : Text
  pub except : List Text

-- `v1.PolicyType`, and the `PolicyType` of the extended policies.
pub data PolicyType : Type 0 where
  ingress egress : PolicyType

unfoldable pub same_type : PolicyType → PolicyType → Bool
same_type ingress ingress = true
same_type ingress egress = false
same_type egress ingress = false
same_type egress egress = true

unfoldable pub contains_type : List PolicyType → PolicyType → Bool
unfolding same_type
contains_type [] t = false
contains_type (u ∷ types) t = if same_type u t then true else contains_type types t

-- `hasPolicyType` and `hasExtendedPolicyType`, on the types that a policy names.
unfoldable pub has_policy_type : List PolicyType → PolicyType → Bool
unfolding contains_type same_type
has_policy_type [] t = same_type t ingress
has_policy_type (u ∷ types) t = contains_type (u ∷ types) t
