-- ===== src/Policy/Ports.antt =====
-- The ports of a rule: `resolvePorts` of internal/policy/compiler.go.
use novanet.Base.{ℕ, Option, none, some, List, [], ◌∷◌, map, ltb, leb, ◌&&◌, if◌then◌else◌}
use novanet.Base.Int.{ℤ, pos, negsuc}
use novanet.Base.Members.{concat_map}
use novanet.Base.Text.{Text, same_text, codes}
use novanet.Policy.{LabelSelector, PortProto, protocol_tcp, protocol_udp, protocol_sctp}

-- `intstr.IntOrString`.
pub data IntOrString : Type 0 where
  number : ℤ → IntOrString
  named : Text → IntOrString

pub record NetworkPolicyPort : Type 0 where
  pub protocol : Option Text
  pub port : Option IntOrString

-- The name of the port, its protocol, the namespace and the selector of the pods.
abbrev pub PortResolver : Type 0
PortResolver = Text → Text → Text → LabelSelector → List ℕ

-- The switch on the name of a protocol, with TCP for every other name.
unfoldable pub protocol_number : Text → ℕ
unfolding same_text
protocol_number name =
    if same_text name (codes "TCP")
    then protocol_tcp
    else if same_text name (codes "UDP")
    then protocol_udp
    else if same_text name (codes "SCTP")
    then protocol_sctp
    else protocol_tcp

-- A protocol that is not given is TCP.
unfoldable pub protocol_or_tcp : Option Text → ℕ
unfolding protocol_number
protocol_or_tcp none = protocol_tcp
protocol_or_tcp (some name) = protocol_number name

abbrev pub core_protocol : Option Text → Text
core_protocol none = codes "TCP"
core_protocol (some name) = name

-- `if pv > 0 && pv <= math.MaxUint16`: any other number is port 0, which is any port.
unfoldable pub numeric_port : ℤ → ℕ
numeric_port (pos n) = if ltb 0 n && leb n 65535 then n else 0
numeric_port (negsuc n) = 0

abbrev pub with_protocol : ℕ → ℕ → PortProto
with_protocol proto port = record { protocol = proto; port = port }

-- A named port, through the resolver. Without one, or with nothing found, the port is skipped.
unfoldable pub resolve_named :
    Option PortResolver → Text → LabelSelector → Option Text → Text → List ℕ
resolve_named none namespace selector protocol name = []
resolve_named (some resolver) namespace selector protocol name =
    resolver name (core_protocol protocol) namespace selector

-- The body of the loop for one port.
unfoldable pub resolve_port :
    Option PortResolver → Text → LabelSelector → NetworkPolicyPort → List PortProto
unfolding protocol_or_tcp numeric_port resolve_named
resolve_port resolver namespace selector p =
    let proto = protocol_or_tcp p.protocol in
    elim p.port [
      | none ↦ with_protocol proto 0 ∷ []
      | some (number n) ↦ with_protocol proto (numeric_port n) ∷ []
      | some (named name) ↦
          map (with_protocol proto) (resolve_named resolver namespace selector p.protocol name)
    ]

unfoldable pub resolve_ports :
    Option PortResolver → List NetworkPolicyPort → Text → LabelSelector → List PortProto
unfolding resolve_port
resolve_ports resolver np_ports namespace selector =
    concat_map (resolve_port resolver namespace selector) np_ports

abbrev pub any_port : PortProto
any_port = record { protocol = 0; port = 0 }

-- `if len(ports) == 0`, of the rules of both compilers.
unfoldable pub or_any_port : List PortProto → List PortProto
or_any_port [] = any_port ∷ []
or_any_port (pp ∷ ports) = pp ∷ ports
