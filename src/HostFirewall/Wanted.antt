-- ===== src/HostFirewall/Wanted.antt =====
-- What internal/hostfirewall/manager.go is to make of the fields of a rule, and that it does.
use novanet.Base.{
  ℕ, ◌≡◌, ◌≢◌, ◌⊎◌, inl, inr, refl, ap, false, Option, none, some, List, [], ◌∷◌, ◌++◌, map, leb,
  if◌then◌else◌, Result, ok, err, Bool-cases, Option-cases,
}
use novanet.Base.Int.{ℤ, pos, negsuc}
use novanet.Base.Members.{concat_map}
use novanet.Base.Text.{Text, codes, same_text, same_text_iff}
use novanet.Ipam.Address.{IpNet}
use novanet.HostFirewall.{
  HostError, Direction, HostPort, HostRule, CompiledHostRule, Library, PortRange, convert_action,
  convert_protocol, parse_host_cidrs, expand_ports, end_or_zero, int32_to_uint16, or_default,
  Compiled,
}

-- The number of an action: 1 to allow, 0 to deny.
abbrev IsAction : Text → ℕ → Type 0
IsAction text n = ((text ≡ codes "Allow") × (n ≡ 1)) ⊎ ((text ≡ codes "Deny") × (n ≡ 0))

-- The number of a protocol, which is 0 for none and for any other name.
abbrev IsProtocol : Option Text → ℕ → Type 0
IsProtocol none n = n ≡ 0
IsProtocol (some name) n =
    ((name ≡ codes "TCP") × (n ≡ 6))
    ⊎ ((name ≡ codes "UDP") × (n ≡ 17))
    ⊎ ((name ≡ codes "SCTP") × (n ≡ 132))
    ⊎ ((name ≢ codes "TCP") × (name ≢ codes "UDP") × (name ≢ codes "SCTP") × (n ≡ 0))

-- The end of a range of ports, which is 0 where it is missing or no port.
abbrev end_of : Option ℤ → ℕ
end_of none = 0
end_of (some (pos n)) = if leb n 65535 then n else 0
end_of (some (negsuc n)) = 0

abbrev range_of : ℤ → Option ℤ → List PortRange
range_of (pos n) end = if leb n 65535 then record { port = n; end_port = end_of end } ∷ [] else []
range_of (negsuc n) end = []

abbrev all_ranges : List HostPort → List PortRange
all_ranges ports = concat_map (λ p. range_of p.port p.end_port) ports

-- The ranges of ports of a rule: those that start at no port are dropped, and where none is left
-- there is one for all ports.
abbrev pub ranges_of : List HostPort → List PortRange
ranges_of ports = or_default (record { port = 0; end_port = 0 }) (all_ranges ports)

-- A rule without its ID.
abbrev pub content : CompiledHostRule → CompiledHostRule
content r = record r { rule_id = [] }

-- What one rule is laid out to: its action and protocol for each of its networks, or for all addresses
-- where it has none, and for each range of ports.
abbrev pub LaysOut : Library → Text → Direction → HostRule → List CompiledHostRule → Type 0
LaysOut lib name dir rule out =
    (action : ℕ) × (proto : ℕ) × (nets : List IpNet) × IsAction rule.action action
    × IsProtocol rule.protocol proto
    × (map lib.parse_cidr rule.cidrs ≡ map some nets)
    × (map content out
        ≡ concat_map
            (λ net.
              map
                (λ (pr : PortRange). record {
                  rule_id = [];
                  direction = dir;
                  protocol = proto;
                  cidr = net;
                  port = pr.port;
                  end_port = pr.end_port;
                  action = action;
                  policy_name = name;
                })
                (ranges_of rule.ports))
            (or_default lib.all_net nets))

-- The rules one after another.
abbrev pub AllLaidOut : Library → Text → Direction → List HostRule → List CompiledHostRule → Type 0
AllLaidOut lib name dir [] out = out ≡ []
AllLaidOut lib name dir (rule ∷ rules) out =
    (first : List CompiledHostRule) × (rest : List CompiledHostRule) × (first ++ rest ≡ out)
    × LaysOut lib name dir rule first
    × AllLaidOut lib name dir rules rest

pub map-append :
    {A B : Type 0} (f : A → B) (xs ys : List A) → map f (xs ++ ys) ≡ map f xs ++ map f ys
map-append f [] ys = refl
map-append f (x ∷ xs) ys = ap (λ zs. f x ∷ zs) (map-append f xs ys)

-- A chain of results that succeeds has succeeded so far.
pub bind-ok :
    {A : Type 0} (r : Result {0, 0} HostError A) (f : A → Compiled) (out : List CompiledHostRule)
    → elim r [ err e ↦ err e | ok a ↦ f a ] ≡ ok out
    → (a : A) × (r ≡ ok a) × (f a ≡ ok out)
bind-ok (err e) f out h = absurd (cc)
bind-ok (ok a) f out h = (a, refl, h)

pub ok_inj : {a b : List CompiledHostRule} → Path Compiled (ok a) (ok b) → a ≡ b
ok_inj e = cc

no_name : (s t : Text) → same_text s t ≡ false → s ≢ t
no_name s t h e = absurd (cc (h, (same_text_iff s t).1 e))

pub convert_protocol-IsProtocol : (p : Option Text) → IsProtocol p (convert_protocol p)
unfolding convert_protocol
convert_protocol-IsProtocol none = refl
convert_protocol-IsProtocol (some name) = elim (Bool-cases (same_text name (codes "TCP"))) [
  | inl t ↦ rw t (inl ((same_text_iff name (codes "TCP")).0 t, refl))
  | inr t ↦ elim (Bool-cases (same_text name (codes "UDP"))) [
    | inl u ↦ rw (t, u) (inr (inl ((same_text_iff name (codes "UDP")).0 u, refl)))
    | inr u ↦ elim (Bool-cases (same_text name (codes "SCTP"))) [
      | inl s ↦ rw (t, u, s) (inr (inr (inl ((same_text_iff name (codes "SCTP")).0 s, refl))))
      | inr s ↦
          rw (t, u, s)
            (inr (inr (inr (no_name name _ t, no_name name _ u, no_name name _ s, refl))))
    ]
  ]
]

pub convert_action-IsAction : (t : Text) (n : ℕ) → convert_action t ≡ ok n → IsAction t n
unfolding convert_action
convert_action-IsAction t n h = elim (Bool-cases (same_text t (codes "Allow"))) [
  | inl a ↦ inl ((same_text_iff t (codes "Allow")).0 a, number 1 n (rw a at h))
  | inr a ↦ elim (Bool-cases (same_text t (codes "Deny"))) [
    | inl d ↦ inr ((same_text_iff t (codes "Deny")).0 d, number 0 n (rw (a, d) at h))
    | inr d ↦ absurd (cc (rw (a, d) at h))
  ]
]
  where
    number : (m n : ℕ) → Path (Result {0, 0} HostError ℕ) (ok m) (ok n) → n ≡ m
    number m n e = cc

pub parse_host_cidrs-map :
    (parse : Text → Option IpNet) (cidrs : List Text) (nets : List IpNet)
    → parse_host_cidrs parse cidrs ≡ ok nets
    → map parse cidrs ≡ map some nets
unfolding parse_host_cidrs
parse_host_cidrs-map parse [] nets h = ap (map some) (nets_inj h)
  where
    nets_inj :
        {a b : List IpNet} → Path (Result {0, 0} HostError (List IpNet)) (ok a) (ok b) → a ≡ b
    nets_inj e = cc
parse_host_cidrs-map parse (c ∷ cidrs) nets h = elim (Option-cases (parse c)) [
  | inl e ↦ absurd (cc (rw (parse_host_cidrs, e) at h))
  | inr (net, e) ↦ elim (Parsed-cases (parse_host_cidrs parse cidrs)) [
    | inl (x, q) ↦ absurd (cc (rw (parse_host_cidrs, e, q) at h))
    | inr (rest, q) ↦
        rw (← nets_inj (rw (parse_host_cidrs, e, q) at h), e)
          (ap (λ ns. some net ∷ ns) (parse_host_cidrs-map parse cidrs rest q))
  ]
]
  where
    nets_inj :
        {a b : List IpNet} → Path (Result {0, 0} HostError (List IpNet)) (ok a) (ok b) → a ≡ b
    nets_inj e = cc

    Parsed-cases :
        (r : Result {0, 0} HostError (List IpNet))
        → ((x : HostError) × (r ≡ err x)) ⊎ ((ns : List IpNet) × (r ≡ ok ns))
    Parsed-cases (err x) = inl (x, refl)
    Parsed-cases (ok ns) = inr (ns, refl)

pub expand_ports-ranges : (ports : List HostPort) → expand_ports ports ≡ all_ranges ports
unfolding expand_ports int32_to_uint16
expand_ports-ranges [] = refl
expand_ports-ranges (p ∷ ports) = go p.port p.end_port (expand_ports-ranges ports)
  where
    with_end :
        (n : ℕ) (end : Option ℤ)
        → expand_ports ports ≡ all_ranges ports
        → record { port = n; end_port = end_or_zero end } ∷ expand_ports ports
          ≡ record { port = n; end_port = end_of end } ∷ all_ranges ports
    with_end n none rest = ap (λ rs. record { port = n; end_port = 0 } ∷ rs) rest
    with_end n (some (pos m)) rest =
        ap (λ rs. record { port = n; end_port = end_of (some (pos m)) } ∷ rs) rest
    with_end n (some (negsuc m)) rest = ap (λ rs. record { port = n; end_port = 0 } ∷ rs) rest

    go :
        (port : ℤ) (end : Option ℤ)
        → expand_ports ports ≡ all_ranges ports
        → expand_ports (record { port = port; end_port = end } ∷ ports)
          ≡ range_of port end ++ all_ranges ports
    go (negsuc n) end rest = rest
    go (pos n) end rest = elim (Bool-cases (leb n 65535)) [
      | inr e ↦ rw e rest
      | inl e ↦ rw e (with_end n end rest)
    ]
