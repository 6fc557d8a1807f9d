-- ===== src/Policy/Meaning/Ports.antt =====
-- Which ports `resolvePorts` of internal/policy/compiler.go admits.
use novanet.Base.{
  ℕ, ◌≡◌, ◌≢◌, ◌<◌, ◌≤◌, refl, sym, ap, ◌∙◌, ◌↔◌, ◌⊎◌, inl, inr, false, Option, none, some, List,
  [], ◌∷◌, arith, Bool-cases, Option-cases,
}
use novanet.Base.Int.{ℤ, pos}
use novanet.Base.Members.{In, In-concat_map, In-map}
use novanet.Base.Text.{Text, codes, same_text, same_text_iff}
use novanet.Policy.{PortProto, LabelSelector}
use novanet.Policy.Ports.{
  NetworkPolicyPort, IntOrString, number, named, resolve_port, resolve_ports, resolve_named,
  protocol_or_tcp, protocol_number, numeric_port, with_protocol,
}
use novanet.Policy.Compiler.{PolicyRule, Compiler}
use novanet.Policy.Meaning.{
  Flow, PortsAdmit, Matches, IsProtocol, PortAdmits, ResolvesTo, Resolves, RulePorts,
}

protocol_or_tcp-IsProtocol : (p : Option Text) → IsProtocol p (protocol_or_tcp p)
unfolding protocol_or_tcp protocol_number
protocol_or_tcp-IsProtocol none = refl
protocol_or_tcp-IsProtocol (some name) = elim (Bool-cases (same_text name (codes "TCP"))) [
  | inl t ↦ rw t (inl ((same_text_iff name (codes "TCP")).0 t, refl))
  | inr t ↦ elim (Bool-cases (same_text name (codes "UDP"))) [
    | inl u ↦ rw (t, u) (inr (inl ((same_text_iff name (codes "UDP")).0 u, refl)))
    | inr u ↦ elim (Bool-cases (same_text name (codes "SCTP"))) [
      | inl s ↦ rw (t, u, s) (inr (inr (inl ((same_text_iff name (codes "SCTP")).0 s, refl))))
      | inr s ↦
          rw (t, u, s)
            (inr (
              inr (
                inr (
                  (λ e. absurd (cc (u, (same_text_iff name _).1 e))),
                  (λ e. absurd (cc (s, (same_text_iff name _).1 e))),
                  refl,
                ))))
    ]
  ]
]

not_same : (s t : Text) → s ≢ t → same_text s t ≡ false
not_same s t ne = elim (Bool-cases (same_text s t)) [
  | inl e ↦ absurd (ne ((same_text_iff s t).0 e))
  | inr e ↦ e
]

abbrev initial : Text → ℕ
initial [] = 0
initial (c ∷ cs) = c

protocol_number_lem : (name : Text) (n : ℕ) → IsProtocol (some name) n → protocol_number name ≡ n
unfolding protocol_number
protocol_number_lem name n (inl (p, e)) = rw ((same_text_iff name (codes "TCP")).1 p, e) refl
protocol_number_lem name n (inr (inl (p, e))) =
    let tcp = not_same name (codes "TCP") (λ q. absurd (omega (arith, ap initial (sym p ∙ q)))) in
    rw (tcp, (same_text_iff name (codes "UDP")).1 p, e) refl
protocol_number_lem name n (inr (inr (inl (p, e)))) =
    let tcp = not_same name (codes "TCP") (λ q. absurd (omega (arith, ap initial (sym p ∙ q)))) in
    let udp = not_same name (codes "UDP") (λ q. absurd (omega (arith, ap initial (sym p ∙ q)))) in
    rw (tcp, udp, (same_text_iff name (codes "SCTP")).1 p, e) refl
protocol_number_lem name n (inr (inr (inr (u, t, e)))) =
    elim (Bool-cases (same_text name (codes "TCP"))) [
      | inl q ↦ rw (q, e) refl
      | inr q ↦ rw (q, not_same name (codes "UDP") u, not_same name (codes "SCTP") t, e) refl
    ]

positive : (p : Option Text) (n : ℕ) → IsProtocol p n → n ≢ 0
positive none n e z = absurd (omega arith)
positive (some name) n (inl (p, e)) z = absurd (omega arith)
positive (some name) n (inr (inl (p, e))) z = absurd (omega arith)
positive (some name) n (inr (inr (inl (p, e)))) z = absurd (omega arith)
positive (some name) n (inr (inr (inr (u, t, e)))) z = absurd (omega arith)

IsProtocol-iff : (p : Option Text) (n : ℕ) → Matches (protocol_or_tcp p) n ↔ IsProtocol p n
unfolding protocol_or_tcp
IsProtocol-iff p n = (forth p n, back p n)
  where
    forth : (p : Option Text) (n : ℕ) → Matches (protocol_or_tcp p) n → IsProtocol p n
    forth p n (inl z) = absurd (positive p (protocol_or_tcp p) (protocol_or_tcp-IsProtocol p) z)
    forth p n (inr e) = rw (← e) (protocol_or_tcp-IsProtocol p)

    back : (p : Option Text) (n : ℕ) → IsProtocol p n → Matches (protocol_or_tcp p) n
    back none n e = inr (sym e)
    back (some name) n h = inr (protocol_number_lem name n h)

-- A port number in range is what it is compiled to.
in_range : (m : ℕ) → 0 < m → m ≤ 65535 → numeric_port (pos m) ≡ m
unfolding numeric_port
in_range m l h = ground arith

number_iff :
    (n : ℤ) (m port : ℕ)
    → n ≡ pos m
    → 0 < m
    → m ≤ 65535
    → Matches (numeric_port n) port ↔ (n ≡ pos port)
number_iff n m port e l u =
    let same : numeric_port n ≡ m = ap numeric_port e ∙ in_range m l u in
    (
      λ h. elim h [ inl z ↦ absurd (omega (arith, same, z)) | inr q ↦ e ∙ ap pos (sym same ∙ q) ],
      λ h. inr (same ∙ pos_inj m port (sym e ∙ h)),
    )
  where
    pos_inj : (a b : ℕ) → Path ℤ (pos a) (pos b) → a ≡ b
    pos_inj a b q = cc

named_iff :
    (c : Compiler) (ns : Text) (selector : LabelSelector) (protocol : Option Text) (name : Text)
    (x : ℕ)
    → In x (resolve_named c.port_resolver ns selector protocol name)
      ↔ ResolvesTo c ns selector protocol name x
unfolding resolve_named
named_iff c ns selector protocol name x = elim (Option-cases c.port_resolver) [
  | inl e ↦ (λ h. absurd (rw e at h), λ (r, q, i). absurd (cc))
  | inr (r, e) ↦ (λ h. (r, e, rw e at h), λ (s, q, i). rw q i)
]

module _ (c : Compiler) (ns : Text) (selector : LabelSelector) (f : Flow) where
  abbrev Admitted : NetworkPolicyPort → Type 0
  Admitted p = PortsAdmit (resolve_port c.port_resolver ns selector p) f

  one_iff :
      (protocol : Option Text) (port : ℕ)
      → PortsAdmit (with_protocol (protocol_or_tcp protocol) port ∷ []) f
        ↔ (IsProtocol protocol f.protocol × Matches port f.port)
  one_iff protocol port = (
    λ (pp, m, (pr, po)). elim m [
      | inl e ↦ (
        (IsProtocol-iff protocol f.protocol).0 (rw (ap (λ (t : PortProto). t.protocol) e) pr),
        rw (ap (λ (t : PortProto). t.port) e) po,
      )
      | inr z ↦ absurd z
    ],
    λ (pr, po). (
      with_protocol (protocol_or_tcp protocol) port,
      inl refl,
      ((IsProtocol-iff protocol f.protocol).1 pr, po),
    ),
  )

  port_iff :
      (protocol : Option Text) (port : Option IntOrString)
      → Resolves c ns selector protocol port
      → Admitted (record { protocol = protocol; port = port })
        ↔ PortAdmits c ns selector (record { protocol = protocol; port = port }) f
  unfolding resolve_port
  port_iff protocol none h =
      (λ a. (((one_iff protocol 0).0 a).0, tt), λ a. (one_iff protocol 0).1 (a.0, inl refl))
  port_iff protocol (some (number n)) (m, e, l, u) = (
    λ a.
        let (pr, po) = (one_iff protocol (numeric_port n)).0 a in
        (pr, (number_iff n m f.port e l u).0 po),
    λ (pr, po). (one_iff protocol (numeric_port n)).1 (pr, (number_iff n m f.port e l u).1 po),
  )
  port_iff protocol (some (named name)) h = (
    λ (pp, i, (pr, po)).
        let (x, j, q) =
          (In-map pp (with_protocol (protocol_or_tcp protocol))
              (resolve_named c.port_resolver ns selector protocol name)).0
            i in
        (
          (IsProtocol-iff protocol f.protocol).0 (rw (ap (λ (t : PortProto). t.protocol) q) pr),
          (
            x,
            (named_iff c ns selector protocol name x).0 j,
            rw (ap (λ (t : PortProto). t.port) q) po,
          ),
        ),
    λ (pr, (x, j, po)). (
      with_protocol (protocol_or_tcp protocol) x,
      (In-map _ (with_protocol (protocol_or_tcp protocol))
            (resolve_named c.port_resolver ns selector protocol name)).1
          (x, (named_iff c ns selector protocol name x).1 j, refl),
      ((IsProtocol-iff protocol f.protocol).1 pr, po),
    ),
  )

  -- A port that resolves compiles to some port.
  some_port :
      (protocol : Option Text) (port : Option IntOrString)
      → Resolves c ns selector protocol port
      → (pp : PortProto) × In pp
          (resolve_port c.port_resolver ns selector (record { protocol = protocol; port = port }))
  unfolding resolve_port
  some_port protocol none h = (with_protocol (protocol_or_tcp protocol) 0, inl refl)
  some_port protocol (some (number n)) h =
      (with_protocol (protocol_or_tcp protocol) (numeric_port n), inl refl)
  some_port protocol (some (named name)) (x, h) = (
    with_protocol (protocol_or_tcp protocol) x,
    (In-map _ (with_protocol (protocol_or_tcp protocol))
          (resolve_named c.port_resolver ns selector protocol name)).1
        (x, (named_iff c ns selector protocol name x).1 h, refl),
  )

  none_left :
      (ports : List NetworkPolicyPort)
      → ((p : NetworkPolicyPort) → In p ports → Resolves c ns selector p.protocol p.port)
      → resolve_ports c.port_resolver ports ns selector ≡ []
      → ports ≡ []
  unfolding resolve_ports
  none_left [] h e = refl
  none_left (p ∷ ports) h e =
      let (pp, i) = some_port p.protocol p.port (h p (inl refl)) in
      let found =
        (In-concat_map pp (resolve_port c.port_resolver ns selector) (p ∷ ports)).1
          (p, inl refl, i) in
      absurd (rw e at found)

  -- Where each port of a rule resolves, what it compiles to admits what the rule's ports are for.
  pub RulePorts-iff :
      (rule : PolicyRule)
      → ((p : NetworkPolicyPort) → In p rule.ports → Resolves c ns selector p.protocol p.port)
      → ((resolve_ports c.port_resolver rule.ports ns selector ≡ [])
          ⊎ PortsAdmit (resolve_ports c.port_resolver rule.ports ns selector) f)
        ↔ RulePorts c rule ns selector f
  unfolding resolve_ports
  RulePorts-iff rule h =
      let resolve = resolve_port c.port_resolver ns selector in
      (
        λ a. elim a [
          | inl e ↦ inl (none_left rule.ports h e)
          | inr (pp, i, pair) ↦
              let (p, j, k) = (In-concat_map pp resolve rule.ports).0 i in
              inr (p, j, (port_iff p.protocol p.port (h p j)).0 (pp, k, pair))
        ],
        λ a. elim a [
          | inl e ↦ inl (rw e refl)
          | inr (p, j, admits) ↦
              let (pp, k, pair) = (port_iff p.protocol p.port (h p j)).1 admits in
              inr (pp, (In-concat_map pp resolve rule.ports).1 (p, j, k), pair)
        ],
      )
