-- ===== src/HostFirewall/Contents.antt =====
-- What the rules that internal/hostfirewall/manager.go compiles say, without their IDs.
use novanet.Base.{ℕ, ◌+◌, length, ◌≡◌, refl, sym, ap, ◌∙◌, List, [], ◌∷◌, ◌++◌, map, ok}
use novanet.Base.Members.{concat_map}
use novanet.Base.Text.{Text}
use novanet.Ipam.Address.{IpNet}
use novanet.HostFirewall.{
  Direction, HostPort, HostRule, CompiledHostRule, Library, PortRange, convert_action,
  convert_protocol, parse_host_cidrs, expand_ports, or_default, number_rules, pairs_of,
  compile_host_rule, compile_rules_from,
}
use novanet.HostFirewall.Wanted.{
  ranges_of, content, LaysOut, AllLaidOut, map-append, bind-ok, ok_inj, convert_protocol-IsProtocol,
  convert_action-IsAction, parse_host_cidrs-map, expand_ports-ranges,
}

module _ (lib : Library) (name : Text) (dir : Direction) (action proto : ℕ) where
  abbrev row : IpNet → PortRange → CompiledHostRule
  row net pr = record {
    rule_id = [];
    direction = dir;
    protocol = proto;
    cidr = net;
    port = pr.port;
    end_port = pr.end_port;
    action = action;
    policy_name = name;
  }

  number_rules-content :
      (idx : ℕ) (pairs : List (IpNet × PortRange))
      → map content (number_rules lib name dir action proto idx pairs)
        ≡ map (λ (p : IpNet × PortRange). row p.0 p.1) pairs
  unfolding number_rules
  number_rules-content idx [] = refl
  number_rules-content idx ((cidr, pr) ∷ pairs) =
      ap (λ rs. row cidr pr ∷ rs) (number_rules-content (idx + 1) pairs)

  one_net :
      (net : IpNet) (prs : List PortRange)
      → map (λ (p : IpNet × PortRange). row p.0 p.1) (map (λ pr. (net, pr)) prs) ≡ map (row net) prs
  one_net net [] = refl
  one_net net (pr ∷ prs) = ap (λ rs. row net pr ∷ rs) (one_net net prs)

  all_nets :
      (nets : List IpNet) (prs : List PortRange)
      → map
          (λ (p : IpNet × PortRange). row p.0 p.1)
          (concat_map (λ net. map (λ pr. (net, pr)) prs) nets)
        ≡ concat_map (λ net. map (row net) prs) nets
  all_nets [] prs = refl
  all_nets (net ∷ nets) prs =
      map-append (λ (p : IpNet × PortRange). row p.0 p.1) (map (λ pr. (net, pr)) prs)
        (concat_map (λ n. map (λ pr. (n, pr)) prs) nets)
      ∙ ap
          (λ rs.
            rs
            ++ map (λ (p : IpNet × PortRange). row p.0 p.1)
                (concat_map (λ n. map (λ pr. (n, pr)) prs) nets))
          (one_net net prs)
      ∙ ap (λ rs. map (row net) prs ++ rs) (all_nets nets prs)

  pairs-content :
      (idx : ℕ) (nets : List IpNet) (ports : List HostPort)
      → map content (number_rules lib name dir action proto idx (pairs_of lib nets ports))
        ≡ concat_map (λ net. map (row net) (ranges_of ports)) (or_default lib.all_net nets)
  unfolding pairs_of
  pairs-content idx nets ports =
      number_rules-content idx (pairs_of lib nets ports)
      ∙ all_nets (or_default lib.all_net nets)
          (or_default (record { port = 0; end_port = 0 }) (expand_ports ports))
      ∙ ap
          (λ prs.
            concat_map (λ net. map (row net) (or_default (record { port = 0; end_port = 0 }) prs))
              (or_default lib.all_net nets))
          (expand_ports-ranges ports)

module _ (lib : Library) (name : Text) (dir : Direction) where
  compile_host_rule-LaysOut :
      (idx : ℕ) (rule : HostRule) (out : List CompiledHostRule)
      → compile_host_rule lib name dir idx rule ≡ ok out
      → LaysOut lib name dir rule out
  unfolding compile_host_rule
  compile_host_rule-LaysOut idx rule out h =
      let (action, p, h') = bind-ok (convert_action rule.action) _ out h in
      let (nets, q, h'') = bind-ok (parse_host_cidrs lib.parse_cidr rule.cidrs) _ out h' in
      (
        action,
        convert_protocol rule.protocol,
        nets,
        convert_action-IsAction rule.action action p,
        convert_protocol-IsProtocol rule.protocol,
        parse_host_cidrs-map lib.parse_cidr rule.cidrs nets q,
        ap (map content) (sym (ok_inj h''))
            ∙ pairs-content lib name dir action (convert_protocol rule.protocol) idx nets
                rule.ports,
      )

  pub compile_rules_from-AllLaidOut :
      (idx : ℕ) (rules : List HostRule) (out : List CompiledHostRule)
      → compile_rules_from lib name dir idx rules ≡ ok out
      → AllLaidOut lib name dir rules out
  unfolding compile_rules_from
  compile_rules_from-AllLaidOut idx [] out h = sym (ok_inj h)
  compile_rules_from-AllLaidOut idx (rule ∷ rules) out h =
      let (first, p, h') = bind-ok (compile_host_rule lib name dir idx rule) _ out h in
      let (rest, q, h'') =
        bind-ok (compile_rules_from lib name dir (idx + length first) rules) _ out h' in
      (
        first,
        rest,
        ok_inj h'',
        compile_host_rule-LaysOut idx rule first p,
        compile_rules_from-AllLaidOut (idx + length first) rules rest q,
      )
