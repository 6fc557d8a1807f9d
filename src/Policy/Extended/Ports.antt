-- ===== src/Policy/Extended/Ports.antt =====
-- The loop over a range of ports in internal/policy/extended.go: when it ends, and with what.
use novanet.Base.{
  count_from, ℕ, ◌+◌, ◌-◌, ◌%◌, ◌^◌, ◌≤◌, ◌<◌, suc, zero, ◌≡◌, refl, ◌∙◌, true, false, none, some,
  map, leb, ltb, arith,
}
use novanet.Base.Int.{pos}
use novanet.Policy.Ports.{with_protocol, protocol_or_tcp}
use novanet.Policy.Extended.{
  NovaNetworkPolicyPort, as_port, expand, expand_range, expand_port, resolve_extended_port,
}

-- The loop runs once for each port from here to the end, below the largest uint16.
pub expand-count_from :
    (n fuel proto port end_port : ℕ)
    → port + n ≡ end_port + 1
    → end_port < 65535
    → n < fuel
    → expand fuel proto port end_port ≡ some (map (with_protocol proto) (count_from port n))
unfolding expand
expand-count_from n zero proto port end_port e b h = absurd (omega arith)
expand-count_from zero (suc fuel) proto port end_port e b h =
    let past : leb port end_port ≡ false = ground arith in rw past refl
expand-count_from (suc n) (suc fuel) proto port end_port e b h =
    let within : leb port end_port ≡ true = ground arith in
    let next : (port + 1) % 2 ^ 16 ≡ port + 1 = omega arith in
    let rest = expand-count_from n fuel proto (port + 1) end_port (omega arith) b (omega arith) in
    rw (within, next, rest) refl

-- Up to the largest uint16 the counter wraps before the test fails, so that the loop never ends.
expand_forever : (fuel proto port : ℕ) → port ≤ 65535 → expand fuel proto port 65535 ≡ none
unfolding expand
expand_forever zero proto port h = refl
expand_forever (suc fuel) proto port h =
    let within : leb port 65535 ≡ true = ground arith in
    rw (within, expand_forever fuel proto ((port + 1) % 2 ^ 16) (omega arith)) refl

as_port-pos : (n : ℕ) → n ≤ 65535 → as_port (pos n) ≡ some n
unfolding as_port
as_port-pos n h = ground arith

-- The tests before the loop pass for a range of at most a hundred ports.
expand_range_small :
    (fuel proto s e : ℕ) → s ≤ e → e - s < 100 → expand_range fuel proto s e ≡ expand fuel proto s e
unfolding expand_range
expand_range_small fuel proto s e le size =
    let order : ltb e s ≡ false = ground arith in
    let small : ltb 100 (e + 1 - s) ≡ false = ground arith in rw (order, small) refl

module _ (p : NovaNetworkPolicyPort) (s e : ℕ) (at : p.port ≡ some (pos s))
    (to : p.end_port ≡ some (pos e)) where
  opens :
      (fuel : ℕ)
      → s ≤ e
      → e - s < 100
      → e ≤ 65535
      → resolve_extended_port fuel p ≡ expand fuel (protocol_or_tcp p.protocol) s e
  unfolding resolve_extended_port expand_port
  opens fuel le size high =
      let es = as_port-pos s (omega arith) in
      let ee = as_port-pos e high in
      let small = expand_range_small fuel (protocol_or_tcp p.protocol) s e le size in
      ground (arith, at, to, es, ee, small)

  -- A range of at most a hundred ports that ends below 65535 is expanded, with fuel above a hundred,
  -- to its ports in their order, each with the protocol of the entry.
  pub resolve_extended_port-count_from :
      (fuel : ℕ)
      → s ≤ e
      → e - s < 100
      → e < 65535
      → 100 < fuel
      → resolve_extended_port fuel p
        ≡ some (map (with_protocol (protocol_or_tcp p.protocol)) (count_from s (e + 1 - s)))
  resolve_extended_port-count_from fuel le size below f =
      opens fuel le size (omega arith)
      ∙ (expand-count_from (e + 1 - s) fuel (protocol_or_tcp p.protocol) s e (omega arith) below
          (omega arith))

  -- The loop of a range of at most a hundred ports that ends at 65535 never ends.
  pub resolve_extended_port_forever :
      (fuel : ℕ) → 65435 < s → s ≤ 65535 → e ≡ 65535 → resolve_extended_port fuel p ≡ none
  resolve_extended_port_forever fuel low high q =
      opens fuel (omega arith) (omega arith) (omega arith)
      ∙ rw q (expand_forever fuel (protocol_or_tcp p.protocol) s high)
