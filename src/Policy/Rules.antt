-- ===== src/Policy/Rules.antt =====
-- The rules that internal/policy/helpers.go builds: each loop nest is a `concat_map` of a map.
use novanet.Base.{ℕ, Bool, List, [], ◌∷◌, map, if◌then◌else◌}
use novanet.Base.Members.{concat_map}
use novanet.Base.Text.{Text}
use novanet.Policy.{
  CompiledRule, CidrEntry, PortProto, action_allow, action_deny, wildcard_identity,
}

-- The rule of one identity and one port.
unfoldable pub identity_rule : ℕ → Bool → Text → ℕ → PortProto → CompiledRule
identity_rule fixed_id is_egress namespace id pp = record {
  src_identity = if is_egress then fixed_id else id;
  dst_identity = if is_egress then id else fixed_id;
  protocol = pp.protocol;
  dst_port = pp.port;
  action = action_allow;
  cidr = [];
  is_egress = is_egress;
  namespace = namespace;
}

unfoldable pub build_identity_rules : List ℕ → ℕ → List PortProto → Bool → Text → List CompiledRule
unfolding identity_rule
build_identity_rules ids fixed_id ports is_egress namespace =
    concat_map (λ id. map (identity_rule fixed_id is_egress namespace id) ports) ids

unfoldable pub cidr_rule : ℕ → Bool → Text → CidrEntry → PortProto → CompiledRule
cidr_rule fixed_id is_egress namespace entry pp = record {
  src_identity = if is_egress then fixed_id else wildcard_identity;
  dst_identity = if is_egress then wildcard_identity else fixed_id;
  protocol = pp.protocol;
  dst_port = pp.port;
  action = entry.action;
  cidr = entry.cidr;
  is_egress = is_egress;
  namespace = namespace;
}

unfoldable pub build_cidr_rules :
    List CidrEntry → ℕ → List PortProto → Bool → Text → List CompiledRule
unfolding cidr_rule
build_cidr_rules entries fixed_id ports is_egress namespace =
    concat_map (λ entry. map (cidr_rule fixed_id is_egress namespace entry) ports) entries

unfoldable pub build_fqdn_cidr_rules :
    List Text → ℕ → List PortProto → Bool → Text → List CompiledRule
unfolding cidr_rule
build_fqdn_cidr_rules cidrs fixed_id ports is_egress namespace =
    concat_map
      (λ cidr.
        map (cidr_rule fixed_id is_egress namespace (record { cidr = cidr; action = action_allow }))
          ports)
      cidrs

-- The loop over the exceptions of a block. `valid` is whether `net.ParseCIDR` succeeds.
unfoldable pub except_entries : (Text → Bool) → List Text → List CidrEntry
except_entries valid [] = []
except_entries valid (cidr ∷ except) =
    if valid cidr
    then record { cidr = cidr; action = action_deny } ∷ except_entries valid except
    else except_entries valid except

unfoldable pub resolve_ip_block_cidrs : (Text → Bool) → Text → List Text → List CidrEntry
unfolding except_entries
resolve_ip_block_cidrs valid cidr except =
    if valid cidr
    then record { cidr = cidr; action = action_allow } ∷ except_entries valid except
    else []
