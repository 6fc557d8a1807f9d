-- ===== src/Policy/Meaning/Flows.antt =====
-- Which flows the lists of rules allow that internal/policy/helpers.go builds.
use novanet.Base.{
  ℕ, ◌≡◌, ◌≢◌, refl, sym, ap, ◌∙◌, ◌↔◌, ◌⊎◌, inl, inr, Bool, true, false, List, [], ◌∷◌, ◌++◌, map,
  if◌then◌else◌, Bool-cases,
}
use novanet.Base.Members.{In, In-append, In-concat_map, In-map, concat_map}
use novanet.Base.Text.{Text}
use novanet.Policy.{CompiledRule, CidrEntry, PortProto}
use novanet.Policy.Rules.{
  identity_rule, build_identity_rules, cidr_rule, build_cidr_rules, except_entries,
  resolve_ip_block_cidrs,
}
use novanet.Policy.Meaning.{Flow, Matches, RuleAllows, Allows, Names, PairAdmits, PortsAdmit}

pub Allows-append :
    (xs ys : List CompiledRule) (f : Flow) → Allows (xs ++ ys) f ↔ (Allows xs f ⊎ Allows ys f)
Allows-append xs ys f = (
  λ h.
      let (r, m, k) = h in
      elim ((In-append r xs ys).0 m) [ inl n ↦ inl (r, n, k) | inr n ↦ inr (r, n, k) ],
  λ h. elim h [
    | inl a ↦ let (r, m, k) = a in (r, (In-append r xs ys).1 (inl m), k)
    | inr a ↦ let (r, m, k) = a in (r, (In-append r xs ys).1 (inr m), k)
  ],
)

module _ {A : Type 0} where
  pub Allows-concat_map :
      (g : A → List CompiledRule) (xs : List A) (f : Flow)
      → Allows (concat_map g xs) f ↔ ((x : A) × In x xs × Allows (g x) f)
  Allows-concat_map g xs f = (
    λ h. let (r, m, k) = h in let (x, n, l) = (In-concat_map r g xs).0 m in (x, n, (r, l, k)),
    λ h. let (x, n, a) = h in let (r, l, k) = a in (r, (In-concat_map r g xs).1 (x, n, l), k),
  )

-- The end of a rule that its policy's pods are at, and the other.
abbrev pub own : Bool → Flow → ℕ
own is_egress f = if is_egress then f.src else f.dst

abbrev pub other : Bool → Flow → ℕ
other is_egress f = if is_egress then f.dst else f.src

RuleAllows-identity_rule :
    (fixed id : ℕ) (is_egress : Bool) (ns : Text) (pp : PortProto) (f : Flow)
    → RuleAllows (identity_rule fixed is_egress ns id pp) f ↔ (
        (is_egress ≡ f.is_egress)
        × Matches fixed (own is_egress f)
        × Matches id (other is_egress f)
        × PairAdmits pp f)
unfolding identity_rule
RuleAllows-identity_rule fixed id false ns pp f = (
  λ h. let (a, c, e, s, d, pr, po) = h in (e, d, s, (pr, po)),
  λ h. let (e, d, s, (pr, po)) = h in (refl, refl, e, s, d, pr, po),
)
RuleAllows-identity_rule fixed id true ns pp f = (
  λ h. let (a, c, e, s, d, pr, po) = h in (e, s, d, (pr, po)),
  λ h. let (e, s, d, (pr, po)) = h in (refl, refl, e, s, d, pr, po),
)

pub Allows-build_identity_rules :
    (ids : List ℕ) (fixed : ℕ) (ports : List PortProto) (is_egress : Bool) (ns : Text) (f : Flow)
    → Allows (build_identity_rules ids fixed ports is_egress ns) f ↔ (
        (is_egress ≡ f.is_egress)
        × Matches fixed (own is_egress f)
        × Names ids (other is_egress f)
        × PortsAdmit ports f)
unfolding build_identity_rules
Allows-build_identity_rules ids fixed ports is_egress ns f =
    let rules : ℕ → List CompiledRule = λ id. map (identity_rule fixed is_egress ns id) ports in
    (
      λ h.
          let (id, m, (r, n, k)) = (Allows-concat_map rules ids f).0 h in
          let (pp, l, q) = (In-map r (identity_rule fixed is_egress ns id) ports).0 n in
          let (e, s, d, pair) =
            (RuleAllows-identity_rule fixed id is_egress ns pp f).0 (rw (sym q) at k) in
          (e, s, (id, m, d), (pp, l, pair)),
      λ h.
          let (e, s, (id, m, d), (pp, l, pair)) = h in
          (Allows-concat_map rules ids f).1 (
            id,
            m,
            (
              identity_rule fixed is_egress ns id pp,
              (In-map _ (identity_rule fixed is_egress ns id) ports).1 (pp, l, refl),
              (RuleAllows-identity_rule fixed id is_egress ns pp f).1 (e, s, d, pair),
            ),
          ),
    )

-- A block of addresses that `net.ParseCIDR` accepts is not empty, so no rule on one is a rule on
-- identities.
module _ (valid : Text → Bool) (empty_invalid : valid [] ≡ false) where
  except_entries-cidr :
      (e : CidrEntry) (except : List Text) → In e (except_entries valid except) → e.cidr ≢ []
  unfolding except_entries
  except_entries-cidr e [] m = absurd m
  except_entries-cidr e (cidr ∷ except) m = elim (Bool-cases (valid cidr)) [
    | inl v ↦ elim (rw v at m) [
      | inl eq ↦ λ z. absurd (cc (v, empty_invalid, z, ap (λ (t : CidrEntry). t.cidr) eq))
      | inr k ↦ except_entries-cidr e except k
    ]
    | inr v ↦ except_entries-cidr e except (rw v at m)
  ]

  pub resolve_ip_block_cidrs-cidr :
      (e : CidrEntry) (cidr : Text) (except : List Text)
      → In e (resolve_ip_block_cidrs valid cidr except)
      → e.cidr ≢ []
  unfolding resolve_ip_block_cidrs
  resolve_ip_block_cidrs-cidr e cidr except m = elim (Bool-cases (valid cidr)) [
    | inl v ↦ elim (rw v at m) [
      | inl eq ↦ λ z. absurd (cc (v, empty_invalid, z, ap (λ (t : CidrEntry). t.cidr) eq))
      | inr k ↦ except_entries-cidr e except k
    ]
    | inr v ↦ absurd (rw v at m)
  ]

pub Allows-build_cidr_rules :
    (entries : List CidrEntry) (fixed : ℕ) (ports : List PortProto) (is_egress : Bool) (ns : Text)
    (f : Flow)
    → ((e : CidrEntry) → In e entries → e.cidr ≢ [])
    → ¬ Allows (build_cidr_rules entries fixed ports is_egress ns) f
unfolding build_cidr_rules cidr_rule
Allows-build_cidr_rules entries fixed ports is_egress ns f nonempty h =
    let (e, m, (r, n, k)) =
      (Allows-concat_map (λ e. map (cidr_rule fixed is_egress ns e) ports) entries f).0 h in
    let (pp, l, q) = (In-map r (cidr_rule fixed is_egress ns e) ports).0 n in
    let (a, c, e1, s, d, pr, po) = k in nonempty e m (ap (λ (t : CompiledRule). t.cidr) q ∙ c)
