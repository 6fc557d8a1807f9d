-- ===== src/Routing/Engine/Allowed.antt =====
-- What `validateAllowedCIDRs` of internal/routing/policy/engine.go ensures.
use native.Mathlib.Nat.{div-div-eq-div-mul, pow-suc}
use novanet.Base.{
  ℕ, zero, suc, ◌+◌, ◌-◌, ◌*◌, ◌/◌, ◌^◌, ◌≤◌, ◌≡◌, refl, sym, ap, ◌∙◌, inl, inr, ◌⊎◌, Bool, true,
  false, ◌&&◌, some, List, [], ◌∷◌, ==_iff, leb, length, ok, err, arith, Option-cases, Bool-cases,
}
use novanet.Base.Members.{In, is_nil}
use novanet.Base.Text.{Text, text_dec}
use novanet.Ipam.Address.{Ip, IpNet, to4, contains, shorten, set_bytes, host_bits}
use novanet.Base.Assoc.{lookup}
use novanet.Routing.Engine.{
  EngineError, Verdict, OwnerConfig, Engine, Parsing, check_type, check_allowed,
  validate_allowed_cidrs, validate_prefix,
}

-- The number of a network or an address, in its shorter form.
abbrev short : Ip → Ip
short ip = shorten ip (to4 ip)

-- What `Contains` tests.
abbrev Inside : IpNet → Ip → Type 0
Inside n ip =
    (length (short ip) ≡ length (short n.ip))
    × (set_bytes (short ip) / 2 ^ host_bits n ≡ set_bytes (short n.ip) / 2 ^ host_bits n)

both : (a b : Bool) → (a && b) ≡ true → (a ≡ true) × (b ≡ true)
both true b h = (refl, h)
both false b h = absurd (cc)

contains-Inside : (n : IpNet) (ip : Ip) → contains n ip ≡ true → Inside n ip
unfolding contains
contains-Inside n ip h = let (a, b) = both _ _ h in ((==_iff _ _).0 a, (==_iff _ _).0 b)

Inside-contains : (n : IpNet) (ip : Ip) → Inside n ip → contains n ip ≡ true
unfolding contains
Inside-contains n ip (a, b) = rw ((==_iff _ _).1 a, (==_iff _ _).1 b) refl

pow_add : (h d : ℕ) → 2 ^ (h + d) ≡ 2 ^ h * 2 ^ d
pow_add h zero = let e : h + zero ≡ h = omega arith in rw e (grind arith)
pow_add h (suc d) =
    let e : h + suc d ≡ suc (h + d) = omega arith in
    let rest = pow_add h d in rw (e, pow-suc 2 (h + d), pow-suc 2 d) (grind (arith, rest))

-- Two numbers in one block are in one block of any larger size.
same_block : (a b h k : ℕ) → h ≤ k → a / 2 ^ h ≡ b / 2 ^ h → a / 2 ^ k ≡ b / 2 ^ k
same_block a b h k le e =
    let split : k ≡ h + (k - h) = omega arith in
    let pow : 2 ^ k ≡ 2 ^ h * 2 ^ (k - h) = ap (λ n. 2 ^ n) split ∙ pow_add h (k - h) in
    rw
      (
        pow,
        sym (div-div-eq-div-mul a (2 ^ h) (2 ^ (k - h))),
        sym (div-div-eq-div-mul b (2 ^ h) (2 ^ (k - h))),
        e,
      )
      refl

-- Each address of a network is in a larger one that holds an address of it.
larger :
    (n m : IpNet) (ip x : Ip)
    → m.bits ≡ n.bits
    → m.ones ≤ n.ones
    → contains n ip ≡ true
    → contains m ip ≡ true
    → contains n x ≡ true
    → contains m x ≡ true
larger n m ip x bits ones in_n in_m x_in_n =
    let (l1, b1) = contains-Inside n ip in_n in
    let (l2, b2) = contains-Inside m ip in_m in
    let (l3, b3) = contains-Inside n x x_in_n in
    let le : host_bits n ≤ host_bits m = omega arith in
    Inside-contains m x (
      l3 ∙ sym l1 ∙ l2,
      same_block (set_bytes (short x)) (set_bytes (short ip)) (host_bits n) (host_bits m) le
            (b3 ∙ sym b1)
          ∙ b2,
    )

validate_allowed_cidrs-contains :
    (p : Parsing) (ip : Ip) (n : IpNet) (allowed : List Text)
    → contains n ip ≡ true
    → ((cidr : Text) (r : Ip × IpNet)
        → In cidr allowed
        → p.parse_cidr cidr ≡ some r
        → r.1.bits ≡ n.bits)
    → validate_allowed_cidrs p ip n allowed ≡ ok tt
    → (cidr : Text) × In cidr allowed
      × ((r : Ip × IpNet) × (p.parse_cidr cidr ≡ some r)
          × ((x : Ip) → contains n x ≡ true → contains r.1 x ≡ true))
unfolding validate_allowed_cidrs
validate_allowed_cidrs-contains p ip n [] here family h = absurd (cc)
validate_allowed_cidrs-contains p ip n (cidr ∷ allowed) here family h =
    elim (Option-cases (p.parse_cidr cidr)) [
      | inl e ↦ absurd (cc (rw (validate_allowed_cidrs, e) at h))
      | inr (r, e) ↦ elim (Bool-cases (contains r.1 ip && leb r.1.ones n.ones)) [
        | inl t ↦
            let (c, l) = both (contains r.1 ip) (leb r.1.ones n.ones) t in
            let le : r.1.ones ≤ n.ones = ground arith in
            (
              cidr,
              inl refl,
              (r, e, λ x x_in. larger n r.1 ip x (family cidr r (inl refl) e) le here c x_in),
            )
        | inr t ↦
            let (other, m, rest) =
              validate_allowed_cidrs-contains p ip n allowed here
                (λ c r' m q. family c r' (inr m) q) (rw (validate_allowed_cidrs, e, t) at h) in
            (other, inr m, rest)
      ]
    ]

Verdict-cases : (v : Verdict) → ((x : EngineError) × (v ≡ err x)) ⊎ (v ≡ ok tt)
Verdict-cases (err x) = inl (x, refl)
Verdict-cases (ok tt) = inr refl

-- Where ParseCIDR gives an address within its network, and the networks that the owner may advertise in
-- are of the family of the prefix: a prefix that ValidatePrefix accepts for an owner with a list of such
-- networks lies, address by address, in one of them.
pub validate_prefix-contains :
    (p : Parsing) (e : Engine) (owner prefix_text : Text) (cfg : OwnerConfig) (ip : Ip) (n : IpNet)
    → lookup text_dec owner e.owners ≡ some cfg
    → p.parse_cidr prefix_text ≡ some (ip, n)
    → is_nil cfg.allowed_prefixes.allowed_cidrs ≡ false
    → contains n ip ≡ true
    → ((cidr : Text) (r : Ip × IpNet)
        → In cidr cfg.allowed_prefixes.allowed_cidrs
        → p.parse_cidr cidr ≡ some r
        → r.1.bits ≡ n.bits)
    → validate_prefix p e owner prefix_text ≡ ok tt
    → (cidr : Text) × In cidr cfg.allowed_prefixes.allowed_cidrs
      × ((r : Ip × IpNet) × (p.parse_cidr cidr ≡ some r)
          × ((x : Ip) → contains n x ≡ true → contains r.1 x ≡ true))
unfolding validate_prefix check_allowed
validate_prefix-contains p e owner prefix_text cfg ip n look parse some_allowed here family h =
    elim (Verdict-cases (check_type p cfg.allowed_prefixes.prefix_type ip n)) [
      | inl (x, q) ↦ absurd (cc (rw (validate_prefix, look, parse, q) at h))
      | inr q ↦
          validate_allowed_cidrs-contains p ip n cfg.allowed_prefixes.allowed_cidrs here family
            (rw (validate_prefix, look, parse, q, check_allowed, some_allowed) at h)
    ]
