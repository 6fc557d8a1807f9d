-- ===== src/Ipam/Allocator/Invariant.antt =====
-- What every operation of internal/ipam/allocator.go keeps, and how one index changes hands.
use novanet.Base.{
  ℕ, ◌+◌, ◌-◌, ◌≡◌, ◌≢◌, refl, sym, ap, ◌∙◌, ◌≤◌, ◌<◌, Bool, true, false, some, ◌==◌, if◌then◌else◌,
  arith,
}
use novanet.Ipam.Bitmap.{Bitmap}
use novanet.Ipam.Bitmap.Laws.{is_set, count, Updates, set_lem, clear_lem, count_set, count_clear}
use novanet.Ipam.Bitmap.Laws
use novanet.Ipam.Address.Index.{IsRange}
use novanet.Ipam.Allocator.{Allocator, take_index, drop_index}

-- Whether an index is handed out, or reserved.
unfoldable pub is_taken : Allocator → ℕ → Bool
is_taken a j = is_set a.bitmap j

-- An index that is not reserved.
abbrev pub IsFreeable : Allocator → ℕ → Type 0
IsFreeable a idx = (idx ≢ 0) × (a.is_ipv4 ≡ true → (idx ≢ 1) × (idx ≢ a.size - 1))

pub record IsValid (a : Allocator) : Type 0 where
  pub bitmap_valid : Laws.IsValid a.bitmap
  pub sized : a.bitmap.size ≡ a.size
  pub range : IsRange a.base_ip a.ip_len a.size
  pub counted : a.used ≡ count a.bitmap
  pub nonempty : 2 ≤ a.size
  pub holds_network : is_taken a 0 ≡ true
  pub holds_gateway : a.is_ipv4 ≡ true → is_taken a 1 ≡ true
  pub holds_broadcast : a.is_ipv4 ≡ true → is_taken a (a.size - 1) ≡ true

-- One index is taken or freed, and all else but the count stays.
pub record Changes (on : Bool) (idx : ℕ) (a a' : Allocator) : Type 0 where
  pub taken : (j : ℕ) → is_taken a' j ≡ (if idx == j then on else is_taken a j)
  pub same_network : a'.network ≡ a.network
  pub same_base : a'.base_ip ≡ a.base_ip
  pub same_size : a'.size ≡ a.size
  pub same_ip_len : a'.ip_len ≡ a.ip_len
  pub same_is_ipv4 : a'.is_ipv4 ≡ a.is_ipv4
  pub same_persistent : a'.persistent ≡ a.persistent

-- All but the bitmap and the count is the same.
pub record SameShape (a a' : Allocator) : Type 0 where
  pub same_network : a'.network ≡ a.network
  pub same_base : a'.base_ip ≡ a.base_ip
  pub same_size : a'.size ≡ a.size
  pub same_ip_len : a'.ip_len ≡ a.ip_len
  pub same_is_ipv4 : a'.is_ipv4 ≡ a.is_ipv4
  pub same_persistent : a'.persistent ≡ a.persistent

pub SameShape-refl : (a : Allocator) → SameShape a a
SameShape-refl a = record {
  same_network = refl;
  same_base = refl;
  same_size = refl;
  same_ip_len = refl;
  same_is_ipv4 = refl;
  same_persistent = refl;
}

pub SameShape-with :
    (a : Allocator) (b : Bitmap) (n : ℕ) → SameShape a (record a { bitmap = b; used = n })
SameShape-with a b n = record {
  same_network = refl;
  same_base = refl;
  same_size = refl;
  same_ip_len = refl;
  same_is_ipv4 = refl;
  same_persistent = refl;
}

pub SameShape-trans : {a b c : Allocator} → SameShape a b → SameShape b c → SameShape a c
SameShape-trans s t = record {
  same_network = t.same_network ∙ s.same_network;
  same_base = t.same_base ∙ s.same_base;
  same_size = t.same_size ∙ s.same_size;
  same_ip_len = t.same_ip_len ∙ s.same_ip_len;
  same_is_ipv4 = t.same_is_ipv4 ∙ s.same_is_ipv4;
  same_persistent = t.same_persistent ∙ s.same_persistent;
}

pub Changes-SameShape :
    {on : Bool} {idx : ℕ} {a a' : Allocator} → Changes on idx a a' → SameShape a a'
Changes-SameShape c = record {
  same_network = c.same_network;
  same_base = c.same_base;
  same_size = c.same_size;
  same_ip_len = c.same_ip_len;
  same_is_ipv4 = c.same_is_ipv4;
  same_persistent = c.same_persistent;
}

-- All that an allocator holds is the same, but perhaps for the representation of the bitmap.
pub record SameState (a a' : Allocator) : Type 0 where
  pub taken : (j : ℕ) → is_taken a' j ≡ is_taken a j
  pub same_used : a'.used ≡ a.used
  pub same_network : a'.network ≡ a.network
  pub same_base : a'.base_ip ≡ a.base_ip
  pub same_size : a'.size ≡ a.size
  pub same_ip_len : a'.ip_len ≡ a.ip_len
  pub same_is_ipv4 : a'.is_ipv4 ≡ a.is_ipv4
  pub same_persistent : a'.persistent ≡ a.persistent

-- Taking a free index and dropping it again, or the other way round, leads back.
pub Changes-Changes :
    {on off : Bool} {a a' a'' : Allocator} (idx : ℕ)
    → is_taken a idx ≡ off
    → Changes on idx a a'
    → Changes off idx a' a''
    → a''.used ≡ a.used
    → SameState a a''
Changes-Changes idx before u w n = record {
  taken = λ j. ground (arith, u.taken j, w.taken j, before);
  same_used = n;
  same_network = w.same_network ∙ u.same_network;
  same_base = w.same_base ∙ u.same_base;
  same_size = w.same_size ∙ u.same_size;
  same_ip_len = w.same_ip_len ∙ u.same_ip_len;
  same_is_ipv4 = w.same_is_ipv4 ∙ u.same_is_ipv4;
  same_persistent = w.same_persistent ∙ u.same_persistent;
}

pub IsFreeable-over :
    {on : Bool} {a a' : Allocator} {idx j : ℕ}
    → Changes on j a a'
    → IsFreeable a idx
    → IsFreeable a' idx
IsFreeable-over c free = (free.0, λ f. rw c.same_size (free.1 (sym c.same_is_ipv4 ∙ f)))

-- A free index is not a reserved one.
pub IsFreeable-of_free :
    (a : Allocator) (idx : ℕ) → IsValid a → is_taken a idx ≡ false → IsFreeable a idx
IsFreeable-of_free a idx v off = (
  λ e. absurd (ground (arith, ap (is_taken a) e, v.holds_network)),
  λ f. (
    λ e. absurd (ground (arith, ap (is_taken a) e, v.holds_gateway f)),
    λ e. absurd (ground (arith, ap (is_taken a) e, v.holds_broadcast f)),
  ),
)

module _ (a : Allocator) (idx : ℕ) (v : IsValid a) (h : idx < a.size) where
  pub take_index_lem :
      is_taken a idx ≡ false
      → (a' : Allocator) × (take_index a idx ≡ some a')
        × IsValid a'
        × Changes true idx a a'
        × (a'.used ≡ a.used + 1)
  unfolding take_index is_taken
  take_index_lem off =
      let (b, e, u) = set_lem a.bitmap idx v.bitmap_valid (omega arith) in
      (
        record a { bitmap = b; used = a.used + 1 },
        rw e,
        record {
          bitmap_valid = u.valid;
          sized = omega (arith, u.same_size);
          range = v.range;
          counted = omega (arith, count_set {b = a.bitmap} {b' = b} idx (omega arith) off u);
          nonempty = v.nonempty;
          holds_network = ground (arith, u.bits 0);
          holds_gateway = λ f. ground (arith, u.bits 1, v.holds_gateway f);
          holds_broadcast = λ f. ground (arith, u.bits (a.size - 1), v.holds_broadcast f);
        },
        record {
          taken = u.bits;
          same_network = refl;
          same_base = refl;
          same_size = refl;
          same_ip_len = refl;
          same_is_ipv4 = refl;
          same_persistent = refl;
        },
        refl,
      )

  pub drop_index_lem :
      is_taken a idx ≡ true
      → IsFreeable a idx
      → (a' : Allocator) × (drop_index a idx ≡ some a')
        × IsValid a'
        × Changes false idx a a'
        × (a'.used + 1 ≡ a.used)
  unfolding drop_index is_taken
  drop_index_lem on free =
      let (b, e, u) = clear_lem a.bitmap idx v.bitmap_valid (omega arith) in
      (
        record a { bitmap = b; used = a.used - 1 },
        rw e,
        record {
          bitmap_valid = u.valid;
          sized = omega (arith, u.same_size);
          range = v.range;
          counted = omega (arith, count_clear {b = a.bitmap} {b' = b} idx (omega arith) on u);
          nonempty = v.nonempty;
          holds_network = ground (arith, u.bits 0);
          holds_gateway = λ f. ground (arith, u.bits 1, v.holds_gateway f, free.1 f);
          holds_broadcast = λ f. ground (arith, u.bits (a.size - 1), v.holds_broadcast f, free.1 f);
        },
        record {
          taken = u.bits;
          same_network = refl;
          same_base = refl;
          same_size = refl;
          same_ip_len = refl;
          same_is_ipv4 = refl;
          same_persistent = refl;
        },
        omega (arith, count_clear {b = a.bitmap} {b' = b} idx (omega arith) on u),
      )
