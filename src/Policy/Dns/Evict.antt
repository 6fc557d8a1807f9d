-- ===== src/Policy/Dns/Evict.antt =====
-- What `evictLocked` of internal/policy/dns_cache.go removes.
use novanet.Base.{
  ℕ, ◌≤◌, ◌<◌, zero, suc, ◌≡◌, refl, sym, ap, ◌∙◌, ◌⊎◌, inl, inr, true, false, none, some, List, [],
  ◌∷◌, length, ltb, arith, dec_lt, some_inj,
}
use mathlib.Core.Logic.{if_pos, if_neg}
use novanet.Base.Assoc.{
  lookup, insert, delete, Distinct, insert-Distinct, delete-Distinct, lookup-delete_self,
  lookup-delete_ne, length-delete-lt, length-delete_present,
}
use novanet.Base.Text.{Text, text_dec}
use novanet.Ipam.Address.{Ip}
use novanet.Policy.Dns.{
  DnsCache, DnsCacheEntry, Entries, oldest_from, oldest, evict, evict_locked, store_answer,
  new_entry,
}

-- No entry of these was accessed before this time.
abbrev pub NotBefore : ℕ → Entries → Type 0
NotBefore t m = (k : Text) (e : DnsCacheEntry) → lookup text_dec k m ≡ some e → t ≤ e.last_access

-- The entry at a key, which no other was accessed before.
abbrev pub IsOldest : Text → Entries → Type 0
IsOldest o m = (e : DnsCacheEntry) × (lookup text_dec o m ≡ some e) × NotBefore e.last_access m

NotBefore-cons :
    (t : ℕ) (k : Text) (e : DnsCacheEntry) (m : Entries)
    → t ≤ e.last_access
    → NotBefore t m
    → NotBefore t ((k, e) ∷ m)
unfolding lookup
NotBefore-cons t k e m le rest q e' h = elim (text_dec k q) [
  | yes p ↦ rw (← some_inj (rw (if_pos (text_dec k q) p) at h)) le
  | no p ↦ rest q e' (rw (if_neg (text_dec k q) p) at h)
]

NotBefore-weaken : (s t : ℕ) (m : Entries) → s ≤ t → NotBefore t m → NotBefore s m
NotBefore-weaken s t m le h k e q = let l = h k e q in omega arith

NotBefore-nil : (t : ℕ) → NotBefore t []
unfolding lookup
NotBefore-nil t k e h = absurd (cc)

lookup-here : (j : Text) (e : DnsCacheEntry) (m : Entries) → lookup text_dec j ((j, e) ∷ m) ≡ some e
unfolding lookup
lookup-here j e m = if_pos (text_dec j j) refl _ _

-- An entry further on is found, since its key stands once.
lookup-there :
    (j o : Text) (e x : DnsCacheEntry) (m : Entries)
    → lookup text_dec j m ≡ none
    → lookup text_dec o m ≡ some x
    → lookup text_dec o ((j, e) ∷ m) ≡ some x
unfolding lookup
lookup-there j o e x m fresh h = elim (text_dec j o) [
  | yes p ↦ absurd (cc (rw p at fresh, h))
  | no p ↦ if_neg (text_dec j o) p _ _ ∙ h
]

abbrev Scanned : Text → Text → ℕ → Entries → Type 0
Scanned o k t m =
    ((o ≡ k) × NotBefore t m)
    ⊎ ((e : DnsCacheEntry) × (lookup text_dec o m ≡ some e)
        × (e.last_access < t)
        × NotBefore e.last_access m)

-- The scan keeps the key that it came with, or finds one that was accessed earlier.
oldest_from-Scanned :
    (k : Text) (t : ℕ) (m : Entries) → Distinct text_dec m → Scanned (oldest_from k t m) k t m
unfolding oldest_from
oldest_from-Scanned k t [] d = inl (refl, NotBefore-nil t)
oldest_from-Scanned k t ((j, e) ∷ m) d = elim (dec_lt e.last_access t) [
  | yes l ↦
      let earlier : ltb e.last_access t ≡ true = ground arith in
      rw earlier (elim (oldest_from-Scanned j e.last_access m d.1) [
        | inl (q, nb) ↦
            inr
              (e, rw q (lookup-here j e m), l, NotBefore-cons e.last_access j e m (omega arith) nb)
        | inr (x, q, lt, nb) ↦ inr (
          x,
          lookup-there j _ e x m d.0 q,
          omega arith,
          NotBefore-cons x.last_access j e m (omega arith) nb,
        )
      ])
  | no l ↦
      let later : ltb e.last_access t ≡ false = ground arith in
      rw later (elim (oldest_from-Scanned k t m d.1) [
        | inl (q, nb) ↦ inl (q, NotBefore-cons t j e m (omega arith) nb)
        | inr (x, q, lt, nb) ↦ inr (
          x,
          lookup-there j _ e x m d.0 q,
          lt,
          NotBefore-cons x.last_access j e m (omega arith) nb,
        )
      ])
]

oldest-IsOldest :
    (k : Text) (e : DnsCacheEntry) (m : Entries)
    → Distinct text_dec ((k, e) ∷ m)
    → IsOldest (oldest ((k, e) ∷ m)) ((k, e) ∷ m)
unfolding oldest
oldest-IsOldest k e m d = elim (oldest_from-Scanned k e.last_access m d.1) [
  | inl (q, nb) ↦ (e, rw q (lookup-here k e m), NotBefore-cons e.last_access k e m (omega arith) nb)
  | inr (x, q, lt, nb) ↦
      (x, lookup-there k _ e x m d.0 q, NotBefore-cons x.last_access k e m (omega arith) nb)
]

-- The entries that are left are some of those before: all of them if they are at most as many as
-- allowed, and else as many as allowed. None of them was accessed before one that is gone.
abbrev pub Evicts : ℕ → Entries → Entries → Type 0
Evicts max_entries m n =
    Distinct text_dec n
    × (length m ≤ max_entries → n ≡ m)
    × (max_entries < length m → length n ≡ max_entries)
    × ((k : Text) (e : DnsCacheEntry) → lookup text_dec k n ≡ some e → lookup text_dec k m ≡ some e)
    × ((j : Text) (e : DnsCacheEntry)
        → lookup text_dec j m ≡ some e
        → lookup text_dec j n ≡ none
        → NotBefore e.last_access n)

all_stay :
    (max_entries : ℕ) (m : Entries)
    → Distinct text_dec m
    → length m ≤ max_entries
    → Evicts max_entries m m
all_stay max_entries m d le =
    (d, λ l. refl, λ l. absurd (omega arith), λ k e h. h, λ j e h gone. absurd (cc))

-- One eviction, and then the others.
one_more :
    (max_entries : ℕ) (o : Text) (m n : Entries)
    → Distinct text_dec m
    → max_entries < length m
    → IsOldest o m
    → Evicts max_entries (delete text_dec o m) n
    → Evicts max_entries m n
one_more max_entries o m n distinct above (x, found, nb) (d, fits, full, sub, lru) =
    let shorter = length-delete_present text_dec o x m distinct found in
    let bound : length n ≡ max_entries = elim (dec_lt max_entries (length (delete text_dec o m))) [
      | yes l ↦ full l
      | no l ↦ ap length (fits (omega arith)) ∙ omega arith
    ] in
    let sub' : (k : Text) (e : DnsCacheEntry)
        → lookup text_dec k n ≡ some e
        → lookup text_dec k m ≡ some e =
      λ k e h. elim (text_dec o k) [
        | yes p ↦ absurd (cc (rw p at (lookup-delete_self text_dec o m), sub k e h))
        | no p ↦ sym (lookup-delete_ne text_dec o k m p) ∙ sub k e h
      ] in
    (
      d,
      λ l. absurd (omega arith),
      λ l. bound,
      sub',
      λ j e h gone. elim (text_dec o j) [
        | yes p ↦
            let same : x ≡ e = some_inj (sym found ∙ rw p h) in
            λ k e' h'. rw (← same) (nb k e' (sub' k e' h'))
        | no p ↦ lru j e (lookup-delete_ne text_dec o j m p ∙ h) gone
      ],
    )

nonempty : (m : Entries) → Distinct text_dec m → 0 < length m → IsOldest (oldest m) m
nonempty [] d h = absurd (omega arith)
nonempty ((k, e) ∷ m) d h = oldest-IsOldest k e m d

evict-Evicts :
    (fuel max_entries : ℕ) (m : Entries)
    → Distinct text_dec m
    → length m < fuel
    → (n : Entries) × (evict fuel max_entries m ≡ some n) × Evicts max_entries m n
unfolding evict
evict-Evicts zero max_entries m d h = absurd (omega arith)
evict-Evicts (suc fuel) max_entries m d h = elim (dec_lt max_entries (length m)) [
  | no l ↦
      let fits : ltb max_entries (length m) ≡ false = ground arith in
      (m, rw fits refl, all_stay max_entries m d (omega arith))
  | yes l ↦
      let full : ltb max_entries (length m) ≡ true = ground arith in
      let found = nonempty m d (omega arith) in
      let (x, at, nb) = found in
      let shorter = length-delete-lt text_dec (oldest m) x m at in
      let (n, q, ev) =
        evict-Evicts fuel max_entries (delete text_dec (oldest m) m)
          (delete-Distinct text_dec (oldest m) m d) (omega arith) in
      (n, rw full q, one_more max_entries (oldest m) m n d l found ev)
]

evict_locked-Evicts :
    (c : DnsCache)
    → Distinct text_dec c.entries
    → (n : Entries) × (evict_locked c ≡ some (record c { entries = n }))
      × Evicts c.max_entries c.entries n
unfolding evict_locked
evict_locked-Evicts c d =
    let (n, q, ev) =
      evict-Evicts (suc (length c.entries)) c.max_entries c.entries d (omega arith) in
    (n, rw (evict_locked, q) refl, ev)

-- Where each name has one entry: storing an answer ends, and each name still has one entry. If the
-- entries with the answer are within the bound, they are what the cache holds; else it holds as many of
-- them as the bound allows, and nothing that is left was accessed before something that is gone.
pub store_answer-Evicts :
    (c : DnsCache) (fqdn : Text) (resolved : List Ip) (now : ℕ)
    → Distinct text_dec c.entries
    → (n : Entries) × (store_answer c fqdn resolved now ≡ some (record c { entries = n }))
      × Evicts c.max_entries (insert text_dec fqdn (new_entry resolved now) c.entries) n
unfolding store_answer
store_answer-Evicts c fqdn resolved now d =
    evict_locked-Evicts
      (record c { entries = insert text_dec fqdn (new_entry resolved now) c.entries })
      (insert-Distinct text_dec fqdn (new_entry resolved now) c.entries d)
