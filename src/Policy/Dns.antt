-- ===== src/Policy/Dns.antt =====
-- `DNSCache` of internal/policy/dns_cache.go. What the resolver answers is an argument, `none` for an
-- error, and so are the times; `text` is `net.IP.String`. The two parts of `Resolve` under the lock are
-- functions of their own, since other calls may come between them.
pub mod Evict
use novanet.Base.{
  ℕ, ◌+◌, ◌*◌, zero, suc, Bool, true, false, ◌&&◌, Option, none, some, List, [], ◌∷◌, map, length,
  ltb, leb, ◌==◌, if◌then◌else◌,
}
use novanet.Base.Assoc.{lookup, insert, delete}
use novanet.Base.Int.{ℤ, pos, negsuc}
use novanet.Base.Text.{Text, text_dec, same_text}
use novanet.Ipam.Address.{Ip}

-- Five minutes in nanoseconds.
abbrev pub default_dns_ttl : ℕ
default_dns_ttl = 300000000000

abbrev pub default_max_entries : ℕ
default_max_entries = 10000

pub record DnsCacheEntry : Type 0 where
  pub ips : List Ip
  pub expiry : ℕ
  pub last_access : ℕ

abbrev pub Entries : Type 0
Entries = List (Text × DnsCacheEntry)

pub record DnsCache : Type 0 where
  pub entries : Entries
  pub max_entries : ℕ

unfoldable pub new_dns_cache : ℤ → DnsCache
new_dns_cache (pos zero) = record { entries = []; max_entries = default_max_entries }
new_dns_cache (pos (suc n)) = record { entries = []; max_entries = suc n }
new_dns_cache (negsuc n) = record { entries = []; max_entries = default_max_entries }

unfoldable pub size : DnsCache → ℕ
size c = length c.entries

-- The inner loop of `evictLocked`, after its first entry: the key with the earliest access so far.
unfoldable pub oldest_from : Text → ℕ → Entries → Text
oldest_from oldest_key oldest_time [] = oldest_key
oldest_from oldest_key oldest_time ((key, entry) ∷ m) =
    let found = oldest_from key entry.last_access m in
    let kept = oldest_from oldest_key oldest_time m in
    if ltb entry.last_access oldest_time then found else kept

unfoldable pub oldest : Entries → Text
unfolding oldest_from
oldest [] = []
oldest ((key, entry) ∷ m) = oldest_from key entry.last_access m

-- The loop of `evictLocked`, on fuel, with `none` for one that has not ended.
unfoldable pub evict : ℕ → ℕ → Entries → Option Entries
unfolding oldest
evict zero max_entries m = none
evict (suc fuel) max_entries m =
    let rest = evict fuel max_entries (delete text_dec (oldest m) m) in
    if ltb max_entries (length m) then rest else some m

unfoldable pub evict_locked : DnsCache → Option DnsCache
unfolding evict
evict_locked c = elim (evict (suc (length c.entries)) c.max_entries c.entries) [
  | none ↦ none
  | some m ↦ some (record c { entries = m })
]

-- The first part of `Resolve` under the lock: the cached addresses, if they have not expired.
unfoldable pub look_up : DnsCache → Text → ℕ → ℕ → DnsCache × Option (List Ip)
look_up c fqdn now access = elim (lookup text_dec fqdn c.entries) [
  | none ↦ (c, none)
  | some entry ↦
      if ltb now entry.expiry
      then (
        record c {
          entries = insert text_dec fqdn (record entry { last_access = access }) c.entries;
        },
        some entry.ips,
      )
      else (c, none)
]

abbrev pub new_entry : List Ip → ℕ → DnsCacheEntry
new_entry resolved now = record {
  ips = resolved;
  expiry = now + default_dns_ttl;
  last_access = now;
}

-- The second part: the answer is stored.
unfoldable pub store_answer : DnsCache → Text → List Ip → ℕ → Option DnsCache
unfolding evict_locked
store_answer c fqdn resolved now =
    evict_locked (record c { entries = insert text_dec fqdn (new_entry resolved now) c.entries })

abbrev pub stale_ips : DnsCache → Text → List Ip
stale_ips c fqdn = elim (lookup text_dec fqdn c.entries) [ none ↦ [] | some entry ↦ entry.ips ]

-- `Resolve`, when no other call comes between its two parts.
unfoldable pub resolve :
    (Text → Option (List Ip)) → DnsCache → Text → ℕ → ℕ → ℕ → Option (DnsCache × List Ip)
unfolding look_up store_answer
resolve resolver c fqdn now access now' =
    let found = look_up c fqdn now access in
    elim found.1 [
      | some ips ↦ some (found.0, ips)
      | none ↦ elim (resolver fqdn) [
        | none ↦ some (c, stale_ips c fqdn)
        | some resolved ↦ elim (store_answer c fqdn resolved now') [
          | none ↦ none
          | some c' ↦ some (c', resolved)
        ]
      ]
    ]

abbrev holds_text : Text → List Text → Bool
holds_text t [] = false
holds_text t (u ∷ us) = if same_text u t then true else holds_text t us

abbrev all_held : (Ip → Text) → List Text → List Ip → Bool
all_held text set [] = true
all_held text set (ip ∷ b) = if holds_text (text ip) set then all_held text set b else false

unfoldable pub ips_equal : (Ip → Text) → List Ip → List Ip → Bool
ips_equal text a b = if length a == length b then all_held text (map text a) b else false

-- One round of the loop of `Refresh`: the cache, and how many entries have changed.
unfoldable pub refresh_one :
    (Ip → Text) → (Text → Option (List Ip)) → ℕ → Text → DnsCache × ℕ → DnsCache × ℕ
unfolding ips_equal
refresh_one text resolver now fqdn (c, changed) = elim (resolver fqdn) [
  | none ↦ (c, changed)
  | some resolved ↦ (
    record c { entries = insert text_dec fqdn (new_entry resolved now) c.entries },
    if ips_equal text (stale_ips c fqdn) resolved then changed else changed + 1,
  )
]

abbrev refresh_all :
    (Ip → Text) → (Text → Option (List Ip)) → (Text → ℕ) → List Text → DnsCache × ℕ → DnsCache × ℕ
refresh_all text resolver clock [] state = state
refresh_all text resolver clock (fqdn ∷ fqdns) state =
    refresh_all text resolver clock fqdns (refresh_one text resolver (clock fqdn) fqdn state)

unfoldable pub refresh :
    (Ip → Text) → (Text → Option (List Ip)) → (Text → ℕ) → DnsCache → DnsCache × ℕ
unfolding refresh_one
refresh text resolver clock c =
    refresh_all text resolver clock (map (λ (e : Text × DnsCacheEntry). e.0) c.entries) (c, 0)

unfoldable pub get_all : DnsCache → List (Text × List Ip)
get_all c = map (λ (e : Text × DnsCacheEntry). (e.0, e.1.ips)) c.entries
