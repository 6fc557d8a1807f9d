-- ===== src/Examples/Names.antt =====
-- The DNS cache of internal/policy/dns_cache.go with room for one name.
use novanet.Base.{true, ◌≡◌, refl, some, [], ◌∷◌}
use novanet.Base.Assoc.{lookup, insert, Distinct}
use novanet.Base.Text.{text_dec, codes, same_text_iff}
use novanet.Policy.Dns.{DnsCache, Entries, new_entry, store_answer, ips_equal}
use novanet.Policy.Dns.Evict.{Evicts, store_answer-Evicts}
use novanet.Ipam.Address.{Ip}

abbrev cache : DnsCache
cache = record { entries = (codes "a.example", new_entry [] 3) ∷ []; max_entries = 1 }

cache-Distinct : Distinct text_dec cache.entries
unfolding lookup
cache-Distinct = (refl, tt)

store_answer-Evicts_example :
    (n : Entries) × (store_answer cache (codes "b.example") [] 5
      ≡ some (record cache { entries = n }))
    × Evicts 1 (insert text_dec (codes "b.example") (new_entry [] 5) cache.entries) n
store_answer-Evicts_example = store_answer-Evicts cache (codes "b.example") [] 5 cache-Distinct

-- Two different addresses count as equal to one of them, twice.
abbrev first : Ip
first = 10 ∷ 0 ∷ 0 ∷ 1 ∷ []

abbrev second : Ip
second = 10 ∷ 0 ∷ 0 ∷ 2 ∷ []

equal_anyway : ips_equal (λ ip. ip) (first ∷ second ∷ []) (first ∷ first ∷ []) ≡ true
unfolding ips_equal
equal_anyway = rw ((same_text_iff first first).1 refl) refl
