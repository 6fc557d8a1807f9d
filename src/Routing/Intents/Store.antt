-- ===== src/Routing/Intents/Store.antt =====
-- The operations of internal/routing/intent/store.go. Each returns the store with its result.
use novanet.Base.{ℕ, Option, none, some, List, [], map, if◌then◌else◌, ok, err}
use novanet.Base.Assoc.{lookup, insert, delete}
use novanet.Base.Members.{concat_map}
use novanet.Base.Text.{Text, text_dec, is_empty}
use novanet.Routing.{
  PeerIntent, PrefixIntent, BfdIntent, OspfIntent, Kind, peer, prefix, bfd, ospf, Intent,
}
use novanet.Routing.Intents.{
  Outcome, owner_empty, intent_nil, neighbor_addr_empty, prefix_empty, peer_addr_empty,
  iface_name_empty, no_intents, intent_not_found, Platform, peer_key, prefix_key, bfd_key, ospf_key,
  OwnerIntents, new_owner_intents, intents_of, with_intents, key_of, created_of, stamped,
  validate_intent,
}

pub record Store : Type 0 where
  pub intents : List (Text × OwnerIntents)

unfoldable pub new_store : Store
new_store = record { intents = [] }

-- What `ensureOwner` returns.
unfoldable pub ensure_owner : Store → Text → OwnerIntents
ensure_owner s owner = elim (lookup text_dec owner s.intents) [
  | none ↦ new_owner_intents
  | some oi ↦ oi
]

-- `CreatedAt`: that of the intent that is replaced, if there is one.
unfoldable pub created_time : (k : Kind) → Option (Intent k) → ℕ → ℕ
created_time k none now = now
created_time k (some existing) now = created_of k existing

-- The part of `setIntent` under the lock.
unfoldable pub store_intent : Platform → (k : Kind) → Store → ℕ → Text → Intent k → Store
unfolding ensure_owner created_time
store_intent platform k s now owner intent =
    let oi = ensure_owner s owner in
    let key = key_of platform k intent in
    let created = created_time k (lookup text_dec key (intents_of k oi)) now in
    let m = insert text_dec key (stamped k owner created now intent) (intents_of k oi) in
    record { intents = insert text_dec owner (with_intents k m oi) s.intents }

unfoldable pub set_intent :
    Platform → (k : Kind) → Store → ℕ → Text → Option (Intent k) → Store × Outcome
unfolding store_intent
set_intent platform k s now owner none =
    if is_empty owner then (s, err owner_empty) else (s, err intent_nil)
set_intent platform k s now owner (some intent) =
    if is_empty owner then (s, err owner_empty) else elim (validate_intent platform k intent) [
      | some e ↦ (s, err e)
      | none ↦ (store_intent platform k s now owner intent, ok tt)
    ]

unfoldable pub set_peer_intent : Platform → Store → ℕ → Text → Option PeerIntent → Store × Outcome
unfolding set_intent
set_peer_intent platform s now owner intent = set_intent platform peer s now owner intent

unfoldable pub set_prefix_intent :
    Platform → Store → ℕ → Text → Option PrefixIntent → Store × Outcome
unfolding set_intent
set_prefix_intent platform s now owner intent = set_intent platform prefix s now owner intent

unfoldable pub set_bfd_intent : Platform → Store → ℕ → Text → Option BfdIntent → Store × Outcome
unfolding set_intent
set_bfd_intent platform s now owner intent = set_intent platform bfd s now owner intent

unfoldable pub set_ospf_intent : Platform → Store → ℕ → Text → Option OspfIntent → Store × Outcome
unfolding set_intent
set_ospf_intent platform s now owner intent = set_intent platform ospf s now owner intent

-- What the four removals share, after the checks of their arguments.
unfoldable pub remove_key : (k : Kind) → Store → Text → Text → Store × Outcome
remove_key k s owner key = elim (lookup text_dec owner s.intents) [
  | none ↦ (s, err no_intents)
  | some oi ↦ elim (lookup text_dec key (intents_of k oi)) [
    | none ↦ (s, err intent_not_found)
    | some i ↦
        let m = delete text_dec key (intents_of k oi) in
        (record { intents = insert text_dec owner (with_intents k m oi) s.intents }, ok tt)
  ]
]

unfoldable pub remove_peer_intent : Store → Text → Text → Store × Outcome
unfolding remove_key
remove_peer_intent s owner neighbor_addr =
    if is_empty owner
    then (s, err owner_empty)
    else if is_empty neighbor_addr
    then (s, err neighbor_addr_empty)
    else remove_key peer s owner (peer_key neighbor_addr)

unfoldable pub remove_prefix_intent : Platform → Store → Text → Text → Text → Store × Outcome
unfolding remove_key
remove_prefix_intent platform s owner prefix_text protocol =
    if is_empty owner
    then (s, err owner_empty)
    else if is_empty prefix_text
    then (s, err prefix_empty)
    else remove_key prefix s owner (prefix_key platform protocol prefix_text)

unfoldable pub remove_bfd_intent : Store → Text → Text → Store × Outcome
unfolding remove_key
remove_bfd_intent s owner peer_addr =
    if is_empty owner
    then (s, err owner_empty)
    else if is_empty peer_addr
    then (s, err peer_addr_empty)
    else remove_key bfd s owner (bfd_key peer_addr)

unfoldable pub remove_ospf_intent : Store → Text → Text → Store × Outcome
unfolding remove_key
remove_ospf_intent s owner iface_name =
    if is_empty owner
    then (s, err owner_empty)
    else if is_empty iface_name
    then (s, err iface_name_empty)
    else remove_key ospf s owner (ospf_key iface_name)

unfoldable pub remove_all_by_owner : Store → Text → Store
remove_all_by_owner s owner = elim (lookup text_dec owner s.intents) [
  | none ↦ s
  | some oi ↦ record { intents = delete text_dec owner s.intents }
]

-- The snapshots. A copy is the value.
unfoldable pub get_all_intents : Store → List (Text × OwnerIntents)
get_all_intents s = s.intents

unfoldable pub get_owner_intents : Store → Text → Option OwnerIntents
get_owner_intents s owner = lookup text_dec owner s.intents

-- The loops over all owners, for one kind.
unfoldable pub all_intents : (k : Kind) → Store → List (Intent k)
all_intents k s =
    concat_map (λ (o : Text × OwnerIntents). map (λ (e : Text × Intent k). e.1) (intents_of k o.1))
      s.intents

unfoldable pub get_peer_intents : Store → List PeerIntent
unfolding all_intents
get_peer_intents s = all_intents peer s

unfoldable pub get_prefix_intents : Store → List PrefixIntent
unfolding all_intents
get_prefix_intents s = all_intents prefix s

unfoldable pub get_bfd_intents : Store → List BfdIntent
unfolding all_intents
get_bfd_intents s = all_intents bfd s

unfoldable pub get_ospf_intents : Store → List OspfIntent
unfolding all_intents
get_ospf_intents s = all_intents ospf s

unfoldable pub get_owner_prefixes : Store → Text → List Text
get_owner_prefixes s owner = elim (lookup text_dec owner s.intents) [
  | none ↦ []
  | some oi ↦ map (λ (e : Text × PrefixIntent). e.1.prefix) oi.prefixes
]

unfoldable pub get_owner_peers : Store → Text → List Text
get_owner_peers s owner = elim (lookup text_dec owner s.intents) [
  | none ↦ []
  | some oi ↦ map (λ (e : Text × PeerIntent). e.1.neighbor_address) oi.peers
]
