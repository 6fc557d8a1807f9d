-- ===== src/Routing/Intents.antt =====
-- The store of internal/routing/intent/store.go. `setIntent` takes callbacks for the kind of intent; here
-- the kind is an argument, and what differs between kinds is a function by clauses on it. A pointer
-- that is stored is the value that it has then. A time is a number, and `now` is an argument.
pub mod Store
pub mod Book
pub mod View
pub mod Refinement
pub mod Owners
use novanet.Base.{
  ℕ, Bool, true, false, ◌||◌, Option, none, some, List, [], ◌∷◌, ◌++◌, ltb, if◌then◌else◌, Result,
}
use novanet.Base.Text.{Text, text_dec, codes, is_empty}
use novanet.Routing.{
  PeerIntent, PrefixIntent, BfdIntent, OspfIntent, Kind, peer, prefix, bfd, ospf, Intent,
  protocol_string,
}

pub data IntentError : Type 0 where
  owner_empty intent_nil neighbor_addr_empty prefix_empty peer_addr_empty iface_name_empty :
      IntentError
  area_id_empty no_intents intent_not_found area_id_invalid area_id_ipv6 : IntentError

-- What an operation that changes the store returns.
abbrev pub Outcome : Type 0
Outcome = Result {0, 0} IntentError Unit

-- `strings.ToLower`, and `net.ParseIP` with whether `To4` is not nil.
pub record Platform : Type 0 where
  pub to_lower : Text → Text
  pub parse_ip : Text → Option Bool

unfoldable pub peer_key : Text → Text
peer_key neighbor_addr = codes "peer:" ++ neighbor_addr

unfoldable pub prefix_key : Platform → Text → Text → Text
prefix_key platform protocol prefix_text =
    codes "prefix:" ++ (platform.to_lower protocol ++ (codes ":" ++ prefix_text))

unfoldable pub bfd_key : Text → Text
bfd_key peer_addr = codes "bfd:" ++ peer_addr

unfoldable pub ospf_key : Text → Text
ospf_key iface_name = codes "ospf:" ++ iface_name

pub record OwnerIntents : Type 0 where
  pub peers : List (Text × PeerIntent)
  pub prefixes : List (Text × PrefixIntent)
  pub bfd_sessions : List (Text × BfdIntent)
  pub ospf_interfaces : List (Text × OspfIntent)

unfoldable pub new_owner_intents : OwnerIntents
new_owner_intents = record { peers = []; prefixes = []; bfd_sessions = []; ospf_interfaces = [] }

-- The map of a kind, and an assignment to it.
abbrev pub intents_of : (k : Kind) → OwnerIntents → List (Text × Intent k)
intents_of peer oi = oi.peers
intents_of prefix oi = oi.prefixes
intents_of bfd oi = oi.bfd_sessions
intents_of ospf oi = oi.ospf_interfaces

abbrev pub with_intents : (k : Kind) → List (Text × Intent k) → OwnerIntents → OwnerIntents
with_intents peer m oi = record oi { peers = m }
with_intents prefix m oi = record oi { prefixes = m }
with_intents bfd m oi = record oi { bfd_sessions = m }
with_intents ospf m oi = record oi { ospf_interfaces = m }

-- The key that `execute` stores an intent under.
unfoldable pub key_of : Platform → (k : Kind) → Intent k → Text
unfolding peer_key prefix_key bfd_key ospf_key
key_of platform peer i = peer_key i.neighbor_address
key_of platform prefix i = prefix_key platform (protocol_string i.protocol) i.prefix
key_of platform bfd i = bfd_key i.peer_address
key_of platform ospf i = ospf_key i.interface_name

abbrev pub created_of : (k : Kind) → Intent k → ℕ
created_of peer i = i.created_at
created_of prefix i = i.created_at
created_of bfd i = i.created_at
created_of ospf i = i.created_at

-- The assignments to the fields of the intent that is stored.
abbrev pub stamped : (k : Kind) → Text → ℕ → ℕ → Intent k → Intent k
stamped peer o created now i = record i { owner = o; created_at = created; updated_at = now }
stamped prefix o created now i = record i { owner = o; created_at = created; updated_at = now }
stamped bfd o created now i = record i { owner = o; created_at = created; updated_at = now }
stamped ospf o created now i = record i { owner = o; created_at = created; updated_at = now }

-- The loop over the characters of an area ID.
unfoldable pub is_integer : Text → Bool
is_integer [] = true
is_integer (ch ∷ chs) = if ltb ch 48 || ltb 57 ch then false else is_integer chs

-- The format of an area ID that is not empty.
unfoldable pub validate_area_id : Platform → Text → Option IntentError
unfolding is_integer
validate_area_id platform area_id = elim (platform.parse_ip area_id) [
  | some is_ipv4 ↦ if is_ipv4 then none else some area_id_ipv6
  | none ↦ if is_integer area_id then none else some area_id_invalid
]

-- The callbacks `validate`, with `none` where they find nothing wrong.
unfoldable pub validate_intent : Platform → (k : Kind) → Intent k → Option IntentError
unfolding validate_area_id
validate_intent platform peer i =
    if is_empty i.neighbor_address then some neighbor_addr_empty else none
validate_intent platform prefix i = if is_empty i.prefix then some prefix_empty else none
validate_intent platform bfd i = if is_empty i.peer_address then some peer_addr_empty else none
validate_intent platform ospf i =
    if is_empty i.interface_name
    then some iface_name_empty
    else if is_empty i.area_id
    then some area_id_empty
    else validate_area_id platform i.area_id
