-- ===== src/Routing/Intents/Book.antt =====
-- What the store of internal/routing/intent/store.go promises: for each owner and kind, one intent under
-- each key, and which owners are known. How the maps are nested, and in which order they stand, is left
-- out.
use mathlib.Core.Logic.{ite}
use novanet.Base.{
  ℕ, Bool, true, false, ◌&&◌, leb, ◌++◌, Option, none, some, List, [], ◌∷◌, if◌then◌else◌, ok, err,
}
use novanet.Base.Text.{Text, text_dec, is_empty, codes}
use novanet.Routing.{Kind, peer, prefix, bfd, ospf, Intent, protocol_string}
use novanet.Routing.Intents.{
  IntentError, Outcome, owner_empty, intent_nil, neighbor_addr_empty, prefix_empty, peer_addr_empty,
  iface_name_empty, no_intents, intent_not_found, area_id_empty, area_id_invalid, area_id_ipv6,
  Platform,
}

pub record Book : Type 0 where
  pub known : Text → Bool
  pub at : Text → (k : Kind) → Text → Option (Intent k)

abbrev pub empty_book : Book
empty_book = record { known = λ o. false; at = λ o k q. none }

abbrev pub assign {ℓ} : {V : Type ℓ} → Text → V → (Text → V) → Text → V
assign q v f r = ite (text_dec q r) v (f r)

-- The intents of one owner, with those of one kind replaced.
abbrev pub replace :
    (k : Kind)
    → (Text → Option (Intent k))
    → ((u : Kind) → Text → Option (Intent u))
    → (u : Kind) → Text
    → Option (Intent u)
replace peer f g peer = f
replace peer f g prefix = g prefix
replace peer f g bfd = g bfd
replace peer f g ospf = g ospf
replace prefix f g peer = g peer
replace prefix f g prefix = f
replace prefix f g bfd = g bfd
replace prefix f g ospf = g ospf
replace bfd f g peer = g peer
replace bfd f g prefix = g prefix
replace bfd f g bfd = f
replace bfd f g ospf = g ospf
replace ospf f g peer = g peer
replace ospf f g prefix = g prefix
replace ospf f g bfd = g bfd
replace ospf f g ospf = f

-- The entry of one owner, kind and key is this one.
abbrev pub write : Book → Text → (k : Kind) → Text → Option (Intent k) → Book
write b owner k key v = record {
  known = assign owner true b.known;
  at = assign owner (replace k (assign key v (b.at owner k)) (b.at owner)) b.at;
}

-- The key of an intent of each kind.
abbrev pub book_key : Platform → (k : Kind) → Intent k → Text
book_key platform peer i = codes "peer:" ++ i.neighbor_address
book_key platform prefix i =
    codes "prefix:" ++ (platform.to_lower (protocol_string i.protocol) ++ (codes ":" ++ i.prefix))
book_key platform bfd i = codes "bfd:" ++ i.peer_address
book_key platform ospf i = codes "ospf:" ++ i.interface_name

-- Whether a text is made of digits.
abbrev pub digits : Text → Bool
digits [] = true
digits (c ∷ cs) = leb 48 c && (leb c 57 && digits cs)

-- What is wrong with an area ID, unless it is an IPv4 address or a number.
abbrev pub area_error : Option Bool → Bool → Option IntentError
area_error (some true) number = none
area_error (some false) number = some area_id_ipv6
area_error none true = none
area_error none false = some area_id_invalid

-- What is wrong with an intent: a name that it must have is missing, or its area ID has no format.
abbrev pub intent_error : Platform → (k : Kind) → Intent k → Option IntentError
intent_error platform peer i = elim i.neighbor_address [
  | [] ↦ some neighbor_addr_empty
  | c ∷ cs ↦ none
]
intent_error platform prefix i = elim i.prefix [ [] ↦ some prefix_empty | c ∷ cs ↦ none ]
intent_error platform bfd i = elim i.peer_address [ [] ↦ some peer_addr_empty | c ∷ cs ↦ none ]
intent_error platform ospf i = elim i.interface_name [
  | [] ↦ some iface_name_empty
  | c ∷ cs ↦ elim i.area_id [
    | [] ↦ some area_id_empty
    | d ∷ ds ↦ area_error (platform.parse_ip i.area_id) (digits i.area_id)
  ]
]

-- The time of creation that an intent is written with: that of the intent that it replaces, or now.
abbrev pub first_created : (k : Kind) → Option (Intent k) → ℕ → ℕ
first_created k none now = now
first_created peer (some old) now = old.created_at
first_created prefix (some old) now = old.created_at
first_created bfd (some old) now = old.created_at
first_created ospf (some old) now = old.created_at

-- An intent with its owner and times.
abbrev pub signed : (k : Kind) → Text → ℕ → ℕ → Intent k → Intent k
signed peer o created now i = record i { owner = o; created_at = created; updated_at = now }
signed prefix o created now i = record i { owner = o; created_at = created; updated_at = now }
signed bfd o created now i = record i { owner = o; created_at = created; updated_at = now }
signed ospf o created now i = record i { owner = o; created_at = created; updated_at = now }

-- A new intent is created now, and one that replaces another keeps its time of creation.
unfoldable pub book_set :
    Platform → (k : Kind) → Book → ℕ → Text → Option (Intent k) → Book × Outcome
book_set platform k b now owner none =
    if is_empty owner then (b, err owner_empty) else (b, err intent_nil)
book_set platform k b now owner (some intent) =
    if is_empty owner then (b, err owner_empty) else elim (intent_error platform k intent) [
      | some e ↦ (b, err e)
      | none ↦
          let key = book_key platform k intent in
          let created = first_created k (b.at owner k key) now in
          (write b owner k key (some (signed k owner created now intent)), ok tt)
    ]

unfoldable pub book_remove : (k : Kind) → Book → Text → Text → Book × Outcome
book_remove k b owner key =
    if b.known owner
    then elim (b.at owner k key) [
      | none ↦ (b, err intent_not_found)
      | some i ↦ (write b owner k key none, ok tt)
    ]
    else (b, err no_intents)

unfoldable pub book_remove_all : Book → Text → Book
book_remove_all b owner = record {
  known = assign owner false b.known;
  at = assign owner (λ k q. none) b.at;
}

-- A call of one of the operations that change the store.
pub data Call : Type 0 where
  set_call : (k : Kind) → ℕ → Text → Option (Intent k) → Call
  remove_peer : Text → Text → Call
  remove_prefix : Text → Text → Text → Call
  remove_bfd : Text → Text → Call
  remove_ospf : Text → Text → Call
  remove_all : Text → Call

-- A removal whose arguments are checked first.
abbrev pub checked_remove : (k : Kind) → Book → Text → Text → IntentError → Text → Book × Outcome
checked_remove k b owner name missing key =
    if is_empty owner
    then (b, err owner_empty)
    else if is_empty name
    then (b, err missing)
    else book_remove k b owner key

unfoldable pub book_step : Platform → Book → Call → Book × Outcome
unfolding book_set book_remove book_remove_all
book_step platform b (set_call k now owner intent) = book_set platform k b now owner intent
book_step platform b (remove_peer owner addr) =
    checked_remove peer b owner addr neighbor_addr_empty (codes "peer:" ++ addr)
book_step platform b (remove_prefix owner text protocol) =
    checked_remove prefix b owner text prefix_empty
      (codes "prefix:" ++ (platform.to_lower protocol ++ (codes ":" ++ text)))
book_step platform b (remove_bfd owner addr) =
    checked_remove bfd b owner addr peer_addr_empty (codes "bfd:" ++ addr)
book_step platform b (remove_ospf owner name) =
    checked_remove ospf b owner name iface_name_empty (codes "ospf:" ++ name)
book_step platform b (remove_all owner) = (book_remove_all b owner, ok tt)

unfoldable pub book_run : Platform → Book → List Call → Book × List Outcome
unfolding book_step
book_run platform b [] = (b, [])
book_run platform b (c ∷ cs) =
    let next = book_step platform b c in
    let rest = book_run platform next.0 cs in (rest.0, next.1 ∷ rest.1)
