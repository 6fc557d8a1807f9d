-- ===== src/Routing/Intents/Refinement.antt =====
-- The store of internal/routing/intent/store.go does what a book of intents does.
use novanet.Base.{
  ℕ, ◌≡◌, refl, ap, ◌∙◌, inl, inr, Bool, true, false, arith, Option, none, some, List, [], ◌∷◌,
  if◌then◌else◌, ok, err, Option-cases, Bool-cases,
}
use novanet.Base.Assoc.{lookup, insert, delete, lookup-delete_self, lookup-delete_ne}
use novanet.Base.Text.{Text, text_dec, is_empty}
use novanet.Routing.{Kind, peer, prefix, bfd, ospf, Intent}
use novanet.Routing.Intents.{
  IntentError, owner_empty, neighbor_addr_empty, prefix_empty, peer_addr_empty, iface_name_empty,
  area_id_empty, area_id_invalid, area_id_ipv6, Platform, intents_of, peer_key, prefix_key, bfd_key,
  ospf_key, key_of, stamped, is_integer, validate_area_id, validate_intent,
}
use novanet.Routing.Intents.Store.{
  Store, new_store, ensure_owner, created_time, store_intent, set_intent, remove_key,
  remove_peer_intent, remove_prefix_intent, remove_bfd_intent, remove_ospf_intent,
  remove_all_by_owner,
}
use novanet.Routing.Intents.Book.{
  empty_book, checked_remove, book_key, digits, area_error, intent_error, first_created, signed,
  book_set, book_remove, book_remove_all, book_step, book_run, Call, set_call, remove_peer,
  remove_prefix, remove_bfd, remove_ospf, remove_all,
}
use novanet.Routing.Intents.View.{
  book_of, step, run, observed, lookup-insert, book_of-insert, book_of-delete, book_of-lost,
  ensured, held-new_owner_intents,
}

book_key-key_of :
    (platform : Platform) (k : Kind) (i : Intent k) → book_key platform k i ≡ key_of platform k i
unfolding key_of peer_key prefix_key bfd_key ospf_key
book_key-key_of platform peer i = refl
book_key-key_of platform prefix i = refl
book_key-key_of platform bfd i = refl
book_key-key_of platform ospf i = refl

signed-stamped :
    (k : Kind) (o : Text) (created now : ℕ) (i : Intent k)
    → signed k o created now i ≡ stamped k o created now i
signed-stamped peer o created now i = refl
signed-stamped prefix o created now i = refl
signed-stamped bfd o created now i = refl
signed-stamped ospf o created now i = refl

first_created-created_time :
    (k : Kind) (old : Option (Intent k)) (now : ℕ)
    → first_created k old now ≡ created_time k old now
unfolding created_time
first_created-created_time k none now = refl
first_created-created_time peer (some old) now = refl
first_created-created_time prefix (some old) now = refl
first_created-created_time bfd (some old) now = refl
first_created-created_time ospf (some old) now = refl

digits-is_integer : (t : Text) → digits t ≡ is_integer t
unfolding is_integer
digits-is_integer [] = refl
digits-is_integer (c ∷ cs) = ground (arith, digits-is_integer cs)

absent_text :
    (t : Text) (e : IntentError)
    → elim t [ [] ↦ some e | c ∷ cs ↦ none ] ≡ (if is_empty t then some e else none)
absent_text [] e = refl
absent_text (c ∷ cs) e = refl

intent_error-validate_intent :
    (platform : Platform) (k : Kind) (i : Intent k)
    → intent_error platform k i ≡ validate_intent platform k i
unfolding validate_intent validate_area_id
intent_error-validate_intent platform peer i = absent_text i.neighbor_address neighbor_addr_empty
intent_error-validate_intent platform prefix i = absent_text i.prefix prefix_empty
intent_error-validate_intent platform bfd i = absent_text i.peer_address peer_addr_empty
intent_error-validate_intent platform ospf i =
    ospf_error i.interface_name i.area_id (platform.parse_ip i.area_id) (digits i.area_id)
      (is_integer i.area_id) (digits-is_integer i.area_id)
  where
    ospf_error :
        (name area : Text) (ip : Option Bool) (d b : Bool)
        → d ≡ b
        → elim name [
          | [] ↦ some iface_name_empty
          | c ∷ cs ↦ elim area [ [] ↦ some area_id_empty | x ∷ xs ↦ area_error ip d ]
        ]
          ≡ (if is_empty name
              then some iface_name_empty
              else if is_empty area
              then some area_id_empty
              else elim ip [
                | some is_ipv4 ↦ if is_ipv4 then none else some area_id_ipv6
                | none ↦ if b then none else some area_id_invalid
              ])
    ospf_error [] area ip d b q = refl
    ospf_error (c ∷ cs) [] ip d b q = refl
    ospf_error (c ∷ cs) (x ∷ xs) (some true) d b q = refl
    ospf_error (c ∷ cs) (x ∷ xs) (some false) d b q = refl
    ospf_error (c ∷ cs) (x ∷ xs) none true b q = rw (← q) refl
    ospf_error (c ∷ cs) (x ∷ xs) none false b q = rw (← q) refl

observed-set_intent :
    (platform : Platform) (k : Kind) (s : Store) (now : ℕ) (owner : Text)
    (intent : Option (Intent k))
    → observed (set_intent platform k s now owner intent)
      ≡ book_set platform k (book_of s) now owner intent
unfolding set_intent store_intent book_set
observed-set_intent platform k s now owner none = elim (Bool-cases (is_empty owner)) [
  | inl e ↦ rw e refl
  | inr e ↦ rw e refl
]
observed-set_intent platform k s now owner (some intent) = elim (Bool-cases (is_empty owner)) [
  | inl e ↦ rw e refl
  | inr e ↦ elim (Option-cases (validate_intent platform k intent)) [
    | inr (x, q) ↦ rw (e, intent_error-validate_intent platform k intent, q) refl
    | inl q ↦
        let key = key_of platform k intent in
        let m = intents_of k (ensure_owner s owner) in
        let created = created_time k (lookup text_dec key m) now in
        let v = stamped k owner created now intent in
        rw
          (
            e,
            intent_error-validate_intent platform k intent,
            q,
            book_key-key_of platform k intent,
            first_created-created_time k (lookup text_dec key m) now,
            signed-stamped k owner created now intent,
          )
          (ap (λ b. (b, ok tt))
            (book_of-insert k s owner key (some v) (insert text_dec key v m)
              (lookup-insert key v m)))
  ]
]

observed-remove_key :
    (k : Kind) (s : Store) (owner key : Text)
    → observed (remove_key k s owner key) ≡ book_remove k (book_of s) owner key
unfolding remove_key book_remove
observed-remove_key k s owner key = elim (Option-cases (lookup text_dec owner s.intents)) [
  | inl q ↦ rw (remove_key, q) refl
  | inr (oi, q) ↦
      let e : ensure_owner s owner ≡ oi = ensured s owner oi q in
      elim (Option-cases (lookup text_dec key (intents_of k oi))) [
        | inl r ↦ rw (remove_key, q, e, r) refl
        | inr (i, r) ↦
            rw (remove_key, q, e, r) (ap (λ b. (b, ok tt)) (book_of-delete k s owner key oi e))
      ]
]

observed-remove_all_by_owner :
    (s : Store) (owner : Text)
    → book_of (remove_all_by_owner s owner) ≡ book_remove_all (book_of s) owner
unfolding remove_all_by_owner
observed-remove_all_by_owner s owner = elim (Option-cases (lookup text_dec owner s.intents)) [
  | inl q ↦ rw (remove_all_by_owner, q) (book_of-lost s s owner q (λ o p. refl))
  | inr (oi, q) ↦
      rw (remove_all_by_owner, q)
        (book_of-lost s (record { intents = delete text_dec owner s.intents }) owner
          (lookup-delete_self text_dec owner s.intents)
          (λ o p. lookup-delete_ne text_dec owner o s.intents p))
]

checked :
    (k : Kind) (s : Store) (owner name : Text) (e : IntentError) (key : Text)
    → observed (
        if is_empty owner
        then (s, err owner_empty)
        else if is_empty name
        then (s, err e)
        else remove_key k s owner key)
      ≡ checked_remove k (book_of s) owner name e key
checked k s owner name e key = elim (Bool-cases (is_empty owner)) [
  | inl p ↦ rw p refl
  | inr p ↦ elim (Bool-cases (is_empty name)) [
    | inl q ↦ rw (p, q) refl
    | inr q ↦ rw (p, q) (observed-remove_key k s owner key)
  ]
]

-- Each operation on the store returns what the same operation on its book returns, and leaves the
-- store with the book that it leaves.
observed-step :
    (platform : Platform) (s : Store) (c : Call)
    → observed (step platform s c) ≡ book_step platform (book_of s) c
unfolding step book_step remove_peer_intent remove_prefix_intent remove_bfd_intent
    remove_ospf_intent peer_key prefix_key bfd_key ospf_key
observed-step platform s (set_call k now owner intent) =
    observed-set_intent platform k s now owner intent
observed-step platform s (remove_peer owner addr) = checked peer s owner addr _ _
observed-step platform s (remove_prefix owner text protocol) = checked prefix s owner text _ _
observed-step platform s (remove_bfd owner addr) = checked bfd s owner addr _ _
observed-step platform s (remove_ospf owner name) = checked ospf s owner name _ _
observed-step platform s (remove_all owner) =
    ap (λ b. (b, ok tt)) (observed-remove_all_by_owner s owner)

book_of-new_store : book_of new_store ≡ empty_book
unfolding new_store ensure_owner lookup
book_of-new_store = ap (λ f. record { known = λ o. false; at = λ o. f }) held-new_owner_intents

run-from :
    (platform : Platform) (s : Store) (calls : List Call)
    → observed (run platform s calls) ≡ book_run platform (book_of s) calls
unfolding run book_run
run-from platform s [] = refl
run-from platform s (c ∷ cs) =
    let next = observed-step platform s c in
    let rest = run-from platform (step platform s c).0 cs in
    rw (← next) (ap (λ r. (r.0, (step platform s c).1 ∷ r.1)) rest)

-- Any sequence of calls on a new store returns what the same calls on an empty book return, and
-- leaves a store with the book that they leave.
pub run-book_run :
    (platform : Platform) (calls : List Call)
    → observed (run platform new_store calls) ≡ book_run platform empty_book calls
run-book_run platform calls =
    run-from platform new_store calls ∙ ap (λ b. book_run platform b calls) book_of-new_store
