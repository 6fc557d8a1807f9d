-- ===== src/Routing/Intents/Owners.antt =====
-- What an owner does in internal/routing/intent/store.go leaves the other owners alone.
use novanet.Base.{
  ℕ, ◌≡◌, ◌≢◌, refl, inl, inr, Option, none, some, if◌then◌else◌, err, Option-cases, Bool-cases,
}
use novanet.Base.Assoc.{lookup, lookup-insert_ne, lookup-delete_ne}
use novanet.Base.Text.{Text, text_dec, is_empty}
use novanet.Routing.{Kind, peer, prefix, bfd, ospf, Intent}
use novanet.Routing.Intents.{
  IntentError, Platform, owner_empty, intents_of, validate_intent, peer_key, prefix_key, bfd_key,
  ospf_key,
}
use novanet.Routing.Intents.Store.{
  Store, store_intent, set_intent, remove_key, remove_peer_intent, remove_prefix_intent,
  remove_bfd_intent, remove_ospf_intent, remove_all_by_owner, get_owner_intents,
}
use novanet.Routing.Intents.Book.{
  Call, set_call, remove_peer, remove_prefix, remove_bfd, remove_ospf, remove_all,
}
use novanet.Routing.Intents.View.{step}

abbrev pub owner_of : Call → Text
owner_of (set_call k now owner intent) = owner
owner_of (remove_peer owner addr) = owner
owner_of (remove_prefix owner text protocol) = owner
owner_of (remove_bfd owner addr) = owner
owner_of (remove_ospf owner name) = owner
owner_of (remove_all owner) = owner

module _ (s : Store) (owner o : Text) (other : owner ≢ o) where
  set_intent-other :
      (platform : Platform) (k : Kind) (now : ℕ) (intent : Option (Intent k))
      → lookup text_dec o (set_intent platform k s now owner intent).0.intents
        ≡ lookup text_dec o s.intents
  unfolding set_intent store_intent
  set_intent-other platform k now none = elim (Bool-cases (is_empty owner)) [
    | inl e ↦ rw e refl
    | inr e ↦ rw e refl
  ]
  set_intent-other platform k now (some intent) = elim (Bool-cases (is_empty owner)) [
    | inl e ↦ rw e refl
    | inr e ↦ elim (Option-cases (validate_intent platform k intent)) [
      | inr (x, q) ↦ rw (e, q) refl
      | inl q ↦ rw (e, q) (lookup-insert_ne text_dec owner o _ s.intents other)
    ]
  ]

  remove_key-other :
      (k : Kind) (key : Text)
      → lookup text_dec o (remove_key k s owner key).0.intents ≡ lookup text_dec o s.intents
  unfolding remove_key
  remove_key-other k key = elim (Option-cases (lookup text_dec owner s.intents)) [
    | inl q ↦ rw (remove_key, q) refl
    | inr (oi, q) ↦ elim (Option-cases (lookup text_dec key (intents_of k oi))) [
      | inl r ↦ rw (remove_key, q, r) refl
      | inr (i, r) ↦ rw (remove_key, q, r) (lookup-insert_ne text_dec owner o _ s.intents other)
    ]
  ]

  checked-other :
      (k : Kind) (name : Text) (e : IntentError) (key : Text)
      → lookup text_dec o
          (if is_empty owner
            then (s, err owner_empty)
            else if is_empty name
            then (s, err e)
            else remove_key k s owner key).0.intents
        ≡ lookup text_dec o s.intents
  checked-other k name e key = elim (Bool-cases (is_empty owner)) [
    | inl p ↦ rw p refl
    | inr p ↦ elim (Bool-cases (is_empty name)) [
      | inl q ↦ rw (p, q) refl
      | inr q ↦ rw (p, q) (remove_key-other k key)
    ]
  ]

  remove_all-other :
      lookup text_dec o (remove_all_by_owner s owner).intents ≡ lookup text_dec o s.intents
  unfolding remove_all_by_owner
  remove_all-other = elim (Option-cases (lookup text_dec owner s.intents)) [
    | inl q ↦ rw (remove_all_by_owner, q) refl
    | inr (oi, q) ↦ rw (remove_all_by_owner, q) (lookup-delete_ne text_dec owner o s.intents other)
  ]

-- An operation for one owner leaves what GetOwnerIntents returns for every other owner.
pub step-get_owner_intents :
    (platform : Platform) (s : Store) (c : Call) (o : Text)
    → owner_of c ≢ o
    → get_owner_intents (step platform s c).0 o ≡ get_owner_intents s o
unfolding step remove_peer_intent remove_prefix_intent remove_bfd_intent remove_ospf_intent
    get_owner_intents
step-get_owner_intents platform s (set_call k now owner intent) o h =
    set_intent-other s owner o h platform k now intent
step-get_owner_intents platform s (remove_peer owner addr) o h =
    checked-other s owner o h peer addr _ (peer_key addr)
step-get_owner_intents platform s (remove_prefix owner text protocol) o h =
    checked-other s owner o h prefix text _ (prefix_key platform protocol text)
step-get_owner_intents platform s (remove_bfd owner addr) o h =
    checked-other s owner o h bfd addr _ (bfd_key addr)
step-get_owner_intents platform s (remove_ospf owner name) o h =
    checked-other s owner o h ospf name _ (ospf_key name)
step-get_owner_intents platform s (remove_all owner) o h = remove_all-other s owner o h
