-- ===== src/Routing/Intents/View.antt =====
-- The store of internal/routing/intent/store.go seen as a book of intents, and runs of its operations.
use mathlib.Core.Logic.{if_pos, if_neg}
use mathlib.Core.Path.{fun_ext}
use novanet.Base.{
  ◌≡◌, ◌≢◌, refl, sym, ap, ◌∙◌, Bool, true, false, Option, none, some, List, [], ◌∷◌, ok,
}
use novanet.Base.Assoc.{
  lookup, insert, delete, lookup-insert_self, lookup-insert_ne, lookup-delete_self,
  lookup-delete_ne,
}
use novanet.Base.Text.{Text, text_dec}
use novanet.Routing.{Kind, peer, prefix, bfd, ospf, Intent}
use novanet.Routing.Intents.{
  Outcome, Platform, OwnerIntents, new_owner_intents, intents_of, with_intents,
}
use novanet.Routing.Intents.Store.{
  Store, ensure_owner, set_intent, remove_peer_intent, remove_prefix_intent, remove_bfd_intent,
  remove_ospf_intent, remove_all_by_owner,
}
use novanet.Routing.Intents.Book.{
  Book, assign, replace, write, book_remove_all, Call, set_call, remove_peer, remove_prefix,
  remove_bfd, remove_ospf, remove_all,
}

abbrev pub is_some {ℓ} : {A : Type ℓ} → Option A → Bool
is_some none = false
is_some (some a) = true

-- What the store holds, as a book.
abbrev pub book_of : Store → Book
book_of s = record {
  known = λ o. is_some (lookup text_dec o s.intents);
  at = λ o k q. lookup text_dec q (intents_of k (ensure_owner s o));
}

-- The operation that a call is of, on the store.
unfoldable pub step : Platform → Store → Call → Store × Outcome
step platform s (set_call k now owner intent) = set_intent platform k s now owner intent
step platform s (remove_peer owner addr) = remove_peer_intent s owner addr
step platform s (remove_prefix owner text protocol) =
    remove_prefix_intent platform s owner text protocol
step platform s (remove_bfd owner addr) = remove_bfd_intent s owner addr
step platform s (remove_ospf owner name) = remove_ospf_intent s owner name
step platform s (remove_all owner) = (remove_all_by_owner s owner, ok tt)

unfoldable pub run : Platform → Store → List Call → Store × List Outcome
unfolding step
run platform s [] = (s, [])
run platform s (c ∷ cs) =
    let next = step platform s c in let rest = run platform next.0 cs in (rest.0, next.1 ∷ rest.1)

-- A store with its result, as a book with its result.
abbrev pub observed {ℓ} : {A : Type ℓ} → Store × A → Book × A
observed r = (book_of r.0, r.1)

Book-ext :
    (b c : Book) → ((o : Text) → b.known o ≡ c.known o) → ((o : Text) → b.at o ≡ c.at o) → b ≡ c
Book-ext b c h h' i = record { known = λ o. h o i; at = λ o. h' o i }

pub lookup-insert :
    {V : Type 0} (k : Text) (v : V) (m : List (Text × V))
    → (λ q. lookup text_dec q (insert text_dec k v m))
      ≡ assign k (some v) (λ q. lookup text_dec q m)
lookup-insert k v m = fun_ext (λ q. elim (text_dec k q) [
  | yes p ↦ rw (← p) (lookup-insert_self text_dec k v m ∙ sym (if_pos (text_dec k k) refl _ _))
  | no p ↦ lookup-insert_ne text_dec k q v m p ∙ sym (if_neg (text_dec k q) p _ _)
])

pub lookup-delete :
    {V : Type 0} (k : Text) (m : List (Text × V))
    → (λ q. lookup text_dec q (delete text_dec k m)) ≡ assign k none (λ q. lookup text_dec q m)
lookup-delete k m = fun_ext (λ q. elim (text_dec k q) [
  | yes p ↦ rw (← p) (lookup-delete_self text_dec k m ∙ sym (if_pos (text_dec k k) refl _ _))
  | no p ↦ lookup-delete_ne text_dec k q m p ∙ sym (if_neg (text_dec k q) p _ _)
])

abbrev pub held : OwnerIntents → (u : Kind) → Text → Option (Intent u)
held oi u q = lookup text_dec q (intents_of u oi)

held-with_intents :
    (k : Kind) (m : List (Text × Intent k)) (oi : OwnerIntents)
    → held (with_intents k m oi) ≡ replace k (λ q. lookup text_dec q m) (held oi)
held-with_intents k m oi = fun_ext (go k m)
  where
    go :
        (k : Kind) (m : List (Text × Intent k)) (u : Kind)
        → held (with_intents k m oi) u ≡ replace k (λ q. lookup text_dec q m) (held oi) u
    go peer m peer = refl
    go peer m prefix = refl
    go peer m bfd = refl
    go peer m ospf = refl
    go prefix m peer = refl
    go prefix m prefix = refl
    go prefix m bfd = refl
    go prefix m ospf = refl
    go bfd m peer = refl
    go bfd m prefix = refl
    go bfd m bfd = refl
    go bfd m ospf = refl
    go ospf m peer = refl
    go ospf m prefix = refl
    go ospf m bfd = refl
    go ospf m ospf = refl

ensure_owner-insert_self :
    (owner : Text) (oi : OwnerIntents) (ois : List (Text × OwnerIntents))
    → ensure_owner (record { intents = insert text_dec owner oi ois }) owner ≡ oi
unfolding ensure_owner
ensure_owner-insert_self owner oi ois =
    rw (ensure_owner, lookup-insert_self text_dec owner oi ois) refl

ensure_owner-insert_ne :
    (owner o : Text) (oi : OwnerIntents) (ois : List (Text × OwnerIntents))
    → owner ≢ o
    → ensure_owner (record { intents = insert text_dec owner oi ois }) o
      ≡ ensure_owner (record { intents = ois }) o
unfolding ensure_owner
ensure_owner-insert_ne owner o oi ois p =
    rw (ensure_owner, lookup-insert_ne text_dec owner o oi ois p) refl

-- An assignment to one map of one owner.
pub book_of-insert :
    (k : Kind) (s : Store) (owner key : Text) (v : Option (Intent k)) (m : List (Text × Intent k))
    → (λ q. lookup text_dec q m) ≡ assign key v (held (ensure_owner s owner) k)
    → book_of (record {
      intents = insert text_dec owner (with_intents k m (ensure_owner s owner)) s.intents;
    })
      ≡ write (book_of s) owner k key v
book_of-insert k s owner key v m e =
    let oi = with_intents k m (ensure_owner s owner) in
    let b = write (book_of s) owner k key v in
    let here = lookup-insert_self text_dec owner oi s.intents in
    Book-ext (book_of (record { intents = insert text_dec owner oi s.intents })) b
      (λ o. elim (text_dec owner o) [
        | yes p ↦ rw (← p) (rw here (sym (if_pos (text_dec owner owner) refl _ _)))
        | no p ↦
            ap is_some (lookup-insert_ne text_dec owner o oi s.intents p)
            ∙ sym (if_neg (text_dec owner o) p _ _)
      ])
      (λ o. elim (text_dec owner o) [
        | yes p ↦ rw (← p) (
            ap held (ensure_owner-insert_self owner oi s.intents)
            ∙ held-with_intents k m (ensure_owner s owner)
            ∙ ap (λ f. replace k f (held (ensure_owner s owner))) e
            ∙ sym (if_pos (text_dec owner owner) refl _ _))
        | no p ↦
            ap held (ensure_owner-insert_ne owner o oi s.intents p)
            ∙ sym (if_neg (text_dec owner o) p _ _)
      ])

pub ensured :
    (s : Store) (owner : Text) (oi : OwnerIntents)
    → lookup text_dec owner s.intents ≡ some oi
    → ensure_owner s owner ≡ oi
unfolding ensure_owner
ensured s owner oi q = rw (ensure_owner, q) refl

pub missing :
    (s : Store) (owner : Text)
    → lookup text_dec owner s.intents ≡ none
    → ensure_owner s owner ≡ new_owner_intents
unfolding ensure_owner
missing s owner q = rw (ensure_owner, q) refl

-- The removal of a key that the owner has.
pub book_of-delete :
    (k : Kind) (s : Store) (owner key : Text) (oi : OwnerIntents)
    → ensure_owner s owner ≡ oi
    → book_of (record {
      intents =
          insert text_dec owner
            (with_intents k (delete text_dec key (intents_of k oi)) oi)
            s.intents;
    })
      ≡ write (book_of s) owner k key none
book_of-delete k s owner key oi e =
    let m = intents_of k (ensure_owner s owner) in
    rw (← e) (book_of-insert k s owner key none (delete text_dec key m) (lookup-delete key m))

pub held-new_owner_intents : held new_owner_intents ≡ (λ k q. none)
unfolding new_owner_intents lookup
held-new_owner_intents = fun_ext go
  where
    go : (k : Kind) → held new_owner_intents k ≡ (λ q. none)
    go peer = refl
    go prefix = refl
    go bfd = refl
    go ospf = refl

-- A store that lost one owner, and is otherwise the same.
pub book_of-lost :
    (s t : Store) (owner : Text)
    → lookup text_dec owner t.intents ≡ none
    → ((o : Text) → owner ≢ o → lookup text_dec o t.intents ≡ lookup text_dec o s.intents)
    → book_of t ≡ book_remove_all (book_of s) owner
unfolding book_remove_all ensure_owner
book_of-lost s t owner gone same =
    Book-ext (book_of t) (book_remove_all (book_of s) owner)
      (λ o. elim (text_dec owner o) [
        | yes p ↦ rw (← p) (rw gone (sym (if_pos (text_dec owner owner) refl _ _)))
        | no p ↦ ap is_some (same o p) ∙ sym (if_neg (text_dec owner o) p _ _)
      ])
      (λ o. elim (text_dec owner o) [
        | yes p ↦ rw (← p) (
            ap held (missing t owner gone)
            ∙ held-new_owner_intents
            ∙ sym (if_pos (text_dec owner owner) refl _ _))
        | no p ↦
            ap (λ r. held (elim r [ none ↦ new_owner_intents | some oi ↦ oi ])) (same o p)
            ∙ sym (if_neg (text_dec owner o) p _ _)
      ])
