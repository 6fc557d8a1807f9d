-- ===== src/Node/Mirror.antt =====
-- A listener of internal/node/registry.go that keeps a map by the events it is told, where calls do not
-- overlap: the callbacks of one call have returned before the next call takes the lock.
use novanet.Base.{
  ℕ, ◌≡◌, refl, sym, ap, ◌∙◌, inl, inr, Bool, true, none, some, List, [], ◌∷◌, ◌++◌, Option-cases,
  some_inj,
}
use novanet.Base.Assoc.{
  lookup, insert, delete, lookup-insert_self, lookup-insert_ne, lookup-delete_self,
  lookup-delete_ne,
}
use novanet.Base.Text.{Text, text_dec}
use novanet.Node.{
  NodeInfo, NodeEvent, node_add, node_update, node_delete, Notification, Registry, new_registry,
  notify, add_node, remove_node, on_node_change, set_ready,
}

pub data NodeCall : Type 0 where
  call_add : Text → Text → Text → NodeCall
  call_remove : Text → NodeCall
  call_ready : Text → Bool → NodeCall

unfoldable pub node_step : Registry → NodeCall → Registry × List Notification
node_step r (call_add name ip pod_cidr) = add_node r name ip pod_cidr
node_step r (call_remove name) = remove_node r name
node_step r (call_ready name ready) = set_ready r name ready

-- The calls one after another: the callbacks of each are called before the next call.
unfoldable pub node_run : Registry → List NodeCall → Registry × List Notification
unfolding node_step
node_run r [] = (r, [])
node_run r (c ∷ cs) =
    let next = node_step r c in let rest = node_run next.0 cs in (rest.0, next.1 ++ rest.1)

abbrev pub Nodes : Type 0
Nodes = List (Text × NodeInfo)

-- What the listener does with an event: the name that it uses is that of the node. It takes a node that
-- is added only if it does not know its name, and one that is updated only if it does.
abbrev pub on_event : Nodes → NodeEvent → NodeInfo → Nodes
on_event m node_add node = elim (lookup text_dec node.name m) [
  | none ↦ insert text_dec node.name node m
  | some old ↦ m
]
on_event m node_update node = elim (lookup text_dec node.name m) [
  | none ↦ m
  | some old ↦ insert text_dec node.name node m
]
on_event m node_delete node = delete text_dec node.name m

abbrev pub mirror : Nodes → List Notification → Nodes
mirror m [] = m
mirror m (n ∷ ns) = mirror (on_event m n.event n.node) ns

-- Each node stands under its own name.
abbrev pub IsNamed : Nodes → Type 0
IsNamed m = (k : Text) (n : NodeInfo) → lookup text_dec k m ≡ some n → n.name ≡ k

mirror-append :
    (m : Nodes) (xs ys : List Notification) → mirror m (xs ++ ys) ≡ mirror (mirror m xs) ys
mirror-append m [] ys = refl
mirror-append m (x ∷ xs) ys = mirror-append (on_event m x.event x.node) xs ys

insert-IsNamed :
    (k : Text) (n : NodeInfo) (m : Nodes) → n.name ≡ k → IsNamed m → IsNamed (insert text_dec k n m)
insert-IsNamed k n m e named q x h = elim (text_dec k q) [
  | yes p ↦
      let at_k : lookup text_dec k (insert text_dec k n m) ≡ some x =
        ap (λ t. lookup text_dec t (insert text_dec k n m)) p ∙ h in
      let same : n ≡ x = some_inj (sym (lookup-insert_self text_dec k n m) ∙ at_k) in
      rw (← same) (e ∙ p)
  | no p ↦ named q x (sym (lookup-insert_ne text_dec k q n m p) ∙ h)
]

delete-IsNamed : (k : Text) (m : Nodes) → IsNamed m → IsNamed (delete text_dec k m)
delete-IsNamed k m named q x h = elim (text_dec k q) [
  | yes p ↦ absurd (cc (rw p at (lookup-delete_self text_dec k m), h))
  | no p ↦ named q x (sym (lookup-delete_ne text_dec k q m p) ∙ h)
]

lookup-nil : (k : Text) → lookup {V = NodeInfo} text_dec k [] ≡ none
unfolding lookup
lookup-nil k = refl

added :
    (m : Nodes) (node : NodeInfo)
    → lookup text_dec node.name m ≡ none
    → on_event m node_add node ≡ insert text_dec node.name node m
added m node e = rw (on_event, e) refl

updated :
    (m : Nodes) (node old : NodeInfo)
    → lookup text_dec node.name m ≡ some old
    → on_event m node_update node ≡ insert text_dec node.name node m
updated m node old e = rw (on_event, e) refl

-- What one call does to the registry and to its only listener.
abbrev Mirrors : Registry → ℕ → Registry × List Notification → Type 0
Mirrors r cb next =
    (next.0.callbacks ≡ cb ∷ []) × IsNamed next.0.nodes × (mirror r.nodes next.1 ≡ next.0.nodes)

node_step-Mirrors :
    (r : Registry) (cb : ℕ) (c : NodeCall)
    → r.callbacks ≡ cb ∷ []
    → IsNamed r.nodes
    → Mirrors r cb (node_step r c)
unfolding node_step add_node remove_node set_ready notify
node_step-Mirrors r cb (call_add name ip pod_cidr) one named =
    let node : NodeInfo = record { name = name; ip = ip; pod_cidr = pod_cidr; ready = true } in
    (
      one,
      insert-IsNamed name node r.nodes refl named,
      elim (Option-cases (lookup text_dec name r.nodes)) [
        | inl e ↦ rw (one, e) (added r.nodes node e)
        | inr (old, e) ↦ rw (one, e) (updated r.nodes node old e)
      ],
    )
node_step-Mirrors r cb (call_remove name) one named =
    elim (Option-cases (lookup text_dec name r.nodes)) [
      | inl e ↦ rw (remove_node, e) (one, named, refl)
      | inr (node, e) ↦
          rw (remove_node, e)
            (
              one,
              delete-IsNamed name r.nodes named,
              rw one (ap (λ k. delete text_dec k r.nodes) (named name node e)),
            )
    ]
node_step-Mirrors r cb (call_ready name ready) one named =
    elim (Option-cases (lookup text_dec name r.nodes)) [
      | inl e ↦ rw (set_ready, e) (one, named, refl)
      | inr (node, e) ↦
          let node' : NodeInfo = record node { ready = ready } in
          rw (set_ready, e)
            (
              one,
              insert-IsNamed name node' r.nodes (named name node e) named,
              rw one (
                  updated r.nodes node' node
                    (ap (λ k. lookup text_dec k r.nodes) (named name node e) ∙ e)
                  ∙ ap (λ k. insert text_dec k node' r.nodes) (named name node e)),
            )
    ]

node_run-mirror :
    (r : Registry) (cb : ℕ) (calls : List NodeCall)
    → r.callbacks ≡ cb ∷ []
    → IsNamed r.nodes
    → mirror r.nodes (node_run r calls).1 ≡ (node_run r calls).0.nodes
unfolding node_run
node_run-mirror r cb [] one named = refl
node_run-mirror r cb (c ∷ cs) one named =
    let next = node_step r c in
    let (one', named', told) = node_step-Mirrors r cb c one named in
    mirror-append r.nodes next.1 (node_run next.0 cs).1
    ∙ ap (λ m. mirror m (node_run next.0 cs).1) told
    ∙ node_run-mirror next.0 cb cs one' named'

-- Where the calls of `AddNode`, `RemoveNode` and `SetReady` come one after another, each with its callbacks
-- done before the next: a listener that is registered first and alone, that takes a node that is added
-- only if it does not know its name and one that is updated only if it does, and that drops one that
-- is deleted, has after them exactly the nodes of the registry.
pub mirror-node_run :
    (cb : ℕ) (calls : List NodeCall)
    → mirror [] (node_run (on_node_change new_registry cb) calls).1
      ≡ (node_run (on_node_change new_registry cb) calls).0.nodes
unfolding on_node_change new_registry
mirror-node_run cb calls =
    node_run-mirror (on_node_change new_registry cb) cb calls refl (λ k n h. none_there k n h)
  where
    none_there : (k : Text) (n : NodeInfo) → lookup text_dec k [] ≡ some n → n.name ≡ k
    none_there k n h = absurd (cc (lookup-nil k, h))
