-- ===== src/Node.antt =====
-- The registry of internal/node/registry.go. A callback is a number. `AddNode`, `RemoveNode` and `SetReady`
-- change the registry and copy the callbacks under the lock, and call the callbacks after they have
-- released it. Here an operation returns the registry as it is when the lock is released, and the calls
-- of callbacks that are still to be made then, in their order: with calls that overlap, those of one
-- operation may be made after the lock of a later one, and in another order than the locks.
pub mod Mirror
use novanet.Base.{
  ℕ, Bool, true, false, Option, none, some, List, [], ◌∷◌, ◌++◌, map, length, if◌then◌else◌,
}
use novanet.Base.Assoc.{lookup, insert, delete}
use novanet.Base.Text.{Text, text_dec}
use novanet.Identity.Labels.{before}

pub record NodeInfo : Type 0 where
  pub name : Text
  pub ip : Text
  pub pod_cidr : Text
  pub ready : Bool

-- The events "add", "update" and "delete".
pub data NodeEvent : Type 0 where
  node_add node_update node_delete : NodeEvent

pub record Notification : Type 0 where
  pub callback : ℕ
  pub event : NodeEvent
  pub node : NodeInfo

pub record Registry : Type 0 where
  pub nodes : List (Text × NodeInfo)
  pub callbacks : List ℕ

unfoldable pub new_registry : Registry
new_registry = record { nodes = []; callbacks = [] }

-- The calls of callbacks that an operation has still to make when it has released the lock. Other
-- operations may take the lock before they are made.
abbrev pub Pending : Type 0
Pending = List Notification

-- The loop over the callbacks that were copied under the lock.
unfoldable pub notify : List ℕ → NodeEvent → NodeInfo → Pending
notify callbacks event node =
    map (λ cb. record { callback = cb; event = event; node = node }) callbacks

abbrev add_event : Option NodeInfo → NodeEvent
add_event none = node_add
add_event (some existing) = node_update

-- The registry when the lock is released, and the calls that are made after that.
unfoldable pub add_node : Registry → Text → Text → Text → Registry × Pending
unfolding notify
add_node r name ip pod_cidr =
    let node : NodeInfo = record { name = name; ip = ip; pod_cidr = pod_cidr; ready = true } in
    (
      record r { nodes = insert text_dec name node r.nodes },
      notify r.callbacks (add_event (lookup text_dec name r.nodes)) node,
    )

-- As for `add_node`: the calls come after the lock is released.
unfoldable pub remove_node : Registry → Text → Registry × Pending
unfolding notify
remove_node r name = elim (lookup text_dec name r.nodes) [
  | none ↦ (r, [])
  | some node ↦
      (record r { nodes = delete text_dec name r.nodes }, notify r.callbacks node_delete node)
]

unfoldable pub get_node : Registry → Text → Option NodeInfo
get_node r name = lookup text_dec name r.nodes

abbrev sort_node : NodeInfo → List NodeInfo → List NodeInfo
sort_node n [] = n ∷ []
sort_node n (m ∷ ns) =
    let rest = sort_node n ns in if before n.name m.name then n ∷ m ∷ ns else m ∷ rest

abbrev sorted_nodes : List (Text × NodeInfo) → List NodeInfo
sorted_nodes [] = []
sorted_nodes ((name, n) ∷ nodes) = sort_node n (sorted_nodes nodes)

unfoldable pub list_nodes : Registry → List NodeInfo
list_nodes r = sorted_nodes r.nodes

unfoldable pub on_node_change : Registry → ℕ → Registry
on_node_change r cb = record r { callbacks = r.callbacks ++ cb ∷ [] }

-- The node is changed through the pointer that the map holds. The calls, which are given a copy of it,
-- come after the lock is released.
unfoldable pub set_ready : Registry → Text → Bool → Registry × Pending
unfolding notify
set_ready r name ready = elim (lookup text_dec name r.nodes) [
  | none ↦ (r, [])
  | some node ↦
      let node' : NodeInfo = record node { ready = ready } in
      (
        record r { nodes = insert text_dec name node' r.nodes },
        notify r.callbacks node_update node',
      )
]

unfoldable pub node_count : Registry → ℕ
node_count r = length r.nodes
