-- ===== src/Examples/Nodes.antt =====
-- The node registry of internal/node with one listener.
use novanet.Base.{◌≡◌, false, List, [], ◌∷◌}
use novanet.Base.Text.{codes}
use novanet.Node.{on_node_change, new_registry}
use novanet.Node.Mirror.{
  NodeCall, call_add, call_remove, call_ready, node_run, mirror, mirror-node_run,
}

abbrev calls : List NodeCall
calls =
    call_add (codes "a") (codes "10.0.0.1") (codes "10.1.0.0/24")
    ∷ call_add (codes "b") (codes "10.0.0.2") (codes "10.2.0.0/24")
    ∷ call_ready (codes "a") false
    ∷ call_remove (codes "b")
    ∷ call_remove (codes "c")
    ∷ []

mirror-node_run_example :
    mirror [] (node_run (on_node_change new_registry 7) calls).1
    ≡ (node_run (on_node_change new_registry 7) calls).0.nodes
mirror-node_run_example = mirror-node_run 7 calls
