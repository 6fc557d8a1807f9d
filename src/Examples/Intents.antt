-- ===== src/Examples/Intents.antt =====
-- The intent store of internal/routing/intent with two owners.
use novanet.Base.{◌≡◌, ◌≢◌, none, some, List, [], ◌∷◌}
use novanet.Base.Text.{codes}
use novanet.Routing.{BfdIntent, PrefixIntent, bfd, prefix, protocol_bgp}
use novanet.Routing.Intents.{Platform}
use novanet.Routing.Intents.Store.{Store, new_store, get_owner_intents}
use novanet.Routing.Intents.Book.{
  Call, set_call, remove_bfd, remove_prefix, remove_all, empty_book, book_run,
}
use novanet.Routing.Intents.View.{step, run, observed}
use novanet.Routing.Intents.Refinement.{run-book_run}
use novanet.Routing.Intents.Owners.{step-get_owner_intents}

-- Texts here are in lower case, and no area is an address.
abbrev platform : Platform
platform = record { to_lower = λ t. t; parse_ip = λ t. none }

abbrev session : BfdIntent
session = record {
  owner = [];
  peer_address = codes "10.0.0.2";
  min_rx_ms = 300;
  min_tx_ms = 300;
  detect_multiplier = 3;
  interface_name = codes "eth0";
  created_at = 0;
  updated_at = 0;
}

abbrev route : PrefixIntent
route = record {
  owner = [];
  prefix = codes "10.1.0.0/16";
  protocol = protocol_bgp;
  local_preference = 100;
  communities = [];
  med = 0;
  next_hop = [];
  created_at = 0;
  updated_at = 0;
}

abbrev calls : List Call
calls =
    set_call bfd 1 (codes "edge") (some session)
    ∷ set_call prefix 2 (codes "admin") (some route)
    ∷ set_call bfd 3 (codes "edge") (some session)
    ∷ remove_prefix (codes "admin") (codes "10.1.0.0/16") (codes "bgp")
    ∷ remove_bfd (codes "edge") (codes "10.0.0.9")
    ∷ remove_all (codes "edge")
    ∷ []

run-book_run_example : observed (run platform new_store calls) ≡ book_run platform empty_book calls
run-book_run_example = run-book_run platform calls

abbrev stocked : Store
stocked = (step platform new_store (set_call prefix 2 (codes "admin") (some route))).0

owners_differ : codes "edge" ≢ codes "admin"
owners_differ e = absurd (cc)

step-get_owner_intents_example :
    get_owner_intents (step platform stocked (remove_all (codes "edge"))).0 (codes "admin")
    ≡ get_owner_intents stocked (codes "admin")
step-get_owner_intents_example =
    step-get_owner_intents platform stocked (remove_all (codes "edge")) (codes "admin")
      owners_differ
