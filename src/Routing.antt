-- ===== src/Routing.antt =====
-- internal/routing: what the clients of the routing server ask for.
pub mod Intents
pub mod Engine
use novanet.Base.{ℕ, Bool, true, false, List, if◌then◌else◌, ◌==◌}
use novanet.Base.Text.{Text, codes}

-- The enumerations of internal/routing/types/types.go are numbers.
abbrev pub protocol_unspecified : ℕ
protocol_unspecified = 0

abbrev pub protocol_bgp : ℕ
protocol_bgp = 1

abbrev pub protocol_ospf : ℕ
protocol_ospf = 2

-- `protocolString`.
unfoldable pub protocol_string : ℕ → Text
protocol_string p =
    if p == protocol_bgp
    then codes "bgp"
    else if p == protocol_ospf
    then codes "ospf"
    else codes "unknown"

pub record PeerIntent : Type 0 where
  pub owner : Text
  pub neighbor_address : Text
  pub remote_as : ℕ
  pub peer_type : ℕ
  pub keepalive : ℕ
  pub hold_time : ℕ
  pub bfd_enabled : Bool
  pub bfd_min_rx_ms : ℕ
  pub bfd_min_tx_ms : ℕ
  pub bfd_detect_multiplier : ℕ
  pub description : Text
  pub address_families : List ℕ
  pub source_address : Text
  pub ebgp_multihop : ℕ
  pub password : Text
  pub max_prefixes : ℕ
  pub created_at : ℕ
  pub updated_at : ℕ

pub record PrefixIntent : Type 0 where
  pub owner : Text
  pub prefix : Text
  pub protocol : ℕ
  pub local_preference : ℕ
  pub communities : List Text
  pub med : ℕ
  pub next_hop : Text
  pub created_at : ℕ
  pub updated_at : ℕ

pub record BfdIntent : Type 0 where
  pub owner : Text
  pub peer_address : Text
  pub min_rx_ms : ℕ
  pub min_tx_ms : ℕ
  pub detect_multiplier : ℕ
  pub interface_name : Text
  pub created_at : ℕ
  pub updated_at : ℕ

pub record OspfIntent : Type 0 where
  pub owner : Text
  pub interface_name : Text
  pub area_id : Text
  pub passive : Bool
  pub cost : ℕ
  pub hello_interval : ℕ
  pub dead_interval : ℕ
  pub ipv6 : Bool
  pub created_at : ℕ
  pub updated_at : ℕ

-- The four maps of an owner, and what stands in each.
pub data Kind : Type 0 where
  peer prefix bfd ospf : Kind

abbrev pub Intent : Kind → Type 0
Intent peer = PeerIntent
Intent prefix = PrefixIntent
Intent bfd = BfdIntent
Intent ospf = OspfIntent
