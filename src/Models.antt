-- ===== src/Models.antt =====
-- internal/models/models.go: the persisted configuration. A time is its nanoseconds since Go's zero
-- time, so 0 is `IsZero`; `uint16`, `uint32` and `uint` fields are numbers. The functions of the
-- file are in the modules below.
pub mod Find
pub mod Addresses
pub mod Gateways
pub mod Validate
pub mod Tests
use wg_busy.Prelude.{ℕ, ℤ, Bool, List, Text, Option}

-- A registered WebAuthn credential.
pub record Passkey : Type 0 where
  pub id : Text
  pub name : Text
  pub public_key : Text
  pub algorithm : ℤ
  pub sign_count : ℕ
  pub aaguid : Text
  pub created_at : ℕ
  pub last_used_at : Option ℕ

-- An imported WireGuard client configuration, used as an outbound gateway.
pub record VpnGateway : Type 0 where
  pub id : Text
  pub name : Text
  pub interface : Text
  pub private_key : Text
  pub address : Text
  pub mtu : ℕ
  pub dns : Text
  pub public_key : Text
  pub preshared_key : Text
  pub allowed_ips : Text
  pub endpoint : Text
  pub persistent_keepalive : ℕ
  pub enabled : Bool
  pub auto_start : Bool
  pub routing_table_id : ℕ
  pub created_at : ℕ
  pub updated_at : ℕ

-- A network that the ZeroTier client should be joined to.
pub record ZeroTierNetwork : Type 0 where
  pub id : Text
  pub name : Text
  pub allow_managed : Bool
  pub allow_global : Bool
  pub allow_default : Bool
  pub allow_dns : Bool

-- The desired state of the local ZeroTier client.
pub record ZeroTierConfig : Type 0 where
  pub enabled : Bool
  pub port : ℕ
  pub disable_masquerade : Bool
  pub exclude_advertised_routes_from_masquerade : Bool
  pub networks : List ZeroTierNetwork

-- The interface section of wg0.conf, BGP and login settings.
pub record ServerConfig : Type 0 where
  pub private_key : Text
  pub listen_port : ℕ
  pub address : Text
  pub endpoint : Text
  pub dns : Text
  pub mtu : ℕ
  pub table : Text
  pub fw_mark : Text
  pub pre_up : Text
  pub post_up : Text
  pub pre_down : Text
  pub post_down : Text
  pub bgp_enabled : Bool
  pub bgp_listen_address : Text
  pub bgp_listen_port : ℕ
  pub bgp_asn : ℕ
  pub require_passkey : Bool
  pub passkeys : List Passkey

pub record RouteFilter : Type 0 where
  pub prefix : Text
  pub matcher : Text
  pub action : Text

-- A BGP session of its own.
pub record BgpPeer : Type 0 where
  pub id : Text
  pub name : Text
  pub enabled : Bool
  pub connect : Bool
  pub redistribute_connected : Bool
  pub max_received_prefix_length : ℕ
  pub max_advertised_prefix_length : ℕ
  pub peer_ip : Text
  pub peer_port : ℕ
  pub peer_asn : ℕ
  pub route_filters : List RouteFilter
  pub export_filters : List RouteFilter
  pub created_at : ℕ
  pub updated_at : ℕ

-- A device on the network behind a peer.
pub record PeerNetworkDevice : Type 0 where
  pub ip : Text
  pub mac : Text
  pub hostname : Text
  pub vendor : Text
  pub interface : Text
  pub online : Bool
  pub last_seen : ℕ

-- One device's own gateway; no gateway means the main table.
pub record PeerDeviceRoutingRule : Type 0 where
  pub device_ip : Text
  pub gateway_id : Text
  pub enabled : Bool

-- A WireGuard client.
pub record Peer : Type 0 where
  pub id : Text
  pub name : Text
  pub private_key : Text
  pub public_key : Text
  pub preshared_key : Text
  pub allowed_ips : Text
  pub endpoint : Text
  pub persistent_keepalive : ℕ
  pub dns : Text
  pub client_allowed_ips : Text
  pub is_exit_node : Bool
  pub exit_node_id : Text
  pub exit_node_allow_all : Bool
  pub exit_node_routes : List Text
  pub advertised_routes : List Text
  pub policy_routes : List Text
  pub strict_policy_routing : Bool
  pub routing_table_id : ℕ
  pub policy_routing_table_id : ℕ
  pub vpn_gateway_id : Text
  pub network_devices : List PeerNetworkDevice
  pub device_routing_rules : List PeerDeviceRoutingRule
  pub enabled : Bool
  pub created_at : ℕ
  pub updated_at : ℕ
  pub last_seen : ℕ
  pub transfer_rx : ℤ
  pub transfer_tx : ℤ

-- The whole configuration.
pub record AppConfig : Type 0 where
  pub server : ServerConfig
  pub peers : List Peer
  pub bgp_peers : List BgpPeer
  pub zerotier : ZeroTierConfig
  pub vpn_gateways : List VpnGateway

-- An on-link network, and the interface it is reached through.
pub record GatewayNet : Type 0 where
  pub device : Text
  pub cidr : Text

pub record ValidationError : Type 0 where
  pub field : Text
  pub message : Text
