-- ===== src/Samples.antt =====
-- Peers and configurations that the tests of the parts run on.
use wg_busy.Prelude.{ℕ, zero, suc, ◌++◌, true, false, List, [], ◌∷◌, codes, pos}
use wg_busy.Models.{
  BgpPeer, ZeroTierNetwork, Peer, ServerConfig, AppConfig, ZeroTierConfig, VpnGateway, GatewayNet,
}

abbrev pub plain_peer : Peer
plain_peer = record {
  id = codes "a";
  name = codes "phone";
  private_key = [];
  public_key = [];
  preshared_key = [];
  allowed_ips = codes "10.0.0.5/32";
  endpoint = [];
  persistent_keepalive = 0;
  dns = [];
  client_allowed_ips = [];
  is_exit_node = false;
  exit_node_id = [];
  exit_node_allow_all = false;
  exit_node_routes = [];
  advertised_routes = [];
  policy_routes = [];
  strict_policy_routing = false;
  routing_table_id = 0;
  policy_routing_table_id = 0;
  vpn_gateway_id = [];
  network_devices = [];
  device_routing_rules = [];
  enabled = true;
  created_at = 1;
  updated_at = 1;
  last_seen = 0;
  transfer_rx = pos 0;
  transfer_tx = pos 0;
}

abbrev pub exit_peer : Peer
exit_peer = record plain_peer {
  id = codes "x";
  allowed_ips = codes "10.0.0.2/32";
  is_exit_node = true;
  exit_node_allow_all = true;
  routing_table_id = 100;
}

-- A strict peer that is routed through the exit node.
abbrev pub strict_peer : Peer
strict_peer = record plain_peer {
  id = codes "s";
  allowed_ips = codes "10.0.0.7/32, 10.8.0.0/24";
  exit_node_id = codes "x";
  strict_policy_routing = true;
  policy_routes = codes "192.168.9.0/24 via 10.147.17.1" ∷ [];
  policy_routing_table_id = 101;
}

-- A peer with a device of its own gateway.
abbrev pub device_peer : Peer
device_peer = record plain_peer {
  id = codes "d";
  allowed_ips = codes "10.0.0.9/32";
  vpn_gateway_id = codes "g";
  device_routing_rules =
      record { device_ip = codes "192.168.50.3"; gateway_id = codes "g"; enabled = true } ∷ [];
}

abbrev pub gateway : VpnGateway
gateway = record {
  id = codes "g";
  name = codes "provider";
  interface = codes "wgg0";
  private_key = [];
  address = codes "10.2.0.2/32";
  mtu = 0;
  dns = [];
  public_key = [];
  preshared_key = [];
  allowed_ips = codes "0.0.0.0/0, ::/0";
  endpoint = codes "vpn.example:51820";
  persistent_keepalive = 25;
  enabled = true;
  auto_start = true;
  routing_table_id = 200;
  created_at = 1;
  updated_at = 1;
}

abbrev pub server : ServerConfig
server = record {
  private_key = [];
  listen_port = 51820;
  address = codes "10.0.0.1/24";
  endpoint = [];
  dns = [];
  mtu = 0;
  table = [];
  fw_mark = [];
  pre_up = [];
  post_up = [];
  pre_down = [];
  post_down = [];
  bgp_enabled = false;
  bgp_listen_address = [];
  bgp_listen_port = 179;
  bgp_asn = 0;
  require_passkey = false;
  passkeys = [];
}

abbrev pub zerotier : ZeroTierConfig
zerotier = record {
  enabled = true;
  port = 9993;
  disable_masquerade = false;
  exclude_advertised_routes_from_masquerade = false;
  networks = [];
}

abbrev pub sample_config : AppConfig
sample_config = record {
  server = server;
  peers = exit_peer ∷ strict_peer ∷ device_peer ∷ [];
  bgp_peers = [];
  zerotier = zerotier;
  vpn_gateways = gateway ∷ [];
}

abbrev pub sample_nets : List GatewayNet
sample_nets =
    record { device = codes "wg0"; cidr = codes "10.0.0.1/24" }
    ∷ record { device = codes "ztabc"; cidr = codes "10.147.17.36/24" }
    ∷ []

abbrev pub bgp_peer : BgpPeer
bgp_peer = record {
  id = codes "b";
  name = codes "core router";
  enabled = true;
  connect = true;
  redistribute_connected = false;
  max_received_prefix_length = 24;
  max_advertised_prefix_length = 0;
  peer_ip = codes "10.0.0.2";
  peer_port = 179;
  peer_asn = 65001;
  route_filters =
      record { prefix = codes "10.0.0.0/8"; matcher = codes "orlonger"; action = codes "accept" }
      ∷ [];
  export_filters = [];
  created_at = 1;
  updated_at = 1;
}

abbrev pub home_network : ZeroTierNetwork
home_network = record {
  id = codes " 8056C2E21C000001";
  name = codes "home";
  allow_managed = true;
  allow_global = false;
  allow_default = false;
  allow_dns = false;
}

abbrev pub joined : ZeroTierConfig
joined = record zerotier { networks = home_network ∷ [] }

abbrev repeat_byte : ℕ → ℕ → List ℕ
repeat_byte zero c = []
repeat_byte (suc n) c = c ∷ repeat_byte n c

-- A text of the form of a WireGuard key: 43 letters and the padding.
abbrev pub key_of : ℕ → List ℕ
key_of c = repeat_byte 43 c ++ 61 ∷ []

abbrev pub keyed : Peer → ℕ → Peer
keyed p c = record p { private_key = key_of c; public_key = key_of c }

-- A configuration that is accepted: an exit node, a strict peer behind it, and a gateway.
abbrev pub valid_config : AppConfig
valid_config = record sample_config {
  server = record server { private_key = key_of b'S' };
  peers = keyed exit_peer b'X' ∷ keyed strict_peer b'P' ∷ keyed device_peer b'D' ∷ [];
}

-- The same with a gateway that has no routing table yet.
abbrev pub new_gateway : AppConfig
new_gateway = record valid_config {
  vpn_gateways =
      gateway
      ∷ record gateway { id = codes "h"; interface = codes "wgg1"; routing_table_id = 0 }
      ∷ [];
}
