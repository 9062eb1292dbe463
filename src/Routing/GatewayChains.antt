-- ===== src/Routing/GatewayChains.antt =====
-- routing.go: the forwarding and NAT chains for peers and devices with a gateway.
use wg_busy.Prelude.{
  Bool, true, false, not, ◌||◌, List, [], ◌∷◌, ◌++◌, Option, none, some, if◌then◌else◌, Text, codes,
  concat, is_empty, contains_byte,
}
use wg_busy.Models.{Peer, PeerDeviceRoutingRule, VpnGateway, AppConfig}
use wg_busy.Models.Addresses.{peer_sources}
use wg_busy.Models.Gateways.{wg_device}
use wg_busy.Routing.Lan.{local_network_cidrs, device_address}
use wg_busy.Routing.Gateways.{gateway_interface}

abbrev pub gateway_chain_v4 : Text
gateway_chain_v4 = codes "WG_BUSY_GW_FWD4"

abbrev pub gateway_chain_v6 : Text
gateway_chain_v6 = codes "WG_BUSY_GW_FWD6"

abbrev pub gateway_nat_chain_v4 : Text
gateway_nat_chain_v4 = codes "WG_BUSY_GW_NAT4"

-- A chain that is created, emptied and jumped to.
open_chain : Text → Text → List Text
open_chain tool chain =
    concat (tool ∷ codes " -w -N " ∷ chain ∷ codes " 2>/dev/null || true" ∷ [])
    ∷ concat (tool ∷ codes " -w -F " ∷ chain ∷ [])
    ∷ concat (
        tool
        ∷ codes " -w -C FORWARD -i "
        ∷ wg_device
        ∷ codes " -j "
        ∷ chain
        ∷ codes " 2>/dev/null || "
        ∷ tool
        ∷ codes " -w -I FORWARD 1 -i "
        ∷ wg_device
        ∷ codes " -j "
        ∷ chain
        ∷ [])
    ∷ []

open_nat_chain : List Text
open_nat_chain =
    concat
      (codes "iptables -t nat -w -N " ∷ gateway_nat_chain_v4 ∷ codes " 2>/dev/null || true" ∷ [])
    ∷ concat (codes "iptables -t nat -w -F " ∷ gateway_nat_chain_v4 ∷ [])
    ∷ concat (
        codes "iptables -t nat -w -C POSTROUTING -j "
        ∷ gateway_nat_chain_v4
        ∷ codes " 2>/dev/null || iptables -t nat -w -I POSTROUTING 1 -j "
        ∷ gateway_nat_chain_v4
        ∷ [])
    ∷ []

lan_pair : Text → Text → List Text
lan_pair source dest =
    concat (
      codes "iptables -w -A "
      ∷ gateway_chain_v4
      ∷ codes " -s "
      ∷ source
      ∷ codes " -d "
      ∷ dest
      ∷ codes " -j ACCEPT"
      ∷ [])
    ∷ concat (
        codes "iptables -t nat -w -A "
        ∷ gateway_nat_chain_v4
        ∷ codes " -s "
        ∷ source
        ∷ codes " -d "
        ∷ dest
        ∷ codes " -j MASQUERADE"
        ∷ [])
    ∷ concat (
        codes "iptables -w -A "
        ∷ gateway_chain_v4
        ∷ codes " -d "
        ∷ dest
        ∷ codes " -m conntrack --ctstate ESTABLISHED,RELATED -j ACCEPT"
        ∷ [])
    ∷ []

lan_dests : Text → List Text → List Text
unfolding lan_pair
lan_dests source [] = []
lan_dests source (d ∷ ds) =
    (if contains_byte 58 d then [] else lan_pair source d) ++ lan_dests source ds

lan_sources : List Text → List Text → List Text
unfolding lan_dests
lan_sources lan [] = []
lan_sources lan (s ∷ ss) =
    (if contains_byte 58 s then [] else lan_dests s lan) ++ lan_sources lan ss

lan_forwarding : List Text → List Peer → List Text
unfolding lan_sources
lan_forwarding lan [] = []
lan_forwarding lan (p ∷ ps) =
    (if p.enabled then lan_sources lan (peer_sources p.allowed_ips) else [])
    ++ lan_forwarding lan ps

-- Out to the gateway, and the answers back.
accept_pair : Text → Text → Text → Text → List Text
accept_pair tool chain source interface =
    concat (
      tool
      ∷ codes " -w -A "
      ∷ chain
      ∷ codes " -s "
      ∷ source
      ∷ codes " -o "
      ∷ interface
      ∷ codes " -j ACCEPT"
      ∷ [])
    ∷ concat (
        tool
        ∷ codes " -w -A "
        ∷ chain
        ∷ codes " -i "
        ∷ interface
        ∷ codes " -o "
        ∷ wg_device
        ∷ codes " -d "
        ∷ source
        ∷ codes " -m conntrack --ctstate ESTABLISHED,RELATED -j ACCEPT"
        ∷ [])
    ∷ []

accept_v4 : Text → Text → List Text
unfolding accept_pair
accept_v4 source interface =
    accept_pair (codes "iptables") gateway_chain_v4 source interface
    ++ concat (
        codes "iptables -t nat -w -A "
        ∷ gateway_nat_chain_v4
        ∷ codes " -s "
        ∷ source
        ∷ codes " -o "
        ∷ interface
        ∷ codes " -j MASQUERADE"
        ∷ [])
      ∷ []

gateway_sources : Text → List Text → List Text
unfolding accept_v4 accept_pair
gateway_sources interface [] = []
gateway_sources interface (s ∷ ss) =
    (if contains_byte 58 s
      then accept_pair (codes "ip6tables") gateway_chain_v6 s interface
      else accept_v4 s interface)
    ++ gateway_sources interface ss

-- The interface that packets of this gateway may leave by.
abbrev open_interface : Option VpnGateway → Option Text
open_interface none = none
open_interface (some g) = if not g.enabled || is_empty g.interface then none else some g.interface

peer_forwarding : List VpnGateway → Peer → List Text
unfolding gateway_sources
peer_forwarding gateways p =
    if not p.enabled || is_empty p.vpn_gateway_id
    then []
    else elim (open_interface (gateway_interface gateways p.vpn_gateway_id)) [
      | none ↦ []
      | some interface ↦ gateway_sources interface (peer_sources p.allowed_ips)
    ]

peers_forwarding : List VpnGateway → List Peer → List Text
unfolding peer_forwarding
peers_forwarding gateways [] = []
peers_forwarding gateways (p ∷ ps) = peer_forwarding gateways p ++ peers_forwarding gateways ps

device_accept : Text → Option Text → List Text
unfolding accept_v4
device_accept interface none = []
device_accept interface (some source) = accept_v4 source interface

device_forwarding : List VpnGateway → PeerDeviceRoutingRule → List Text
unfolding device_accept
device_forwarding gateways d =
    if not d.enabled || is_empty d.gateway_id
    then []
    else elim (open_interface (gateway_interface gateways d.gateway_id)) [
      | none ↦ []
      | some interface ↦ device_accept interface (device_address d)
    ]

devices_forwarding : List VpnGateway → List PeerDeviceRoutingRule → List Text
unfolding device_forwarding
devices_forwarding gateways [] = []
devices_forwarding gateways (d ∷ ds) =
    device_forwarding gateways d ++ devices_forwarding gateways ds

peers_devices_forwarding : List VpnGateway → List Peer → List Text
unfolding devices_forwarding
peers_devices_forwarding gateways [] = []
peers_devices_forwarding gateways (p ∷ ps) =
    (if p.enabled then devices_forwarding gateways p.device_routing_rules else [])
    ++ peers_devices_forwarding gateways ps

close_chain : Text → Text → Text → List Text
close_chain tool hook chain =
    concat
      (tool ∷ codes " -w -D " ∷ hook ∷ codes " -j " ∷ chain ∷ codes " 2>/dev/null || true" ∷ [])
    ∷ concat (tool ∷ codes " -w -F " ∷ chain ∷ codes " 2>/dev/null || true" ∷ [])
    ∷ concat (tool ∷ codes " -w -X " ∷ chain ∷ codes " 2>/dev/null || true" ∷ [])
    ∷ []

abbrev forward_hook : Text
forward_hook = codes "FORWARD -i " ++ wg_device

-- `env` is the value of `WG_BUSY_LAN_CIDRS`.
unfoldable pub gateway_firewall_commands : Text → AppConfig → Bool → List Text
unfolding open_chain open_nat_chain lan_forwarding peers_forwarding peers_devices_forwarding
    close_chain
gateway_firewall_commands env cfg true =
    open_chain (codes "iptables") gateway_chain_v4
    ++ (open_nat_chain
        ++ (open_chain (codes "ip6tables") gateway_chain_v6
            ++ (lan_forwarding (local_network_cidrs env) cfg.peers
                ++ (peers_forwarding cfg.vpn_gateways cfg.peers
                    ++ peers_devices_forwarding cfg.vpn_gateways cfg.peers))))
gateway_firewall_commands env cfg false =
    close_chain (codes "iptables") forward_hook gateway_chain_v4
    ++ (close_chain (codes "iptables -t nat") (codes "POSTROUTING") gateway_nat_chain_v4
        ++ close_chain (codes "ip6tables") forward_hook gateway_chain_v6)
