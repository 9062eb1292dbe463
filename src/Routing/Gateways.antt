-- ===== src/Routing/Gateways.antt =====
-- routing.go: source rules for peers and devices that are assigned to an imported VPN gateway.
pub mod Priorities
pub mod Followed
pub mod Closed
use wg_busy.Prelude.{
  ℕ, ◌+◌, Bool, true, false, not, ◌&&◌, ◌||◌, List, [], ◌∷◌, ◌++◌, Option, none, some,
  if◌then◌else◌, Text, codes, concat, is_empty, trim_space, itoa, text_eq, contains_byte, length,
  ◌==◌,
}
use wg_busy.Models.{Peer, PeerDeviceRoutingRule, VpnGateway, AppConfig}
use wg_busy.Models.Addresses.{peer_sources}
use wg_busy.Routing.Lan.{device_address}

abbrev pub gateway_rule_priority_base : ℕ
gateway_rule_priority_base = 18000

abbrev pub device_gateway_rule_priority_base : ℕ
device_gateway_rule_priority_base = 16000

pub record VpnGatewayRule : Type 0 where
  pub ip_command : Text
  pub source : Text
  pub table : ℕ
  pub priority : ℕ
  pub direct : Bool

-- Looking an ID up in the map of `gatewayInterfaces`: a later entry replaces an earlier one, and
-- entries without an interface are left out.
unfoldable pub gateway_interface : List VpnGateway → Text → Option VpnGateway
gateway_interface [] id = none
gateway_interface (g ∷ gs) id = elim (gateway_interface gs id) [
  | some later ↦ some later
  | none ↦ if not (is_empty g.interface) && text_eq g.id id then some g else none
]

-- A gateway that rules may point to.
abbrev pub usable : Option VpnGateway → Option ℕ
usable none = none
usable (some g) = if not g.enabled || g.routing_table_id == 0 then none else some g.routing_table_id

-- A lookup in the gateway's table, and the reject behind it.
abbrev pub lookup_then_reject : Text → Text → ℕ → ℕ → List VpnGatewayRule
lookup_then_reject command source table priority =
    record {
      ip_command = command;
      source = source;
      table = table;
      priority = priority;
      direct = false;
    }
    ∷ record {
      ip_command = command;
      source = source;
      table = 0;
      priority = priority + 1;
      direct = false;
    }
    ∷ []

unfoldable pub gateway_source_rules : ℕ → List Text → ℕ → List VpnGatewayRule
gateway_source_rules table [] priority = []
gateway_source_rules table (s ∷ ss) priority =
    lookup_then_reject (if contains_byte 58 s then codes "ip -6" else codes "ip") s table priority
    ++ gateway_source_rules table ss (priority + 2)

assigned_rules : Option ℕ → List Text → ℕ → List VpnGatewayRule
unfolding gateway_source_rules
assigned_rules none sources priority = []
assigned_rules (some table) sources priority = gateway_source_rules table sources priority

unfoldable pub peer_gateway_rules : List VpnGateway → Peer → ℕ → List VpnGatewayRule
unfolding assigned_rules
peer_gateway_rules gateways p priority =
    if not p.enabled || is_empty (trim_space p.vpn_gateway_id)
    then []
    else assigned_rules (usable (gateway_interface gateways p.vpn_gateway_id))
        (peer_sources p.allowed_ips) priority

unfoldable pub gateway_rules_from : List VpnGateway → List Peer → ℕ → List VpnGatewayRule
gateway_rules_from gateways [] priority = []
gateway_rules_from gateways (p ∷ ps) priority =
    let rules = peer_gateway_rules gateways p priority in
    rules ++ gateway_rules_from gateways ps (priority + length rules)

unfoldable pub vpn_gateway_rules : AppConfig → List VpnGatewayRule
unfolding gateway_rules_from peer_gateway_rules
vpn_gateway_rules cfg = gateway_rules_from cfg.vpn_gateways cfg.peers gateway_rule_priority_base

-- One device: the main table, or the gateway's table, or a reject if the gateway is unusable.
device_rules : List VpnGateway → PeerDeviceRoutingRule → Text → ℕ → List VpnGatewayRule
device_rules gateways d source priority =
    if is_empty (trim_space d.gateway_id)
    then record {
      ip_command = codes "ip";
      source = source;
      table = 0;
      priority = priority;
      direct = true;
    }
      ∷ []
    else elim (usable (gateway_interface gateways d.gateway_id)) [
      | none ↦
          record {
            ip_command = codes "ip";
            source = source;
            table = 0;
            priority = priority;
            direct = false;
          }
          ∷ []
      | some table ↦ lookup_then_reject (codes "ip") source table priority
    ]

enabled_device_rules : List VpnGateway → PeerDeviceRoutingRule → ℕ → List VpnGatewayRule
unfolding device_rules
enabled_device_rules gateways d priority =
    if d.enabled
    then elim (device_address d) [
      | none ↦ []
      | some source ↦ device_rules gateways d source priority
    ]
    else []

devices_rules : List VpnGateway → List PeerDeviceRoutingRule → ℕ → List VpnGatewayRule
devices_rules gateways [] priority = []
devices_rules gateways (d ∷ ds) priority =
    let rules = enabled_device_rules gateways d priority in
    rules ++ devices_rules gateways ds (priority + length rules)

peers_devices_rules : List VpnGateway → List Peer → ℕ → List VpnGatewayRule
peers_devices_rules gateways [] priority = []
peers_devices_rules gateways (p ∷ ps) priority =
    let rules = if p.enabled then devices_rules gateways p.device_routing_rules priority else [] in
    rules ++ peers_devices_rules gateways ps (priority + length rules)

unfoldable pub peer_device_gateway_rules : AppConfig → List VpnGatewayRule
unfolding peers_devices_rules devices_rules enabled_device_rules
peer_device_gateway_rules cfg =
    peers_devices_rules cfg.vpn_gateways cfg.peers device_gateway_rule_priority_base

-- What a rule does, in the words of `ip rule`.
target : VpnGatewayRule → Text
target r =
    if r.direct
    then codes "table main"
    else if r.table == 0
    then codes "prohibit"
    else codes "table " ++ itoa r.table

gateway_rule_add : VpnGatewayRule → Text
unfolding target
gateway_rule_add r = concat (
    r.ip_command
    ∷ codes " rule del priority "
    ∷ itoa r.priority
    ∷ codes " 2>/dev/null || true; "
    ∷ r.ip_command
    ∷ codes " rule add from "
    ∷ r.source
    ∷ codes " "
    ∷ target r
    ∷ codes " priority "
    ∷ itoa r.priority
    ∷ [])

gateway_rule_del : VpnGatewayRule → Text
unfolding target
gateway_rule_del r = concat (
    r.ip_command
    ∷ codes " rule del from "
    ∷ r.source
    ∷ codes " "
    ∷ target r
    ∷ codes " priority "
    ∷ itoa r.priority
    ∷ codes " || true"
    ∷ [])

unfoldable pub gateway_rule_commands : Bool → List VpnGatewayRule → List Text
unfolding gateway_rule_add gateway_rule_del
gateway_rule_commands add [] = []
gateway_rule_commands add (r ∷ rs) =
    (if add then gateway_rule_add r else gateway_rule_del r) ∷ gateway_rule_commands add rs
