-- ===== src/Routing/Lan.antt =====
-- routing.go: the rules that keep local networks on the main table. `WG_BUSY_LAN_CIDRS` is an
-- argument.
pub mod Hosts
use wg_busy.Prelude.{
  ℕ, ◌+◌, Bool, true, false, not, ◌&&◌, List, [], ◌∷◌, ◌++◌, Option, none, some, if◌then◌else◌,
  Text, codes, concat, is_empty, trim_space, split, itoa, length,
}
use wg_busy.Net.{Ip, is_v4, Cidr}
use wg_busy.Net.Parse.{parse_ip, parse_cidr}
use wg_busy.Net.Format.{ip_text}
use wg_busy.Models.{Peer, PeerDeviceRoutingRule, AppConfig}
use wg_busy.Models.Addresses.{peer_sources}

abbrev pub default_lan : Text
default_lan = codes "192.168.178.0/24"

lan_entries : List Text → List Text
lan_entries [] = []
lan_entries (v ∷ vs) =
    let item = trim_space v in
    let rest = lan_entries vs in
    if is_empty item then rest else elim (parse_cidr item) [ none ↦ rest | some c ↦ item ∷ rest ]

or_default : List Text → List Text
or_default [] = default_lan ∷ []
or_default (x ∷ xs) = x ∷ xs

unfoldable pub local_network_cidrs : Text → List Text
unfolding lan_entries or_default
local_network_cidrs env =
    let value = trim_space env in
    if is_empty value then default_lan ∷ [] else or_default (lan_entries (split 44 value))

abbrev pub local_network_rule_priority_base : ℕ
local_network_rule_priority_base = 17000

pub record LocalNetworkRule : Type 0 where
  pub ip_command : Text
  pub source : Text
  pub dest : Text
  pub priority : ℕ

-- A rule before it is given its priority.
pub record Bypass : Type 0 where
  pub command : Text
  pub from : Text
  pub to : Text

abbrev both_or_neither : Bool → Bool → Bool
both_or_neither true b = b
both_or_neither false b = not b

unfoldable pub bypass_pair : Text → Text → Option Cidr → Option Cidr → List Bypass
bypass_pair source dest (some src) (some dst) =
    if both_or_neither (is_v4 src.base) (is_v4 dst.base)
    then record {
      command = if is_v4 dst.base then codes "ip" else codes "ip -6";
      from = source;
      to = dest;
    }
      ∷ []
    else []
bypass_pair source dest none dst = []
bypass_pair source dest (some src) none = []

unfoldable pub source_bypass : List Text → Text → List Bypass
unfolding bypass_pair
source_bypass [] source = []
source_bypass (d ∷ ds) source =
    bypass_pair source d (parse_cidr source) (parse_cidr d) ++ source_bypass ds source

unfoldable pub peer_bypass : List Text → List Text → List Bypass
unfolding source_bypass
peer_bypass lan [] = []
peer_bypass lan (s ∷ ss) = source_bypass lan s ++ peer_bypass lan ss

unfoldable pub peers_bypass : List Text → List Peer → List Bypass
unfolding peer_bypass
peers_bypass lan [] = []
peers_bypass lan (p ∷ ps) =
    (if p.enabled then peer_bypass lan (peer_sources p.allowed_ips) else []) ++ peers_bypass lan ps

-- A device's address counts only if it is IPv4.
unfoldable pub device_address : PeerDeviceRoutingRule → Option Text
device_address d = elim (parse_ip (trim_space d.device_ip)) [
  | none ↦ none
  | some ip ↦ if is_v4 ip then some (ip_text ip) else none
]

device_dests : List Text → Text → List Bypass
device_dests [] source = []
device_dests (d ∷ ds) source =
    let rest = device_dests ds source in
    elim (parse_cidr d) [
      | none ↦ rest
      | some dst ↦
          if is_v4 dst.base
          then record { command = codes "ip"; from = source; to = d } ∷ rest
          else rest
    ]

devices_bypass : List Text → List PeerDeviceRoutingRule → List Bypass
unfolding device_dests device_address
devices_bypass lan [] = []
devices_bypass lan (d ∷ ds) =
    (if d.enabled
      then elim (device_address d) [ none ↦ [] | some source ↦ device_dests lan source ]
      else [])
    ++ devices_bypass lan ds

unfoldable pub peers_devices_bypass : List Text → List Peer → List Bypass
unfolding devices_bypass
peers_devices_bypass lan [] = []
peers_devices_bypass lan (p ∷ ps) =
    (if p.enabled then devices_bypass lan p.device_routing_rules else [])
    ++ peers_devices_bypass lan ps

unfoldable pub numbered : ℕ → List Bypass → List LocalNetworkRule
numbered priority [] = []
numbered priority (b ∷ bs) =
    record { ip_command = b.command; source = b.from; dest = b.to; priority = priority }
    ∷ numbered (priority + 1) bs

unfoldable pub local_network_rules : Text → AppConfig → List LocalNetworkRule
unfolding peers_bypass peers_devices_bypass numbered local_network_cidrs
local_network_rules env cfg =
    let lan = local_network_cidrs env in
    numbered local_network_rule_priority_base
      (peers_bypass lan cfg.peers ++ peers_devices_bypass lan cfg.peers)

-- The commands that install and remove the rules.
abbrev lan_add : LocalNetworkRule → Text
lan_add r = concat (
    r.ip_command
    ∷ codes " rule del priority "
    ∷ itoa r.priority
    ∷ codes " 2>/dev/null || true; "
    ∷ r.ip_command
    ∷ codes " rule add from "
    ∷ r.source
    ∷ codes " to "
    ∷ r.dest
    ∷ codes " table main priority "
    ∷ itoa r.priority
    ∷ [])

abbrev lan_del : LocalNetworkRule → Text
lan_del r = concat (
    r.ip_command
    ∷ codes " rule del from "
    ∷ r.source
    ∷ codes " to "
    ∷ r.dest
    ∷ codes " table main priority "
    ∷ itoa r.priority
    ∷ codes " || true"
    ∷ [])

unfoldable pub lan_commands : Bool → List LocalNetworkRule → List Text
lan_commands add [] = []
lan_commands add (r ∷ rs) = (if add then lan_add r else lan_del r) ∷ lan_commands add rs
