-- ===== src/Routing/Egress.antt =====
-- routing.go: the firewall chains that confine strict peers.
pub mod Confined
pub mod Granted
use wg_busy.Prelude.{
  ℕ, Bool, true, false, not, ◌&&◌, ◌||◌, List, [], ◌∷◌, ◌++◌, Option, none, some, if◌then◌else◌,
  Text, codes, is_empty, trim_space, contains_byte, concat, text_eq,
}
use wg_busy.Net.{is_v4}
use wg_busy.Net.Parse.{parse_cidr}
use wg_busy.Models.{Peer, AppConfig, GatewayNet}
use wg_busy.Models.Find.{find_peer_by_id}
use wg_busy.Models.Addresses.{peer_sources}
use wg_busy.Models.Gateways.{wg_device, resolve_gateway, device, failed}
use wg_busy.Routing.{enabled_exit_nodes}
use wg_busy.Routing.PolicyText.{split_via}

pub record StrictEgressRule : Type 0 where
  pub is_v6 : Bool
  pub source : Text
  pub dest : Text
  pub out_dev : Text
  pub action : Text

abbrev pub allow : Text
allow = codes "RETURN"

abbrev pub reject : Text
reject = codes "REJECT"

abbrev pub all_v4 : Text
all_v4 = codes "0.0.0.0/0"

abbrev pub all_v6 : Text
all_v6 = codes "::/0"

abbrev allow_rule : Bool → Text → Text → Text → StrictEgressRule
allow_rule v6 src dest dev = record {
  is_v6 = v6;
  source = src;
  dest = dest;
  out_dev = dev;
  action = allow;
}

abbrev eq_bool : Bool → Bool → Bool
eq_bool true b = b
eq_bool false b = not b

-- The family of a prefix, if it parses: whether it is IPv6.
family : Text → Option Bool
family r = elim (parse_cidr r) [ none ↦ none | some c ↦ some (not (is_v4 c.ip)) ]

-- A route of the exit node, if it is of the source's family.
exit_route_rule : Bool → Text → Text → List StrictEgressRule
unfolding family
exit_route_rule v6 src r =
    let trimmed = trim_space r in
    if is_empty trimmed then [] else elim (family trimmed) [
      | none ↦ []
      | some f ↦ if eq_bool f v6 then allow_rule v6 src trimmed wg_device ∷ [] else []
    ]

exit_route_rules : Bool → Text → List Text → List StrictEgressRule
unfolding exit_route_rule
exit_route_rules v6 src [] = []
exit_route_rules v6 src (r ∷ rs) = exit_route_rule v6 src r ++ exit_route_rules v6 src rs

-- 1. What the peer's exit node allows, if it is an enabled one.
through_exit_node : Bool → Text → Option Peer → List StrictEgressRule
unfolding exit_route_rules
through_exit_node v6 src none = []
through_exit_node v6 src (some exit_node) =
    if exit_node.exit_node_allow_all
    then allow_rule v6 src (if v6 then all_v6 else all_v4) wg_device ∷ []
    else exit_route_rules v6 src exit_node.exit_node_routes

exit_node_rules : List Peer → Peer → Bool → Text → List StrictEgressRule
unfolding through_exit_node
exit_node_rules exit_nodes p v6 src =
    if is_empty p.exit_node_id
    then []
    else through_exit_node v6 src (find_peer_by_id exit_nodes p.exit_node_id)

-- A policy route whose gateway is on-link for exactly one interface.
routed_rule : List GatewayNet → Bool → Text → Text → Text → List StrictEgressRule
unfolding family
routed_rule gateways v6 src subnet gw = elim (family subnet) [
  | none ↦ []
  | some f ↦
      if eq_bool f v6
      then elim (resolve_gateway gw gateways) [
        | failed e ↦ []
        | device dev ↦ if is_empty dev then [] else allow_rule v6 src subnet dev ∷ []
      ]
      else []
]

policy_rule : List GatewayNet → Bool → Text → Option (Text × Text) → List StrictEgressRule
unfolding routed_rule
policy_rule gateways v6 src none = []
policy_rule gateways v6 src (some (subnet, gw)) =
    routed_rule gateways v6 src (trim_space subnet) (trim_space gw)

-- 2. What the peer's policy routes allow.
policy_rules : List GatewayNet → Bool → Text → List Text → List StrictEgressRule
unfolding policy_rule
policy_rules gateways v6 src [] = []
policy_rules gateways v6 src (r ∷ rs) =
    policy_rule gateways v6 src (split_via r) ++ policy_rules gateways v6 src rs

-- 3. The terminal reject of the source.
terminal : Bool → Text → StrictEgressRule
terminal v6 src = record { is_v6 = v6; source = src; dest = []; out_dev = []; action = reject }

abbrev pub source_is_v6 : Text → Bool
source_is_v6 src = contains_byte 58 src

source_rules : List GatewayNet → List Peer → Peer → Text → List StrictEgressRule
unfolding exit_node_rules policy_rules terminal
source_rules gateways exit_nodes p src =
    exit_node_rules exit_nodes p (source_is_v6 src) src
    ++ (policy_rules gateways (source_is_v6 src) src p.policy_routes
        ++ terminal (source_is_v6 src) src ∷ [])

sources_rules : List GatewayNet → List Peer → Peer → List Text → List StrictEgressRule
sources_rules gateways exit_nodes p [] = []
sources_rules gateways exit_nodes p (s ∷ ss) =
    source_rules gateways exit_nodes p s ++ sources_rules gateways exit_nodes p ss

peer_egress : List GatewayNet → List Peer → Peer → List StrictEgressRule
peer_egress gateways exit_nodes p =
    if not p.enabled || not p.strict_policy_routing
    then []
    else sources_rules gateways exit_nodes p (peer_sources p.allowed_ips)

peers_rules : List GatewayNet → List Peer → List Peer → List StrictEgressRule
peers_rules gateways exit_nodes [] = []
peers_rules gateways exit_nodes (p ∷ ps) =
    peer_egress gateways exit_nodes p ++ peers_rules gateways exit_nodes ps

pub strict_egress_rules : AppConfig → List GatewayNet → List Peer → List StrictEgressRule
strict_egress_rules cfg gateways exit_nodes = peers_rules gateways exit_nodes cfg.peers

abbrev pub strict_chain_v4 : Text
strict_chain_v4 = codes "WG_BUSY_STRICT4"

abbrev pub strict_chain_v6 : Text
strict_chain_v6 = codes "WG_BUSY_STRICT6"

-- The shell command for one rule.
egress_command : StrictEgressRule → Text
egress_command r =
    let tool = if r.is_v6 then codes "ip6tables" else codes "iptables" in
    let chain = if r.is_v6 then strict_chain_v6 else strict_chain_v4 in
    let reason = if r.is_v6 then codes "icmp6-adm-prohibited" else codes "icmp-admin-prohibited" in
    if text_eq r.action allow
    then concat (
        tool
        ∷ codes " -w -A "
        ∷ chain
        ∷ codes " -s "
        ∷ r.source
        ∷ codes " -d "
        ∷ r.dest
        ∷ codes " -o "
        ∷ r.out_dev
        ∷ codes " -j RETURN"
        ∷ [])
    else concat (
        tool
        ∷ codes " -w -A "
        ∷ chain
        ∷ codes " -s "
        ∷ r.source
        ∷ codes " -j REJECT --reject-with "
        ∷ reason
        ∷ [])

egress_commands : List StrictEgressRule → List Text
unfolding egress_command
egress_commands [] = []
egress_commands (r ∷ rs) = egress_command r ∷ egress_commands rs

init_chain : Text → Text → List Text
init_chain tool chain =
    concat (tool ∷ codes " -w -N " ∷ chain ∷ codes " 2>/dev/null || true" ∷ [])
    ∷ concat (
        tool
        ∷ codes " -w -C FORWARD -i "
        ∷ wg_device
        ∷ codes " -j "
        ∷ chain
        ∷ codes " 2>/dev/null || "
        ∷ tool
        ∷ codes " -w -I FORWARD 1 -i "
        ∷ wg_device
        ∷ codes " -j "
        ∷ chain
        ∷ [])
    ∷ concat (tool ∷ codes " -w -F " ∷ chain ∷ [])
    ∷ []

drop_chain : Text → Text → List Text
drop_chain tool chain =
    concat (
      tool
      ∷ codes " -w -D FORWARD -i "
      ∷ wg_device
      ∷ codes " -j "
      ∷ chain
      ∷ codes " 2>/dev/null || true"
      ∷ [])
    ∷ concat (tool ∷ codes " -w -F " ∷ chain ∷ codes " 2>/dev/null || true" ∷ [])
    ∷ concat (tool ∷ codes " -w -X " ∷ chain ∷ codes " 2>/dev/null || true" ∷ [])
    ∷ []

unfoldable pub strict_firewall_commands : AppConfig → List GatewayNet → Bool → List Text
unfolding init_chain drop_chain egress_commands
strict_firewall_commands cfg gateways true =
    init_chain (codes "iptables") strict_chain_v4
    ++ (init_chain (codes "ip6tables") strict_chain_v6
        ++ egress_commands (strict_egress_rules cfg gateways (enabled_exit_nodes cfg)))
strict_firewall_commands cfg gateways false =
    drop_chain (codes "iptables") strict_chain_v4 ++ drop_chain (codes "ip6tables") strict_chain_v6
