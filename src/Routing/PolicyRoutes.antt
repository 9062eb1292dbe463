-- ===== src/Routing/PolicyRoutes.antt =====
-- routing.go: the routes of each peer's own policy table.
use wg_busy.Prelude.{
  ℕ, Bool, not, ◌||◌, List, [], ◌∷◌, ◌++◌, none, some, if◌then◌else◌, Text, codes, concat, is_empty,
  itoa, text_eq, trim_space, ◌==◌,
}
use wg_busy.Net.{is_v4}
use wg_busy.Net.Parse.{parse_cidr}
use wg_busy.Models.{Peer, AppConfig, GatewayNet}
use wg_busy.Models.Addresses.{peer_ips}
use wg_busy.Models.Gateways.{wg_device, device_for_gateway}
use wg_busy.Routing.Rules.{is_nil}
use wg_busy.Routing.PolicyText.{split_via}

subnet_family : Text → Text
subnet_family subnet = elim (parse_cidr subnet) [
  | none ↦ codes "ip"
  | some c ↦ if is_v4 c.ip then codes "ip" else codes "ip -6"
]

-- A route that is to be added through `dev`.
via_route : Text → Text → Text → Text → ℕ → Text
unfolding subnet_family
via_route action subnet gateway dev table = concat (
    subnet_family subnet
    ∷ codes " route "
    ∷ action
    ∷ codes " "
    ∷ subnet
    ∷ codes " via "
    ∷ gateway
    ∷ codes " dev "
    ∷ dev
    ∷ codes " table "
    ∷ itoa table
    ∷ codes " || true"
    ∷ [])

-- The empty text stands for no command.
unfoldable pub policy_route_cmd : Text → Text → Text → ℕ → List GatewayNet → Bool → Text
unfolding via_route
policy_route_cmd action subnet gateway table gateways is_strict =
    if text_eq action (codes "del")
    then concat (
        subnet_family subnet
        ∷ codes " route del "
        ∷ subnet
        ∷ codes " table "
        ∷ itoa table
        ∷ codes " || true"
        ∷ [])
    else let dev = device_for_gateway gateway gateways in
      if is_empty dev
      then (if is_strict then [] else via_route action subnet gateway wg_device table)
      else via_route action subnet gateway dev table

keep_command : Text → List Text
keep_command cmd = if is_empty cmd then [] else cmd ∷ []

routes_commands : Text → Peer → List GatewayNet → List Text → List Text
unfolding keep_command
routes_commands action p gateways [] = []
routes_commands action p gateways (r ∷ rs) =
    elim (split_via r) [
      | none ↦ []
      | some (subnet, gw) ↦ keep_command (
          policy_route_cmd action (trim_space subnet) (trim_space gw) p.policy_routing_table_id
            gateways p.strict_policy_routing)
    ]
    ++ routes_commands action p gateways rs

peer_policy_routes : Text → Peer → List GatewayNet → List Text
unfolding routes_commands
peer_policy_routes action p gateways =
    if not p.enabled || is_nil p.policy_routes || p.policy_routing_table_id == 0
    then []
    else if is_nil (peer_ips p.allowed_ips)
    then []
    else routes_commands action p gateways p.policy_routes

peers_policy_routes : Text → List Peer → List GatewayNet → List Text
unfolding peer_policy_routes
peers_policy_routes action [] gateways = []
peers_policy_routes action (p ∷ ps) gateways =
    peer_policy_routes action p gateways ++ peers_policy_routes action ps gateways

unfoldable pub policy_route_cmds : Text → AppConfig → List GatewayNet → List Text
unfolding peers_policy_routes
policy_route_cmds action cfg gateways = peers_policy_routes action cfg.peers gateways
