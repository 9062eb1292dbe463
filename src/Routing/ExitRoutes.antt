-- ===== src/Routing/ExitRoutes.antt =====
-- routing.go: the routes of the exit nodes' tables. Go ranges over the map of exit nodes in an order
-- of its own, so the list is in that order.
use wg_busy.Prelude.{
  ℕ, true, false, List, [], ◌∷◌, ◌++◌, none, some, if◌then◌else◌, Text, codes, concat, is_empty,
  itoa, has_num, text_eq,
}
use wg_busy.Net.{is_v4}
use wg_busy.Net.Parse.{parse_cidr}
use wg_busy.Models.{Peer}

-- A deletion that finds nothing must not fail.
abbrev pub or_true : Text → Text
or_true action = if text_eq action (codes "del") then codes " || true" else []

route_family : Text → Text
route_family route = elim (parse_cidr route) [
  | none ↦ codes "ip -4"
  | some c ↦ if is_v4 c.ip then codes "ip -4" else codes "ip -6"
]

route_command : Text → Text → Text → ℕ → Text
route_command action ip_command dest table = concat (
    ip_command
    ∷ codes " route "
    ∷ action
    ∷ codes " "
    ∷ dest
    ∷ codes " dev wg0 table "
    ∷ itoa table
    ∷ or_true action
    ∷ [])

listed_routes : Text → ℕ → List Text → List Text
unfolding route_command route_family
listed_routes action table [] = []
listed_routes action table (r ∷ rs) =
    let rest = listed_routes action table rs in
    if is_empty r then rest else route_command action (route_family r) r table ∷ rest

node_routes : Text → Peer → List Text
unfolding listed_routes
node_routes action node =
    if node.exit_node_allow_all
    then route_command action (codes "ip -4") (codes "default") node.routing_table_id
      ∷ route_command action (codes "ip -6") (codes "default") node.routing_table_id
      ∷ []
    else listed_routes action node.routing_table_id node.exit_node_routes

-- `done` holds the tables that are filled already.
nodes_routes : Text → List ℕ → List Peer → List Text
unfolding node_routes
nodes_routes action done [] = []
nodes_routes action done (node ∷ nodes) = elim (has_num done node.routing_table_id) [
  | true ↦ nodes_routes action done nodes
  | false ↦ node_routes action node ++ nodes_routes action (node.routing_table_id ∷ done) nodes
]

unfoldable pub exit_node_route_cmds : Text → List Peer → List Text
unfolding nodes_routes
exit_node_route_cmds action exit_nodes = nodes_routes action [] exit_nodes
