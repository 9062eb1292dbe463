-- ===== src/Routing.antt =====
-- internal/routing/routing.go: policy routing tables, `ip rule` entries, firewall chains and their
-- shell commands. A command is its text. Go's map of exit nodes by peer ID is a list of peers with
-- one entry for an ID.
pub mod Tables
pub mod Rules
pub mod PolicyText
pub mod Egress
pub mod Guards
pub mod Lan
pub mod Gateways
pub mod ExitRoutes
pub mod PolicyRoutes
pub mod Masquerade
pub mod GatewayRoutes
pub mod GatewayChains
pub mod Hooks
pub mod Reconcile
mod Tests
use wg_busy.Prelude.{
  ℕ, Bool, true, false, ◌&&◌, List, [], ◌∷◌, Option, none, some, if◌then◌else◌, Text, text_eq, ltb,
}
use wg_busy.Models.{Peer, AppConfig}

-- Writing `exitNodes[p.ID] = p`.
put_exit_node : Peer → List Peer → List Peer
put_exit_node p [] = p ∷ []
put_exit_node p (q ∷ qs) = if text_eq q.id p.id then p ∷ qs else q ∷ put_exit_node p qs

collect_exit_nodes : List Peer → List Peer → List Peer
unfolding put_exit_node
collect_exit_nodes nodes [] = nodes
collect_exit_nodes nodes (p ∷ ps) =
    collect_exit_nodes
      (if p.is_exit_node && p.enabled && ltb 0 p.routing_table_id
        then put_exit_node p nodes
        else nodes)
      ps

unfoldable pub enabled_exit_nodes : AppConfig → List Peer
unfolding collect_exit_nodes
enabled_exit_nodes cfg = collect_exit_nodes [] cfg.peers
