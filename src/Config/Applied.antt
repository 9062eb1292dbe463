-- ===== src/Config/Applied.antt =====
-- config.go: `IsPeerRoutingApplied` and `PeerRoutingAppliedMap`.
pub mod Agree
use wg_busy.Prelude.{
  ℕ, Bool, true, false, ◌&&◌, List, [], ◌∷◌, Option, none, some, if◌then◌else◌, Text, text_eq, put,
  ◌==◌,
}
use wg_busy.Models.{Peer}
use wg_busy.Models.Find.{find_peer_by_id}
use wg_busy.WireGuard.Restart.{texts_equal}
use wg_busy.Config.{Store}

abbrev same_flag : Bool → Bool → Bool
same_flag true b = b
same_flag false true = false
same_flag false false = true

-- The routing fields of the desired peer are those of the applied one.
unfoldable pub same_routing : Peer → Peer → Bool
unfolding texts_equal
same_routing desired applied =
    same_flag desired.enabled applied.enabled
    && same_flag desired.strict_policy_routing applied.strict_policy_routing
    && text_eq desired.exit_node_id applied.exit_node_id
    && desired.routing_table_id == applied.routing_table_id
    && desired.policy_routing_table_id == applied.policy_routing_table_id
    && text_eq desired.vpn_gateway_id applied.vpn_gateway_id
    && texts_equal desired.policy_routes applied.policy_routes
    && texts_equal desired.exit_node_routes applied.exit_node_routes
    && text_eq desired.allowed_ips applied.allowed_ips

-- A peer that is missing in the applied state is not applied.
unfoldable pub is_applied : List Peer → Peer → Bool
unfolding same_routing
is_applied state desired = elim (find_peer_by_id state desired.id) [
  | none ↦ false
  | some applied ↦ same_routing desired applied
]

peer_applied : List Peer → Text → Option Peer → Bool
peer_applied state id none = false
peer_applied state id (some desired) = elim (find_peer_by_id state id) [
  | none ↦ false
  | some applied ↦ same_routing desired applied
]

unfoldable pub is_peer_routing_applied : Store → Text → Bool
unfolding peer_applied
is_peer_routing_applied s id =
    if s.wg_restart_pending
    then false
    else peer_applied s.routing_state.peers id (find_peer_by_id s.config.peers id)

-- The entries are written in the order of the peers.
unfoldable pub applied_entries : (Peer → Bool) → List (Text × Bool) → List Peer → List (Text × Bool)
applied_entries value m [] = m
applied_entries value m (p ∷ ps) = applied_entries value (put p.id (value p) m) ps

unfoldable pub peer_routing_applied_map : Store → List (Text × Bool)
unfolding applied_entries is_applied
peer_routing_applied_map s =
    if s.wg_restart_pending
    then applied_entries (λ p. false) [] s.config.peers
    else applied_entries (is_applied s.routing_state.peers) [] s.config.peers
