-- ===== src/Models/Find.antt =====
-- models.go: lookups by ID, and the references from peers to exit nodes.
pub mod References
use wg_busy.Prelude.{
  ℕ, Bool, true, false, not, ◌&&◌, List, [], ◌∷◌, ◌++◌, Option, none, some, if◌then◌else◌, Text,
  codes, text_eq, has, is_empty, quote,
}
use wg_busy.Models.{Peer, BgpPeer, VpnGateway, ValidationError}

unfoldable pub find_peer_by_id : List Peer → Text → Option Peer
find_peer_by_id [] id = none
find_peer_by_id (p ∷ ps) id = if text_eq p.id id then some p else find_peer_by_id ps id

unfoldable pub find_bgp_peer_by_id : List BgpPeer → Text → Option BgpPeer
find_bgp_peer_by_id [] id = none
find_bgp_peer_by_id (p ∷ ps) id = if text_eq p.id id then some p else find_bgp_peer_by_id ps id

unfoldable pub find_vpn_gateway_by_id : List VpnGateway → Text → Option VpnGateway
find_vpn_gateway_by_id [] id = none
find_vpn_gateway_by_id (g ∷ gs) id =
    if text_eq g.id id then some g else find_vpn_gateway_by_id gs id

unfoldable pub exit_node_peers : List Peer → List Peer
exit_node_peers [] = []
exit_node_peers (p ∷ ps) =
    if p.is_exit_node && p.enabled then p ∷ exit_node_peers ps else exit_node_peers ps

unfoldable pub cascade_clear_exit_node : List Peer → Text → List Peer
cascade_clear_exit_node [] id = []
cascade_clear_exit_node (p ∷ ps) id =
    (if text_eq p.exit_node_id id then record p { exit_node_id = [] } else p)
    ∷ cascade_clear_exit_node ps id

-- The IDs that `ValidateExitNodeRefs` collects.
unfoldable pub exit_node_ids : List Peer → List Text
exit_node_ids [] = []
exit_node_ids (p ∷ ps) =
    if p.enabled && p.is_exit_node then p.id ∷ exit_node_ids ps else exit_node_ids ps

unfoldable pub dangling : List Text → List Peer → List ValidationError
dangling ids [] = []
dangling ids (p ∷ ps) =
    if not (is_empty p.exit_node_id) && not (has ids p.exit_node_id)
    then record {
      field = codes "exitNodeID";
      message = codes "references missing, disabled, or non-exit peer " ++ quote p.exit_node_id;
    }
      ∷ dangling ids ps
    else dangling ids ps

unfoldable pub validate_exit_node_refs : List Peer → List ValidationError
unfolding exit_node_ids dangling
validate_exit_node_refs peers = dangling (exit_node_ids peers) peers
