-- ===== src/Handlers/Peers.antt =====
-- internal/handlers/peers.go: the changes of `DeletePeer` and `TogglePeer`, and the routing tables of
-- a new peer. `none` is the error for a peer that is not found.
pub mod Tables
pub mod References
use wg_busy.Prelude.{
  ℕ, Bool, true, false, not, ◌&&◌, List, [], ◌∷◌, ◌++◌, Option, none, some, if◌then◌else◌, Text,
  text_eq,
}
use wg_busy.Models.{Peer}
use wg_busy.Models.Find.{find_peer_by_id, cascade_clear_exit_node}
use wg_busy.Routing.Rules.{is_nil}
use wg_busy.Routing.Tables.{assign_routing_table_id}

-- `append(peers[:idx], peers[idx+1:]...)` at the first peer with the ID.
unfoldable pub without : List Peer → Text → List Peer
without [] id = []
without (p ∷ ps) id = if text_eq p.id id then ps else p ∷ without ps id

unfoldable pub delete_peer : List Peer → Text → Option (List Peer)
unfolding without
delete_peer peers id = elim (find_peer_by_id peers id) [
  | none ↦ none
  | some p ↦ some (without (if p.is_exit_node then cascade_clear_exit_node peers id else peers) id)
]

abbrev pub toggled : Peer → ℕ → Peer
toggled p now = record p { enabled = not p.enabled; updated_at = now }

-- The change through the pointer that `FindPeerByID` returns.
unfoldable pub toggle_first : List Peer → Text → ℕ → List Peer
toggle_first [] id now = []
toggle_first (p ∷ ps) id now =
    if text_eq p.id id then toggled p now ∷ ps else p ∷ toggle_first ps id now

unfoldable pub toggle_peer : List Peer → Text → ℕ → Option (List Peer)
unfolding toggle_first
toggle_peer peers id now = elim (find_peer_by_id peers id) [
  | none ↦ none
  | some p ↦ some (
      if p.enabled && p.is_exit_node
      then cascade_clear_exit_node (toggle_first peers id now) id
      else toggle_first peers id now)
]

-- `RoutingTableID` is set before the policy table is chosen, and counts as used then.
with_exit_table : Peer → List Peer → Peer
with_exit_table peer existing =
    if peer.is_exit_node
    then record peer { routing_table_id = assign_routing_table_id existing }
    else peer

with_policy_table : Peer → List Peer → Peer
with_policy_table peer existing =
    if is_nil peer.policy_routes
    then peer
    else record peer { policy_routing_table_id = assign_routing_table_id (existing ++ peer ∷ []) }

unfoldable pub assign_new_peer_routing_tables : Peer → List Peer → Peer
unfolding with_exit_table with_policy_table
assign_new_peer_routing_tables peer existing =
    with_policy_table (with_exit_table peer existing) existing
