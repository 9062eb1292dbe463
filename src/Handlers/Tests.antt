-- ===== src/Handlers/Tests.antt =====
-- The theorems of the handlers on sample configurations.
use wg_busy.Prelude.{◌≡◌, refl, true, false, List, [], ◌∷◌, Option, some, Text, codes}
use wg_busy.Models.{Peer}
use wg_busy.Models.Find.{validate_exit_node_refs, find_peer_by_id, cascade_clear_exit_node}
use wg_busy.Handlers.Peers.{delete_peer, toggle_peer, assign_new_peer_routing_tables}
use wg_busy.Handlers.Peers.References.{delete_peer_keeps_references, toggle_peer_keeps_references}
use wg_busy.Handlers.Peers.Tables.{FreshTables, assign_new_peer_routing_tables_fresh}
use wg_busy.Samples.{exit_peer, strict_peer}

abbrev before : List Peer
before = exit_peer ∷ strict_peer ∷ []

valid_before : validate_exit_node_refs before ≡ []
unfolding validate_exit_node_refs wg_busy.Prelude.has wg_busy.Prelude.text_eq
valid_before = refl

abbrev deleted : List Peer
deleted = record strict_peer { exit_node_id = [] } ∷ []

deletes : delete_peer before (codes "x") ≡ some deleted
unfolding delete_peer find_peer_by_id cascade_clear_exit_node wg_busy.Prelude.text_eq
deletes = refl

delete_peer_keeps_references_example : validate_exit_node_refs deleted ≡ []
delete_peer_keeps_references_example =
    delete_peer_keeps_references before deleted (codes "x") valid_before deletes

abbrev disabled : List Peer
disabled =
    record exit_peer { enabled = false; updated_at = 9 }
    ∷ record strict_peer { exit_node_id = [] }
    ∷ []

toggles : toggle_peer before (codes "x") 9 ≡ some disabled
unfolding toggle_peer find_peer_by_id cascade_clear_exit_node wg_busy.Prelude.text_eq
toggles = refl

toggle_peer_keeps_references_example : validate_exit_node_refs disabled ≡ []
toggle_peer_keeps_references_example =
    toggle_peer_keeps_references before disabled (codes "x") 9 valid_before toggles

abbrev new_peer : Peer
new_peer = record exit_peer {
  routing_table_id = 0;
  policy_routes = codes "0.0.0.0/0 via 10.0.0.2" ∷ [];
}

assign_new_peer_routing_tables_fresh_example :
    FreshTables before (assign_new_peer_routing_tables new_peer before)
assign_new_peer_routing_tables_fresh_example =
    assign_new_peer_routing_tables_fresh new_peer before refl refl
