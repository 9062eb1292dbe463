-- ===== src/Handlers/Peers/Tables.antt =====
-- The routing tables of a new peer.
use wg_busy.Prelude.{
  ℕ, subst, sym, ◌≤◌, ◌≡◌, ◌≢◌, true, false, List, [], ◌∷◌, ◌++◌, All, if◌then◌else◌,
}
use wg_busy.Models.{Peer}
use wg_busy.Routing.Rules.{is_nil}
use wg_busy.Routing.Tables.{assign_routing_table_id}
use wg_busy.Routing.Tables.Fresh.{assign_routing_table_id_fresh}
use wg_busy.Handlers.Peers.{with_exit_table, with_policy_table, assign_new_peer_routing_tables}

abbrev Free : ℕ → Peer → Type 0
Free id p = (p.routing_table_id ≢ id) × (p.policy_routing_table_id ≢ id)

All-split :
    (id : ℕ) (xs : List Peer) (p : Peer)
    → All (Free id) (xs ++ p ∷ [])
    → All (Free id) xs × Free id p
All-split id [] p h = (tt, h.0)
All-split id (x ∷ xs) p h = ((h.0, (All-split id xs p h.1).0), (All-split id xs p h.1).1)

-- Two tables from 100 on that differ, and that no existing peer has.
abbrev pub FreshTables : List Peer → Peer → Type 0
FreshTables existing p =
    (100 ≤ p.routing_table_id)
    × (100 ≤ p.policy_routing_table_id)
    × (p.routing_table_id ≢ p.policy_routing_table_id)
    × All (Free p.routing_table_id) existing
    × All (Free p.policy_routing_table_id) existing

-- A new exit node with policy routes is given two routing tables from 100 on, one for each purpose:
-- they differ, and neither is a table of an existing peer.
pub assign_new_peer_routing_tables_fresh :
    (peer : Peer) (existing : List Peer)
    → peer.is_exit_node ≡ true
    → is_nil peer.policy_routes ≡ false
    → FreshTables existing (assign_new_peer_routing_tables peer existing)
unfolding assign_new_peer_routing_tables with_exit_table with_policy_table
assign_new_peer_routing_tables_fresh peer existing exit routes =
    let first = assign_routing_table_id_fresh existing in
    let own : Peer = record peer { routing_table_id = assign_routing_table_id existing } in
    let id : ℕ = assign_routing_table_id (existing ++ own ∷ []) in
    let second = assign_routing_table_id_fresh (existing ++ own ∷ []) in
    let free = All-split id existing own second.1 in
    let both : FreshTables existing (record own { policy_routing_table_id = id }) =
      (first.0, second.0, free.1.0, first.1, free.0) in
    subst (λ b. FreshTables existing (with_policy_table (if b then own else peer) existing))
      (sym exit)
      (subst
        (λ b. FreshTables existing (if b then own else record own { policy_routing_table_id = id }))
        (sym routes) both)
