-- ===== src/Routing/Tables.antt =====
-- routing.go: `AssignRoutingTableID`.
pub mod Fresh
use wg_busy.Prelude.{
  ℕ, zero, suc, ◌+◌, Bool, true, false, List, [], ◌∷◌, if◌then◌else◌, has_num, ltb, length,
}
use wg_busy.Models.{Peer}

abbrev pub routing_table_base : ℕ
routing_table_base = 100

-- The table IDs in use; 0 means that none is assigned.
unfoldable pub used_tables : List Peer → List ℕ
used_tables [] = []
used_tables (p ∷ ps) =
    let rest = used_tables ps in
    let policy =
      if ltb 0 p.policy_routing_table_id then p.policy_routing_table_id ∷ rest else rest in
    if ltb 0 p.routing_table_id then p.routing_table_id ∷ policy else policy

-- `for id := …; ; id++ { if !used[id] { return id } }`. One round more than there are used IDs is
-- enough.
unfoldable pub first_free : ℕ → ℕ → List ℕ → ℕ
first_free zero id used = id
first_free (suc fuel) id used = elim (has_num used id) [
  | true ↦ first_free fuel (id + 1) used
  | false ↦ id
]

unfoldable pub assign_routing_table_id : List Peer → ℕ
unfolding first_free used_tables
assign_routing_table_id peers =
    let used = used_tables peers in first_free (length used) routing_table_base used
