-- ===== src/Config/Tables.antt =====
-- config.go: `ensureVPNGatewayRoutingTableIDs`.
pub mod Given
pub mod Fresh
use wg_busy.Prelude.{
  ℕ, ◌+◌, Bool, true, false, List, [], ◌∷◌, ◌++◌, if◌then◌else◌, length, ◌==◌, ltb,
}
use wg_busy.Models.{VpnGateway, AppConfig}
use wg_busy.Routing.Tables.{used_tables, first_free}

abbrev pub vpn_gateway_routing_table_base : ℕ
vpn_gateway_routing_table_base = 20000

unfoldable pub gateway_tables : List VpnGateway → List ℕ
gateway_tables [] = []
gateway_tables (g ∷ gs) =
    let rest = gateway_tables gs in
    if ltb 0 g.routing_table_id then g.routing_table_id ∷ rest else rest

-- The keys of `used` before the second loop.
unfoldable pub tables_in_use : AppConfig → List ℕ
unfolding gateway_tables
tables_in_use cfg = gateway_tables cfg.vpn_gateways ++ used_tables cfg.peers

abbrev pub with_table : VpnGateway → ℕ → VpnGateway
with_table g id = record g { routing_table_id = id }

-- The inner loop raises the candidate while it is in use: at most as many rounds as there are IDs
-- in use.
unfoldable pub assign_tables : ℕ → List ℕ → List VpnGateway → List VpnGateway
unfolding first_free
assign_tables next used [] = []
assign_tables next used (g ∷ gs) = elim (g.routing_table_id == 0) [
  | true ↦
      let id = first_free (length used) next used in
      with_table g id ∷ assign_tables (id + 1) (id ∷ used) gs
  | false ↦ g ∷ assign_tables next used gs
]

-- `changed`
unfoldable pub some_missing : List VpnGateway → Bool
some_missing [] = false
some_missing (g ∷ gs) = if g.routing_table_id == 0 then true else some_missing gs

unfoldable pub ensure_vpn_gateway_routing_table_ids : AppConfig → AppConfig
unfolding assign_tables tables_in_use
ensure_vpn_gateway_routing_table_ids cfg = record cfg {
  vpn_gateways = assign_tables vpn_gateway_routing_table_base (tables_in_use cfg) cfg.vpn_gateways;
}
