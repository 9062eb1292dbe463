-- ===== src/Routing/GatewayRoutes.antt =====
-- routing.go: the default routes of the gateways' tables.
use wg_busy.Prelude.{
  Bool, not, ◌||◌, ◌&&◌, List, [], ◌∷◌, ◌++◌, if◌then◌else◌, Text, codes, concat, is_empty, itoa,
  text_eq, split, any, ◌==◌,
}
use wg_busy.Net.{is_v4, Cidr}
use wg_busy.Net.Format.{cidr_text}
use wg_busy.Models.{VpnGateway, AppConfig}
use wg_busy.Models.Addresses.{parsed}
use wg_busy.Routing.Egress.{all_v4, all_v6}

is_all_v4 : Cidr → Bool
is_all_v4 c = is_v4 c.base && text_eq (cidr_text c) all_v4

is_all_v6 : Cidr → Bool
is_all_v6 c = not (is_v4 c.base) && text_eq (cidr_text c) all_v6

default_route : Text → Text → VpnGateway → Text
default_route ip_command action g = concat (
    ip_command
    ∷ codes " route "
    ∷ action
    ∷ codes " default dev "
    ∷ g.interface
    ∷ codes " table "
    ∷ itoa g.routing_table_id
    ∷ (if text_eq action (codes "del") || text_eq action (codes "replace")
        then codes " 2>/dev/null || true"
        else [])
    ∷ [])

gateway_routes : Text → VpnGateway → List Text
unfolding is_all_v4 is_all_v6 default_route
gateway_routes action g =
    if is_empty g.interface || g.routing_table_id == 0
    then []
    else let networks = parsed (split 44 g.allowed_ips) in
      (if any is_all_v4 networks then default_route (codes "ip") action g ∷ [] else [])
      ++ (if any is_all_v6 networks then default_route (codes "ip -6") action g ∷ [] else [])

gateways_routes : Text → List VpnGateway → List Text
unfolding gateway_routes
gateways_routes action [] = []
gateways_routes action (g ∷ gs) = gateway_routes action g ++ gateways_routes action gs

unfoldable pub gateway_route_commands : AppConfig → Text → List Text
unfolding gateways_routes
gateway_route_commands cfg action = gateways_routes action cfg.vpn_gateways
