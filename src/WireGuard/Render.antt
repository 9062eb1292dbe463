-- ===== src/WireGuard/Render.antt =====
-- wireguard.go: `RenderServerConfig`, the content of wg0.conf.
pub mod Joined
pub mod AllowedIps
use wg_busy.Prelude.{
  ℕ, Bool, true, false, not, ◌&&◌, List, [], ◌∷◌, ◌++◌, if◌then◌else◌, Text, codes, concat, join,
  text_eq, itoa,
}
use wg_busy.Models.{Peer, ServerConfig, AppConfig}
use wg_busy.Models.Validate.Peer.{no_routes}
use wg_busy.WireGuard.Lines.{hook_lines, setting, optional, optional_number, settings}

abbrev pub all_traffic : Text
all_traffic = codes "0.0.0.0/0, ::/0"

-- `fmt.Sprintf("%s, %s", cidrs, strings.Join(routes, ", "))`
unfoldable pub with_routes : Text → List Text → Text
with_routes cidrs routes = cidrs ++ (codes ", " ++ join (codes ", ") routes)

-- What the peer's role as an exit node makes of its addresses.
unfoldable pub exit_allowed_ips : Peer → Text
unfolding with_routes
exit_allowed_ips p =
    if p.is_exit_node
    then (if p.exit_node_allow_all
        then all_traffic
        else if no_routes p.exit_node_routes
        then p.allowed_ips
        else with_routes p.allowed_ips p.exit_node_routes)
    else p.allowed_ips

unfoldable pub effective_allowed_ips : Peer → Text
unfolding exit_allowed_ips with_routes
effective_allowed_ips p =
    if not (no_routes p.advertised_routes) && not (text_eq (exit_allowed_ips p) all_traffic)
    then with_routes (exit_allowed_ips p) p.advertised_routes
    else exit_allowed_ips p

-- The settings that `wg syncconf` does not read: wg-quick applies them when it sets wg0 up.
unfoldable pub quick_settings : ServerConfig → List Text → List Text → Text
unfolding optional optional_number settings hook_lines
quick_settings s post_up post_down = concat (
    optional (codes "DNS") s.dns
    ∷ optional_number (codes "MTU") s.mtu
    ∷ optional (codes "Table") s.table
    ∷ optional (codes "FwMark") s.fw_mark
    ∷ settings (codes "PreUp") (hook_lines s.pre_up)
    ∷ settings (codes "PostUp") (hook_lines s.post_up)
    ∷ settings (codes "PostUp") post_up
    ∷ settings (codes "PostDown") post_down
    ∷ settings (codes "PostDown") (hook_lines s.post_down)
    ∷ settings (codes "PreDown") (hook_lines s.pre_down)
    ∷ [])

unfoldable pub interface_section : ServerConfig → List Text → List Text → Text
unfolding setting quick_settings
interface_section s post_up post_down = concat (
    codes "[Interface]"
    ∷ setting (codes "PrivateKey") s.private_key
    ∷ setting (codes "ListenPort") (itoa s.listen_port)
    ∷ setting (codes "Address") s.address
    ∷ quick_settings s post_up post_down
    ∷ (10 ∷ [])
    ∷ [])

unfoldable pub peer_section : Peer → Text
unfolding setting optional optional_number effective_allowed_ips
peer_section p = concat (
    (10 ∷ codes "[Peer]")
    ∷ (10 ∷ codes "# ")
    ∷ p.name
    ∷ setting (codes "PublicKey") p.public_key
    ∷ optional (codes "PresharedKey") p.preshared_key
    ∷ setting (codes "AllowedIPs") (effective_allowed_ips p)
    ∷ optional (codes "Endpoint") p.endpoint
    ∷ optional_number (codes "PersistentKeepalive") p.persistent_keepalive
    ∷ (10 ∷ [])
    ∷ [])

-- Disabled peers are left out.
unfoldable pub peer_sections : List Peer → Text
unfolding peer_section
peer_sections [] = []
peer_sections (p ∷ ps) = if p.enabled then peer_section p ++ peer_sections ps else peer_sections ps

unfoldable pub render_server_config : AppConfig → List Text → List Text → Text
unfolding interface_section peer_sections
render_server_config cfg post_up post_down =
    interface_section cfg.server post_up post_down ++ peer_sections cfg.peers
