-- ===== src/WireGuard/Tests.antt =====
-- The theorems of the rendered configurations on samples, and a rendered file.
use wg_busy.Prelude.{◌≡◌, refl, List, [], ◌∷◌, ◌++◌, Option, none, some, Text, codes, All, flat_map}
use wg_busy.Models.{ServerConfig}
use wg_busy.Models.Tests.{valid_config_passes}
use wg_busy.Models.Validate.Claims.Apart.{Apart}
use wg_busy.Samples.{valid_config, server, exit_peer, plain_peer}
use wg_busy.WireGuard.Client.{client_allowed_ips, client_endpoint}
use wg_busy.WireGuard.Live.{format_wg_show}
use wg_busy.WireGuard.Render.{effective_allowed_ips, interface_section}
use wg_busy.WireGuard.Render.AllowedIps.{PlainRoutes, rendered_of, rendered_prefixes-Apart}
use wg_busy.WireGuard.Restart.{server_restart_reason}
use wg_busy.WireGuard.Restart.Reasons.{server_restart_reason_rendered}

plain_routes : All PlainRoutes valid_config.peers
plain_routes = ((tt, tt), ((tt, tt), ((tt, tt), tt)))

rendered_prefixes-Apart_example : Apart (flat_map rendered_of valid_config.peers)
rendered_prefixes-Apart_example =
    rendered_prefixes-Apart valid_config valid_config_passes plain_routes

-- Another port and another key, and a line end in a hook.
abbrev with_hook : ServerConfig
with_hook = record server { post_up = codes "echo up" }

abbrev moved_port : ServerConfig
moved_port = record server { listen_port = 51821; post_up = codes " echo up" ++ 10 ∷ [] }

no_restart : server_restart_reason with_hook moved_port ≡ none
unfolding server_restart_reason wg_busy.Prelude.flatten wg_busy.Prelude.text_eq
    wg_busy.Prelude.split wg_busy.Prelude.trim_space
no_restart = refl

server_restart_reason_rendered_example :
    interface_section
      (record moved_port { private_key = with_hook.private_key; listen_port = 51820 })
      (codes "ip rule" ∷ [])
      []
    ≡ interface_section with_hook (codes "ip rule" ∷ []) []
server_restart_reason_rendered_example =
    server_restart_reason_rendered with_hook moved_port (codes "ip rule" ∷ []) [] no_restart

mtu_restart :
    server_restart_reason server (record server { mtu = 1400 })
    ≡ some (
        codes "WireGuard requires a restart via Apply Config because MTU changed; "
        ++ codes "wg syncconf cannot apply wg-quick-managed settings")
unfolding server_restart_reason wg_busy.Prelude.flatten wg_busy.Prelude.text_eq
    wg_busy.Prelude.concat wg_busy.Prelude.join wg_busy.Prelude.split wg_busy.Prelude.trim_space
mtu_restart = refl

advertised :
    effective_allowed_ips (record plain_peer { advertised_routes = codes "10.9.0.0/24" ∷ [] })
    ≡ codes "10.0.0.5/32, 10.9.0.0/24"
unfolding effective_allowed_ips wg_busy.Prelude.text_eq wg_busy.Prelude.join
advertised = refl

exit_all : effective_allowed_ips exit_peer ≡ codes "0.0.0.0/0, ::/0"
unfolding effective_allowed_ips
exit_all = refl

lan_added :
    client_allowed_ips (record plain_peer { client_allowed_ips = codes "10.0.0.0/8 " })
    ≡ codes "10.0.0.0/8, 192.168.178.0/24"
unfolding client_allowed_ips wg_busy.Prelude.has_prefix wg_busy.Prelude.trim_space
    wg_busy.Prelude.concat
lan_added = refl

default_endpoint : client_endpoint server [] ≡ codes "SERVER_IP:51820"
unfolding client_endpoint wg_busy.Prelude.trim_space wg_busy.Prelude.itoa
default_endpoint = refl

named_peer :
    format_wg_show
      (codes "peer: K1" ++ 13 ∷ 10 ∷ codes "  endpoint")
      (record plain_peer { public_key = codes "K1" } ∷ [])
    ≡ codes "# phone" ++ 10 ∷ (codes "peer: K1" ++ 10 ∷ codes "  endpoint")
unfolding format_wg_show wg_busy.Prelude.join wg_busy.Prelude.split wg_busy.Prelude.has_prefix
    wg_busy.Prelude.lookup wg_busy.Prelude.trim_space wg_busy.Prelude.put wg_busy.Prelude.text_eq
named_peer = refl
