-- ===== src/WireGuard/Client.antt =====
-- wireguard.go: `RenderClientConfigWithEndpoint`. `PublicKeyFromPrivate` calls wgctrl, so it is a
-- parameter; `none` is its error.
use wg_busy.Prelude.{
  Bool, ◌||◌, [], ◌∷◌, ◌++◌, Option, none, some, if◌then◌else◌, Text, codes, concat, is_empty,
  trim_space, has_prefix, itoa,
}
use wg_busy.Models.{Peer, ServerConfig}
use wg_busy.WireGuard.Lines.{setting, optional, optional_number}

-- `strings.Contains`
unfoldable pub contains_text : Text → Text → Bool
contains_text [] part = has_prefix [] part
contains_text (c ∷ s) part = has_prefix (c ∷ s) part || contains_text s part

abbrev or_else : Text → Text → Text
or_else s other = if is_empty s then other else s

abbrev pub lan_cidr : Text
lan_cidr = codes "192.168.178.0/24"

-- The LAN is always reachable through the tunnel's own configuration.
unfoldable pub client_allowed_ips : Peer → Text
unfolding contains_text
client_allowed_ips p =
    let chosen = or_else p.client_allowed_ips (codes "0.0.0.0/0, ::/0") in
    if contains_text chosen lan_cidr
    then chosen
    else concat (trim_space chosen ∷ codes ", " ∷ lan_cidr ∷ [])

unfoldable pub client_endpoint : ServerConfig → Text → Text
client_endpoint server override =
    or_else (trim_space override)
      (or_else (trim_space server.endpoint) (codes "SERVER_IP:" ++ itoa server.listen_port))

client_config : Text → ServerConfig → Peer → Text → Text
unfolding setting optional optional_number client_allowed_ips client_endpoint
client_config server_public_key server p override = concat (
    codes "[Interface]"
    ∷ setting (codes "PrivateKey") p.private_key
    ∷ setting (codes "Address") p.allowed_ips
    ∷ optional (codes "DNS") (or_else p.dns server.dns)
    ∷ (10 ∷ 10 ∷ codes "[Peer]")
    ∷ setting (codes "PublicKey") server_public_key
    ∷ optional (codes "PresharedKey") p.preshared_key
    ∷ setting (codes "AllowedIPs") (client_allowed_ips p)
    ∷ setting (codes "Endpoint") (client_endpoint server override)
    ∷ optional_number (codes "PersistentKeepalive") p.persistent_keepalive
    ∷ (10 ∷ [])
    ∷ [])

module _ (public_key_from_private : Text → Option Text) where
  unfoldable pub render_client_config_with_endpoint : ServerConfig → Peer → Text → Option Text
  unfolding client_config
  render_client_config_with_endpoint server p override =
      elim (public_key_from_private server.private_key) [
        | none ↦ none
        | some key ↦ some (client_config key server p override)
      ]

  unfoldable pub render_client_config : ServerConfig → Peer → Option Text
  unfolding render_client_config_with_endpoint
  render_client_config server p = render_client_config_with_endpoint server p []
