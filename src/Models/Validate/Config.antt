-- ===== src/Models/Validate/Config.antt =====
-- models.go: `ValidateConfig`, which checks what only the whole configuration shows, and
-- `effectiveAllowedPrefixes`. The names that its maps hold go into the error messages.
pub mod Gateways
pub mod Peers
pub mod UniqueGateways
pub mod UniquePeers
pub mod Accepted
use wg_busy.Prelude.{
  ℕ, Bool, true, false, not, ◌&&◌, List, [], ◌∷◌, ◌++◌, Option, none, some, if◌then◌else◌, Text,
  codes, concat, quote, is_empty, trim_space, split, flatten, flat_map,
}
use wg_busy.Net.Parse.{parse_ip}
use wg_busy.Net.Format.{ip_text}
use wg_busy.Models.{Peer, BgpPeer, VpnGateway, AppConfig, ValidationError}
use wg_busy.Models.Find.{find_vpn_gateway_by_id, validate_exit_node_refs}
use wg_busy.Models.Validate.{check, is_none, validate_bgp_peer, validate_zero_tier}
use wg_busy.Models.Validate.Claims.{owner_of, claim, repeated, text_key}
use wg_busy.Models.Validate.Server.{validate_server}
use wg_busy.Models.Validate.Peer.{validate_peer}
use wg_busy.Models.Validate.Config.Gateways.{gateways_from, no_gateways}
use wg_busy.Models.Validate.Config.Peers.{peers_from, no_peers}

unfoldable pub missing_gateway : List VpnGateway → Peer → List ValidationError
missing_gateway gateways p =
    check
      (not (is_empty p.vpn_gateway_id)
        && is_none (find_vpn_gateway_by_id gateways p.vpn_gateway_id))
      (codes "vpnGatewayID")
      (concat (
        codes "peer "
        ∷ quote p.name
        ∷ codes " references missing VPN gateway "
        ∷ quote p.vpn_gateway_id
        ∷ []))

-- The maps of the loop over the BGP peers.
pub record BgpSeen : Type 0 where
  pub ids : List (Text × Text)
  pub addresses : List (Text × Text)

bgp_duplicates : Text → Text → BgpPeer → Text → ValidationError
bgp_duplicates field what p previous = record {
  field = field;
  message = concat (
      codes "BGP peer "
      ∷ quote p.name
      ∷ codes " duplicates "
      ∷ what
      ∷ codes " used by "
      ∷ quote previous
      ∷ []);
}

-- The address of an enabled BGP peer, as the library prints it.
unfoldable pub bgp_address : BgpPeer → List Text
bgp_address p =
    if p.enabled
    then elim (parse_ip (trim_space p.peer_ip)) [ none ↦ [] | some ip ↦ ip_text ip ∷ [] ]
    else []

address_claims : List (Text × Text) → BgpPeer → List Text → List ValidationError
unfolding bgp_duplicates
address_claims m p [] = []
address_claims m p (a ∷ rest) =
    repeated m a (bgp_duplicates (codes "bgpPeerIP") (codes "address") p)
    ++ address_claims (claim m a p.name) p rest

claim_addresses : List (Text × Text) → BgpPeer → List Text → List (Text × Text)
claim_addresses m p [] = m
claim_addresses m p (a ∷ rest) = claim_addresses (claim m a p.name) p rest

unfoldable pub bgp_from : BgpSeen → List BgpPeer → List ValidationError
unfolding bgp_duplicates address_claims claim_addresses
bgp_from seen [] = []
bgp_from seen (p ∷ ps) =
    repeated seen.ids p.id (bgp_duplicates (codes "id") (codes "ID") p)
    ++ (address_claims seen.addresses p (bgp_address p)
        ++ bgp_from
            (record {
              ids = claim seen.ids p.id p.name;
              addresses = claim_addresses seen.addresses p (bgp_address p);
            })
            ps)

unfoldable pub validate_config : AppConfig → List ValidationError
unfolding missing_gateway bgp_from
validate_config cfg = flatten (
    validate_server cfg.server
    ∷ validate_zero_tier cfg.zerotier
    ∷ flat_map (validate_peer []) cfg.peers
    ∷ validate_exit_node_refs cfg.peers
    ∷ flat_map validate_bgp_peer cfg.bgp_peers
    ∷ gateways_from no_gateways cfg.vpn_gateways
    ∷ flat_map (missing_gateway cfg.vpn_gateways) cfg.peers
    ∷ peers_from no_peers cfg.peers
    ∷ bgp_from (record { ids = []; addresses = [] }) cfg.bgp_peers
    ∷ [])
