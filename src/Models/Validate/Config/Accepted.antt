-- ===== src/Models/Validate/Config/Accepted.antt =====
-- What a configuration guarantees that `ValidateConfig` accepts.
use wg_busy.Prelude.{
  ◌≡◌, ◌≢◌, ◌⊎◌, List, [], ◌∷◌, ◌++◌, none, Text, arith, All, All-map, append_nil, flatten_nil,
  flat_map, map,
}
use wg_busy.Models.{Peer, BgpPeer, VpnGateway, AppConfig}
use wg_busy.Models.Find.{find_vpn_gateway_by_id}
use wg_busy.Models.Find.References.{Refers, validate_exit_node_refs_iff}
use wg_busy.Models.Validate.Claims.{claim, repeated, text_key, num_key}
use wg_busy.Models.Validate.Claims.Apart.{Apart, Claimed, Claimed-cons, Claimed-Apart}
use wg_busy.Models.Validate.Peer.Usable.{flat_map_nil}
use wg_busy.Models.Validate.Config.{
  missing_gateway, bgp_address, address_claims, claim_addresses, BgpSeen, bgp_from, validate_config,
}
use wg_busy.Models.Validate.Config.Gateways.{no_gateways}
use wg_busy.Models.Validate.Config.UniqueGateways.{
  gateway_id, gateway_iface, gateway_table, Named, gateways_claimed,
}
use wg_busy.Models.Validate.Config.Peers.{no_peers, prefixes_of}
use wg_busy.Models.Validate.Config.UniquePeers.{
  peer_id, key_of, tables_of, HasTables, peers_claimed,
}

-- In an accepted configuration no two peers have the same ID or the same public key, no routing
-- table that is not 0 is used twice by peers, be it as the exit table or as the policy table, no
-- prefix is claimed twice by the enabled peers, every exit node has its exit table, and every
-- peer with policy routes its policy table.
pub validate_config_peers :
    (cfg : AppConfig)
    → validate_config cfg ≡ []
    → Apart (map peer_id cfg.peers)
      × Apart (map key_of cfg.peers)
      × Apart (flat_map tables_of cfg.peers)
      × Apart (flat_map prefixes_of cfg.peers)
      × All HasTables cfg.peers
unfolding validate_config
validate_config_peers cfg h =
    let parts = (flatten_nil _).0 h in
    let claimed = peers_claimed no_peers cfg.peers parts.1.1.1.1.1.1.1.0 in
    (
      Claimed-Apart _ claimed.0,
      Claimed-Apart _ claimed.1,
      Claimed-Apart _ claimed.2,
      Claimed-Apart _ claimed.3,
      claimed.4,
    )

-- In an accepted configuration every gateway has an ID and a name that are not blank, and no two
-- gateways have the same ID, the same interface, or the same routing table other than 0.
pub validate_config_gateways :
    (cfg : AppConfig)
    → validate_config cfg ≡ []
    → All Named cfg.vpn_gateways
      × Apart (flat_map gateway_id cfg.vpn_gateways)
      × Apart (flat_map gateway_iface cfg.vpn_gateways)
      × Apart (flat_map gateway_table cfg.vpn_gateways)
unfolding validate_config
validate_config_gateways cfg h =
    let parts = (flatten_nil _).0 h in
    let claimed = gateways_claimed no_gateways cfg.vpn_gateways parts.1.1.1.1.1.0 in
    (claimed.3, Claimed-Apart _ claimed.0, Claimed-Apart _ claimed.1, Claimed-Apart _ claimed.2)

abbrev pub FoundGateway : List VpnGateway → Peer → Type 0
FoundGateway gateways p =
    (p.vpn_gateway_id ≡ []) ⊎ (find_vpn_gateway_by_id gateways p.vpn_gateway_id ≢ none)

gateway_found :
    (gateways : List VpnGateway) (p : Peer)
    → missing_gateway gateways p ≡ []
    → FoundGateway gateways p
unfolding missing_gateway
gateway_found gateways p h = ground arith

-- In an accepted configuration every peer that names an exit node names an enabled exit node of the
-- configuration, and every peer that names a gateway names one of its gateways.
pub validate_config_references :
    (cfg : AppConfig)
    → validate_config cfg ≡ []
    → All (Refers cfg.peers) cfg.peers × All (FoundGateway cfg.vpn_gateways) cfg.peers
unfolding validate_config
validate_config_references cfg h =
    let parts = (flatten_nil _).0 h in
    (
      (validate_exit_node_refs_iff cfg.peers).0 parts.1.1.1.0,
      All-map (λ p. missing_gateway cfg.vpn_gateways p ≡ []) (FoundGateway cfg.vpn_gateways)
          cfg.peers (gateway_found cfg.vpn_gateways)
          (flat_map_nil (missing_gateway cfg.vpn_gateways) cfg.peers parts.1.1.1.1.1.1.0),
    )

addresses_then :
    (m : List (Text × Text)) (p : BgpPeer) (xs js : List Text)
    → address_claims m p xs ≡ []
    → Claimed (claim_addresses m p xs) js
    → Claimed m (xs ++ js)
unfolding address_claims claim_addresses
addresses_then m p [] js h rest = rest
addresses_then m p (x ∷ xs) js h rest =
    let both = (append_nil (repeated m x _) _).0 h in
    Claimed-cons m x p.name _ (xs ++ js) both.0
      (addresses_then (claim m x p.name) p xs js both.1 rest)

abbrev pub bgp_id : BgpPeer → Text
bgp_id p = p.id

bgp-Claimed :
    (seen : BgpSeen) (ps : List BgpPeer)
    → bgp_from seen ps ≡ []
    → Claimed seen.ids (map bgp_id ps) × Claimed seen.addresses (flat_map bgp_address ps)
unfolding bgp_from
bgp-Claimed seen [] h = (tt, tt)
bgp-Claimed seen (p ∷ ps) h =
    let first = (append_nil (repeated seen.ids p.id _) _).0 h in
    let second = (append_nil (address_claims seen.addresses p (bgp_address p)) _).0 first.1 in
    let rest =
      bgp-Claimed
        (record {
          ids = claim seen.ids p.id p.name;
          addresses = claim_addresses seen.addresses p (bgp_address p);
        })
        ps second.1 in
    (
      Claimed-cons seen.ids p.id p.name _ _ first.0 rest.0,
      addresses_then seen.addresses p (bgp_address p) _ second.0 rest.1,
    )

-- In an accepted configuration no two BGP peers have the same ID, and no two enabled ones the same
-- address, however it is written.
pub validate_config_bgp_peers :
    (cfg : AppConfig)
    → validate_config cfg ≡ []
    → Apart (map bgp_id cfg.bgp_peers) × Apart (flat_map bgp_address cfg.bgp_peers)
unfolding validate_config
validate_config_bgp_peers cfg h =
    let parts = (flatten_nil _).0 h in
    let claimed = bgp-Claimed _ cfg.bgp_peers parts.1.1.1.1.1.1.1.1.0 in
    (Claimed-Apart _ claimed.0, Claimed-Apart _ claimed.1)

-- In an accepted configuration no two peers have the same ID or the same public key, no routing table
-- that is not 0 is used twice by peers, no prefix is claimed twice by the enabled peers, and exit nodes
-- and peers with policy routes have their tables; no two gateways have the same ID, the same interface
-- that is set, or the same table that is not 0, and their IDs and names are not blank; the exit node
-- and the VPN gateway that a peer names are an enabled exit node and a gateway of the configuration;
-- and no two BGP peers have the same ID, no two enabled ones the same address.
pub validate_config_sound :
    (cfg : AppConfig)
    → validate_config cfg ≡ []
    → (Apart (map peer_id cfg.peers)
        × Apart (map key_of cfg.peers)
        × Apart (flat_map tables_of cfg.peers)
        × Apart (flat_map prefixes_of cfg.peers)
        × All HasTables cfg.peers)
      × (All Named cfg.vpn_gateways
          × Apart (flat_map gateway_id cfg.vpn_gateways)
          × Apart (flat_map gateway_iface cfg.vpn_gateways)
          × Apart (flat_map gateway_table cfg.vpn_gateways))
      × (All (Refers cfg.peers) cfg.peers × All (FoundGateway cfg.vpn_gateways) cfg.peers)
      × (Apart (map bgp_id cfg.bgp_peers) × Apart (flat_map bgp_address cfg.bgp_peers))
validate_config_sound cfg h = (
  validate_config_peers cfg h,
  validate_config_gateways cfg h,
  validate_config_references cfg h,
  validate_config_bgp_peers cfg h,
)
