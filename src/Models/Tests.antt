-- ===== src/Models/Tests.antt =====
-- The theorems of the data model on sample configurations.
use wg_busy.Prelude.{
  true, map, flat_map, ◌⊎◌, ◌≤◌, ◌≡◌, ◌↔◌, refl, List, [], ◌∷◌, Option, some, Text, codes, All,
  ◌++◌, ◌^◌, ◌+◌, ◌*◌, trim_space,
}
use wg_busy.Net.{v4}
use wg_busy.Net.Parse.{parse_ip, parse_cidr}
use wg_busy.Models.{Peer}
use wg_busy.Models.Find.{validate_exit_node_refs}
use wg_busy.Models.Find.References.{Refers, validate_exit_node_refs_iff}
use wg_busy.Models.Addresses.{peer_sources}
use wg_busy.Models.Gateways.{resolve_gateway, device}
use wg_busy.Models.Gateways.Longest.{Answers, resolve_gateway-Answers}
use wg_busy.Models.Validate.{problem, validate_bgp_peer, validate_zero_tier}
use wg_busy.Models.Validate.Gateway.{error_text, has_field, validate_vpn_gateway}
use wg_busy.Models.Validate.Accepted.{
  GoodBgpPeer, GoodNetwork, DistinctIds, validate_bgp_peer_iff, validate_zero_tier_sound,
}
use wg_busy.Models.Validate.Claims.Apart.{Apart}
use wg_busy.Models.Validate.Formats.{is_valid_cidr_list}
use wg_busy.Models.Validate.Peer.{validate_peer}
use wg_busy.Models.Validate.Config.{bgp_address, validate_config}
use wg_busy.Models.Validate.Config.Accepted.{FoundGateway, bgp_id, validate_config_sound}
use wg_busy.Models.Validate.Config.UniqueGateways.{gateway_id, gateway_iface, gateway_table, Named}
use wg_busy.Models.Validate.Config.Peers.{prefixes_of}
use wg_busy.Models.Validate.Config.UniquePeers.{peer_id, key_of, tables_of, HasTables}
use wg_busy.Samples.{
  gateway, valid_config, keyed, bgp_peer, joined, strict_peer, exit_peer, sample_nets,
}

zt_gateway : resolve_gateway (codes " 10.147.17.1") sample_nets ≡ device (codes "ztabc")
unfolding resolve_gateway parse_ip trim_space wg_busy.Models.Gateways.holding
    wg_busy.Net.Parse.parse_cidr wg_busy.Net.contains
zt_gateway = refl

sources : peer_sources strict_peer.allowed_ips ≡ codes "10.0.0.7" ∷ codes "10.8.0.0/24" ∷ []
unfolding peer_sources wg_busy.Prelude.split wg_busy.Net.Parse.parse_cidr trim_space
    wg_busy.Prelude.has wg_busy.Net.Format.ip_text wg_busy.Prelude.text_eq
    wg_busy.Net.Format.cidr_text
sources = refl

parsed_gateway : parse_ip (trim_space (codes "10.147.17.1")) ≡ some (v4 177410305)
unfolding parse_ip trim_space
parsed_gateway = refl

resolve_gateway-Answers_example :
    Answers (v4 177410305) sample_nets (resolve_gateway (codes "10.147.17.1") sample_nets)
resolve_gateway-Answers_example =
    resolve_gateway-Answers (codes "10.147.17.1") sample_nets (v4 177410305) parsed_gateway

validate_exit_node_refs_iff_example :
    (validate_exit_node_refs (strict_peer ∷ exit_peer ∷ []) ≡ [])
    ↔ All (Refers (strict_peer ∷ exit_peer ∷ [])) (strict_peer ∷ exit_peer ∷ [])
validate_exit_node_refs_iff_example = validate_exit_node_refs_iff (strict_peer ∷ exit_peer ∷ [])

bgp_peer_passes : validate_bgp_peer bgp_peer ≡ []
unfolding validate_bgp_peer trim_space wg_busy.Models.Validate.name_matches parse_ip
    wg_busy.Models.Validate.validate_route_filters wg_busy.Net.Parse.parse_cidr
    wg_busy.Prelude.text_eq
bgp_peer_passes = refl

validate_bgp_peer_iff_example : (validate_bgp_peer bgp_peer ≡ []) ↔ GoodBgpPeer bgp_peer
validate_bgp_peer_iff_example = validate_bgp_peer_iff bgp_peer

joined_passes : validate_zero_tier joined ≡ []
unfolding validate_zero_tier wg_busy.Models.Validate.to_lower trim_space
    wg_busy.Models.Validate.network_id_matches wg_busy.Prelude.has
joined_passes = refl

validate_zero_tier_sound_example :
    ((joined.port ≡ 0) ⊎ (1024 ≤ joined.port))
    × All GoodNetwork joined.networks
    × DistinctIds joined.networks
validate_zero_tier_sound_example = validate_zero_tier_sound joined joined_passes

pub valid_config_passes : validate_config valid_config ≡ []
unfolding validate_config validate_peer is_valid_cidr_list trim_space parse_ip parse_cidr
    resolve_gateway validate_exit_node_refs validate_zero_tier wg_busy.Prelude.flatten
    wg_busy.Prelude.split wg_busy.Prelude.has_prefix wg_busy.Prelude.has wg_busy.Prelude.text_eq
    wg_busy.Models.Validate.name_matches wg_busy.Models.Validate.Server.validate_server
    wg_busy.Models.Validate.Formats.is_valid_base64_key wg_busy.Models.Validate.Claims.claim
    wg_busy.Models.Validate.Claims.owner_of wg_busy.Models.Validate.Claims.repeated
    wg_busy.Models.Validate.Config.Gateways.after_gateway
    wg_busy.Models.Validate.Config.Gateways.gateway_errors
    wg_busy.Models.Validate.Config.Gateways.gateways_from
    wg_busy.Models.Validate.Config.Peers.after_peer wg_busy.Models.Validate.Config.Peers.peer_errors
    wg_busy.Models.Validate.Config.Peers.peers_from
    wg_busy.Models.Validate.Config.Peers.effective_allowed_prefixes
    wg_busy.Models.Validate.Config.missing_gateway wg_busy.Models.Validate.Config.bgp_from
    wg_busy.Models.Validate.Formats.Numbers.is_valid_endpoint
    wg_busy.Models.Validate.Formats.Numbers.is_valid_table
    wg_busy.Models.Validate.Formats.is_valid_dns_list wg_busy.Routing.PolicyText.split_via
    wg_busy.Models.Addresses.parsed wg_busy.Models.Find.dangling wg_busy.Models.Find.exit_node_ids
    wg_busy.Models.Find.find_vpn_gateway_by_id wg_busy.Models.Gateways.consider
    wg_busy.Models.Gateways.holding wg_busy.Models.Gateways.scan wg_busy.Models.Gateways.verdict
    wg_busy.Models.Gateways.visit wg_busy.Net.contains wg_busy.Net.Format.ip_text
    wg_busy.Net.Format.cidr_text wg_busy.Models.Validate.Formats.split_host_port
    wg_busy.Models.Validate.Formats.Numbers.atoi wg_busy.Prelude.contains_byte
valid_config_passes = refl

validate_config_sound_example :
    (Apart (map peer_id valid_config.peers)
      × Apart (map key_of valid_config.peers)
      × Apart (flat_map tables_of valid_config.peers)
      × Apart (flat_map prefixes_of valid_config.peers)
      × All HasTables valid_config.peers)
    × (All Named valid_config.vpn_gateways
        × Apart (flat_map gateway_id valid_config.vpn_gateways)
        × Apart (flat_map gateway_iface valid_config.vpn_gateways)
        × Apart (flat_map gateway_table valid_config.vpn_gateways))
    × (All (Refers valid_config.peers) valid_config.peers
        × All (FoundGateway valid_config.vpn_gateways) valid_config.peers)
    × (Apart (map bgp_id valid_config.bgp_peers)
        × Apart (flat_map bgp_address valid_config.bgp_peers))
validate_config_sound_example = validate_config_sound valid_config valid_config_passes

abbrev strict_keyed : Peer
strict_keyed = keyed strict_peer b'P'

errors_shown :
    error_text
      (problem (codes "id") (codes "required") ++ problem (codes "name") (codes "too long"))
    ≡ codes "id: required; name: too long"
unfolding error_text wg_busy.Prelude.concat
errors_shown = refl

errors_have_name :
    has_field
      (problem (codes "id") (codes "required") ++ problem (codes "name") (codes "too long"))
      (codes "name")
    ≡ true
unfolding has_field
errors_have_name = refl

unnamed_gateway :
    validate_vpn_gateway (record gateway { id = codes "g"; name = [] })
    ≡ some (codes "gateway name is required")
unfolding validate_vpn_gateway trim_space
unnamed_gateway = refl
