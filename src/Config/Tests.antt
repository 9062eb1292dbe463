-- ===== src/Config/Tests.antt =====
-- The theorems of the store on sample configurations.
mod World
use wg_busy.Prelude.{
  ℕ, ◌≡◌, ◌≢◌, inl, inr, refl, Bool, false, List, [], ◌∷◌, Option, none, some, Text, codes, lookup,
  put, remove, pos, All, map, flat_map, arith,
}
use wg_busy.Models.{Peer, AppConfig}
use wg_busy.Models.Find.{find_peer_by_id}
use wg_busy.Models.Validate.Config.{validate_config}
use wg_busy.Models.Validate.Claims.Apart.{Apart}
use wg_busy.Models.Validate.Config.Accepted.{validate_config_peers}
use wg_busy.Models.Validate.Config.UniquePeers.{peer_id}
use wg_busy.Models.Tests.{valid_config_passes}
use wg_busy.Samples.{valid_config, new_gateway, key_of}
use wg_busy.Config.{Store, Env}
use wg_busy.Config.Tests.World.{
  Disk, contents, disk_env, disk_files, disk-Quiet, disk_reads, config_file, wg_file, sample_store,
  sample_disk,
}
use wg_busy.Config.Applied.{is_peer_routing_applied, peer_routing_applied_map}
use wg_busy.Config.Applied.Agree.{answer_for, peer_routing_applied_map_agrees}
use wg_busy.Config.Disk.{replace_file, temp_path}
use wg_busy.Config.Disk.Atomic.{Replaced, replace_file-Replaced}
use wg_busy.Config.Runs.{
  Op, writing, recording, saving_stats, reapplying_routing, marking_restarted, perform_all,
  perform_all_valid,
}
use wg_busy.Config.Start.{opened, started, load}
use wg_busy.Config.Start.Reload.{IsCommitted, ReadsBack, load-write}
use wg_busy.Config.Stats.{PeerStatsSnapshot}
use wg_busy.Config.Tables.{tables_in_use, ensure_vpn_gateway_routing_table_ids}
use wg_busy.Config.Tables.Fresh.{ensure_vpn_gateway_routing_table_ids_fresh}
use wg_busy.Config.Tables.Given.{table_of, AllGiven}
use wg_busy.Models.Validate.Config.UniqueGateways.{gateway_table}
use wg_busy.Config.Write.{write}
use wg_busy.Config.Write.Outcome.{Outcome, write-Outcome}
use wg_busy.Config.Write.Saved.{PathsApart, Saved, SavedUnless, write-Saved}

-- A change that gives the server another endpoint.
abbrev new_endpoint : AppConfig → AppConfig × Option Text
new_endpoint cfg =
    (record cfg { server = record cfg.server { endpoint = codes "vpn.example:51820" } }, none)

abbrev changed_config : AppConfig
changed_config = (new_endpoint valid_config).0

abbrev env : Env Disk
env = disk_env changed_config

write-Outcome_example :
    Outcome env new_endpoint sample_store sample_disk
      (write env new_endpoint sample_store sample_disk)
write-Outcome_example = write-Outcome env new_endpoint sample_store sample_disk

paths_apart : PathsApart sample_store
paths_apart = (λ e. cc (e), λ e. cc (e))

Saved-before : Saved contents (disk_files changed_config) sample_store sample_disk
unfolding lookup wg_busy.Prelude.text_eq
Saved-before = inr refl

write-Saved_example :
    SavedUnless contents
      (disk_files changed_config)
      (write env new_endpoint sample_store sample_disk)
write-Saved_example =
    write-Saved contents (disk_files changed_config) sample_store
      (disk-Quiet changed_config config_file) paths_apart new_endpoint sample_disk Saved-before

committed : IsCommitted (write env new_endpoint sample_store sample_disk).2
unfolding write lookup put remove ensure_vpn_gateway_routing_table_ids
    wg_busy.Config.Tables.tables_in_use wg_busy.Config.Tables.assign_tables
    wg_busy.Config.Disk.save_yaml wg_busy.Config.Disk.replace_file
    wg_busy.Config.Disk.render_wg_config wg_busy.Config.Live.apply_live
    wg_busy.WireGuard.Live.reload_wg_config wg_busy.Config.Write.with_config validate_config
    wg_busy.Models.Validate.Peer.validate_peer wg_busy.Models.Validate.Formats.is_valid_cidr_list
    wg_busy.Prelude.trim_space wg_busy.Net.Parse.parse_ip wg_busy.Net.Parse.parse_cidr
    wg_busy.Models.Gateways.resolve_gateway wg_busy.Models.Find.validate_exit_node_refs
    wg_busy.Models.Validate.validate_zero_tier wg_busy.Prelude.flatten wg_busy.Prelude.split
    wg_busy.Prelude.has_prefix wg_busy.Prelude.has wg_busy.Prelude.text_eq
    wg_busy.Models.Validate.name_matches wg_busy.Models.Validate.Server.validate_server
    wg_busy.Models.Validate.Formats.is_valid_base64_key wg_busy.Models.Validate.Claims.claim
    wg_busy.Models.Validate.Claims.owner_of wg_busy.Models.Validate.Claims.repeated
    wg_busy.Models.Validate.Config.Gateways.after_gateway
    wg_busy.Models.Validate.Config.Gateways.gateway_errors
    wg_busy.Models.Validate.Config.Gateways.gateways_from
    wg_busy.Models.Validate.Config.Peers.after_peer wg_busy.Models.Validate.Config.Peers.peer_errors
    wg_busy.Models.Validate.Config.Peers.peers_from
    wg_busy.Models.Validate.Config.Peers.effective_allowed_prefixes
    wg_busy.Models.Validate.Config.missing_gateway wg_busy.Models.Validate.Config.bgp_from
    wg_busy.Models.Validate.Formats.Numbers.is_valid_endpoint
    wg_busy.Models.Validate.Formats.Numbers.is_valid_table
    wg_busy.Models.Validate.Formats.is_valid_dns_list wg_busy.Routing.PolicyText.split_via
    wg_busy.Models.Addresses.parsed wg_busy.Models.Find.dangling wg_busy.Models.Find.exit_node_ids
    wg_busy.Models.Find.find_vpn_gateway_by_id wg_busy.Models.Gateways.consider
    wg_busy.Models.Gateways.holding wg_busy.Models.Gateways.scan wg_busy.Models.Gateways.verdict
    wg_busy.Models.Gateways.visit wg_busy.Net.contains wg_busy.Net.Format.ip_text
    wg_busy.Net.Format.cidr_text wg_busy.Models.Validate.Formats.split_host_port
    wg_busy.Models.Validate.Formats.Numbers.atoi wg_busy.Prelude.contains_byte
committed = tt

reads_back : ReadsBack env (write env new_endpoint sample_store sample_disk).0.config
unfolding write lookup put remove ensure_vpn_gateway_routing_table_ids
    wg_busy.Config.Tables.tables_in_use wg_busy.Config.Tables.assign_tables
    wg_busy.Config.Disk.save_yaml wg_busy.Config.Disk.replace_file
    wg_busy.Config.Disk.render_wg_config wg_busy.Config.Live.apply_live
    wg_busy.WireGuard.Live.reload_wg_config wg_busy.Config.Write.with_config validate_config
    wg_busy.Models.Validate.Peer.validate_peer wg_busy.Models.Validate.Formats.is_valid_cidr_list
    wg_busy.Prelude.trim_space wg_busy.Net.Parse.parse_ip wg_busy.Net.Parse.parse_cidr
    wg_busy.Models.Gateways.resolve_gateway wg_busy.Models.Find.validate_exit_node_refs
    wg_busy.Models.Validate.validate_zero_tier wg_busy.Prelude.flatten wg_busy.Prelude.split
    wg_busy.Prelude.has_prefix wg_busy.Prelude.has wg_busy.Prelude.text_eq
    wg_busy.Models.Validate.name_matches wg_busy.Models.Validate.Server.validate_server
    wg_busy.Models.Validate.Formats.is_valid_base64_key wg_busy.Models.Validate.Claims.claim
    wg_busy.Models.Validate.Claims.owner_of wg_busy.Models.Validate.Claims.repeated
    wg_busy.Models.Validate.Config.Gateways.after_gateway
    wg_busy.Models.Validate.Config.Gateways.gateway_errors
    wg_busy.Models.Validate.Config.Gateways.gateways_from
    wg_busy.Models.Validate.Config.Peers.after_peer wg_busy.Models.Validate.Config.Peers.peer_errors
    wg_busy.Models.Validate.Config.Peers.peers_from
    wg_busy.Models.Validate.Config.Peers.effective_allowed_prefixes
    wg_busy.Models.Validate.Config.missing_gateway wg_busy.Models.Validate.Config.bgp_from
    wg_busy.Models.Validate.Formats.Numbers.is_valid_endpoint
    wg_busy.Models.Validate.Formats.Numbers.is_valid_table
    wg_busy.Models.Validate.Formats.is_valid_dns_list wg_busy.Routing.PolicyText.split_via
    wg_busy.Models.Addresses.parsed wg_busy.Models.Find.dangling wg_busy.Models.Find.exit_node_ids
    wg_busy.Models.Find.find_vpn_gateway_by_id wg_busy.Models.Gateways.consider
    wg_busy.Models.Gateways.holding wg_busy.Models.Gateways.scan wg_busy.Models.Gateways.verdict
    wg_busy.Models.Gateways.visit wg_busy.Net.contains wg_busy.Net.Format.ip_text
    wg_busy.Net.Format.cidr_text wg_busy.Models.Validate.Formats.split_host_port
    wg_busy.Models.Validate.Formats.Numbers.atoi wg_busy.Prelude.contains_byte
reads_back = (codes "yaml", refl, refl)

load-write_example :
    load env
      (write env new_endpoint sample_store sample_disk).0.config_path
      wg_file
      (write env new_endpoint sample_store sample_disk).1
    ≡ (
      (write env new_endpoint sample_store sample_disk).1,
      opened (
          started
            (write env new_endpoint sample_store sample_disk).0.config_path
            wg_file
            (write env new_endpoint sample_store sample_disk).0.config),
    )
load-write_example =
    load-write contents (disk_files changed_config) (disk_reads changed_config) new_endpoint
      sample_store sample_disk wg_file (disk-Quiet changed_config config_file) paths_apart
      Saved-before committed reads_back

replace_file-Replaced_example :
    Replaced contents
      (disk_files changed_config)
      sample_disk
      config_file
      (some (codes "new"))
      (replace_file env sample_disk config_file (codes "new"))
replace_file-Replaced_example =
    replace_file-Replaced contents (disk_files changed_config) sample_disk config_file (codes "new")

abbrev snapshot : PeerStatsSnapshot
snapshot = record { last_seen = 7; transfer_rx = pos 10; transfer_tx = pos 20 }

abbrev snapshots : List (Text × PeerStatsSnapshot)
snapshots = ((key_of b'P'), snapshot) ∷ []

abbrev operations : List Op
operations =
    writing new_endpoint
    ∷ recording snapshots
    ∷ saving_stats
    ∷ marking_restarted
    ∷ reapplying_routing
    ∷ []

perform_all_valid_example :
    validate_config (perform_all env operations sample_store sample_disk).0.config ≡ []
perform_all_valid_example =
    perform_all_valid env operations sample_store sample_disk valid_config_passes

different_ids : Apart (map peer_id valid_config.peers)
different_ids = (validate_config_peers valid_config valid_config_passes).0

peer_routing_applied_map_agrees_example :
    lookup (peer_routing_applied_map sample_store) (codes "s")
    ≡ answer_for
        (find_peer_by_id valid_config.peers (codes "s"))
        (is_peer_routing_applied sample_store (codes "s"))
peer_routing_applied_map_agrees_example =
    peer_routing_applied_map_agrees sample_store (codes "s") different_ids

different_tables : Apart (flat_map gateway_table new_gateway.vpn_gateways)
different_tables = (tt, tt)

ensure_vpn_gateway_routing_table_ids_fresh_example :
    All
      (λ g. g.routing_table_id ≢ 0)
      (ensure_vpn_gateway_routing_table_ids new_gateway).vpn_gateways
    × Apart (map table_of (ensure_vpn_gateway_routing_table_ids new_gateway).vpn_gateways)
    × AllGiven
        (tables_in_use new_gateway)
        new_gateway.vpn_gateways
        (ensure_vpn_gateway_routing_table_ids new_gateway).vpn_gateways
    × (ensure_vpn_gateway_routing_table_ids (ensure_vpn_gateway_routing_table_ids new_gateway)
        ≡ ensure_vpn_gateway_routing_table_ids new_gateway)
ensure_vpn_gateway_routing_table_ids_fresh_example =
    ensure_vpn_gateway_routing_table_ids_fresh new_gateway different_tables

new_table :
    map table_of (ensure_vpn_gateway_routing_table_ids new_gateway).vpn_gateways ≡ 200 ∷ 20000 ∷ []
unfolding ensure_vpn_gateway_routing_table_ids wg_busy.Prelude.has_num
    wg_busy.Routing.Tables.used_tables
new_table = refl
