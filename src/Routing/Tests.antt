-- ===== src/Routing/Tests.antt =====
-- The theorems of routing on a sample configuration: an exit node, a strict peer, and a peer with a
-- device of its own gateway.
use wg_busy.Prelude.{
  is_empty, trim_space, ◌≡◌, ◌≢◌, ◌≤◌, ◌<◌, ◌⊎◌, inl, inr, refl, Bool, true, false, ℕ, List, [],
  ◌∷◌, Option, none, some, Text, codes, Any, All, arith, contains_byte, ltb, length, has_num,
  text_eq, ◌+◌,
}
use wg_busy.Models.{Peer, AppConfig}
use wg_busy.Models.Addresses.{peer_sources}
use wg_busy.Models.Addresses.Distinct.{Among, Distinct}
use wg_busy.Routing.{enabled_exit_nodes}
use wg_busy.Routing.Tables.{assign_routing_table_id, used_tables}
use wg_busy.Routing.Tables.Fresh.{assign_routing_table_id_fresh}
use wg_busy.Routing.Rules.{peer_rules, rules_from, ip_command_for, from_source}
use wg_busy.Routing.Rules.Priorities.{Consecutive, peer_rules-Consecutive}
use wg_busy.Routing.Rules.Strict.{
  walk, prohibited, falls_through, strict_never_falls_through, prohibited_only_strict, Selected,
}
use wg_busy.Routing.Egress.{strict_egress_rules, source_is_v6}
use wg_busy.Routing.Egress.Confined.{chain, ends, strict_source_confined}
use wg_busy.Routing.Egress.Granted.{GrantedBy, strict_egress_rules-Granted}
use wg_busy.Routing.Guards.{affected_sources}
use wg_busy.Routing.Guards.Covered.{affected_sources_cover}
use wg_busy.Routing.Lan.{local_network_rules, local_network_cidrs, numbered, peers_devices_bypass}
use wg_busy.Routing.Lan.Hosts.{hosts_have_no_bypass}
use wg_busy.Routing.Gateways.{
  usable, gateway_interface, vpn_gateway_rules, peer_device_gateway_rules,
}
use wg_busy.Routing.Gateways.Priorities.{gateway_rules-Consecutive, device_rules_before_lan}
use wg_busy.Routing.Gateways.Followed.{Followed}
use wg_busy.Routing.Gateways.Closed.{
  decide, undecided, by_main, DecidedAmong, command_of, vpn_peer_never_falls_through,
}
use wg_busy.Routing.Hooks.{Host}
use wg_busy.Routing.Reconcile.{reconcile}
use wg_busy.Routing.Reconcile.Stages.{Ended, stages, reconcile-Ended}
use wg_busy.Samples.{exit_peer, strict_peer, device_peer, sample_config, sample_nets}

abbrev nodes : List Peer
nodes = exit_peer ∷ []

abbrev strict_sources : List Text
strict_sources = codes "10.0.0.7" ∷ codes "10.8.0.0/24" ∷ []

sources : peer_sources strict_peer.allowed_ips ≡ strict_sources
unfolding peer_sources wg_busy.Prelude.split wg_busy.Net.Parse.parse_cidr wg_busy.Prelude.trim_space
    wg_busy.Prelude.has wg_busy.Net.Format.ip_text text_eq wg_busy.Net.Format.cidr_text
sources = refl

host : Among (codes "10.0.0.7") (peer_sources strict_peer.allowed_ips)
unfolding peer_sources wg_busy.Prelude.split wg_busy.Net.Parse.parse_cidr wg_busy.Prelude.trim_space
    wg_busy.Prelude.has wg_busy.Net.Format.ip_text
host = inl refl

assigned : assign_routing_table_id sample_config.peers ≡ 102
unfolding assign_routing_table_id has_num
assigned = refl

assign_routing_table_id_fresh_example :
    let id = assign_routing_table_id sample_config.peers in
    (100 ≤ id)
    × All (λ p. (p.routing_table_id ≢ id) × (p.policy_routing_table_id ≢ id)) sample_config.peers
    × ((k : ℕ) → 100 ≤ k → k < id → has_num (used_tables sample_config.peers) k ≡ true)
assign_routing_table_id_fresh_example = assign_routing_table_id_fresh sample_config.peers

peer_rules-Consecutive_example : Consecutive 10000 (peer_rules sample_config nodes)
peer_rules-Consecutive_example = peer_rules-Consecutive sample_config nodes

-- A packet from 10.0.0.7, for which no table has a route.
abbrev from_host : Text → Text → Bool
from_host ip_command selector = text_eq selector (codes "from 10.0.0.7")

abbrev no_route : Text → Bool
no_route table = false

from_host_fits :
    from_host (ip_command_for (codes "10.0.0.7")) (from_source (codes "10.0.0.7")) ≡ true
unfolding text_eq
from_host_fits = refl

strict_never_falls_through_example :
    walk from_host no_route (peer_rules sample_config nodes) ≢ falls_through
strict_never_falls_through_example =
    strict_never_falls_through from_host no_route sample_config nodes strict_peer (codes "10.0.0.7")
      (inr (inl refl)) refl refl host from_host_fits

rejects : walk from_host no_route (rules_from nodes sample_config.peers 10000) ≡ prohibited
unfolding walk rules_from wg_busy.Routing.Rules.peer_block wg_busy.Routing.Rules.source_rules
    peer_sources wg_busy.Prelude.split wg_busy.Net.Parse.parse_cidr wg_busy.Prelude.trim_space
    wg_busy.Prelude.has wg_busy.Routing.Rules.source_actions wg_busy.Routing.Rules.lookup_actions
    wg_busy.Models.Find.find_peer_by_id text_eq wg_busy.Net.Format.ip_text
    wg_busy.Routing.Rules.table_action
rejects = refl

rejects_strict_peers_only :
    Any
      (λ p. (p.enabled ≡ true) × (p.strict_policy_routing ≡ true) × Selected from_host no_route p)
      sample_config.peers
rejects_strict_peers_only =
    prohibited_only_strict from_host no_route nodes sample_config.peers 10000 rejects

abbrev is_host : Text → Bool
is_host s = text_eq s (codes "10.0.0.7")

host_is : is_host (codes "10.0.0.7") ≡ true
unfolding text_eq
host_is = refl

host_v4 : source_is_v6 (codes "10.0.0.7") ≡ false
unfolding contains_byte
host_v4 = refl

strict_source_confined_example :
    chain false is_host no_route
      (codes "eth0")
      (strict_egress_rules sample_config sample_nets nodes)
    ≢ ends
strict_source_confined_example =
    strict_source_confined false is_host no_route (codes "eth0") sample_config sample_nets nodes
      strict_peer (codes "10.0.0.7") (inr (inl refl)) refl refl host host_v4 host_is

strict_egress_rules-Granted_example :
    All
      (GrantedBy sample_nets nodes sample_config.peers)
      (strict_egress_rules sample_config sample_nets nodes)
strict_egress_rules-Granted_example = strict_egress_rules-Granted sample_config sample_nets nodes

-- The strict peer is gone in the next configuration.
abbrev without_strict : AppConfig
without_strict = record sample_config { peers = exit_peer ∷ [] }

affected_sources_cover_example :
    Among (codes "10.0.0.7") (affected_sources sample_config without_strict)
    × Distinct (affected_sources sample_config without_strict)
affected_sources_cover_example =
    affected_sources_cover sample_config without_strict (codes "10.0.0.7")
      (inl (inr (inl (refl, refl, host))))

gateway_rules-Consecutive_example :
    (wg_busy.Routing.Gateways.Priorities.Consecutive 18000 (vpn_gateway_rules sample_config)
      × Followed (vpn_gateway_rules sample_config))
    × (wg_busy.Routing.Gateways.Priorities.Consecutive 16000
          (peer_device_gateway_rules sample_config)
        × Followed (peer_device_gateway_rules sample_config))
gateway_rules-Consecutive_example = gateway_rules-Consecutive sample_config

device_rule_count : length (peer_device_gateway_rules sample_config) ≡ 2
unfolding peer_device_gateway_rules wg_busy.Routing.Lan.device_address wg_busy.Net.Parse.parse_ip
    wg_busy.Prelude.trim_space wg_busy.Routing.Gateways.gateway_interface text_eq
device_rule_count = refl

two_device_rules : length (peer_device_gateway_rules sample_config) ≤ 1000
two_device_rules = omega (arith, device_rule_count)

device_rules_before_lan_example :
    All (λ d. d.priority < 17000) (peer_device_gateway_rules sample_config)
    × All (λ l. 17000 ≤ l.priority) (local_network_rules [] sample_config)
device_rules_before_lan_example = device_rules_before_lan [] sample_config two_device_rules

abbrev hosts_only : AppConfig
hosts_only = record sample_config { peers = exit_peer ∷ device_peer ∷ [] }

hosts :
    All (λ p. All (λ s. contains_byte 47 s ≡ false) (peer_sources p.allowed_ips)) hosts_only.peers
unfolding peer_sources wg_busy.Prelude.split wg_busy.Net.Parse.parse_cidr wg_busy.Prelude.trim_space
    wg_busy.Prelude.has contains_byte wg_busy.Net.Format.ip_text
hosts = ((refl, tt), ((refl, tt), tt))

hosts_have_no_bypass_example :
    local_network_rules [] hosts_only
    ≡ numbered 17000 (peers_devices_bypass (local_network_cidrs []) hosts_only.peers)
hosts_have_no_bypass_example = hosts_have_no_bypass [] hosts_only hosts

-- A shell that refuses every command that comes after the third, and counts them.
abbrev counting : ℕ → Text → ℕ × Bool
counting n c = (n + 1, ltb n 3)

abbrev always_up : ℕ → Bool
always_up n = true

abbrev this_host : Host
this_host = record {
  gateways = sample_nets;
  advertised = [];
  lan_env = [];
  range_over = λ nodes. nodes;
}

reconcile-Ended_example :
    Ended always_up counting 0
      (stages always_up counting this_host sample_config this_host without_strict)
      (reconcile always_up counting this_host sample_config this_host without_strict 0).0
      (reconcile always_up counting this_host sample_config this_host without_strict 0).1
reconcile-Ended_example =
    reconcile-Ended always_up counting this_host sample_config this_host without_strict 0 refl

abbrev from_device_peer : Text → Text → Bool
from_device_peer ip_command source = text_eq source (codes "10.0.0.9")

abbrev no_table : ℕ → Bool
no_table table = false

device_fits : from_device_peer (command_of (codes "10.0.0.9")) (codes "10.0.0.9") ≡ true
unfolding text_eq
device_fits = refl

its_gateway :
    usable (gateway_interface sample_config.vpn_gateways device_peer.vpn_gateway_id) ≡ some 200
unfolding gateway_interface text_eq
its_gateway = refl

named : is_empty (trim_space device_peer.vpn_gateway_id) ≡ false
unfolding trim_space
named = refl

its_source : Among (codes "10.0.0.9") (peer_sources device_peer.allowed_ips)
unfolding peer_sources wg_busy.Prelude.split wg_busy.Net.Parse.parse_cidr trim_space
    wg_busy.Prelude.has wg_busy.Net.Format.ip_text
its_source = inl refl

vpn_peer_never_falls_through_example :
    DecidedAmong from_device_peer no_table sample_config.vpn_gateways sample_config.peers
      (decide from_device_peer no_table (vpn_gateway_rules sample_config))
    × (decide from_device_peer no_table (vpn_gateway_rules sample_config) ≢ undecided)
    × (decide from_device_peer no_table (vpn_gateway_rules sample_config) ≢ by_main)
vpn_peer_never_falls_through_example =
    vpn_peer_never_falls_through from_device_peer no_table sample_config device_peer 200
      (codes "10.0.0.9") (inr (inr (inl refl))) (refl, named, its_gateway) its_source device_fits
