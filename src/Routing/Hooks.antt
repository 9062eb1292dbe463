-- ===== src/Routing/Hooks.antt =====
-- routing.go: the commands of wg0's PostUp and PostDown hooks. A `Host` holds what the commands
-- depend on besides the configuration.
use wg_busy.Prelude.{
  Bool, true, false, List, [], ◌∷◌, ◌++◌, if◌then◌else◌, Text, codes, concat, itoa,
}
use wg_busy.Models.{Peer, AppConfig, GatewayNet}
use wg_busy.Routing.{enabled_exit_nodes}
use wg_busy.Routing.Rules.{PeerRule, peer_rules}
use wg_busy.Routing.Egress.{strict_firewall_commands}
use wg_busy.Routing.Lan.{local_network_rules, lan_commands}
use wg_busy.Routing.Gateways.{vpn_gateway_rules, peer_device_gateway_rules, gateway_rule_commands}
use wg_busy.Routing.ExitRoutes.{exit_node_route_cmds}
use wg_busy.Routing.PolicyRoutes.{policy_route_cmds}
use wg_busy.Routing.Masquerade.{Advertised, zero_tier_masquerade}
use wg_busy.Routing.GatewayRoutes.{gateway_route_commands}
use wg_busy.Routing.GatewayChains.{gateway_firewall_commands}

-- The on-link networks, the advertised routes, the value of `WG_BUSY_LAN_CIDRS`, and the order in
-- which Go ranges over a map of exit nodes.
pub record Host : Type 0 where
  pub gateways : List GatewayNet
  pub advertised : List Advertised
  pub lan_env : Text
  pub range_over : List Peer → List Peer

peer_rule_add : PeerRule → Text
peer_rule_add r = concat (
    r.ip_command
    ∷ codes " rule del priority "
    ∷ itoa r.priority
    ∷ codes " 2>/dev/null || true; "
    ∷ r.ip_command
    ∷ codes " rule add "
    ∷ r.selector
    ∷ codes " "
    ∷ r.action
    ∷ codes " priority "
    ∷ itoa r.priority
    ∷ [])

peer_rule_del : PeerRule → Text
peer_rule_del r = concat (
    r.ip_command
    ∷ codes " rule del "
    ∷ r.selector
    ∷ codes " "
    ∷ r.action
    ∷ codes " priority "
    ∷ itoa r.priority
    ∷ codes " || true"
    ∷ [])

unfoldable pub peer_rule_commands : Bool → List PeerRule → List Text
unfolding peer_rule_add peer_rule_del
peer_rule_commands add [] = []
peer_rule_commands add (r ∷ rs) =
    (if add then peer_rule_add r else peer_rule_del r) ∷ peer_rule_commands add rs

-- The rules of the LAN, of gateways and devices, as commands.
lan_part : Bool → Host → AppConfig → List Text
lan_part add host cfg = lan_commands add (local_network_rules host.lan_env cfg)

gateway_part : Bool → AppConfig → List Text
gateway_part add cfg =
    gateway_rule_commands add (vpn_gateway_rules cfg ++ peer_device_gateway_rules cfg)

peer_part : Bool → AppConfig → List Text
peer_part add cfg = peer_rule_commands add (peer_rules cfg (enabled_exit_nodes cfg))

exit_part : Text → Host → AppConfig → List Text
exit_part action host cfg = exit_node_route_cmds action (host.range_over (enabled_exit_nodes cfg))

unfoldable pub generate_post_up_commands : Host → AppConfig → List Text
unfolding lan_part gateway_part peer_part exit_part
generate_post_up_commands host cfg =
    exit_part (codes "replace") host cfg
    ++ (gateway_route_commands cfg (codes "replace")
        ++ (gateway_firewall_commands host.lan_env cfg true
            ++ (zero_tier_masquerade cfg host.gateways host.advertised true
                ++ (strict_firewall_commands cfg host.gateways true
                    ++ (lan_part true host cfg
                        ++ (gateway_part true cfg
                            ++ (peer_part true cfg
                                ++ policy_route_cmds (codes "replace") cfg host.gateways)))))))

unfoldable pub generate_post_down_commands : Host → AppConfig → List Text
unfolding lan_part gateway_part peer_part exit_part
generate_post_down_commands host cfg =
    zero_tier_masquerade cfg host.gateways host.advertised false
    ++ (lan_part false host cfg
        ++ (gateway_part false cfg
            ++ (peer_part false cfg
                ++ (gateway_route_commands cfg (codes "del")
                    ++ (exit_part (codes "del") host cfg
                        ++ (policy_route_cmds (codes "del") cfg host.gateways
                            ++ strict_firewall_commands cfg host.gateways false))))))

-- Step 2 of `Reconcile`: what removes the previous state.
unfoldable pub teardown_commands : Host → AppConfig → List Text
unfolding lan_part gateway_part peer_part exit_part
teardown_commands host cfg =
    zero_tier_masquerade cfg host.gateways host.advertised false
    ++ (peer_part false cfg
        ++ (gateway_firewall_commands host.lan_env cfg false
            ++ (lan_part false host cfg
                ++ (gateway_part false cfg
                    ++ (gateway_route_commands cfg (codes "del")
                        ++ (exit_part (codes "del") host cfg
                            ++ policy_route_cmds (codes "del") cfg host.gateways))))))

-- Step 4 of `Reconcile`: what installs the next state.
unfoldable pub setup_commands : Host → AppConfig → List Text
unfolding lan_part gateway_part peer_part exit_part
setup_commands host cfg =
    exit_part (codes "replace") host cfg
    ++ (gateway_route_commands cfg (codes "replace")
        ++ (gateway_firewall_commands host.lan_env cfg true
            ++ (zero_tier_masquerade cfg host.gateways host.advertised true
                ++ (lan_part true host cfg
                    ++ (gateway_part true cfg
                        ++ (peer_part true cfg
                            ++ policy_route_cmds (codes "replace") cfg host.gateways))))))
