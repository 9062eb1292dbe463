-- ===== src/Models/Validate/Peer.antt =====
-- models.go: `Peer.Validate` and `describeGateways`.
pub mod Usable
use wg_busy.Prelude.{
  ℕ, Bool, true, false, not, ◌&&◌, List, [], ◌∷◌, ◌++◌, Option, none, some, if◌then◌else◌, Text,
  codes, concat, is_empty, trim_space, itoa, flatten, flat_map,
}
use wg_busy.Net.{Ip}
use wg_busy.Net.Parse.{parse_ip, parse_cidr}
use wg_busy.Net.Format.{ip_text}
use wg_busy.Models.{Peer, GatewayNet, ValidationError}
use wg_busy.Models.Gateways.{
  resolve_gateway, device, failed, unresolved, ambiguous, invalid, GatewayError, Resolved, Best,
  scan, start,
}
use wg_busy.Routing.PolicyText.{split_via}
use wg_busy.Models.Validate.{problem, check, is_none, name_errors}
use wg_busy.Models.Validate.Formats.{is_valid_base64_key, is_valid_cidr_list}
use wg_busy.Models.Validate.Server.{required_key, endpoint_errors, dns_errors}

-- `10.0.0.1/24 (wg0) or 10.147.17.36/24 (zt5u4va25t)`
abbrev net_text : GatewayNet → Text
net_text n = concat (n.cidr ∷ codes " (" ∷ n.device ∷ codes ")" ∷ [])

unfoldable pub describe_gateways : List GatewayNet → Text
describe_gateways [] = codes "a directly connected subnet"
describe_gateways (n ∷ []) = net_text n
describe_gateways (n ∷ m ∷ []) = concat (net_text n ∷ codes " or " ∷ net_text m ∷ [])
describe_gateways (n ∷ m ∷ k ∷ ns) =
    concat (net_text n ∷ codes ", " ∷ describe_gateways (m ∷ k ∷ ns) ∷ [])

abbrev length_or_zero : Option ℕ → ℕ
length_or_zero none = 0
length_or_zero (some n) = n

-- The text of `ErrGatewayAmbiguous`, with the length of the longest prefix.
ambiguous_text : Ip → List GatewayNet → Text
ambiguous_text gw gateways = concat (
    codes "gateway is ambiguous across multiple networks: gateway "
    ∷ ip_text gw
    ∷ codes " matches multiple devices with prefix length /"
    ∷ itoa (length_or_zero (scan gw gateways start).best_prefix_len)
    ∷ [])

unreachable_text : Ip → List GatewayNet → Text
unreachable_text gw gateways = concat (
    codes "gateway "
    ∷ ip_text gw
    ∷ codes " is not directly reachable: it must be inside "
    ∷ describe_gateways gateways
    ∷ [])

gateway_problem : Ip → List GatewayNet → Resolved → List ValidationError
unfolding ambiguous_text unreachable_text
gateway_problem gw gateways (device d) = []
gateway_problem gw gateways (failed ambiguous) =
    problem (codes "policyRoutes") (ambiguous_text gw gateways)
gateway_problem gw gateways (failed unresolved) =
    problem (codes "policyRoutes") (unreachable_text gw gateways)
gateway_problem gw gateways (failed invalid) =
    problem (codes "policyRoutes") (unreachable_text gw gateways)

-- With no gateway known the reachability is not checked.
reachable_errors : List GatewayNet → Ip → List ValidationError
unfolding gateway_problem
reachable_errors [] gw = []
reachable_errors (n ∷ ns) gw = gateway_problem gw (n ∷ ns) (resolve_gateway (ip_text gw) (n ∷ ns))

policy_route_parts : List GatewayNet → Text → Option (Text × Text) → List ValidationError
unfolding reachable_errors
policy_route_parts gateways route none =
    problem (codes "policyRoutes") (codes "invalid format (must be 'CIDR via IP'): " ++ route)
policy_route_parts gateways route (some (cidr, via)) =
    check (is_none (parse_cidr (trim_space cidr))) (codes "policyRoutes")
      (codes "invalid CIDR: " ++ cidr)
    ++ elim (parse_ip (trim_space via)) [
      | none ↦ problem (codes "policyRoutes") (codes "invalid Gateway IP: " ++ via)
      | some gw ↦ reachable_errors gateways gw
    ]

unfoldable pub policy_route_errors : List GatewayNet → Text → List ValidationError
unfolding policy_route_parts
policy_route_errors gateways route = policy_route_parts gateways route (split_via route)

route_errors : Text → Text → List ValidationError
route_errors field route =
    check (is_none (parse_cidr route)) field (codes "invalid CIDR: " ++ route)

preshared_errors : Text → List ValidationError
preshared_errors key =
    check (not (is_empty key) && not (is_valid_base64_key key)) (codes "presharedKey")
      (codes "must be a 44-character base64 key")

allowed_errors : Text → List ValidationError
allowed_errors cidrs =
    if is_empty cidrs
    then problem (codes "allowedIPs") (codes "required")
    else check (not (is_valid_cidr_list cidrs)) (codes "allowedIPs")
        (codes "must be comma-separated CIDRs")

client_errors : Text → List ValidationError
client_errors cidrs =
    check (not (is_empty cidrs) && not (is_valid_cidr_list cidrs)) (codes "clientAllowedIPs")
      (codes "must be comma-separated CIDRs")

abbrev pub no_routes : List Text → Bool
no_routes [] = true
no_routes (r ∷ rs) = false

strict_errors : Peer → List ValidationError
strict_errors p =
    check (p.strict_policy_routing && no_routes p.policy_routes && is_empty p.exit_node_id)
      (codes "strictPolicyRouting")
      (codes "requires at least one policy route (or an exit node); "
        ++ codes "otherwise all traffic from this peer would be blocked")

unfoldable pub validate_peer : List GatewayNet → Peer → List ValidationError
unfolding name_errors required_key endpoint_errors dns_errors preshared_errors allowed_errors
    client_errors route_errors policy_route_errors strict_errors
validate_peer gateways p = flatten (
    name_errors p.name
    ∷ required_key (codes "privateKey") p.private_key
    ∷ required_key (codes "publicKey") p.public_key
    ∷ preshared_errors p.preshared_key
    ∷ allowed_errors p.allowed_ips
    ∷ endpoint_errors p.endpoint
    ∷ client_errors p.client_allowed_ips
    ∷ dns_errors p.dns
    ∷ check (p.is_exit_node && not (is_empty p.exit_node_id)) (codes "exitNodeID")
        (codes "a peer cannot be both an exit node and use an exit node")
    ∷ (if p.is_exit_node && not p.exit_node_allow_all
        then flat_map (route_errors (codes "exitNodeRoutes")) p.exit_node_routes
        else [])
    ∷ flat_map (route_errors (codes "advertisedRoutes")) p.advertised_routes
    ∷ flat_map (policy_route_errors gateways) p.policy_routes
    ∷ strict_errors p
    ∷ [])
