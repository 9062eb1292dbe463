-- ===== src/Lib.antt =====
-- wg-busy manages a WireGuard server: its peers, exit nodes, policy routes, imported VPN gateways,
-- a ZeroTier client and a BGP speaker. This library models the parts of it that decide, in the
-- terms of the Go source.
--
-- Parts and files:
-- - Models: internal/models/models.go. Every struct is a record with the source's fields.
--   Models/Find has the lookups by ID, CascadeClearExitNode and ValidateExitNodeRefs;
--   Models/Addresses has PeerIPs, PeerSources and FirstIP; Models/Gateways has GatewayNets,
--   ResolveGateway and DeviceForGateway.
-- - Routing: internal/routing/routing.go. Tables is AssignRoutingTableID; Rules is peerRules;
--   Egress is strictEgressRules and strictFirewallCommands; Guards is strictPeerSources,
--   unionSources and temporaryRejectCommands; Lan is localNetworkRules; Gateways is
--   vpnGatewayRules and peerDeviceGatewayRules; GatewayRoutes, GatewayChains, ExitRoutes,
--   PolicyRoutes and Masquerade are the functions that render commands; Hooks puts them together
--   as generatePostUpCommands, generatePostDownCommands and the two lists of Reconcile; Reconcile
--   is applyCommands and Reconcile. PolicyText is the split of a policy route at " via ".
-- - Ipam: internal/ipam/ipam.go.
-- - Handlers: internal/handlers/peers.go, what DeletePeer and TogglePeer do to the list of peers,
--   and assignNewPeerRoutingTables.
-- - Models/Validate: the validators of models.go. Formats has keys, CIDR lists, host names,
--   endpoints and tables, with Numbers for Atoi; Server is ServerConfig.Validate with Login for
--   its passkeys; Peer is Peer.Validate with Usable; Models/Validate itself is BGPPeer.Validate,
--   validateRouteFilters and ZeroTierConfig.Validate, with Accepted; Gateway is
--   ValidateVPNGateway, with Agrees on what ValidateConfig says of the same gateway, and the texts
--   of errors; Config is ValidateConfig, with Claims for its maps of owners, Gateways and Peers
--   for its loops, UniqueGateways and UniquePeers for what they find, and Accepted for what an
--   accepted configuration is. Seen has the sets of keys that were met.
-- - WireGuard: internal/wireguard/wireguard.go. Lines is hookLines; Render is RenderServerConfig
--   and its template; Client is RenderClientConfig; Restart is ServerRestartReason; Live is
--   ReloadWGConfig, RestartWGConfig, ShowWG and FormatWGShow.
-- - Config: internal/config/config.go. Store and Env are in Config itself. Tables is
--   ensureVPNGatewayRoutingTableIDs; Disk is saveYAML and renderWGConfig; Live is the part of
--   Write behind the disk, ReapplyBGP and ReapplyRouting; Write is Store.Write; Applied is
--   IsPeerRoutingApplied and PeerRoutingAppliedMap; Stats is RecordPeerStats, SaveStats and
--   RecordPeerLastSeen; Start is Load; Runs lets the store's operations follow one another in any
--   order.
-- - Auth: internal/auth/session.go. A store is the list of its entries; Auth/Challenges and
--   Auth/Sessions let calls follow one another in any order, each with its time. Auth/Cbor is
--   DecodeCBOR of internal/auth/cbor.go, on the bytes that the reader has left.
-- - Net and Prelude: what the program uses of Go's packages net, strings and fmt, and shared
--   lemmas. Samples has the configurations that the tests run on.
--
-- How the parts interact: handlers change the list of peers under Write of the store, which
-- validates the configuration, saves it, renders wg0.conf, brings the live interface up to date
-- and lets Reconcile take the rules from the configuration applied last to the new one; a failed
-- save or rendering undoes the change. Routing reads the whole configuration and the on-link
-- networks, and renders shell commands from rules; ResolveGateway decides the device of a policy
-- route in both the route commands and the strict chains; Reconcile runs the commands that take
-- the host from the previous configuration to the next. Loading validates nothing but gives
-- gateways their tables.
--
-- Conventions. A string is the list of its bytes; the texts are ASCII, so TrimSpace removes ASCII
-- spaces only, and %q escapes nothing. A time is a number of nanoseconds, 0 for the zero time. An
-- IPv4-mapped IPv6 address is the IPv4 address, as To4, String and Equal treat it. A map is a
-- list: the map of exit nodes has one entry for an ID, a set of strings is the list of its
-- elements. Where Go ranges over a map, the order is an argument (range_over in Routing.Hooks, the
-- list of advertised routes). Random tokens and the clock are arguments. Errors of ResolveGateway
-- are kept as their kinds. The file system, the YAML encoding and the commands that the store runs
-- are fields of Env (Config), functions of a world that a test instantiates with a small disk;
-- what theorems ask of them is in their statements. The shell (exec), the state of the host,
-- whether wg0 is up, and the value of WG_BUSY_LAN_CIDRS are parameters; nothing is assumed of
-- them.
--
-- Fuel. The search for a routing table has one round for each ID in use; DecodeCBOR has one level
-- for each byte of its input; the search for a gateway's table has one round for each table in
-- use; the search for a free address has one round for each address of the network; the theorems
-- on them show that this is enough.
--
-- Not modelled: in models.go, Clone, since values are not shared here; in config.go,
-- StartStatsPersister and the setters of callbacks; in wireguard.go, key generation;
-- internal/wgstats, internal/gateway, internal/network, internal/bgp, internal/zerotier, the
-- passkey ceremonies of internal/auth, the COSE keys of cbor.go, the HTTP handlers other than
-- those above, main.go and the web pages. They are input and output, calls of other programs, or
-- parts that are not translated yet.
pub mod Auth
pub mod Config
pub mod Handlers
pub mod Ipam
pub mod Models
pub mod Net
pub mod Prelude
pub mod Routing
pub mod Samples
pub mod WireGuard
