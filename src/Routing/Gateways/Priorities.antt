-- ===== src/Routing/Gateways/Priorities.antt =====
-- The priorities of the LAN, gateway and device rules. The kernel evaluates a smaller priority first.
use wg_busy.Prelude.{
  ℕ, ◌+◌, ◌≤◌, ◌<◌, ◌≡◌, refl, subst, List, [], ◌∷◌, ◌++◌, Option, none, some, Text, length, arith,
  All,
}
use wg_busy.Routing.Gateways.Followed.{
  Followed, vpn_gateway_rules-Followed, peer_device_gateway_rules-Followed,
}
use wg_busy.Models.{Peer, PeerDeviceRoutingRule, VpnGateway, AppConfig}
use wg_busy.Models.Addresses.{peer_sources}
use wg_busy.Routing.Lan.{Bypass, numbered, local_network_rules}
use wg_busy.Routing.Gateways.{
  VpnGatewayRule, gateway_source_rules, assigned_rules, usable, gateway_interface,
  peer_gateway_rules, gateway_rules_from, vpn_gateway_rules, device_rules, enabled_device_rules,
  devices_rules, peers_devices_rules, peer_device_gateway_rules,
}

-- The rules carry the priorities `prio`, `prio + 1` and so on.
abbrev pub Consecutive : ℕ → List VpnGatewayRule → Type 0
Consecutive prio [] = Unit {0}
Consecutive prio (r ∷ rs) = (r.priority ≡ prio) × Consecutive (prio + 1) rs

Consecutive-append :
    (prio : ℕ) (xs ys : List VpnGatewayRule)
    → Consecutive prio xs
    → Consecutive (prio + length xs) ys
    → Consecutive prio (xs ++ ys)
Consecutive-append prio [] ys hx hy = subst (λ k. Consecutive k ys) (omega arith) hy
Consecutive-append prio (x ∷ xs) ys hx hy = (
  hx.0,
  Consecutive-append (prio + 1) xs ys hx.1 (subst (λ k. Consecutive k ys) (omega arith) hy),
)

gateway_source_rules-Consecutive :
    (table : ℕ) (sources : List Text) (prio : ℕ)
    → Consecutive prio (gateway_source_rules table sources prio)
unfolding gateway_source_rules
gateway_source_rules-Consecutive table [] prio = tt
gateway_source_rules-Consecutive table (s ∷ ss) prio = (
  refl,
  (
    refl,
    subst (λ k. Consecutive k (gateway_source_rules table ss (prio + 2))) (omega arith)
        (gateway_source_rules-Consecutive table ss (prio + 2)),
  ),
)

assigned_rules-Consecutive :
    (o : Option ℕ) (sources : List Text) (prio : ℕ)
    → Consecutive prio (assigned_rules o sources prio)
unfolding assigned_rules
assigned_rules-Consecutive none sources prio = tt
assigned_rules-Consecutive (some table) sources prio =
    gateway_source_rules-Consecutive table sources prio

peer_gateway_rules-Consecutive :
    (gateways : List VpnGateway) (p : Peer) (prio : ℕ)
    → Consecutive prio (peer_gateway_rules gateways p prio)
unfolding peer_gateway_rules
peer_gateway_rules-Consecutive gateways p prio = ground (
  arith,
  assigned_rules-Consecutive (usable (gateway_interface gateways p.vpn_gateway_id))
      (peer_sources p.allowed_ips) prio,
)

gateway_rules_from-Consecutive :
    (gateways : List VpnGateway) (ps : List Peer) (prio : ℕ)
    → Consecutive prio (gateway_rules_from gateways ps prio)
unfolding gateway_rules_from
gateway_rules_from-Consecutive gateways [] prio = tt
gateway_rules_from-Consecutive gateways (p ∷ ps) prio =
    Consecutive-append prio (peer_gateway_rules gateways p prio) _
      (peer_gateway_rules-Consecutive gateways p prio)
      (gateway_rules_from-Consecutive gateways ps _)

enabled_device_rules-Consecutive :
    (gateways : List VpnGateway) (d : PeerDeviceRoutingRule) (prio : ℕ)
    → Consecutive prio (enabled_device_rules gateways d prio)
unfolding enabled_device_rules device_rules
enabled_device_rules-Consecutive gateways d prio = ground arith

devices_rules-Consecutive :
    (gateways : List VpnGateway) (ds : List PeerDeviceRoutingRule) (prio : ℕ)
    → Consecutive prio (devices_rules gateways ds prio)
unfolding devices_rules
devices_rules-Consecutive gateways [] prio = tt
devices_rules-Consecutive gateways (d ∷ ds) prio =
    Consecutive-append prio (enabled_device_rules gateways d prio) _
      (enabled_device_rules-Consecutive gateways d prio) (devices_rules-Consecutive gateways ds _)

peers_devices_rules-Consecutive :
    (gateways : List VpnGateway) (ps : List Peer) (prio : ℕ)
    → Consecutive prio (peers_devices_rules gateways ps prio)
unfolding peers_devices_rules
peers_devices_rules-Consecutive gateways [] prio = tt
peers_devices_rules-Consecutive gateways (p ∷ ps) prio =
    Consecutive-append prio _ _
      (ground (arith, devices_rules-Consecutive gateways p.device_routing_rules prio))
      (peers_devices_rules-Consecutive gateways ps _)

-- The rules of peers with a gateway have the priorities 18000, 18001, … in the order of the list, and
-- those of devices 16000, 16001, …; in both lists each lookup in a gateway's table is directly
-- followed by the reject of the same source and family, whose priority is the next one.
pub gateway_rules-Consecutive :
    (cfg : AppConfig)
    → (Consecutive 18000 (vpn_gateway_rules cfg) × Followed (vpn_gateway_rules cfg))
      × (Consecutive 16000 (peer_device_gateway_rules cfg)
          × Followed (peer_device_gateway_rules cfg))
unfolding vpn_gateway_rules peer_device_gateway_rules
gateway_rules-Consecutive cfg = (
  (gateway_rules_from-Consecutive cfg.vpn_gateways cfg.peers 18000, vpn_gateway_rules-Followed cfg),
  (
    peers_devices_rules-Consecutive cfg.vpn_gateways cfg.peers 16000,
    peer_device_gateway_rules-Followed cfg,
  ),
)

below-Consecutive :
    (prio limit : ℕ) (rs : List VpnGatewayRule)
    → prio + length rs ≤ limit
    → Consecutive prio rs
    → All (λ r. r.priority < limit) rs
below-Consecutive prio limit [] h c = tt
below-Consecutive prio limit (r ∷ rs) h c =
    (ground arith, below-Consecutive (prio + 1) limit rs (omega arith) c.1)

numbered_from :
    (prio : ℕ) (bs : List Bypass) (limit : ℕ)
    → limit ≤ prio
    → All (λ l. limit ≤ l.priority) (numbered prio bs)
unfolding numbered
numbered_from prio [] limit h = tt
numbered_from prio (b ∷ bs) limit h = (h, numbered_from (prio + 1) bs limit (omega arith))

lan_from_17000 :
    (env : Text) (cfg : AppConfig) → All (λ l. 17000 ≤ l.priority) (local_network_rules env cfg)
unfolding local_network_rules
lan_from_17000 env cfg = numbered_from 17000 _ 17000 (omega arith)

-- With at most 1000 device rules, every device rule is evaluated before every LAN rule.
pub device_rules_before_lan :
    (env : Text) (cfg : AppConfig)
    → length (peer_device_gateway_rules cfg) ≤ 1000
    → All (λ d. d.priority < 17000) (peer_device_gateway_rules cfg)
      × All (λ l. 17000 ≤ l.priority) (local_network_rules env cfg)
device_rules_before_lan env cfg h = (
  below-Consecutive 16000 17000 _ (omega arith) (gateway_rules-Consecutive cfg).1.0,
  lan_from_17000 env cfg,
)
