-- ===== src/Routing/Gateways/Followed.antt =====
-- Each lookup in a gateway's table is followed by its reject.
use wg_busy.Prelude.{
  ℕ, ◌+◌, ◌≡◌, ◌≢◌, refl, false, List, [], ◌∷◌, ◌++◌, Option, none, some, Text, arith,
}
use wg_busy.Models.{Peer, PeerDeviceRoutingRule, VpnGateway, AppConfig}
use wg_busy.Models.Addresses.{peer_sources}
use wg_busy.Routing.Gateways.{
  VpnGatewayRule, vpn_gateway_rules, peer_device_gateway_rules, lookup_then_reject,
  gateway_source_rules, assigned_rules, usable, gateway_interface, peer_gateway_rules,
  gateway_rules_from, device_rules, enabled_device_rules, devices_rules, peers_devices_rules,
}

-- The rule points to a table other than main.
abbrev IsLookup : VpnGatewayRule → Type 0
IsLookup l = (l.direct ≡ false) × (l.table ≢ 0)

-- The list begins with the reject of the rule's source, at the next priority.
abbrev RejectNext : VpnGatewayRule → List VpnGatewayRule → Type 0
RejectNext l [] = ⊥
RejectNext l (r ∷ rs) =
    (r.source ≡ l.source)
    × (r.ip_command ≡ l.ip_command)
    × (r.direct ≡ false)
    × (r.table ≡ 0)
    × (r.priority ≡ l.priority + 1)

abbrev pub Followed : List VpnGatewayRule → Type 0
Followed [] = Unit
Followed (l ∷ rs) = (IsLookup l → RejectNext l rs) × Followed rs

RejectNext-append :
    (l : VpnGatewayRule) (xs ys : List VpnGatewayRule) → RejectNext l xs → RejectNext l (xs ++ ys)
RejectNext-append l [] ys h = absurd h
RejectNext-append l (x ∷ xs) ys h = h

Followed-append : (xs ys : List VpnGatewayRule) → Followed xs → Followed ys → Followed (xs ++ ys)
Followed-append [] ys hx hy = hy
Followed-append (x ∷ xs) ys (next, hx) hy =
    (λ look. RejectNext-append x xs ys (next look), Followed-append xs ys hx hy)

lookup_then_reject-Followed :
    (command s : Text) (table prio : ℕ) → Followed (lookup_then_reject command s table prio)
lookup_then_reject-Followed command s table prio =
    (λ look. (refl, refl, refl, refl, refl), (λ look. absurd (look.1 refl), tt))

gateway_source_rules-Followed :
    (table : ℕ) (ss : List Text) (prio : ℕ) → Followed (gateway_source_rules table ss prio)
unfolding gateway_source_rules
gateway_source_rules-Followed table [] prio = tt
gateway_source_rules-Followed table (s ∷ ss) prio =
    Followed-append (lookup_then_reject _ s table prio) _
      (lookup_then_reject-Followed _ s table prio)
      (gateway_source_rules-Followed table ss (prio + 2))

assigned_rules-Followed :
    (o : Option ℕ) (sources : List Text) (prio : ℕ) → Followed (assigned_rules o sources prio)
unfolding assigned_rules
assigned_rules-Followed none sources prio = tt
assigned_rules-Followed (some table) sources prio = gateway_source_rules-Followed table sources prio

peer_gateway_rules-Followed :
    (gateways : List VpnGateway) (p : Peer) (prio : ℕ)
    → Followed (peer_gateway_rules gateways p prio)
unfolding peer_gateway_rules
peer_gateway_rules-Followed gateways p prio = ground (
  arith,
  assigned_rules-Followed (usable (gateway_interface gateways p.vpn_gateway_id))
      (peer_sources p.allowed_ips) prio,
)

gateway_rules_from-Followed :
    (gateways : List VpnGateway) (ps : List Peer) (prio : ℕ)
    → Followed (gateway_rules_from gateways ps prio)
unfolding gateway_rules_from
gateway_rules_from-Followed gateways [] prio = tt
gateway_rules_from-Followed gateways (p ∷ ps) prio =
    Followed-append (peer_gateway_rules gateways p prio) _
      (peer_gateway_rules-Followed gateways p prio) (gateway_rules_from-Followed gateways ps _)

enabled_device_rules-Followed :
    (gateways : List VpnGateway) (d : PeerDeviceRoutingRule) (prio : ℕ)
    → Followed (enabled_device_rules gateways d prio)
unfolding enabled_device_rules device_rules
enabled_device_rules-Followed gateways d prio = ground arith

devices_rules-Followed :
    (gateways : List VpnGateway) (ds : List PeerDeviceRoutingRule) (prio : ℕ)
    → Followed (devices_rules gateways ds prio)
unfolding devices_rules
devices_rules-Followed gateways [] prio = tt
devices_rules-Followed gateways (d ∷ ds) prio =
    Followed-append (enabled_device_rules gateways d prio) _
      (enabled_device_rules-Followed gateways d prio) (devices_rules-Followed gateways ds _)

peers_devices_rules-Followed :
    (gateways : List VpnGateway) (ps : List Peer) (prio : ℕ)
    → Followed (peers_devices_rules gateways ps prio)
unfolding peers_devices_rules
peers_devices_rules-Followed gateways [] prio = tt
peers_devices_rules-Followed gateways (p ∷ ps) prio =
    Followed-append _ _
      (ground (arith, devices_rules-Followed gateways p.device_routing_rules prio))
      (peers_devices_rules-Followed gateways ps _)

pub vpn_gateway_rules-Followed : (cfg : AppConfig) → Followed (vpn_gateway_rules cfg)
unfolding vpn_gateway_rules
vpn_gateway_rules-Followed cfg = gateway_rules_from-Followed cfg.vpn_gateways cfg.peers 18000

pub peer_device_gateway_rules-Followed :
    (cfg : AppConfig) → Followed (peer_device_gateway_rules cfg)
unfolding peer_device_gateway_rules
peer_device_gateway_rules-Followed cfg =
    peers_devices_rules-Followed cfg.vpn_gateways cfg.peers 16000
