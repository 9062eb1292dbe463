-- ===== src/Routing/Egress/Confined.antt =====
-- What the strict chains decide for a forwarded packet: the first rule of its family that matches.
use wg_busy.Prelude.{
  ◌≡◌, ◌≢◌, refl, Bool, true, not, ◌&&◌, ◌||◌, inl, inr, List, [], ◌∷◌, ◌++◌, if◌then◌else◌, Text,
  text_eq, Any, arith,
}
use wg_busy.Models.{Peer, AppConfig, GatewayNet}
use wg_busy.Models.Addresses.{peer_sources}
use wg_busy.Routing.Egress.{
  StrictEgressRule, allow, eq_bool, source_is_v6, exit_node_rules, policy_rules, terminal,
  source_rules, sources_rules, peer_egress, peers_rules, strict_egress_rules,
}

pub data Outcome : Type 0 where
  returned : StrictEgressRule → Outcome
  rejected ends : Outcome

-- The packet: its family, which sources and destinations it matches, and its outgoing device.
module _ (v6 : Bool) (from to : Text → Bool) (out : Text) where
  abbrev meets : StrictEgressRule → Bool
  meets r =
      eq_bool r.is_v6 v6
      && from r.source
      && (not (text_eq r.action allow) || to r.dest && text_eq r.out_dev out)

  pub chain : List StrictEgressRule → Outcome
  chain [] = ends
  chain (r ∷ rs) =
      let rest = chain rs in
      if meets r then (if text_eq r.action allow then returned r else rejected) else rest

  chain-append_left : (xs ys : List StrictEgressRule) → chain xs ≢ ends → chain (xs ++ ys) ≢ ends
  unfolding chain
  chain-append_left [] ys h = absurd (h refl)
  chain-append_left (x ∷ xs) ys h = ground (arith, chain-append_left xs ys)

  chain-append_right : (xs ys : List StrictEgressRule) → chain ys ≢ ends → chain (xs ++ ys) ≢ ends
  unfolding chain
  chain-append_right [] ys h = h
  chain-append_right (x ∷ xs) ys h = ground (arith, chain-append_right xs ys)

  chain-terminal :
      (s : Text)
      → source_is_v6 s ≡ v6
      → from s ≡ true
      → chain (terminal (source_is_v6 s) s ∷ []) ≢ ends
  unfolding chain terminal text_eq
  chain-terminal s f h = ground arith

  chain-source_rules :
      (gateways : List GatewayNet) (exit_nodes : List Peer) (p : Peer) (s : Text)
      → source_is_v6 s ≡ v6
      → from s ≡ true
      → chain (source_rules gateways exit_nodes p s) ≢ ends
  unfolding source_rules
  chain-source_rules gateways exit_nodes p s f h =
      chain-append_right (exit_node_rules exit_nodes p (source_is_v6 s) s) _ (
        chain-append_right (policy_rules gateways (source_is_v6 s) s p.policy_routes) _
          (chain-terminal s f h))

  chain-sources_rules :
      (gateways : List GatewayNet) (exit_nodes : List Peer) (p : Peer) (s : Text) (ss : List Text)
      → Any (λ t. t ≡ s) ss
      → source_is_v6 s ≡ v6
      → from s ≡ true
      → chain (sources_rules gateways exit_nodes p ss) ≢ ends
  unfolding sources_rules
  chain-sources_rules gateways exit_nodes p s [] m f h = absurd m
  chain-sources_rules gateways exit_nodes p s (t ∷ ss) (inl e) f h =
      chain-append_left (source_rules gateways exit_nodes p t) _
        (rw e (chain-source_rules gateways exit_nodes p s f h))
  chain-sources_rules gateways exit_nodes p s (t ∷ ss) (inr m) f h =
      chain-append_right (source_rules gateways exit_nodes p t) _
        (chain-sources_rules gateways exit_nodes p s ss m f h)

  chain-peer_egress :
      (gateways : List GatewayNet) (exit_nodes : List Peer) (p : Peer) (s : Text)
      → p.enabled ≡ true
      → p.strict_policy_routing ≡ true
      → Any (λ t. t ≡ s) (peer_sources p.allowed_ips)
      → source_is_v6 s ≡ v6
      → from s ≡ true
      → chain (peer_egress gateways exit_nodes p) ≢ ends
  unfolding peer_egress
  chain-peer_egress gateways exit_nodes p s on strict src f h =
      simp (on, strict)
        (chain-sources_rules gateways exit_nodes p s (peer_sources p.allowed_ips) src f h)

  chain-peers_rules :
      (gateways : List GatewayNet) (exit_nodes : List Peer) (p : Peer) (s : Text) (ps : List Peer)
      → Any (λ q. q ≡ p) ps
      → p.enabled ≡ true
      → p.strict_policy_routing ≡ true
      → Any (λ t. t ≡ s) (peer_sources p.allowed_ips)
      → source_is_v6 s ≡ v6
      → from s ≡ true
      → chain (peers_rules gateways exit_nodes ps) ≢ ends
  unfolding peers_rules
  chain-peers_rules gateways exit_nodes p s [] m on strict src f h = absurd m
  chain-peers_rules gateways exit_nodes p s (q ∷ ps) (inl e) on strict src f h =
      rw e (chain-append_left _ _ (chain-peer_egress gateways exit_nodes p s on strict src f h))
  chain-peers_rules gateways exit_nodes p s (q ∷ ps) (inr m) on strict src f h =
      chain-append_right (peer_egress gateways exit_nodes q) _
        (chain-peers_rules gateways exit_nodes p s ps m on strict src f h)

  -- A packet of the family of a source of an enabled strict peer, and from that source, never
  -- reaches the end of the chain: an allow rule for its destination and device returns it, or it is
  -- rejected.
  pub strict_source_confined :
      (cfg : AppConfig) (gateways : List GatewayNet) (exit_nodes : List Peer) (p : Peer) (s : Text)
      → Any (λ q. q ≡ p) cfg.peers
      → p.enabled ≡ true
      → p.strict_policy_routing ≡ true
      → Any (λ t. t ≡ s) (peer_sources p.allowed_ips)
      → source_is_v6 s ≡ v6
      → from s ≡ true
      → chain (strict_egress_rules cfg gateways exit_nodes) ≢ ends
  unfolding strict_egress_rules
  strict_source_confined cfg gateways exit_nodes p s m on strict src f h =
      chain-peers_rules gateways exit_nodes p s cfg.peers m on strict src f h
