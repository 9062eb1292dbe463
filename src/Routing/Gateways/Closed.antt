-- ===== src/Routing/Gateways/Closed.antt =====
-- What the rules of a gateway decide for a packet of an assigned peer. A table without a route for the
-- packet is passed over.
use wg_busy.Prelude.{
  ℕ, ◌+◌, ◌≡◌, ◌≢◌, ◌⊎◌, ◌∙◌, ap, sym, subst, refl, Bool, true, false, inl, inr, List, [], ◌∷◌,
  ◌++◌, Option, none, some, if◌then◌else◌, length, Bool-cases, Text, codes, is_empty, trim_space,
  contains_byte, arith, Any, ◌==◌,
}
use wg_busy.Models.{Peer, VpnGateway, AppConfig}
use wg_busy.Models.Addresses.{peer_sources}
use wg_busy.Routing.Gateways.{
  VpnGatewayRule, gateway_interface, usable, lookup_then_reject, gateway_source_rules,
  assigned_rules, peer_gateway_rules, gateway_rules_from, vpn_gateway_rules,
}

-- The main table, the table of a gateway, a reject, or none of them.
pub data Decision : Type 0 where
  by_main rejected undecided : Decision
  by_table : ℕ → Decision

abbrev pub command_of : Text → Text
command_of s = if contains_byte 58 s then codes "ip -6" else codes "ip"

if_true : {A : Type 0} (b : Bool) (x y : A) → b ≡ true → (if b then x else y) ≡ x
if_true b x y e = rw e refl

if_false : {A : Type 0} (b : Bool) (x y : A) → b ≡ false → (if b then x else y) ≡ y
if_false b x y e = rw e refl

-- `matches` says which sources fit the packet, `routes` which tables have a route for it.
module _ (matches : Text → Text → Bool) (routes : ℕ → Bool) where
  unfoldable pub decide : List VpnGatewayRule → Decision
  decide [] = undecided
  decide (r ∷ rs) =
      let rest = decide rs in
      if matches r.ip_command r.source
      then (if r.direct
          then by_main
          else if r.table == 0
          then rejected
          else if routes r.table
          then by_table r.table
          else rest)
      else rest

  -- The peer is enabled, and assigned to a gateway that is enabled and has a table.
  abbrev pub Assigned : List VpnGateway → Peer → ℕ → Type 0
  Assigned gateways p table =
      (p.enabled ≡ true)
      × (is_empty (trim_space p.vpn_gateway_id) ≡ false)
      × (usable (gateway_interface gateways p.vpn_gateway_id) ≡ some table)

  -- A packet that the rules of a gateway with this table catch: the table, or a reject.
  abbrev pub answer : ℕ → Decision
  answer table = if routes table then by_table table else rejected

  abbrev pub Fits : List Text → Type 0
  Fits sources = Any (λ s. matches (command_of s) s ≡ true) sources

  -- An assigned peer with a source that fits decides: its gateway's table, or a reject if that table
  -- has no route.
  abbrev pub DecidedBy : List VpnGateway → Peer → Decision → Type 0
  DecidedBy gateways p d =
      (table : ℕ) × Assigned gateways p table
      × Fits (peer_sources p.allowed_ips)
      × (d ≡ answer table)

  usable_nonzero : (o : Option VpnGateway) (table : ℕ) → usable o ≡ some table → table == 0 ≡ false
  usable_nonzero none table h = cc h
  usable_nonzero (some g) table h = ground (arith, h)

  -- Two rules of one source decide what fits it, and nothing else.
  decide-lookup_then_reject :
      (s : Text) (table prio : ℕ) (rest : List VpnGatewayRule)
      → table == 0 ≡ false
      → decide (lookup_then_reject (command_of s) s table prio ++ rest)
        ≡ (if matches (command_of s) s then answer table else decide rest)
  unfolding decide
  decide-lookup_then_reject s table prio rest h = ground (arith, h)

  -- The rules of a peer's sources decide what fits one of them, and nothing else.
  BySources : ℕ → List Text → Decision → Decision → Type 0
  BySources table ss d later = (Fits ss × (d ≡ answer table)) ⊎ ((Fits ss → ⊥) × (d ≡ later))

  decide-gateway_source_rules :
      (table : ℕ) (ss : List Text) (prio : ℕ) (rest : List VpnGatewayRule)
      → table == 0 ≡ false
      → BySources table ss (decide (gateway_source_rules table ss prio ++ rest)) (decide rest)
  unfolding gateway_source_rules BySources
  decide-gateway_source_rules table [] prio rest h = inr (λ x. x, refl)
  decide-gateway_source_rules table (s ∷ ss) prio rest h =
      let later = gateway_source_rules table ss (prio + 2) ++ rest in
      let e = decide-lookup_then_reject s table prio later h in
      elim (Bool-cases (matches (command_of s) s)) [
        | inl fits ↦ inl (inl fits, e ∙ if_true _ _ _ fits)
        | inr not_s ↦ elim (decide-gateway_source_rules table ss (prio + 2) rest h) [
          | inl (some_fits, q) ↦ inl (inr some_fits, e ∙ if_false _ _ _ not_s ∙ q)
          | inr (none_fit, q) ↦ inr (
            elim [ inl fits ↦ cc (fits, not_s) | inr m ↦ none_fit m ],
            e ∙ if_false _ _ _ not_s ∙ q,
          )
        ]
      ]

  fitting :
      (s : Text) (ss : List Text) → Any (λ t. t ≡ s) ss → matches (command_of s) s ≡ true → Fits ss
  fitting s [] m h = absurd m
  fitting s (t ∷ ss) (inl e) h = inl (rw e h)
  fitting s (t ∷ ss) (inr m) h = inr (fitting s ss m h)

  -- The peer catches no packet: it is not assigned, or none of its sources fits.
  abbrev pub Passes : List VpnGateway → Peer → Type 0
  Passes gateways p =
      (table : ℕ) → Assigned gateways p table → Fits (peer_sources p.allowed_ips) → ⊥

  ByPeer : List VpnGateway → Peer → Decision → Decision → Type 0
  ByPeer gateways p d later = DecidedBy gateways p d ⊎ (Passes gateways p × (d ≡ later))

  decide-assigned_rules :
      (gateways : List VpnGateway) (p : Peer) (prio : ℕ) (rest : List VpnGatewayRule) (o : Option ℕ)
      → p.enabled ≡ true
      → is_empty (trim_space p.vpn_gateway_id) ≡ false
      → usable (gateway_interface gateways p.vpn_gateway_id) ≡ o
      → ByPeer gateways p
          (decide (assigned_rules o (peer_sources p.allowed_ips) prio ++ rest))
          (decide rest)
  unfolding assigned_rules ByPeer BySources
  decide-assigned_rules gateways p prio rest none on id e =
      inr (λ table (_, _, found) _. cc (found, e), refl)
  decide-assigned_rules gateways p prio rest (some table) on id e =
      elim (decide-gateway_source_rules table (peer_sources p.allowed_ips) prio rest
        (usable_nonzero (gateway_interface gateways p.vpn_gateway_id) table e)) [
          | inl (fits, q) ↦ inl (table, (on, id, e), fits, q)
          | inr (none_fit, q) ↦ inr (λ other _ fits. none_fit fits, q)
        ]

  rules_of_assigned :
      (gateways : List VpnGateway) (p : Peer) (prio : ℕ)
      → p.enabled ≡ true
      → is_empty (trim_space p.vpn_gateway_id) ≡ false
      → peer_gateway_rules gateways p prio
        ≡ assigned_rules
            (usable (gateway_interface gateways p.vpn_gateway_id))
            (peer_sources p.allowed_ips)
            prio
  unfolding peer_gateway_rules
  rules_of_assigned gateways p prio on id = ground (arith, on, id)

  no_rules :
      (gateways : List VpnGateway) (p : Peer) (prio : ℕ)
      → (p.enabled ≡ false) ⊎ (is_empty (trim_space p.vpn_gateway_id) ≡ true)
      → peer_gateway_rules gateways p prio ≡ []
  unfolding peer_gateway_rules
  no_rules gateways p prio h = ground (arith, h)

  decide-peer_gateway_rules :
      (gateways : List VpnGateway) (p : Peer) (prio : ℕ) (rest : List VpnGatewayRule)
      → ByPeer gateways p (decide (peer_gateway_rules gateways p prio ++ rest)) (decide rest)
  unfolding ByPeer
  decide-peer_gateway_rules gateways p prio rest = elim (Bool-cases p.enabled) [
    | inr off ↦ inr (
      λ table (on, _, _) _. cc (on, off),
      ap (λ rules. decide (rules ++ rest)) (no_rules gateways p prio (inl off)),
    )
    | inl on ↦ elim (Bool-cases (is_empty (trim_space p.vpn_gateway_id))) [
      | inl blank ↦ inr (
        λ table (_, id, _) _. cc (id, blank),
        ap (λ rules. decide (rules ++ rest)) (no_rules gateways p prio (inr blank)),
      )
      | inr id ↦
          subst (λ rules. ByPeer gateways p (decide (rules ++ rest)) (decide rest))
            (sym (rules_of_assigned gateways p prio on id))
            (decide-assigned_rules gateways p prio rest _ on id refl)
    ]
  ]

  -- The first peer of the list that catches the packet decides.
  abbrev pub DecidedAmong : List VpnGateway → List Peer → Decision → Type 0
  DecidedAmong gateways [] d = ⊥
  DecidedAmong gateways (p ∷ ps) d =
      DecidedBy gateways p d ⊎ (Passes gateways p × DecidedAmong gateways ps d)

  decide-gateway_rules_from :
      (gateways : List VpnGateway) (ps : List Peer) (prio : ℕ) (p : Peer) (table : ℕ)
      → Any (λ q. q ≡ p) ps
      → Assigned gateways p table
      → Fits (peer_sources p.allowed_ips)
      → DecidedAmong gateways ps (decide (gateway_rules_from gateways ps prio))
  unfolding gateway_rules_from ByPeer
  decide-gateway_rules_from gateways [] prio p table i a m = absurd i
  decide-gateway_rules_from gateways (q ∷ qs) prio p table i a m =
      let rest =
        gateway_rules_from gateways qs (prio + length (peer_gateway_rules gateways q prio)) in
      elim (decide-peer_gateway_rules gateways q prio rest) [
        | inl h ↦ inl h
        | inr (passes, e) ↦ elim i [
          | inl same ↦ absurd (subst (λ r. Passes gateways r) same passes table a m)
          | inr later ↦ inr (
            passes,
            subst (DecidedAmong gateways qs) (sym e)
                (decide-gateway_rules_from gateways qs _ p table later a m),
          )
        ]
      ]

  answered : (table : ℕ) → (answer table ≢ undecided) × (answer table ≢ by_main)
  answered table = ground (arith, matches)

  decided :
      (gateways : List VpnGateway) (ps : List Peer) (d : Decision)
      → DecidedAmong gateways ps d
      → (d ≢ undecided) × (d ≢ by_main)
  decided gateways [] d h = absurd h
  decided gateways (p ∷ ps) d (inl (table, a, fits, e)) = rw e (answered table)
  decided gateways (p ∷ ps) d (inr (passes, h)) = decided gateways ps d h

  -- A packet that matches a source of an enabled peer, which is assigned to an enabled gateway with a
  -- table, is decided by the first such peer: it is routed by the table of this peer's gateway if the
  -- table has a route for it, and rejected if not; these rules never send it to the main table nor
  -- pass it on.
  pub vpn_peer_never_falls_through :
      (cfg : AppConfig) (p : Peer) (table : ℕ) (s : Text)
      → Any (λ q. q ≡ p) cfg.peers
      → Assigned cfg.vpn_gateways p table
      → Any (λ t. t ≡ s) (peer_sources p.allowed_ips)
      → matches (command_of s) s ≡ true
      → DecidedAmong cfg.vpn_gateways cfg.peers (decide (vpn_gateway_rules cfg))
        × (decide (vpn_gateway_rules cfg) ≢ undecided)
        × (decide (vpn_gateway_rules cfg) ≢ by_main)
  unfolding vpn_gateway_rules
  vpn_peer_never_falls_through cfg p table s i a m h =
      let d =
        decide-gateway_rules_from cfg.vpn_gateways cfg.peers 18000 p table i a
          (fitting s (peer_sources p.allowed_ips) m h) in
      (d, (decided cfg.vpn_gateways cfg.peers _ d).0, (decided cfg.vpn_gateways cfg.peers _ d).1)
