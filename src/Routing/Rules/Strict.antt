-- ===== src/Routing/Rules/Strict.antt =====
-- What the rules decide for a packet. The kernel takes the first rule whose selector matches; a
-- table without a route for the packet is passed over, and `prohibit` rejects the packet.
use wg_busy.Prelude.{
  Any-append, ℕ, ◌+◌, ◌≡◌, ◌≢◌, refl, ap, Bool, true, inl, inr, List, [], ◌∷◌, ◌++◌, if◌then◌else◌,
  Text, text_eq, text_eq_refl, text_eq_iff, length, arith, Any, Option-cases,
}
use wg_busy.Models.{Peer, AppConfig}
use wg_busy.Models.Addresses.{peer_sources}
use wg_busy.Models.Find.{find_peer_by_id}
use wg_busy.Routing.Rules.{
  PeerRule, numbered, source_rules, source_actions, rules_from, peer_block, peer_rules,
  table_action, lookup_actions, prohibit, ip_command_for, from_source,
}

pub data Verdict : Type 0 where
  routed : Text → Verdict
  prohibited falls_through : Verdict

abbrev head_byte : Text → ℕ
head_byte [] = 0
head_byte (c ∷ s) = c

table-ne-prohibit : (id : ℕ) → table_action id ≢ prohibit
unfolding table_action
table-ne-prohibit id e = omega (arith, ap head_byte e)

lookup_not_prohibit :
    (exit_nodes : List Peer) (p : Peer) → ¬ Any (λ a. a ≡ prohibit) (lookup_actions exit_nodes p)
unfolding lookup_actions
lookup_not_prohibit exit_nodes p h =
    elim (Option-cases (find_peer_by_id exit_nodes p.exit_node_id)) [
      | inl e ↦ ground (arith, table-ne-prohibit p.policy_routing_table_id)
      | inr (x, e) ↦
          ground (
            arith,
            table-ne-prohibit p.policy_routing_table_id,
            table-ne-prohibit x.routing_table_id,
          )
    ]

actions_prohibited :
    (exit_nodes : List Peer) (p : Peer)
    → Any (λ a. a ≡ prohibit) (source_actions exit_nodes p)
    → p.strict_policy_routing ≡ true
unfolding source_actions
actions_prohibited exit_nodes p h =
    elim (Any-append (λ a. a ≡ prohibit) (lookup_actions exit_nodes p) _ h) [
      | inl a ↦ absurd (lookup_not_prohibit exit_nodes p a)
      | inr b ↦ ground arith
    ]

-- `matches` says which selectors fit the packet, `routes` which tables have a route for it.
module _ (matches : Text → Text → Bool) (routes : Text → Bool) where
  unfoldable pub walk : List PeerRule → Verdict
  walk [] = falls_through
  walk (r ∷ rs) =
      let rest = walk rs in
      if matches r.ip_command r.selector
      then (if text_eq r.action prohibit
          then prohibited
          else if routes r.action
          then routed r.action
          else rest)
      else rest

  walk-append :
      (xs ys : List PeerRule)
      → walk (xs ++ ys)
        ≡ elim (walk xs) [ routed t ↦ routed t | prohibited ↦ prohibited | falls_through ↦ walk ys ]
  unfolding walk
  walk-append [] ys = refl
  walk-append (x ∷ xs) ys = ground (arith, walk-append xs ys)

  walk-append_left :
      (xs ys : List PeerRule) → walk xs ≢ falls_through → walk (xs ++ ys) ≢ falls_through
  walk-append_left xs ys h = ground (arith, walk-append xs ys)

  walk-append_right :
      (xs ys : List PeerRule) → walk ys ≢ falls_through → walk (xs ++ ys) ≢ falls_through
  walk-append_right xs ys h = ground (arith, walk-append xs ys)

  -- Actions that end in a reject decide for every packet that the source's selector matches.
  walk-numbered :
      (s : Text) (actions : List Text) (prio : ℕ)
      → matches (ip_command_for s) (from_source s) ≡ true
      → walk (numbered s (actions ++ prohibit ∷ []) prio) ≢ falls_through
  unfolding walk numbered
  walk-numbered s [] prio h = ground (arith, text_eq_refl prohibit)
  walk-numbered s (a ∷ actions) prio h = ground (arith, walk-numbered s actions (prio + 1))

  walk-source_rules :
      (s : Text) (actions sources : List Text) (prio : ℕ)
      → matches (ip_command_for s) (from_source s) ≡ true
      → Any (λ t. t ≡ s) sources
      → walk (source_rules (actions ++ prohibit ∷ []) sources prio) ≢ falls_through
  unfolding source_rules
  walk-source_rules s actions [] prio h m = absurd m
  walk-source_rules s actions (t ∷ sources) prio h (inl e) =
      walk-append_left _ _ (walk-numbered t actions prio (rw e h))
  walk-source_rules s actions (t ∷ sources) prio h (inr m) =
      walk-append_right (numbered t (actions ++ prohibit ∷ []) prio) _
        (walk-source_rules s actions sources _ h m)

  strict_actions :
      (exit_nodes : List Peer) (p : Peer)
      → p.strict_policy_routing ≡ true
      → (actions : List Text) × (source_actions exit_nodes p ≡ actions ++ prohibit ∷ [])
  unfolding source_actions
  strict_actions exit_nodes p h = (lookup_actions exit_nodes p, rw h)

  walk-peer_block :
      (exit_nodes : List Peer) (p : Peer) (prio : ℕ) (s : Text)
      → p.enabled ≡ true
      → p.strict_policy_routing ≡ true
      → Any (λ t. t ≡ s) (peer_sources p.allowed_ips)
      → matches (ip_command_for s) (from_source s) ≡ true
      → walk (peer_block exit_nodes p prio) ≢ falls_through
  unfolding peer_block
  walk-peer_block exit_nodes p prio s on strict src h =
      let (actions, shape) = strict_actions exit_nodes p strict in
      simp (on, shape) (walk-source_rules s actions (peer_sources p.allowed_ips) prio h src)

  walk-rules_from :
      (exit_nodes peers : List Peer) (prio : ℕ) (p : Peer) (s : Text)
      → p.enabled ≡ true
      → p.strict_policy_routing ≡ true
      → Any (λ q. q ≡ p) peers
      → Any (λ t. t ≡ s) (peer_sources p.allowed_ips)
      → matches (ip_command_for s) (from_source s) ≡ true
      → walk (rules_from exit_nodes peers prio) ≢ falls_through
  unfolding rules_from
  walk-rules_from exit_nodes [] prio p s on strict m src h = absurd m
  walk-rules_from exit_nodes (q ∷ qs) prio p s on strict (inl e) src h =
      rw e (walk-append_left _ _ (walk-peer_block exit_nodes p prio s on strict src h))
  walk-rules_from exit_nodes (q ∷ qs) prio p s on strict (inr m) src h =
      walk-append_right _ _ (walk-rules_from exit_nodes qs _ p s on strict m src h)

  -- A packet that matches the selector of a source of an enabled strict peer never falls through to
  -- the main table: some rule routes it by a table or rejects it, whatever the tables hold.
  pub strict_never_falls_through :
      (cfg : AppConfig) (exit_nodes : List Peer) (p : Peer) (s : Text)
      → Any (λ q. q ≡ p) cfg.peers
      → p.enabled ≡ true
      → p.strict_policy_routing ≡ true
      → Any (λ t. t ≡ s) (peer_sources p.allowed_ips)
      → matches (ip_command_for s) (from_source s) ≡ true
      → walk (peer_rules cfg exit_nodes) ≢ falls_through
  unfolding peer_rules
  strict_never_falls_through cfg exit_nodes p s m on strict src h =
      walk-rules_from exit_nodes cfg.peers 10000 p s on strict m src h

  -- Some source of the peer has a selector that matches.
  abbrev pub Selected : Peer → Type 0
  Selected p =
      Any (λ s. matches (ip_command_for s) (from_source s) ≡ true) (peer_sources p.allowed_ips)

  numbered_prohibited :
      (s : Text) (actions : List Text) (prio : ℕ)
      → walk (numbered s actions prio) ≡ prohibited
      → (matches (ip_command_for s) (from_source s) ≡ true) × Any (λ a. a ≡ prohibit) actions
  unfolding walk numbered
  numbered_prohibited s [] prio h = cc
  numbered_prohibited s (a ∷ actions) prio h =
      ground (arith, text_eq_iff a prohibit, numbered_prohibited s actions (prio + 1))

  source_rules_prohibited :
      (actions sources : List Text) (prio : ℕ)
      → walk (source_rules actions sources prio) ≡ prohibited
      → Any (λ s. matches (ip_command_for s) (from_source s) ≡ true) sources
        × Any (λ a. a ≡ prohibit) actions
  unfolding source_rules walk
  source_rules_prohibited actions [] prio h = cc
  source_rules_prohibited actions (s ∷ sources) prio h = ground (
    arith,
    walk-append (numbered s actions prio) (source_rules actions sources (prio + length actions)),
    numbered_prohibited s actions prio,
    source_rules_prohibited actions sources (prio + length actions),
  )

  -- Only an enabled strict peer whose source matches has its packets rejected.
  pub prohibited_only_strict :
      (exit_nodes peers : List Peer) (prio : ℕ)
      → walk (rules_from exit_nodes peers prio) ≡ prohibited
      → Any (λ p. (p.enabled ≡ true) × (p.strict_policy_routing ≡ true) × Selected p) peers
  unfolding rules_from walk peer_block
  prohibited_only_strict exit_nodes [] prio h = cc
  prohibited_only_strict exit_nodes (p ∷ ps) prio h =
      let rules : List PeerRule = peer_block exit_nodes p prio in
      ground (
        arith,
        walk-append rules (rules_from exit_nodes ps (prio + length rules)),
        source_rules_prohibited (source_actions exit_nodes p) (peer_sources p.allowed_ips) prio,
        actions_prohibited exit_nodes p,
        prohibited_only_strict exit_nodes ps (prio + length rules),
      )
