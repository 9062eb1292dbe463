-- ===== src/Routing/Rules.antt =====
-- routing.go: `peerRules`, the `ip rule` entries of each peer.
pub mod Priorities
pub mod Strict
use wg_busy.Prelude.{
  ℕ, ◌+◌, Bool, true, false, not, ◌&&◌, List, [], ◌∷◌, ◌++◌, Option, none, some, if◌then◌else◌,
  Text, codes, itoa, is_empty, ltb, length, contains_byte,
}
use wg_busy.Models.{Peer, AppConfig}
use wg_busy.Models.Find.{find_peer_by_id}
use wg_busy.Models.Addresses.{peer_sources}

abbrev pub rule_priority_base : ℕ
rule_priority_base = 10000

pub record PeerRule : Type 0 where
  pub ip_command : Text
  pub selector : Text
  pub action : Text
  pub priority : ℕ

abbrev pub ip_command_for : Text → Text
ip_command_for source = if contains_byte 58 source then codes "ip -6" else codes "ip"

unfoldable pub table_action : ℕ → Text
unfolding itoa
table_action id = codes "table " ++ itoa id

abbrev pub from_source : Text → Text
from_source source = codes "from " ++ source

abbrev pub is_nil : {A : Type 0} → List A → Bool
is_nil [] = true
is_nil (x ∷ xs) = false

-- The tables that are looked up for a source of a peer: the exit node's, then the peer's own.
unfoldable pub lookup_actions : List Peer → Peer → List Text
lookup_actions exit_nodes p =
    (if is_empty p.exit_node_id then [] else elim (find_peer_by_id exit_nodes p.exit_node_id) [
      | none ↦ []
      | some exit_node ↦ table_action exit_node.routing_table_id ∷ []
    ])
    ++ (if not (is_nil p.policy_routes) && ltb 0 p.policy_routing_table_id
        then table_action p.policy_routing_table_id ∷ []
        else [])

abbrev pub prohibit : Text
prohibit = codes "prohibit"

-- The actions for one source, in the order of the loop's body: a strict peer's reject comes last.
unfoldable pub source_actions : List Peer → Peer → List Text
source_actions exit_nodes p =
    lookup_actions exit_nodes p ++ (if p.strict_policy_routing then prohibit ∷ [] else [])

-- Each rule takes the next priority.
unfoldable pub numbered : Text → List Text → ℕ → List PeerRule
numbered source [] prio = []
numbered source (a ∷ actions) prio =
    record {
      ip_command = ip_command_for source;
      selector = from_source source;
      action = a;
      priority = prio;
    }
    ∷ numbered source actions (prio + 1)

unfoldable pub source_rules : List Text → List Text → ℕ → List PeerRule
unfolding numbered
source_rules actions [] prio = []
source_rules actions (s ∷ sources) prio =
    numbered s actions prio ++ source_rules actions sources (prio + length actions)

-- A disabled peer has no rules; neither has a peer without a source.
unfoldable pub peer_block : List Peer → Peer → ℕ → List PeerRule
peer_block exit_nodes p prio =
    if p.enabled
    then source_rules (source_actions exit_nodes p) (peer_sources p.allowed_ips) prio
    else []

-- The rules of the peers, and how the next priority moves on.
unfoldable pub rules_from : List Peer → List Peer → ℕ → List PeerRule
rules_from exit_nodes [] prio = []
rules_from exit_nodes (p ∷ ps) prio =
    let rules = peer_block exit_nodes p prio in
    rules ++ rules_from exit_nodes ps (prio + length rules)

unfoldable pub peer_rules : AppConfig → List Peer → List PeerRule
unfolding rules_from peer_block source_rules source_actions lookup_actions
peer_rules cfg exit_nodes = rules_from exit_nodes cfg.peers rule_priority_base
