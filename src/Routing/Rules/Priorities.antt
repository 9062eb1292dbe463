-- ===== src/Routing/Rules/Priorities.antt =====
-- The priorities of the rules: the kernel evaluates them in the order of the list.
use wg_busy.Prelude.{
  ℕ, suc, ◌+◌, ◌≡◌, refl, ap, subst, List, [], ◌∷◌, ◌++◌, Text, length, arith, Bool-cases, inl, inr,
}
use wg_busy.Models.{Peer, AppConfig}
use wg_busy.Models.Addresses.{peer_sources}
use wg_busy.Routing.Rules.{
  PeerRule, numbered, source_rules, source_actions, peer_block, rules_from, peer_rules,
}

-- The rules carry the priorities `prio`, `prio + 1` and so on.
abbrev pub Consecutive : ℕ → List PeerRule → Type 0
Consecutive prio [] = Unit {0}
Consecutive prio (r ∷ rs) = (r.priority ≡ prio) × Consecutive (prio + 1) rs

Consecutive-eq : (rs : List PeerRule) {a b : ℕ} → a ≡ b → Consecutive a rs → Consecutive b rs
Consecutive-eq rs e = subst (λ k. Consecutive k rs) e

Consecutive-append :
    (prio : ℕ) (xs ys : List PeerRule)
    → Consecutive prio xs
    → Consecutive (prio + length xs) ys
    → Consecutive prio (xs ++ ys)
Consecutive-append prio [] ys hx hy = Consecutive-eq ys (omega arith) hy
Consecutive-append prio (x ∷ xs) ys hx hy =
    (hx.0, Consecutive-append (prio + 1) xs ys hx.1 (Consecutive-eq ys (omega arith) hy))

length-numbered :
    (s : Text) (actions : List Text) (prio : ℕ) → length (numbered s actions prio) ≡ length actions
unfolding numbered
length-numbered s [] prio = refl
length-numbered s (a ∷ actions) prio = ap suc (length-numbered s actions (prio + 1))

numbered-Consecutive :
    (s : Text) (actions : List Text) (prio : ℕ) → Consecutive prio (numbered s actions prio)
unfolding numbered
numbered-Consecutive s [] prio = tt
numbered-Consecutive s (a ∷ actions) prio = (refl, numbered-Consecutive s actions (prio + 1))

source_rules-Consecutive :
    (actions sources : List Text) (prio : ℕ) → Consecutive prio (source_rules actions sources prio)
unfolding source_rules
source_rules-Consecutive actions [] prio = tt
source_rules-Consecutive actions (s ∷ sources) prio =
    Consecutive-append prio (numbered s actions prio) _ (numbered-Consecutive s actions prio) (
      rw (length-numbered s actions prio)
        (source_rules-Consecutive actions sources (prio + length actions)))

peer_block-Consecutive :
    (exit_nodes : List Peer) (p : Peer) (prio : ℕ) → Consecutive prio (peer_block exit_nodes p prio)
unfolding peer_block
peer_block-Consecutive exit_nodes p prio = elim (Bool-cases p.enabled) [
  | inl on ↦
      simp on
        (source_rules-Consecutive (source_actions exit_nodes p) (peer_sources p.allowed_ips) prio)
  | inr off ↦ simp off tt
]

rules_from-Consecutive :
    (exit_nodes peers : List Peer) (prio : ℕ) → Consecutive prio (rules_from exit_nodes peers prio)
unfolding rules_from
rules_from-Consecutive exit_nodes [] prio = tt
rules_from-Consecutive exit_nodes (p ∷ ps) prio =
    Consecutive-append prio (peer_block exit_nodes p prio) _
      (peer_block-Consecutive exit_nodes p prio) (rules_from-Consecutive exit_nodes ps _)

-- The rules have the priorities 10000, 10001, … in the order of the list, so no two share one and
-- the kernel's order, by rising priority, is the order of the list.
pub peer_rules-Consecutive :
    (cfg : AppConfig) (exit_nodes : List Peer) → Consecutive 10000 (peer_rules cfg exit_nodes)
unfolding peer_rules
peer_rules-Consecutive cfg exit_nodes = rules_from-Consecutive exit_nodes cfg.peers 10000
