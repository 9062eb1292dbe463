-- ===== src/Models/Find/References.antt =====
-- The references from peers to exit nodes.
use wg_busy.Prelude.{
  All-map, ◌≡◌, ◌↔◌, true, ◌⊎◌, List, [], ◌∷◌, Text, has, is_empty, text_eq_iff, All, Any, arith,
}
use wg_busy.Models.{Peer}
use wg_busy.Models.Find.{exit_node_ids, dangling, validate_exit_node_refs}

-- Some enabled exit node has this ID.
abbrev pub IsExitNode : List Peer → Text → Type 0
IsExitNode ps id = Any (λ q. (q.enabled ≡ true) × (q.is_exit_node ≡ true) × (q.id ≡ id)) ps

-- The peer has no exit node, or one of `ps`.
abbrev pub Refers : List Peer → Peer → Type 0
Refers ps p = (is_empty p.exit_node_id ≡ true) ⊎ IsExitNode ps p.exit_node_id

has-exit_node_ids :
    (ps : List Peer) (id : Text) → (has (exit_node_ids ps) id ≡ true) ↔ IsExitNode ps id
unfolding exit_node_ids has
has-exit_node_ids [] id = ground arith
has-exit_node_ids (p ∷ ps) id = ground (arith, text_eq_iff p.id id, has-exit_node_ids ps id)

dangling_iff :
    (ids : List Text) (ps : List Peer)
    → (dangling ids ps ≡ [])
      ↔ All (λ p. (is_empty p.exit_node_id ≡ true) ⊎ (has ids p.exit_node_id ≡ true)) ps
unfolding dangling
dangling_iff ids [] = ground arith
dangling_iff ids (p ∷ ps) = ground (arith, dangling_iff ids ps)

-- The validation has no error exactly when every exit node that a peer names is an enabled exit node
-- of the configuration.
pub validate_exit_node_refs_iff :
    (ps : List Peer) → (validate_exit_node_refs ps ≡ []) ↔ All (Refers ps) ps
unfolding validate_exit_node_refs
validate_exit_node_refs_iff ps =
    let ids : List Text = exit_node_ids ps in
    let known : Peer → Type 0 =
      λ p. (is_empty p.exit_node_id ≡ true) ⊎ (has ids p.exit_node_id ≡ true) in
    (
      λ e.
          All-map known (Refers ps) ps (λ p h. ground (arith, has-exit_node_ids ps p.exit_node_id))
            ((dangling_iff ids ps).0 e),
      λ a. (dangling_iff ids ps).1 (
          All-map (Refers ps) known ps (λ p h. ground (arith, has-exit_node_ids ps p.exit_node_id))
            a),
    )
