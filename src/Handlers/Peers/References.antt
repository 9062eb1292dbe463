-- ===== src/Handlers/Peers/References.antt =====
-- Deleting and toggling peers leaves no reference to a peer that is no enabled exit node.
use wg_busy.Prelude.{
  ℕ, subst, ◌≡◌, ◌≢◌, false, ◌⊎◌, inl, inr, List, [], ◌∷◌, some, Text, text_eq, text_eq_iff, All,
  arith, Bool-cases, Option-cases, if◌then◌else◌, ◌&&◌,
}
use wg_busy.Models.{Peer}
use wg_busy.Models.Find.{find_peer_by_id, cascade_clear_exit_node, validate_exit_node_refs}
use wg_busy.Models.Find.References.{IsExitNode, Refers, validate_exit_node_refs_iff}
use wg_busy.Handlers.Peers.{without, delete_peer, toggle_first, toggle_peer}

IsExitNode-cascade :
    (ps : List Peer) (id x : Text) → IsExitNode ps x → IsExitNode (cascade_clear_exit_node ps id) x
unfolding cascade_clear_exit_node
IsExitNode-cascade [] id x h = h
IsExitNode-cascade (p ∷ ps) id x h = ground (arith, IsExitNode-cascade ps id x)

-- `x` is another ID than `id`, or the first peer with `id` is no enabled exit node.
abbrev Spared : List Peer → Peer → Text → Text → Type 0
Spared ps q id x =
    (x ≢ id) ⊎ ((find_peer_by_id ps id ≡ some q) × ((q.enabled && q.is_exit_node) ≡ false))

IsExitNode-without :
    (ps : List Peer) (id x : Text) (q : Peer)
    → Spared ps q id x
    → IsExitNode ps x
    → IsExitNode (without ps id) x
unfolding without find_peer_by_id
IsExitNode-without [] id x q n h = h
IsExitNode-without (p ∷ ps) id x q n h = elim (Bool-cases (text_eq p.id id)) [
  | inl here ↦ ground (arith, text_eq_iff p.id id)
  | inr away ↦ ground (arith, IsExitNode-without ps id x q)
]

IsExitNode-toggle_first :
    (ps : List Peer) (id x : Text) (now : ℕ) (q : Peer)
    → Spared ps q id x
    → IsExitNode ps x
    → IsExitNode (toggle_first ps id now) x
unfolding toggle_first find_peer_by_id
IsExitNode-toggle_first [] id x now q n h = h
IsExitNode-toggle_first (p ∷ ps) id x now q n h = elim (Bool-cases (text_eq p.id id)) [
  | inl here ↦ ground (arith, text_eq_iff p.id id)
  | inr away ↦ ground (arith, IsExitNode-toggle_first ps id x now q)
]

module _ (ps qs : List Peer) where
  -- References that are not to `id` keep their target; those to `id` are cleared.
  cascade_refs :
      (rs : List Peer) (id : Text)
      → ((x : Text) → x ≢ id → IsExitNode ps x → IsExitNode qs x)
      → All (Refers ps) rs
      → All (Refers qs) (cascade_clear_exit_node rs id)
  unfolding cascade_clear_exit_node
  cascade_refs [] id f h = tt
  cascade_refs (r ∷ rs) id f h =
      let rest = cascade_refs rs id f h.1 in
      elim (Bool-cases (text_eq r.exit_node_id id)) [
        | inl same ↦ ground (arith, rest)
        | inr other ↦ elim h.0 [
          | inl empty ↦ ground (arith, rest)
          | inr at ↦
              let moved = f r.exit_node_id (ground (arith, text_eq_iff r.exit_node_id id)) at in
              simp other (inr moved, rest)
        ]
      ]

  kept_refs :
      (rs : List Peer)
      → ((x : Text) → IsExitNode ps x → IsExitNode qs x)
      → All (Refers ps) rs
      → All (Refers qs) rs
  kept_refs [] f h = tt
  kept_refs (r ∷ rs) f h =
      (elim h.0 [ inl e ↦ inl e | inr at ↦ inr (f r.exit_node_id at) ], kept_refs rs f h.1)

  without_refs : (rs : List Peer) (id : Text) → All (Refers qs) rs → All (Refers qs) (without rs id)
  unfolding without
  without_refs [] id h = tt
  without_refs (r ∷ rs) id h = ground (arith, without_refs rs id h.1)

  toggle_refs :
      (rs : List Peer) (id : Text) (now : ℕ)
      → All (Refers qs) rs
      → All (Refers qs) (toggle_first rs id now)
  unfolding toggle_first
  toggle_refs [] id now h = tt
  toggle_refs (r ∷ rs) id now h = ground (arith, toggle_refs rs id now h.1)

delete_keeps :
    (ps : List Peer) (id : Text) (q : Peer)
    → find_peer_by_id ps id ≡ some q
    → All (Refers ps) ps
    → let qs = without (if q.is_exit_node then cascade_clear_exit_node ps id else ps) id in
      All (Refers qs) qs
delete_keeps ps id q e h = elim (Bool-cases q.is_exit_node) [
  | inl exit ↦
      let cleared : List Peer = cascade_clear_exit_node ps id in
      let refs : All (Refers (without cleared id)) cleared =
        cascade_refs ps (without cleared id) ps id
          (λ x n at. IsExitNode-without cleared id x q (inl n) (IsExitNode-cascade ps id x at)) h in
      simp exit (without_refs ps (without cleared id) cleared id refs)
  | inr plain ↦
      let refs : All (Refers (without ps id)) ps =
        kept_refs ps (without ps id) ps
          (λ x at. IsExitNode-without ps id x q (inr (e, ground arith)) at) h in
      simp plain (without_refs ps (without ps id) ps id refs)
]

toggle_keeps :
    (ps : List Peer) (id : Text) (now : ℕ) (q : Peer)
    → find_peer_by_id ps id ≡ some q
    → All (Refers ps) ps
    → let flipped = toggle_first ps id now in
      let qs =
        if q.enabled && q.is_exit_node then cascade_clear_exit_node flipped id else flipped in
      All (Refers qs) qs
toggle_keeps ps id now q e h =
    let flipped : List Peer = toggle_first ps id now in
    let cleared : List Peer = cascade_clear_exit_node flipped id in
    elim (Bool-cases (q.enabled && q.is_exit_node)) [
      | inl exit ↦ simp exit (
          cascade_refs ps cleared flipped id
            (λ x n at.
              IsExitNode-cascade flipped id x (IsExitNode-toggle_first ps id x now q (inl n) at))
            (toggle_refs ps ps ps id now h))
      | inr plain ↦ simp plain (
          kept_refs ps flipped flipped
            (λ x at. IsExitNode-toggle_first ps id x now q (inr (e, plain)) at)
            (toggle_refs ps ps ps id now h))
    ]

-- When the exit node references of the peers are valid and `DeletePeer` finds the peer, the references
-- of the peers that are left are valid.
pub delete_peer_keeps_references :
    (ps qs : List Peer) (id : Text)
    → validate_exit_node_refs ps ≡ []
    → delete_peer ps id ≡ some qs
    → validate_exit_node_refs qs ≡ []
unfolding delete_peer
delete_peer_keeps_references ps qs id h e = elim (Option-cases (find_peer_by_id ps id)) [
  | inl missing ↦ ground arith
  | inr (q, found) ↦
      let all = delete_keeps ps id q found ((validate_exit_node_refs_iff ps).0 h) in
      (validate_exit_node_refs_iff qs).1 (subst (λ x. All (Refers x) x) (ground arith) all)
]

-- The same for `TogglePeer`, whether it enables or disables the peer.
pub toggle_peer_keeps_references :
    (ps qs : List Peer) (id : Text) (now : ℕ)
    → validate_exit_node_refs ps ≡ []
    → toggle_peer ps id now ≡ some qs
    → validate_exit_node_refs qs ≡ []
unfolding toggle_peer
toggle_peer_keeps_references ps qs id now h e = elim (Option-cases (find_peer_by_id ps id)) [
  | inl missing ↦ ground arith
  | inr (q, found) ↦
      let all = toggle_keeps ps id now q found ((validate_exit_node_refs_iff ps).0 h) in
      (validate_exit_node_refs_iff qs).1 (subst (λ x. All (Refers x) x) (ground arith) all)
]
