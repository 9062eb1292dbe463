-- ===== src/Config/Applied/Agree.antt =====
-- The map of all peers and the query for one peer give the same answers.
use wg_busy.Prelude.{
  ◌≡◌, ◌≢◌, refl, sym, ap, ◌∙◌, Bool, true, false, inl, inr, Bool-cases, List, [], ◌∷◌, Option,
  none, some, Text, text_eq, text_eq_iff, lookup, put, lookup-put, lookup-put_other, arith, All,
  map,
}
use wg_busy.Models.{Peer}
use wg_busy.Models.Find.{find_peer_by_id}
use wg_busy.Models.Validate.Claims.Apart.{Apart}
use wg_busy.Models.Validate.Config.UniquePeers.{peer_id}
use wg_busy.Config.{Store}
use wg_busy.Config.Applied.{
  is_applied, peer_applied, is_peer_routing_applied, applied_entries, peer_routing_applied_map,
}

-- The entry of the peer with the ID, or what was there before.
abbrev entry : (Peer → Bool) → Option Bool → Option Peer → Option Bool
entry value old none = old
entry value old (some p) = some (value p)

find_head :
    (p : Peer) (ps : List Peer) (id : Text)
    → text_eq p.id id ≡ true
    → find_peer_by_id (p ∷ ps) id ≡ some p
unfolding find_peer_by_id
find_head p ps id h = ground arith

find_tail :
    (p : Peer) (ps : List Peer) (id : Text)
    → text_eq p.id id ≡ false
    → find_peer_by_id (p ∷ ps) id ≡ find_peer_by_id ps id
unfolding find_peer_by_id
find_tail p ps id h = ground arith

find_nil : (id : Text) → find_peer_by_id [] id ≡ none
unfolding find_peer_by_id
find_nil id = refl

find_absent :
    (id : Text) (ps : List Peer) → All (λ j. id ≢ j) (map peer_id ps) → find_peer_by_id ps id ≡ none
find_absent id [] h = find_nil id
find_absent id (p ∷ ps) h = elim (Bool-cases (text_eq p.id id)) [
  | inl same ↦ absurd (h.0 (sym ((text_eq_iff p.id id).0 same)))
  | inr other ↦ find_tail p ps id other ∙ find_absent id ps h.1
]

lookup-applied_entries :
    (value : Peer → Bool) (m : List (Text × Bool)) (ps : List Peer) (id : Text)
    → Apart (map peer_id ps)
    → lookup (applied_entries value m ps) id ≡ entry value (lookup m id) (find_peer_by_id ps id)
unfolding applied_entries
lookup-applied_entries value m [] id a = ap (entry value (lookup m id)) (sym (find_nil id))
lookup-applied_entries value m (p ∷ ps) id a = elim (Bool-cases (text_eq p.id id)) [
  | inl same ↦
      let e : p.id ≡ id = (text_eq_iff p.id id).0 same in
      lookup-applied_entries value (put p.id (value p) m) ps id a.1
      ∙ ap (entry value (lookup (put p.id (value p) m) id)) (find_absent id ps (rw (← e) a.0))
      ∙ rw (← e) (lookup-put m p.id (value p))
      ∙ ap (entry value (lookup m id)) (sym (find_head p ps id same))
  | inr other ↦
      lookup-applied_entries value (put p.id (value p) m) ps id a.1
      ∙ ap (λ x. entry value x (find_peer_by_id ps id))
          (lookup-put_other m p.id id (value p) (λ e. ground (arith, text_eq_iff p.id id)))
      ∙ ap (entry value (lookup m id)) (sym (find_tail p ps id other))
]

found_id : (ps : List Peer) (id : Text) (p : Peer) → find_peer_by_id ps id ≡ some p → p.id ≡ id
unfolding find_peer_by_id
found_id [] id p h = cc
found_id (q ∷ ps) id p h = ground (arith, found_id ps id p, text_eq_iff q.id id)

-- A peer of the configuration has the answer of the query, and no other ID has an entry.
abbrev pub answer_for : Option Peer → Bool → Option Bool
answer_for none b = none
answer_for (some p) b = some b

applied_answer :
    (state : List Peer) (id : Text) (o : Option Peer)
    → ((p : Peer) → o ≡ some p → p.id ≡ id)
    → entry (is_applied state) none o ≡ answer_for o (peer_applied state id o)
unfolding is_applied peer_applied
applied_answer state id none h = refl
applied_answer state id (some p) h = rw (h p refl) refl

pending_answer : (o : Option Peer) → entry (λ p. false) none o ≡ answer_for o false
pending_answer none = refl
pending_answer (some p) = refl

map_pending :
    (s : Store)
    → s.wg_restart_pending ≡ true
    → peer_routing_applied_map s ≡ applied_entries (λ p. false) [] s.config.peers
unfolding peer_routing_applied_map
map_pending s h = simp h refl

map_current :
    (s : Store)
    → s.wg_restart_pending ≡ false
    → peer_routing_applied_map s
      ≡ applied_entries (is_applied s.routing_state.peers) [] s.config.peers
unfolding peer_routing_applied_map
map_current s h = simp h refl

query_pending :
    (s : Store) (id : Text) → s.wg_restart_pending ≡ true → is_peer_routing_applied s id ≡ false
unfolding is_peer_routing_applied
query_pending s id h = simp h refl

query_current :
    (s : Store) (id : Text)
    → s.wg_restart_pending ≡ false
    → is_peer_routing_applied s id
      ≡ peer_applied s.routing_state.peers id (find_peer_by_id s.config.peers id)
unfolding is_peer_routing_applied
query_current s id h = simp h refl

lookup_nothing : (id : Text) → lookup {V = Bool} [] id ≡ none
unfolding lookup
lookup_nothing id = refl

-- For peers with different IDs, the map has for every ID of a peer what the query for this peer
-- answers, and no entry for any other ID.
pub peer_routing_applied_map_agrees :
    (s : Store) (id : Text)
    → Apart (map peer_id s.config.peers)
    → lookup (peer_routing_applied_map s) id
      ≡ answer_for (find_peer_by_id s.config.peers id) (is_peer_routing_applied s id)
peer_routing_applied_map_agrees s id a =
    let found : Option Peer = find_peer_by_id s.config.peers id in
    elim (Bool-cases s.wg_restart_pending) [
      | inl pending ↦
          ap (λ m. lookup m id) (map_pending s pending)
          ∙ lookup-applied_entries (λ p. false) [] s.config.peers id a
          ∙ ap (λ x. entry (λ p. false) x found) (lookup_nothing id)
          ∙ pending_answer found
          ∙ ap (answer_for found) (sym (query_pending s id pending))
      | inr current ↦
          ap (λ m. lookup m id) (map_current s current)
          ∙ lookup-applied_entries (is_applied s.routing_state.peers) [] s.config.peers id a
          ∙ ap (λ x. entry (is_applied s.routing_state.peers) x found) (lookup_nothing id)
          ∙ applied_answer s.routing_state.peers id found (found_id s.config.peers id)
          ∙ ap (answer_for found) (sym (query_current s id current))
    ]
