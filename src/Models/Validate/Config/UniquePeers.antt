-- ===== src/Models/Validate/Config/UniquePeers.antt =====
-- What the peers of an accepted configuration do not share.
use wg_busy.Prelude.{
  ℕ, ◌≡◌, ◌≢◌, ◌⊎◌, false, inl, inr, List, [], ◌∷◌, ◌++◌, if◌then◌else◌, Text, ◌==◌, arith, All,
  append_nil, flatten_nil, flat_map, map, Bool-cases,
}
use wg_busy.Models.{Peer}
use wg_busy.Models.Validate.Claims.{claim, repeated, text_key, num_key}
use wg_busy.Models.Validate.Claims.Apart.{Claimed, Claimed-cons}
use wg_busy.Models.Validate.Config.Peers.{
  TableUse, table_uses, table_reused, owner_text, table_errors, claim_tables, both_claim,
  prefix_claims, claim_prefixes, PeerSeen, prefixes_of, peer_errors, after_peer, peers_from,
}

-- The tables that are not 0.
abbrev pub used_ids : List TableUse → List ℕ
used_ids [] = []
used_ids (t ∷ ts) = if t.id == 0 then used_ids ts else t.id ∷ used_ids ts

abbrev pub tables_of : Peer → List ℕ
tables_of p = used_ids (table_uses p)

-- A peer that is an exit node, or has policy routes, has the table they go into.
abbrev pub HasTables : Peer → Type 0
HasTables p =
    ((p.is_exit_node ≡ false) ⊎ (p.routing_table_id ≢ 0))
    × ((p.policy_routes ≡ []) ⊎ (p.policy_routing_table_id ≢ 0))

tables_then :
    (m : List (ℕ × Text)) (name : Text) (ts : List TableUse) (js : List ℕ)
    → table_errors m name ts ≡ []
    → Claimed (claim_tables m name ts) js
    → Claimed m (used_ids ts ++ js)
unfolding table_errors claim_tables
tables_then m name [] js h rest = rest
tables_then m name (t ∷ ts) js h rest = elim (Bool-cases (t.id == 0)) [
  | inl zero ↦ simp zero (tables_then m name ts js (simp zero at h) (simp zero at rest))
  | inr set ↦
      let both = (append_nil (repeated m t.id (table_reused name t)) _).0 (simp set at h) in
      simp set (
        Claimed-cons m t.id (owner_text name t) (table_reused name t) _ both.0
          (tables_then (claim m t.id (owner_text name t)) name ts js both.1 (simp set at rest)))
]

prefixes_then :
    (m : List (Text × Text)) (name : Text) (xs js : List Text)
    → prefix_claims m name xs ≡ []
    → Claimed (claim_prefixes m name xs) js
    → Claimed m (xs ++ js)
unfolding prefix_claims claim_prefixes
prefixes_then m name [] js h rest = rest
prefixes_then m name (x ∷ xs) js h rest =
    let both = (append_nil (repeated m x (both_claim name x)) _).0 h in
    Claimed-cons m x name (both_claim name x) (xs ++ js) both.0
      (prefixes_then (claim m x name) name xs js both.1 rest)

abbrev pub peer_id : Peer → Text
peer_id p = p.id

abbrev pub key_of : Peer → Text
key_of p = p.public_key

-- The keys of the peers, in the order of the loop, given the maps so far.
abbrev AllClaimed : PeerSeen → List Peer → Type 0
AllClaimed seen ps =
    Claimed seen.ids (map peer_id ps)
    × Claimed seen.public_keys (map key_of ps)
    × Claimed seen.tables (flat_map tables_of ps)
    × Claimed seen.prefixes (flat_map prefixes_of ps)
    × All HasTables ps

peer_step :
    (seen : PeerSeen) (p : Peer) (ps : List Peer)
    → peer_errors seen p ≡ []
    → AllClaimed (after_peer seen p) ps
    → AllClaimed seen (p ∷ ps)
unfolding peer_errors after_peer
peer_step seen p ps h (ids, keys, tables, prefixes, more) =
    let parts = (flatten_nil _).0 h in
    (
      Claimed-cons seen.ids p.id p.name _ _ parts.0 ids,
      Claimed-cons seen.public_keys p.public_key p.name _ _ parts.1.0 keys,
      tables_then seen.tables p.name (table_uses p) _ parts.1.1.1.1.0 tables,
      prefixes_then seen.prefixes p.name (prefixes_of p) _ parts.1.1.1.1.1.0 prefixes,
      ((ground (arith, parts.1.1.0), ground (arith, parts.1.1.1.0)), more),
    )

pub peers_claimed :
    (seen : PeerSeen) (ps : List Peer) → peers_from seen ps ≡ [] → AllClaimed seen ps
unfolding peers_from
peers_claimed seen [] h = (tt, tt, tt, tt, tt)
peers_claimed seen (p ∷ ps) h =
    let both = (append_nil (peer_errors seen p) _).0 h in
    peer_step seen p ps both.0 (peers_claimed (after_peer seen p) ps both.1)
