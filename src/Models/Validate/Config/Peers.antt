-- ===== src/Models/Validate/Config/Peers.antt =====
-- models.go: the loop of `ValidateConfig` over the peers, and `effectiveAllowedPrefixes`.
use wg_busy.Prelude.{
  ℕ, not, ◌&&◌, List, [], ◌∷◌, ◌++◌, if◌then◌else◌, Text, codes, concat, quote, itoa, split,
  flatten, ◌==◌,
}
use wg_busy.Net.Format.{cidr_text}
use wg_busy.Models.{Peer, ValidationError}
use wg_busy.Models.Addresses.{parsed, texts_of}
use wg_busy.Models.Validate.{check}
use wg_busy.Models.Validate.Claims.{claim, repeated, text_key, num_key}
use wg_busy.Models.Validate.Peer.{no_routes}

-- The values that a peer's allowed IPs in wg0.conf are made of.
unfoldable pub claimed_values : Peer → List Text
claimed_values p =
    if p.is_exit_node && p.exit_node_allow_all
    then codes "0.0.0.0/0" ∷ codes "::/0" ∷ []
    else split 44 p.allowed_ips
      ++ ((if p.is_exit_node then p.exit_node_routes else []) ++ p.advertised_routes)

unfoldable pub effective_allowed_prefixes : Peer → List Text
unfolding claimed_values
effective_allowed_prefixes p = texts_of cidr_text (parsed (claimed_values p))

-- A routing table that a peer owns; 0 is none.
pub record TableUse : Type 0 where
  pub id : ℕ
  pub field : Text
  pub role : Text

abbrev pub table_uses : Peer → List TableUse
table_uses p =
    record {
      id = p.routing_table_id;
      field = codes "routingTableID";
      role = codes "exit-node table";
    }
    ∷ record {
      id = p.policy_routing_table_id;
      field = codes "policyRoutingTableID";
      role = codes "policy table";
    }
    ∷ []

unfoldable pub owner_text : Text → TableUse → Text
owner_text name t = concat (codes "peer " ∷ quote name ∷ codes " " ∷ t.role ∷ [])

unfoldable pub table_reused : Text → TableUse → Text → ValidationError
unfolding owner_text
table_reused name t previous = record {
  field = t.field;
  message = concat (
      owner_text name t
      ∷ codes " reuses table "
      ∷ itoa t.id
      ∷ codes " assigned to "
      ∷ previous
      ∷ []);
}

unfoldable pub table_errors : List (ℕ × Text) → Text → List TableUse → List ValidationError
unfolding table_reused owner_text
table_errors m name [] = []
table_errors m name (t ∷ ts) =
    if t.id == 0
    then table_errors m name ts
    else repeated m t.id (table_reused name t)
      ++ table_errors (claim m t.id (owner_text name t)) name ts

unfoldable pub claim_tables : List (ℕ × Text) → Text → List TableUse → List (ℕ × Text)
unfolding owner_text
claim_tables m name [] = m
claim_tables m name (t ∷ ts) =
    claim_tables (if t.id == 0 then m else claim m t.id (owner_text name t)) name ts

unfoldable pub both_claim : Text → Text → Text → ValidationError
both_claim name prefix previous = record {
  field = codes "allowedIPs";
  message = concat (
      codes "peer "
      ∷ quote previous
      ∷ codes " and "
      ∷ quote name
      ∷ codes " both claim "
      ∷ prefix
      ∷ []);
}

unfoldable pub prefix_claims : List (Text × Text) → Text → List Text → List ValidationError
unfolding both_claim
prefix_claims m name [] = []
prefix_claims m name (x ∷ xs) =
    repeated m x (both_claim name x) ++ prefix_claims (claim m x name) name xs

unfoldable pub claim_prefixes : List (Text × Text) → Text → List Text → List (Text × Text)
claim_prefixes m name [] = m
claim_prefixes m name (x ∷ xs) = claim_prefixes (claim m x name) name xs

-- The maps of the loop over the peers.
pub record PeerSeen : Type 0 where
  pub ids : List (Text × Text)
  pub public_keys : List (Text × Text)
  pub prefixes : List (Text × Text)
  pub tables : List (ℕ × Text)

abbrev pub no_peers : PeerSeen
no_peers = record { ids = []; public_keys = []; prefixes = []; tables = [] }

-- The prefixes of a disabled peer are not looked at.
abbrev pub prefixes_of : Peer → List Text
prefixes_of p = if p.enabled then effective_allowed_prefixes p else []

unfoldable pub duplicates : Text → Text → Peer → Text → ValidationError
duplicates field what p previous = record {
  field = field;
  message = concat (
      codes "peer "
      ∷ quote p.name
      ∷ codes " duplicates "
      ∷ what
      ∷ codes " used by "
      ∷ quote previous
      ∷ []);
}

unfoldable pub peer_errors : PeerSeen → Peer → List ValidationError
unfolding duplicates table_errors prefix_claims
peer_errors seen p = flatten (
    repeated seen.ids p.id (duplicates (codes "id") (codes "ID") p)
    ∷ repeated seen.public_keys p.public_key (duplicates (codes "publicKey") (codes "key") p)
    ∷ check (p.is_exit_node && p.routing_table_id == 0) (codes "routingTableID")
        (concat (codes "exit-node peer " ∷ quote p.name ∷ codes " has no routing table" ∷ []))
    ∷ check (not (no_routes p.policy_routes) && p.policy_routing_table_id == 0)
        (codes "policyRoutingTableID")
        (concat
          (codes "peer " ∷ quote p.name ∷ codes " has policy routes but no routing table" ∷ []))
    ∷ table_errors seen.tables p.name (table_uses p)
    ∷ prefix_claims seen.prefixes p.name (prefixes_of p)
    ∷ [])

unfoldable pub after_peer : PeerSeen → Peer → PeerSeen
unfolding claim_tables claim_prefixes
after_peer seen p = record {
  ids = claim seen.ids p.id p.name;
  public_keys = claim seen.public_keys p.public_key p.name;
  prefixes = claim_prefixes seen.prefixes p.name (prefixes_of p);
  tables = claim_tables seen.tables p.name (table_uses p);
}

unfoldable pub peers_from : PeerSeen → List Peer → List ValidationError
unfolding peer_errors after_peer
peers_from seen [] = []
peers_from seen (p ∷ ps) = peer_errors seen p ++ peers_from (after_peer seen p) ps
