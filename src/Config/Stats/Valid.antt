-- ===== src/Config/Stats/Valid.antt =====
-- The statistics of the peers have no part in the validation of a configuration.
use wg_busy.Prelude.{
  ℕ, true, false, if◌then◌else◌, ◌≡◌, refl, ap, ◌∙◌, Bool, List, [], ◌∷◌, ◌++◌, Option, none, some,
  Text, lookup, flat_map, flatten,
}
use wg_busy.Models.{Peer, VpnGateway, AppConfig}
use wg_busy.Models.Find.{exit_node_ids, dangling, validate_exit_node_refs}
use wg_busy.Models.Validate.Peer.{validate_peer}
use wg_busy.Models.Validate.{validate_bgp_peer, validate_zero_tier}
use wg_busy.Models.Validate.Server.{validate_server}
use wg_busy.Models.Validate.Config.{missing_gateway, bgp_from, validate_config}
use wg_busy.Models.Validate.Config.Gateways.{gateways_from, no_gateways}
use wg_busy.Models.Validate.Config.Peers.{
  PeerSeen, no_peers, effective_allowed_prefixes, peer_errors, after_peer, peers_from,
}
use wg_busy.Config.{Store, Env}
use wg_busy.Config.Disk.{DiskError, save_yaml}
use wg_busy.Config.Stats.{
  PeerStatsSnapshot, recorded_peer, recorded_peers, record_peer_stats, stats_saved, save_stats,
  record_peer_last_seen, seen_snapshots,
}

module _ (stats : List (Text × PeerStatsSnapshot)) where
  peer_same :
      (p : Peer) (o : Option PeerStatsSnapshot)
      → validate_peer [] (recorded_peer p o) ≡ validate_peer [] p
  unfolding validate_peer recorded_peer
  peer_same p none = refl
  peer_same p (some st) = refl

  peers_same :
      (ps : List Peer)
      → flat_map (validate_peer []) (recorded_peers stats ps) ≡ flat_map (validate_peer []) ps
  unfolding recorded_peers
  peers_same [] = refl
  peers_same (p ∷ ps) = λ i. peer_same p (lookup stats p.public_key) i ++ peers_same ps i

  ids_step :
      (p : Peer) (o : Option PeerStatsSnapshot) (ps qs : List Peer)
      → exit_node_ids qs ≡ exit_node_ids ps
      → exit_node_ids (recorded_peer p o ∷ qs) ≡ exit_node_ids (p ∷ ps)
  unfolding exit_node_ids recorded_peer
  ids_step p none ps qs h = simp h refl
  ids_step p (some st) ps qs h = simp h refl

  ids_same : (ps : List Peer) → exit_node_ids (recorded_peers stats ps) ≡ exit_node_ids ps
  unfolding recorded_peers
  ids_same [] = refl
  ids_same (p ∷ ps) =
      ids_step p (lookup stats p.public_key) ps (recorded_peers stats ps) (ids_same ps)

  dangling_step :
      (ids : List Text) (p : Peer) (o : Option PeerStatsSnapshot) (ps qs : List Peer)
      → dangling ids qs ≡ dangling ids ps
      → dangling ids (recorded_peer p o ∷ qs) ≡ dangling ids (p ∷ ps)
  unfolding dangling recorded_peer
  dangling_step ids p none ps qs h = simp h refl
  dangling_step ids p (some st) ps qs h = simp h refl

  dangling_same :
      (ids : List Text) (ps : List Peer) → dangling ids (recorded_peers stats ps) ≡ dangling ids ps
  unfolding recorded_peers
  dangling_same ids [] = refl
  dangling_same ids (p ∷ ps) =
      dangling_step ids p (lookup stats p.public_key) ps (recorded_peers stats ps)
        (dangling_same ids ps)

  refs_same :
      (ps : List Peer)
      → validate_exit_node_refs (recorded_peers stats ps) ≡ validate_exit_node_refs ps
  unfolding validate_exit_node_refs
  refs_same ps =
      ap (λ ids. dangling ids (recorded_peers stats ps)) (ids_same ps)
      ∙ dangling_same (exit_node_ids ps) ps

  missing_step :
      (gateways : List VpnGateway) (p : Peer) (o : Option PeerStatsSnapshot)
      → missing_gateway gateways (recorded_peer p o) ≡ missing_gateway gateways p
  unfolding missing_gateway recorded_peer
  missing_step gateways p none = refl
  missing_step gateways p (some st) = refl

  missing_same :
      (gateways : List VpnGateway) (ps : List Peer)
      → flat_map (missing_gateway gateways) (recorded_peers stats ps)
        ≡ flat_map (missing_gateway gateways) ps
  unfolding recorded_peers
  missing_same gateways [] = refl
  missing_same gateways (p ∷ ps) =
      λ i. missing_step gateways p (lookup stats p.public_key) i ++ missing_same gateways ps i

  errors_step :
      (seen : PeerSeen) (p : Peer) (o : Option PeerStatsSnapshot)
      → peer_errors seen (recorded_peer p o) ≡ peer_errors seen p
  unfolding peer_errors recorded_peer effective_allowed_prefixes
  errors_step seen p none = refl
  errors_step seen p (some st) = refl

  after_step :
      (seen : PeerSeen) (p : Peer) (o : Option PeerStatsSnapshot)
      → after_peer seen (recorded_peer p o) ≡ after_peer seen p
  unfolding after_peer recorded_peer effective_allowed_prefixes
  after_step seen p none = refl
  after_step seen p (some st) = refl

  from_same :
      (seen : PeerSeen) (ps : List Peer)
      → peers_from seen (recorded_peers stats ps) ≡ peers_from seen ps
  unfolding peers_from recorded_peers
  from_same seen [] = refl
  from_same seen (p ∷ ps) =
      let o : Option PeerStatsSnapshot = lookup stats p.public_key in
      ap (λ x. peer_errors seen (recorded_peer p o) ++ peers_from x (recorded_peers stats ps))
        (after_step seen p o)
      ∙ (λ i. errors_step seen p o i ++ from_same (after_peer seen p) ps i)

  validate_same :
      (cfg : AppConfig)
      → validate_config (record cfg { peers = recorded_peers stats cfg.peers })
        ≡ validate_config cfg
  unfolding validate_config
  validate_same cfg = λ i. flatten (
      validate_server cfg.server
      ∷ validate_zero_tier cfg.zerotier
      ∷ peers_same cfg.peers i
      ∷ refs_same cfg.peers i
      ∷ flat_map validate_bgp_peer cfg.bgp_peers
      ∷ gateways_from no_gateways cfg.vpn_gateways
      ∷ missing_same cfg.vpn_gateways cfg.peers i
      ∷ from_same no_peers cfg.peers i
      ∷ bgp_from (record { ids = []; addresses = [] }) cfg.bgp_peers
      ∷ [])

pub record_peer_stats-valid :
    (stats : List (Text × PeerStatsSnapshot)) (s : Store)
    → validate_config (record_peer_stats stats s).config ≡ validate_config s.config
unfolding record_peer_stats
record_peer_stats-valid [] s = refl
record_peer_stats-valid (st ∷ stats) s = validate_same (st ∷ stats) s.config

module _ {W : Type 0} (env : Env W) where
  saved_config : (s : Store) (r : W × Option DiskError) → (stats_saved env s r).0.config ≡ s.config
  unfolding stats_saved
  saved_config s (w, none) = refl
  saved_config s (w, some e) = refl

  choice_config :
      (b : Bool) (s : Store) (x y : Store × W × Option DiskError)
      → x.0.config ≡ s.config
      → y.0.config ≡ s.config
      → (if b then x else y).0.config ≡ s.config
  choice_config true s x y h k = h
  choice_config false s x y h k = k

  pub save_stats_config : (s : Store) (w : W) → (save_stats env s w).0.config ≡ s.config
  unfolding save_stats
  save_stats_config s w =
      choice_config s.stats_dirty s _ (s, w, none) (saved_config s (save_yaml env s w)) refl

  pub last_seen_valid :
      (seen : List (Text × ℕ)) (s : Store) (w : W)
      → validate_config (record_peer_last_seen env seen s w).0.config ≡ validate_config s.config
  unfolding record_peer_last_seen
  last_seen_valid [] s w = refl
  last_seen_valid (x ∷ seen) s w =
      ap validate_config (save_stats_config (record_peer_stats (seen_snapshots env (x ∷ seen)) s) w)
      ∙ record_peer_stats-valid (seen_snapshots env (x ∷ seen)) s
