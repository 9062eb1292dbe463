-- ===== src/Config/Stats.antt =====
-- config.go: `RecordPeerStats`, `SaveStats` and `RecordPeerLastSeen`.
pub mod Recorded
pub mod Valid
use wg_busy.Prelude.{
  ℕ, ℤ, pos, int_eq, Bool, true, false, not, ◌&&◌, ◌||◌, List, [], ◌∷◌, Option, none, some,
  if◌then◌else◌, Text, lookup, ltb, ◌==◌,
}
use wg_busy.Models.{Peer}
use wg_busy.Config.{Store, Env}
use wg_busy.Config.Disk.{DiskError, save_yaml}

-- The latest statistics of a peer; a time of 0 is no time.
pub record PeerStatsSnapshot : Type 0 where
  pub last_seen : ℕ
  pub transfer_rx : ℤ
  pub transfer_tx : ℤ

-- `!stat.LastSeen.IsZero() && stat.LastSeen.After(peer.LastSeen)`
abbrev pub is_newer : Peer → PeerStatsSnapshot → Bool
is_newer p st = not (st.last_seen == 0) && ltb p.last_seen st.last_seen

abbrev pub counts_differ : Peer → PeerStatsSnapshot → Bool
counts_differ p st =
    not (int_eq st.transfer_rx p.transfer_rx) || not (int_eq st.transfer_tx p.transfer_tx)

-- The body of the loop, for the snapshot of the peer's key.
unfoldable pub recorded_peer : Peer → Option PeerStatsSnapshot → Peer
recorded_peer p none = p
recorded_peer p (some st) = record p {
  last_seen = if is_newer p st then st.last_seen else p.last_seen;
  transfer_rx = if counts_differ p st then st.transfer_rx else p.transfer_rx;
  transfer_tx = if counts_differ p st then st.transfer_tx else p.transfer_tx;
}

unfoldable pub is_changed : Peer → Option PeerStatsSnapshot → Bool
is_changed p none = false
is_changed p (some st) = is_newer p st || counts_differ p st

unfoldable pub recorded_peers : List (Text × PeerStatsSnapshot) → List Peer → List Peer
unfolding recorded_peer
recorded_peers stats [] = []
recorded_peers stats (p ∷ ps) =
    recorded_peer p (lookup stats p.public_key) ∷ recorded_peers stats ps

unfoldable pub any_changed : List (Text × PeerStatsSnapshot) → List Peer → Bool
unfolding is_changed
any_changed stats [] = false
any_changed stats (p ∷ ps) = is_changed p (lookup stats p.public_key) || any_changed stats ps

-- For no snapshots the source returns at once; the loop would change nothing either.
unfoldable pub record_peer_stats : List (Text × PeerStatsSnapshot) → Store → Store
unfolding recorded_peers any_changed
record_peer_stats [] s = s
record_peer_stats (st ∷ stats) s = record s {
  config = record s.config { peers = recorded_peers (st ∷ stats) s.config.peers };
  stats_dirty = any_changed (st ∷ stats) s.config.peers || s.stats_dirty;
}

module _ {W : Type 0} (env : Env W) where
  stats_saved : Store → W × Option DiskError → Store × W × Option DiskError
  stats_saved s (w, some e) = (s, w, some e)
  stats_saved s (w, none) = (record s { stats_dirty = false }, w, none)

  unfoldable pub save_stats : Store → W → Store × W × Option DiskError
  unfolding stats_saved
  save_stats s w = if s.stats_dirty then stats_saved s (save_yaml env s w) else (s, w, none)

  -- The snapshots that are made of the times have no counters.
  unfoldable pub seen_snapshots : List (Text × ℕ) → List (Text × PeerStatsSnapshot)
  seen_snapshots [] = []
  seen_snapshots ((key, time) ∷ seen) =
      (key, record { last_seen = time; transfer_rx = pos 0; transfer_tx = pos 0 })
      ∷ seen_snapshots seen

  unfoldable pub record_peer_last_seen : List (Text × ℕ) → Store → W → Store × W × Option DiskError
  unfolding seen_snapshots save_stats
  record_peer_last_seen [] s w = (s, w, none)
  record_peer_last_seen (x ∷ seen) s w =
      save_stats (record_peer_stats (seen_snapshots (x ∷ seen)) s) w
