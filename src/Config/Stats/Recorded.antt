-- ===== src/Config/Stats/Recorded.antt =====
-- What recording statistics does to the peers, and to the file.
use wg_busy.Prelude.{◌≤◌, ◌≡◌, ◌⊎◌, List, [], ◌∷◌, Option, none, some, Text, lookup}
use wg_busy.Models.{Peer}
use wg_busy.Config.Stats.{PeerStatsSnapshot}

-- Without a snapshot the peer stays as it is. With one it has the snapshot's counters, and the later of
-- the two times.
abbrev pub Recorded : Option PeerStatsSnapshot → Peer → Peer → Type 0
Recorded none p q = q ≡ p
Recorded (some st) p q =
    (q ≡ record p {
      last_seen = q.last_seen;
      transfer_rx = st.transfer_rx;
      transfer_tx = st.transfer_tx;
    })
    × (p.last_seen ≤ q.last_seen)
    × (st.last_seen ≤ q.last_seen)
    × ((q.last_seen ≡ p.last_seen) ⊎ (q.last_seen ≡ st.last_seen))

abbrev pub AllRecorded : List (Text × PeerStatsSnapshot) → List Peer → List Peer → Type 0
AllRecorded stats [] [] = Unit
AllRecorded stats [] (q ∷ qs) = ⊥
AllRecorded stats (p ∷ ps) [] = ⊥
AllRecorded stats (p ∷ ps) (q ∷ qs) =
    Recorded (lookup stats p.public_key) p q × AllRecorded stats ps qs
