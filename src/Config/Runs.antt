-- ===== src/Config/Runs.antt =====
-- Sequences of the store's operations: the configuration stays valid through all of them.
use wg_busy.Prelude.{ℕ, ◌≡◌, ap, ◌∙◌, List, [], ◌∷◌, Option, Text}
use wg_busy.Models.{AppConfig}
use wg_busy.Models.Validate.Config.{validate_config}
use wg_busy.Config.{Store, Env}
use wg_busy.Config.Live.{reapply_bgp, reapply_routing, render_checked, mark_wire_guard_restarted}
use wg_busy.Config.Live.Kept.{reapply_routing_config, mark_restarted_config}
use wg_busy.Config.Stats.{PeerStatsSnapshot, record_peer_stats, save_stats, record_peer_last_seen}
use wg_busy.Config.Stats.Valid.{record_peer_stats-valid, save_stats_config, last_seen_valid}
use wg_busy.Config.Write.{
  WriteResult, applied, saved_only, mutation_failed, invalid, not_saved, not_rendered, not_restored,
  write,
}
use wg_busy.Config.Write.Outcome.{Outcome, write-Outcome}

-- A call of the store.
pub data Op : Type 0 where
  writing : (AppConfig → AppConfig × Option Text) → Op
  recording : List (Text × PeerStatsSnapshot) → Op
  recording_seen : List (Text × ℕ) → Op
  saving_stats reapplying_bgp reapplying_routing rendering marking_restarted : Op

module _ {W : Type 0} (env : Env W) where
  abbrev first_two : {A : Type 0} → Store × W × A → Store × W
  first_two (s, w, a) = (s, w)

  unfoldable pub perform : Op → Store → W → Store × W
  perform (writing mutate) s w = first_two (write env mutate s w)
  perform (recording stats) s w = (record_peer_stats stats s, w)
  perform (recording_seen seen) s w = first_two (record_peer_last_seen env seen s w)
  perform saving_stats s w = first_two (save_stats env s w)
  perform reapplying_bgp s w = (s, (reapply_bgp env s w).0)
  perform reapplying_routing s w = first_two (reapply_routing env s w)
  perform rendering s w = (s, (render_checked env s w).0)
  perform marking_restarted s w = (mark_wire_guard_restarted env s w, w)

  unfoldable pub perform_all : List Op → Store → W → Store × W
  unfolding perform
  perform_all [] s w = (s, w)
  perform_all (op ∷ ops) s w = let (s', w') = perform op s w in perform_all ops s' w'

  outcome_valid :
      (mutate : AppConfig → AppConfig × Option Text) (s t : Store) (w0 w : W) (r : WriteResult)
      → validate_config s.config ≡ []
      → Outcome env mutate s w0 (t, w, r)
      → validate_config t.config ≡ []
  outcome_valid mutate s t w0 w applied v o = o.0.2
  outcome_valid mutate s t w0 w (saved_only e es) v o = o.2
  outcome_valid mutate s t w0 w (mutation_failed e) v o = ap (λ x. validate_config x.config) o.1 ∙ v
  outcome_valid mutate s t w0 w (invalid e es) v o = ap (λ x. validate_config x.config) o.1 ∙ v
  outcome_valid mutate s t w0 w (not_saved e) v o = ap (λ x. validate_config x.config) o.1 ∙ v
  outcome_valid mutate s t w0 w (not_rendered e) v o = ap (λ x. validate_config x.config) o.3 ∙ v
  outcome_valid mutate s t w0 w (not_restored e f) v o = ap (λ x. validate_config x.config) o.3 ∙ v

  perform_valid :
      (op : Op) (s : Store) (w : W)
      → validate_config s.config ≡ []
      → validate_config (perform op s w).0.config ≡ []
  unfolding perform
  perform_valid (writing mutate) s w v =
      let r = write env mutate s w in
      outcome_valid mutate s r.0 w r.1 r.2 v (write-Outcome env mutate s w)
  perform_valid (recording stats) s w v = record_peer_stats-valid stats s ∙ v
  perform_valid (recording_seen seen) s w v = last_seen_valid env seen s w ∙ v
  perform_valid saving_stats s w v = ap validate_config (save_stats_config env s w) ∙ v
  perform_valid reapplying_bgp s w v = v
  perform_valid reapplying_routing s w v = ap validate_config (reapply_routing_config env s w) ∙ v
  perform_valid rendering s w v = v
  perform_valid marking_restarted s w v = ap validate_config (mark_restarted_config env s w) ∙ v

-- After any sequence of the store's operations on a store with a valid configuration, whatever the disk
-- and the live services do, the configuration is valid.
pub perform_all_valid :
    {W : Type 0} (env : Env W) (ops : List Op) (s : Store) (w : W)
    → validate_config s.config ≡ []
    → validate_config (perform_all env ops s w).0.config ≡ []
unfolding perform_all
perform_all_valid env [] s w v = v
perform_all_valid env (op ∷ ops) s w v =
    let r = perform env op s w in perform_all_valid env ops r.0 r.1 (perform_valid env op s w v)
