-- ===== src/Config/Write.antt =====
-- config.go: `Write`.
pub mod Outcome
pub mod Saved
use wg_busy.Prelude.{
  Bool, true, false, ◌||◌, List, [], ◌∷◌, Option, none, some, if◌then◌else◌, Text,
}
use wg_busy.Models.{AppConfig, ValidationError}
use wg_busy.Models.Validate.Config.{validate_config}
use wg_busy.WireGuard.Restart.{server_restart_reason}
use wg_busy.Config.{Store, Env}
use wg_busy.Config.Disk.{DiskError, save_yaml, render_wg_config}
use wg_busy.Config.Live.{ApplyError, is_some, apply_live}
use wg_busy.Config.Tables.{ensure_vpn_gateway_routing_table_ids}

-- How `Write` returns: `nil`, an `ApplyError`, or the error of a step before it.
pub data WriteResult : Type 0 where
  applied : WriteResult
  saved_only : ApplyError → List ApplyError → WriteResult
  mutation_failed : Text → WriteResult
  invalid : ValidationError → List ValidationError → WriteResult
  not_saved : DiskError → WriteResult
  not_rendered : DiskError → WriteResult
  not_restored : DiskError → DiskError → WriteResult

-- What the new server settings need a restart for, and whether one is pending then.
unfoldable pub restart_error : Store → AppConfig → Option Text
restart_error s next =
    server_restart_reason (if s.wg_has_applied then s.wg_applied_server else s.config.server)
      next.server

unfoldable pub pending_after : Store → Option Text → Bool
pending_after s error =
    if s.wg_has_applied then is_some error else is_some error || s.wg_restart_pending

abbrev pub result_of : List ApplyError → WriteResult
result_of [] = applied
result_of (e ∷ es) = saved_only e es

-- The store with the new configuration, before it is saved.
unfoldable pub with_config : Store → AppConfig → Store
unfolding restart_error pending_after
with_config s next = record s {
  config = next;
  wg_restart_pending = pending_after s (restart_error s next);
}

abbrev pub clean : Store → Store
clean s = record s { stats_dirty = false }

module _ {W : Type 0} (env : Env W) where
  notified : Store × W × List ApplyError → Store × W × WriteResult
  notified (s, w, errors) = (s, env.on_change w s.config, result_of errors)

  -- The former configuration is saved again where wg0.conf could not be written.
  restored : Store → DiskError → W × Option DiskError → Store × W × WriteResult
  restored s error (w, none) = (s, w, not_rendered error)
  restored s error (w, some e) = (s, w, not_restored error e)

  rendered : Store → Store → Option Text → W × Option DiskError → Store × W × WriteResult
  unfolding restored notified
  rendered s next reason (w, some e) = restored (clean s) e (save_yaml env (clean s) w)
  rendered s next reason (w, none) = notified (apply_live env next reason w)

  saved : Store → Store → Option Text → W × Option DiskError → Store × W × WriteResult
  unfolding rendered
  saved s next reason (w, some e) = (s, w, not_saved e)
  saved s next reason (w, none) =
      rendered s (clean next) reason (render_wg_config env (clean next) w)

  validated : Store → AppConfig → W → List ValidationError → Store × W × WriteResult
  unfolding with_config saved
  validated s next w (e ∷ es) = (s, w, invalid e es)
  validated s next w [] =
      saved s (with_config s next) (restart_error s next) (save_yaml env (with_config s next) w)

  mutated : Store → W → AppConfig × Option Text → Store × W × WriteResult
  unfolding validated
  mutated s w (next, some e) = (s, w, mutation_failed e)
  mutated s w (next, none) =
      let full = ensure_vpn_gateway_routing_table_ids next in
      validated s full w (validate_config full)

  -- Wherever the store is left as it was, the source has put the backup of the configuration back.
  unfoldable pub write : (AppConfig → AppConfig × Option Text) → Store → W → Store × W × WriteResult
  unfolding mutated
  write mutate s w = mutated s w (mutate s.config)
