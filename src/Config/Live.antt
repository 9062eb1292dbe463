-- ===== src/Config/Live.antt =====
-- config.go: how `Write` brings the live services to the configuration that it saved, and
-- `ReapplyBGP`, `ReapplyRouting`, `RenderWGConfig` and `MarkWireGuardRestarted`.
pub mod Kept
pub mod Reached
pub mod Quiet
use wg_busy.Prelude.{
  Bool, true, false, not, ◌&&◌, ◌||◌, List, [], ◌∷◌, ◌++◌, Option, none, some, if◌then◌else◌, Text,
}
use wg_busy.Models.{AppConfig, ValidationError}
use wg_busy.Models.Validate.Config.{validate_config}
use wg_busy.Routing.Hooks.{Host}
use wg_busy.Routing.Reconcile.{Failure, reconcile}
use wg_busy.WireGuard.{err_restart_needed}
use wg_busy.WireGuard.Live.{LiveError, reload_wg_config}
use wg_busy.Config.{Store, Env, host_for, applied_host}
use wg_busy.Config.Disk.{DiskError, render_wg_config}

-- Why a live service is not at the configuration that was saved.
pub data ApplyError : Type 0 where
  reload_failed : LiveError → ApplyError
  interface_down : ApplyError
  restart_needed : Text → ApplyError
  routing_failed : Failure → ApplyError
  bgp_failed : Text → ApplyError

-- Why `ReapplyBGP`, `ReapplyRouting` and `RenderWGConfig` stop.
pub data ReapplyError : Type 0 where
  needs_restart : ReapplyError
  refused : ValidationError → List ValidationError → ReapplyError
  on_disk : DiskError → ReapplyError
  in_routing : Failure → ReapplyError
  in_bgp : Text → ReapplyError

abbrev pub is_some : {A : Type 0} → Option A → Bool
is_some none = false
is_some (some a) = true

abbrev reason_or_default : Option Text → Text
reason_or_default none = err_restart_needed
reason_or_default (some reason) = reason

module _ {W : Type 0} (env : Env W) where
  -- The routing state is replaced only if `Reconcile` succeeded.
  reconciled : Store → Host → W × Option Failure → Store × W × List ApplyError
  reconciled s host (w, some f) = (s, w, routing_failed f ∷ [])
  reconciled s host (w, none) = (
    record s {
      routing_state = s.config;
      routing_nets = host.gateways;
      routing_bgp = host.advertised;
    },
    w,
    [],
  )

  reconcile_now : Store → Host → W → Store × W × List ApplyError
  unfolding reconciled
  reconcile_now s host w =
      reconciled s host
        (reconcile env.is_up env.exec (applied_host env s) s.routing_state host s.config w)

  reloaded : Store → Option Text → Host → W × Bool × Option LiveError → Store × W × List ApplyError
  unfolding reconcile_now
  reloaded s reason host (w, running, some e) = (s, w, reload_failed e ∷ [])
  reloaded s reason host (w, false, none) = (s, w, interface_down ∷ [])
  reloaded s reason host (w, true, none) =
      if s.wg_restart_pending
      then (s, w, restart_needed (reason_or_default reason) ∷ [])
      else reconcile_now s host w

  -- BGP is configured when it is off, or when wg0 runs with the whole configuration.
  wants_bgp : Store → W × Bool × Option LiveError → Bool
  wants_bgp s (w, running, error) =
      not s.config.server.bgp_enabled || running && not (is_some error) && not s.wg_restart_pending

  bgp_errors : W × Option Text → W × List ApplyError
  bgp_errors (w, none) = (w, [])
  bgp_errors (w, some e) = (w, bgp_failed e ∷ [])

  with_bgp : Bool → Store × W × List ApplyError → Store × W × List ApplyError
  unfolding bgp_errors
  with_bgp false r = r
  with_bgp true (s, w, errors) =
      let (w', more) = bgp_errors (env.configure_bgp w s.config) in (s, w', errors ++ more)

  -- The live part of `Write`, after the files are written.
  unfoldable pub apply_live : Store → Option Text → W → Store × W × List ApplyError
  unfolding reloaded wants_bgp with_bgp
  apply_live s reason w =
      let host = host_for env s.config w in
      let live = reload_wg_config env.run w s.wg_config_path in
      with_bgp (wants_bgp s live) (reloaded s reason host live)

  bgp_outcome : W × Option Text → W × Option ReapplyError
  bgp_outcome (w, none) = (w, none)
  bgp_outcome (w, some e) = (w, some (in_bgp e))

  unfoldable pub reapply_bgp : Store → W → W × Option ReapplyError
  unfolding bgp_outcome
  reapply_bgp s w =
      if s.wg_restart_pending && s.config.server.bgp_enabled
      then (w, some needs_restart)
      else bgp_outcome (env.configure_bgp w s.config)

  routing_outcome : Store × W × List ApplyError → Store × W × Option ReapplyError
  routing_outcome (s, w, routing_failed f ∷ es) = (s, w, some (in_routing f))
  routing_outcome (s, w, es) = (s, w, none)

  render_outcome : Store → W × Option DiskError → Store × W × Option ReapplyError
  unfolding reconcile_now routing_outcome
  render_outcome s (w, some e) = (s, w, some (on_disk e))
  render_outcome s (w, none) = routing_outcome (reconcile_now s (host_for env s.config w) w)

  unfoldable pub reapply_routing : Store → W → Store × W × Option ReapplyError
  unfolding render_outcome
  reapply_routing s w =
      if s.wg_restart_pending
      then (s, w, some needs_restart)
      else render_outcome s (render_wg_config env s w)

  disk_outcome : W × Option DiskError → W × Option ReapplyError
  disk_outcome (w, none) = (w, none)
  disk_outcome (w, some e) = (w, some (on_disk e))

  render_if_valid : Store → W → List ValidationError → W × Option ReapplyError
  unfolding disk_outcome
  render_if_valid s w [] = disk_outcome (render_wg_config env s w)
  render_if_valid s w (e ∷ es) = (w, some (refused e es))

  -- `RenderWGConfig`
  unfoldable pub render_checked : Store → W → W × Option ReapplyError
  unfolding render_if_valid
  render_checked s w = render_if_valid s w (validate_config s.config)

  unfoldable pub mark_wire_guard_restarted : Store → W → Store
  mark_wire_guard_restarted s w = record s {
    wg_restart_pending = false;
    wg_applied_server = s.config.server;
    wg_has_applied = true;
    routing_state = s.config;
    routing_nets = (host_for env s.config w).gateways;
    routing_bgp = (host_for env s.config w).advertised;
  }
