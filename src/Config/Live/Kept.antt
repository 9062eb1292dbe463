-- ===== src/Config/Live/Kept.antt =====
-- What is left alone while the live services are brought to the configuration.
use wg_busy.Prelude.{
  ◌≡◌, ◌∙◌, refl, Bool, true, false, List, [], ◌∷◌, Option, none, some, Text, arith, if◌then◌else◌,
}
use wg_busy.Routing.Hooks.{Host}
use wg_busy.Routing.Reconcile.{Failure, reconcile}
use wg_busy.WireGuard.Live.{LiveError, reload_wg_config}
use wg_busy.Config.{Store, Env, host_for, applied_host}
use wg_busy.Config.Live.{
  ApplyError, apply_live, reconciled, reconcile_now, reloaded, wants_bgp, bgp_errors, with_bgp,
  ReapplyError, needs_restart, routing_failed, reload_failed, interface_down, restart_needed,
  bgp_failed, routing_outcome, render_outcome, reapply_routing, mark_wire_guard_restarted,
}
use wg_busy.Config.Disk.{DiskError, render_wg_config}

-- What stays the same while the live services are brought to the configuration.
abbrev pub Kept : Store → Store → Type 0
Kept s t =
    (t.config ≡ s.config)
    × (t.stats_dirty ≡ s.stats_dirty)
    × (t.config_path ≡ s.config_path)
    × (t.wg_config_path ≡ s.wg_config_path)
    × (t.wg_restart_pending ≡ s.wg_restart_pending)

-- With no error the applied routing state is the configuration.
abbrev pub Live : Store → List ApplyError → Type 0
Live t [] = (t.routing_state ≡ t.config) × (t.wg_restart_pending ≡ false)
Live t (e ∷ es) = Unit

abbrev pub KeptLive : {W : Type 0} → Store → Store × W × List ApplyError → Type 0
KeptLive s (t, w, errors) = Kept s t × Live t errors

module _ {W : Type 0} (env : Env W) where
  reconciled_kept :
      (s : Store) (host : Host) (r : W × Option Failure)
      → s.wg_restart_pending ≡ false
      → KeptLive s (reconciled env s host r)
  unfolding reconciled
  reconciled_kept s host (w, none) h = ground arith
  reconciled_kept s host (w, some f) h = ground arith

  -- A restart that is pending is reported; otherwise the routing is brought to the configuration.
  choice_kept :
      (pending : Bool) (s : Store) (x y : Store × W × List ApplyError)
      → (pending ≡ true → KeptLive s x)
      → (pending ≡ false → KeptLive s y)
      → KeptLive s (if pending then x else y)
  choice_kept true s x y h k = h refl
  choice_kept false s x y h k = k refl

  reloaded_kept :
      (s : Store) (reason : Option Text) (host : Host) (live : W × Bool × Option LiveError)
      → KeptLive s (reloaded env s reason host live)
  unfolding reloaded reconcile_now
  reloaded_kept s reason host (w, running, some e) = ground arith
  reloaded_kept s reason host (w, false, none) = ground arith
  reloaded_kept s reason host (w, true, none) =
      choice_kept s.wg_restart_pending s _ (reconcile_now env s host w)
        (λ e. ((refl, refl, refl, refl, refl), tt)) (reconciled_kept s host _)

  more-Kept :
      (s t : Store) (r : W × Option Text)
      → Kept s t × Live t []
      → Kept s t × Live t (bgp_errors env r).1
  unfolding bgp_errors
  more-Kept s t (w, none) h = h
  more-Kept s t (w, some e) h = (h.0, tt)

  bgp_kept :
      (b : Bool) (s t : Store) (w : W) (errors : List ApplyError)
      → KeptLive s (t, w, errors)
      → KeptLive s (with_bgp env b (t, w, errors))
  unfolding with_bgp
  bgp_kept false s t w errors h = h
  bgp_kept true s t w [] h = more-Kept s t (env.configure_bgp w t.config) h
  bgp_kept true s t w (e ∷ es) h = (h.0, tt)

  pub apply_live_kept :
      (s : Store) (reason : Option Text) (w : W) → KeptLive s (apply_live env s reason w)
  unfolding apply_live
  apply_live_kept s reason w =
      let host = host_for env s.config w in
      let live = reload_wg_config env.run w s.wg_config_path in
      let r = reloaded env s reason host live in
      bgp_kept (wants_bgp env s live) s r.0 r.1 r.2 (reloaded_kept s reason host live)

  routing_outcome_config :
      (r : Store × W × List ApplyError) → (routing_outcome env r).0.config ≡ r.0.config
  unfolding routing_outcome
  routing_outcome_config (s, w, []) = refl
  routing_outcome_config (s, w, routing_failed f ∷ es) = refl
  routing_outcome_config (s, w, reload_failed f ∷ es) = refl
  routing_outcome_config (s, w, interface_down ∷ es) = refl
  routing_outcome_config (s, w, restart_needed f ∷ es) = refl
  routing_outcome_config (s, w, bgp_failed f ∷ es) = refl

  reconciled_config :
      (s : Store) (host : Host) (r : W × Option Failure)
      → (reconciled env s host r).0.config ≡ s.config
  unfolding reconciled
  reconciled_config s host (w, none) = refl
  reconciled_config s host (w, some f) = refl

  reconcile_now_config :
      (s : Store) (host : Host) (w : W) → (reconcile_now env s host w).0.config ≡ s.config
  unfolding reconcile_now
  reconcile_now_config s host w =
      reconciled_config s host
        (reconcile env.is_up env.exec (applied_host env s) s.routing_state host s.config w)

  render_outcome_config :
      (s : Store) (r : W × Option DiskError) → (render_outcome env s r).0.config ≡ s.config
  unfolding render_outcome
  render_outcome_config s (w, some e) = refl
  render_outcome_config s (w, none) =
      routing_outcome_config (reconcile_now env s (host_for env s.config w) w)
      ∙ reconcile_now_config s (host_for env s.config w) w

  if_config :
      (b : Bool) (s : Store) (x y : Store × W × Option ReapplyError)
      → x.0.config ≡ s.config
      → y.0.config ≡ s.config
      → (if b then x else y).0.config ≡ s.config
  if_config true s x y h k = h
  if_config false s x y h k = k

  pub reapply_routing_config : (s : Store) (w : W) → (reapply_routing env s w).0.config ≡ s.config
  unfolding reapply_routing
  reapply_routing_config s w =
      if_config s.wg_restart_pending s (s, w, some needs_restart) _ refl
        (render_outcome_config s (render_wg_config env s w))

  pub mark_restarted_config :
      (s : Store) (w : W) → (mark_wire_guard_restarted env s w).config ≡ s.config
  unfolding mark_wire_guard_restarted
  mark_restarted_config s w = refl
