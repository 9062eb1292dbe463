-- ===== src/Config/Live/Reached.antt =====
-- What was done where no error is reported.
use wg_busy.Prelude.{
  ◌≡◌, refl, Bool, true, false, List, [], ◌∷◌, Option, none, some, Text, append_nil, if◌then◌else◌,
}
use wg_busy.Routing.Hooks.{Host}
use wg_busy.Routing.Reconcile.{Failure, reconcile}
use wg_busy.WireGuard.Live.{LiveError, reload_wg_config}
use wg_busy.Config.{Store, Env, host_for, applied_host}
use wg_busy.Config.Live.{
  ApplyError, apply_live, reconciled, reconcile_now, reloaded, wants_bgp, with_bgp,
}

module _ {W : Type 0} (env : Env W) where
  -- wg0 was up and was reloaded, and after that Reconcile took the routing from the state that was
  -- applied to the configuration of the store without a failure.
  abbrev pub Reached : Store → W → Type 0
  Reached s w =
      let live = reload_wg_config env.run w s.wg_config_path in
      (live.1 ≡ true)
      × (live.2 ≡ none)
      × ((reconcile env.is_up env.exec (applied_host env s) s.routing_state
            (host_for env s.config w) s.config live.0).1
          ≡ none)

  no_failure :
      (s : Store) (host : Host) (r : W × Option Failure)
      → (reconciled env s host r).2 ≡ []
      → r.1 ≡ none
  unfolding reconciled
  no_failure s host (w, none) h = refl
  no_failure s host (w, some f) h = cc h

  not_pending :
      (pending : Bool) (s : Store) (e : ApplyError) (w : W) (x : Store × W × List ApplyError)
      → (if pending then (s, w, e ∷ []) else x).2 ≡ []
      → x.2 ≡ []
  not_pending true s e w x h = cc h
  not_pending false s e w x h = h

  reloaded_reached :
      (s : Store) (reason : Option Text) (host : Host) (live : W × Bool × Option LiveError)
      → (reloaded env s reason host live).2 ≡ []
      → (live.1 ≡ true)
        × (live.2 ≡ none)
        × ((reconcile env.is_up env.exec
              (applied_host env s)
              s.routing_state
              host
              s.config
              live.0).1
            ≡ none)
  unfolding reloaded reconcile_now
  reloaded_reached s reason host (w, running, some e) h = cc h
  reloaded_reached s reason host (w, false, none) h = cc h
  reloaded_reached s reason host (w, true, none) h =
      (refl, refl, no_failure s host _ (not_pending s.wg_restart_pending s _ w _ h))

  errors_before :
      (b : Bool) (r : Store × W × List ApplyError) → (with_bgp env b r).2 ≡ [] → r.2 ≡ []
  unfolding with_bgp
  errors_before false r h = h
  errors_before true (s, w, errors) h = ((append_nil errors _).0 h).0

  pub apply_live-Reached :
      (s : Store) (reason : Option Text) (w : W) → (apply_live env s reason w).2 ≡ [] → Reached s w
  unfolding apply_live
  apply_live-Reached s reason w h =
      let host = host_for env s.config w in
      let live = reload_wg_config env.run w s.wg_config_path in
      reloaded_reached s reason host live (errors_before (wants_bgp env s live) _ h)
