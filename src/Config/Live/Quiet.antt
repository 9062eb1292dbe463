-- ===== src/Config/Live/Quiet.antt =====
-- The commands that bring the live services to the configuration do not touch its file.
use wg_busy.Prelude.{
  ◌≡◌, refl, ap, ◌∙◌, Bool, true, false, inl, inr, Bool-cases, List, [], ◌∷◌, Option, none, some,
  Text, if◌then◌else◌,
}
use wg_busy.Models.{AppConfig}
use wg_busy.Routing.Hooks.{Host}
use wg_busy.Routing.Reconcile.{Failure, apply_commands, step, reconcile}
use wg_busy.WireGuard.Live.{LiveError}
use wg_busy.Routing.Reconcile.Stages.{Stage, stages, run_stages, reconcile-stages}
use wg_busy.WireGuard.Live.Quiet.{reload_wg_config_same}
use wg_busy.Config.{Store, Env, host_for, applied_host}
use wg_busy.Config.Live.{
  ApplyError, apply_live, reconciled, reconcile_now, reloaded, bgp_errors, with_bgp,
}

-- Commands, the BGP service and the listeners leave the file alone.
pub record Quiet {W : Type 0} (env : Env W) (file : W → Option Text) : Type 0 where
  pub run_same :
      (w : W) (name : Text) (args : List Text) (stdin : Option Text)
      → file (env.run w name args stdin).0 ≡ file w
  pub exec_same : (w : W) (command : Text) → file (env.exec w command).0 ≡ file w
  pub bgp_same : (w : W) (cfg : AppConfig) → file (env.configure_bgp w cfg).0 ≡ file w
  pub change_same : (w : W) (cfg : AppConfig) → file (env.on_change w cfg) ≡ file w

module _ {W : Type 0} {env : Env W} (file : W → Option Text) (quiet : Quiet env file) where
  commands_same :
      (w : W) (cs : List Text) → file (apply_commands env.is_up env.exec w cs).0 ≡ file w
  unfolding apply_commands
  commands_same w [] = refl
  commands_same w (c ∷ cs) = elim (Bool-cases (env.exec w c).1) [
    | inl ok ↦ simp ok (commands_same (env.exec w c).0 cs ∙ quiet.exec_same w c)
    | inr bad ↦ simp bad (quiet.exec_same w c)
  ]

  step_same :
      (kind : Text → Failure) (cs : List Text) (w : W) (o : Option Failure)
      → file (step env.is_up env.exec kind cs w o).0 ≡ file w
  unfolding step
  step_same kind cs w (some f) = refl
  step_same kind cs w none = commands_same w cs

  if_same :
      (b : Bool) (w : W) (x y : W × Option Failure)
      → file x.0 ≡ file w
      → file y.0 ≡ file w
      → file (if b then x else y).0 ≡ file w
  if_same true w x y h k = h
  if_same false w x y h k = k

  stages_same :
      (w : W) (r : Option Failure) (ss : List (Stage env.is_up env.exec))
      → file (run_stages env.is_up env.exec w r ss).0 ≡ file w
  unfolding run_stages
  stages_same w r [] = refl
  stages_same w r (s ∷ ss) =
      let next = step env.is_up env.exec s.kind s.cmds w r in
      stages_same next.0 next.1 ss ∙ step_same s.kind s.cmds w r

  reconcile_same :
      (previous_host : Host) (previous : AppConfig) (host : Host) (next : AppConfig) (w : W)
      → file (reconcile env.is_up env.exec previous_host previous host next w).0 ≡ file w
  reconcile_same previous_host previous host next w =
      ap (λ x. file x.0) (reconcile-stages env.is_up env.exec previous_host previous host next w)
      ∙ if_same (env.is_up w) w _ (w, none)
          (stages_same w none (stages env.is_up env.exec previous_host previous host next)) refl

  reconciled_same :
      (s : Store) (host : Host) (r : W × Option Failure)
      → file (reconciled env s host r).1 ≡ file r.0
  unfolding reconciled
  reconciled_same s host (w, none) = refl
  reconciled_same s host (w, some f) = refl

  reconcile_now_same :
      (s : Store) (host : Host) (w : W) → file (reconcile_now env s host w).1 ≡ file w
  unfolding reconcile_now
  reconcile_now_same s host w =
      reconciled_same s host _ ∙ reconcile_same (applied_host env s) s.routing_state host s.config w

  choice_same :
      (b : Bool) (w : W) (x y : Store × W × List ApplyError)
      → file x.1 ≡ file w
      → file y.1 ≡ file w
      → file (if b then x else y).1 ≡ file w
  choice_same true w x y h k = h
  choice_same false w x y h k = k

  reloaded_same :
      (s : Store) (reason : Option Text) (host : Host) (live : W × Bool × Option LiveError)
      → file (reloaded env s reason host live).1 ≡ file live.0
  unfolding reloaded
  reloaded_same s reason host (w, running, some e) = refl
  reloaded_same s reason host (w, false, none) = refl
  reloaded_same s reason host (w, true, none) =
      choice_same s.wg_restart_pending w _ (reconcile_now env s host w) refl
        (reconcile_now_same s host w)

  errors_same : (r : W × Option Text) → file (bgp_errors env r).0 ≡ file r.0
  unfolding bgp_errors
  errors_same (w, none) = refl
  errors_same (w, some e) = refl

  with_bgp_same :
      (b : Bool) (r : Store × W × List ApplyError) → file (with_bgp env b r).1 ≡ file r.1
  unfolding with_bgp
  with_bgp_same false r = refl
  with_bgp_same true (s, w, errors) = errors_same _ ∙ quiet.bgp_same w s.config

  pub apply_live_same :
      (s : Store) (reason : Option Text) (w : W) → file (apply_live env s reason w).1 ≡ file w
  unfolding apply_live
  apply_live_same s reason w =
      with_bgp_same _ _
      ∙ reloaded_same s reason (host_for env s.config w) _
      ∙ reload_wg_config_same env.run file quiet.run_same w s.wg_config_path
