-- ===== src/Routing/Reconcile.antt =====
-- routing.go: `Reconcile`. The shell and the state of the host are parameters: `exec` runs one
-- command and says whether it succeeded, and `up` is whether wg0 exists.
pub mod Stages
use wg_busy.Prelude.{
  ℕ, Bool, true, false, List, [], ◌∷◌, ◌++◌, Option, none, some, if◌then◌else◌, Text,
}
use wg_busy.Models.{AppConfig}
use wg_busy.Routing.Rules.{is_nil}
use wg_busy.Routing.Egress.{strict_firewall_commands}
use wg_busy.Routing.Guards.{affected_sources, temporary_reject_commands}
use wg_busy.Routing.Hooks.{Host, teardown_commands, setup_commands}

-- The step that failed, and the command that did not succeed.
pub data Failure : Type 0 where
  installing_guards removing_previous updating_chains installing_next removing_guards :
      Text → Failure

-- `if len(affectedStrictSources) > 0`
unfoldable pub guards : List Text → Bool → List Text
guards sources add = if is_nil sources then [] else temporary_reject_commands sources add

abbrev pub failed_with : (Text → Failure) → Option Text → Option Failure
failed_with kind none = none
failed_with kind (some c) = some (kind c)

module _ {ℓ} {W : Type ℓ} (up : W → Bool) (exec : W → Text → W × Bool) where
  -- Up to the first command that fails.
  unfoldable pub apply_commands : W → List Text → W × Option Text
  apply_commands w [] = (w, none)
  apply_commands w (c ∷ cs) =
      let (w', ok) = exec w c in
      let rest = apply_commands w' cs in if ok then rest else (w', some c)

  -- A step runs only if no step before it failed.
  unfoldable pub step : (Text → Failure) → List Text → W → Option Failure → W × Option Failure
  step kind cmds w (some f) = (w, some f)
  step kind cmds w none = let (w', result) = apply_commands w cmds in (w', failed_with kind result)

  unfoldable pub reconcile : Host → AppConfig → Host → AppConfig → W → W × Option Failure
  unfolding step apply_commands
  reconcile previous_host previous next_host next w =
      let sources = affected_sources previous next in
      let (w1, r1) = step installing_guards (guards sources true) w none in
      let (w2, r2) = step removing_previous (teardown_commands previous_host previous) w1 r1 in
      let (w3, r3) =
        step updating_chains (strict_firewall_commands next next_host.gateways true) w2 r2 in
      let (w4, r4) = step installing_next (setup_commands next_host next) w3 r3 in
      let end = step removing_guards (guards sources false) w4 r4 in if up w then end else (w, none)
