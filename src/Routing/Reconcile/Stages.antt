-- ===== src/Routing/Reconcile/Stages.antt =====
-- Which commands `Reconcile` runs, for each way it can end.
use wg_busy.Prelude.{
  ◌≡◌, refl, sym, ap, ◌∙◌, subst, Bool, true, false, inl, inr, List, [], ◌∷◌, ◌++◌, Option, none,
  some, Text, Bool-cases, if◌then◌else◌,
}
use wg_busy.Models.{AppConfig}
use wg_busy.Routing.Egress.{strict_firewall_commands}
use wg_busy.Routing.Guards.{affected_sources}
use wg_busy.Routing.Hooks.{Host, teardown_commands, setup_commands}
use wg_busy.Routing.Reconcile.{
  Failure, installing_guards, removing_previous, updating_chains, installing_next, removing_guards,
  guards, apply_commands, step, reconcile, failed_with,
}

module _ {ℓ} {W : Type ℓ} (up : W → Bool) (exec : W → Text → W × Bool) where
  -- The state after all the commands, whether they succeed or not.
  pub after : W → List Text → W
  after w [] = w
  after w (c ∷ cs) = after (exec w c).0 cs

  -- Each command succeeds, in this order.
  abbrev pub AllOk : W → List Text → Type 0
  AllOk w [] = Unit {0}
  AllOk w (c ∷ cs) = ((exec w c).1 ≡ true) × AllOk (exec w c).0 cs

  after-append : (w : W) (xs ys : List Text) → after w (xs ++ ys) ≡ after (after w xs) ys
  unfolding after
  after-append w [] ys = refl
  after-append w (x ∷ xs) ys = after-append (exec w x).0 xs ys

  AllOk-append :
      (w : W) (xs ys : List Text) → AllOk w xs → AllOk (after w xs) ys → AllOk w (xs ++ ys)
  unfolding after
  AllOk-append w [] ys hx hy = hy
  AllOk-append w (x ∷ xs) ys hx hy = (hx.0, AllOk-append (exec w x).0 xs ys hx.1 hy)

  -- The commands up to `c` ran and succeeded, `c` failed, and nothing ran after it.
  abbrev pub Stopped : W → List Text → Text → W → Type ℓ
  Stopped w cmds c w' =
      (pre : List Text) × (post : List Text) × (cmds ≡ pre ++ c ∷ post)
      × AllOk w pre
      × ((exec (after w pre) c).1 ≡ false)
      × (w' ≡ (exec (after w pre) c).0)

  abbrev Applied : W → List Text → W → Option Text → Type ℓ
  Applied w cmds w' none = AllOk w cmds × (w' ≡ after w cmds)
  Applied w cmds w' (some c) = Stopped w cmds c w'

  -- One more command in front.
  Applied-cons :
      (w : W) (c : Text) (cs : List Text) (w' : W) (o : Option Text)
      → (exec w c).1 ≡ true
      → Applied (exec w c).0 cs w' o
      → Applied w (c ∷ cs) w' o
  unfolding after
  Applied-cons w c cs w' none ok (oks, e) = ((ok, oks), e)
  Applied-cons w c cs w' (some d) ok (pre, post, shape, oks, bad, e) =
      (c ∷ pre, post, ap (λ x. c ∷ x) shape, (ok, oks), bad, e)

  apply_commands-Applied :
      (w : W) (cmds : List Text)
      → Applied w cmds (apply_commands up exec w cmds).0 (apply_commands up exec w cmds).1
  unfolding apply_commands after
  apply_commands-Applied w [] = (tt, refl)
  apply_commands-Applied w (c ∷ cs) = elim (Bool-cases (exec w c).1) [
    | inl ok ↦ simp ok (
        Applied-cons w c cs _ (apply_commands up exec (exec w c).0 cs).1 ok
          (apply_commands-Applied (exec w c).0 cs))
    | inr bad ↦ simp bad ([], cs, refl, tt, bad, refl)
  ]

  -- A step of `Reconcile`: how its failure is called, and its commands.
  pub record Stage : Type 0 where
    pub kind : Text → Failure
    pub cmds : List Text

  pub all_commands : List Stage → List Text
  all_commands [] = []
  all_commands (s ∷ ss) = s.cmds ++ all_commands ss

  -- All stages ran to their end, or the commands of one stage stopped after those of the stages
  -- before it had all succeeded.
  abbrev pub Ended : W → List Stage → W → Option Failure → Type ℓ
  Ended w stages w' none = AllOk w (all_commands stages) × (w' ≡ after w (all_commands stages))
  Ended w stages w' (some f) =
      (before : List Stage) × (s : Stage) × (later : List Stage) × (c : Text) × (stages
        ≡ before ++ s ∷ later)
      × (f ≡ s.kind c)
      × AllOk w (all_commands before)
      × Stopped (after w (all_commands before)) s.cmds c w'

  unfoldable pub run_stages : W → Option Failure → List Stage → W × Option Failure
  unfolding step apply_commands
  run_stages w r [] = (w, r)
  run_stages w r (s ∷ ss) = let (w', r') = step up exec s.kind s.cmds w r in run_stages w' r' ss

  run_stages_failed :
      (w : W) (f : Failure) (ss : List Stage) → run_stages w (some f) ss ≡ (w, some f)
  unfolding run_stages step
  run_stages_failed w f [] = refl
  run_stages_failed w f (s ∷ ss) = run_stages_failed w f ss

  Ended-cons :
      (w : W) (s : Stage) (ss : List Stage) (w' : W) (o : Option Failure)
      → AllOk w s.cmds
      → Ended (after w s.cmds) ss w' o
      → Ended w (s ∷ ss) w' o
  unfolding all_commands
  Ended-cons w s ss w' none oks (more, e) = (
    AllOk-append w s.cmds (all_commands ss) oks more,
    e ∙ sym (after-append w s.cmds (all_commands ss)),
  )
  Ended-cons w s ss w' (some f) oks (before, t, later, c, shape, kind, more, stop) = (
    s ∷ before,
    t,
    later,
    c,
    ap (λ x. s ∷ x) shape,
    kind,
    AllOk-append w s.cmds (all_commands before) oks more,
    subst (λ x. Stopped x t.cmds c w') (sym (after-append w s.cmds (all_commands before))) stop,
  )

  -- A stage, by what its commands came to.
  Ended-stage :
      (w : W) (s : Stage) (ss : List Stage) (w1 : W) (o : Option Text)
      → Applied w s.cmds w1 o
      → Ended
          (after w s.cmds)
          ss
          (run_stages (after w s.cmds) none ss).0
          (run_stages (after w s.cmds) none ss).1
      → Ended w
          (s ∷ ss)
          (run_stages w1 (failed_with s.kind o) ss).0
          (run_stages w1 (failed_with s.kind o) ss).1
  unfolding all_commands after
  Ended-stage w s ss w1 none (oks, e) rest = rw e (Ended-cons w s ss _ _ oks rest)
  Ended-stage w s ss w1 (some c) stop rest =
      rw (run_stages_failed w1 (s.kind c) ss) ([], s, ss, c, refl, refl, tt, stop)

  run_stages-Ended :
      (w : W) (ss : List Stage) → Ended w ss (run_stages w none ss).0 (run_stages w none ss).1
  unfolding run_stages step all_commands after
  run_stages-Ended w [] = (tt, refl)
  run_stages-Ended w (s ∷ ss) =
      Ended-stage w s ss _ (apply_commands up exec w s.cmds).1 (apply_commands-Applied w s.cmds)
        (run_stages-Ended (after w s.cmds) ss)

  -- The five steps of `Reconcile`.
  abbrev pub stages : Host → AppConfig → Host → AppConfig → List Stage
  stages previous_host previous next_host next =
      let sources = affected_sources previous next in
      record { kind = installing_guards; cmds = guards sources true }
      ∷ record { kind = removing_previous; cmds = teardown_commands previous_host previous }
      ∷ record {
        kind = updating_chains;
        cmds = strict_firewall_commands next next_host.gateways true;
      }
      ∷ record { kind = installing_next; cmds = setup_commands next_host next }
      ∷ record { kind = removing_guards; cmds = guards sources false }
      ∷ []

  -- The commands of `reconcile`, as the run of its stages.
  pub reconcile-stages :
      (previous_host : Host) (previous : AppConfig) (next_host : Host) (next : AppConfig) (w : W)
      → reconcile up exec previous_host previous next_host next w ≡ (
          if up w
          then run_stages w none (stages previous_host previous next_host next)
          else (w, none))
  unfolding reconcile run_stages
  reconcile-stages previous_host previous next_host next w = refl

  -- While wg0 is up, the commands that run are those of the five steps in their order: the guards of
  -- the affected strict sources, the removal of the previous state, the strict chains, the next
  -- state, the removal of the guards. With no error they all succeeded. An error names the step of
  -- the first command that failed; every command before it succeeded and none after it ran, so no
  -- guard is removed unless all the steps before have succeeded.
  pub reconcile-Ended :
      (previous_host : Host) (previous : AppConfig) (next_host : Host) (next : AppConfig) (w : W)
      → up w ≡ true
      → Ended w
          (stages previous_host previous next_host next)
          (reconcile up exec previous_host previous next_host next w).0
          (reconcile up exec previous_host previous next_host next w).1
  unfolding reconcile run_stages
  reconcile-Ended previous_host previous next_host next w h =
      simp h (run_stages-Ended w (stages previous_host previous next_host next))
