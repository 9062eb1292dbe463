-- ===== src/Config/Write/Outcome.antt =====
-- What `Write` leaves in the store and has done to the disk, by the way it returns.
use wg_busy.Prelude.{◌≡◌, refl, false, List, [], ◌∷◌, Option, none, some, Text, sym, subst, ap, ◌∙◌}
use wg_busy.Models.{AppConfig, ValidationError}
use wg_busy.Models.Validate.Config.{validate_config}
use wg_busy.Config.{Store, Env}
use wg_busy.Config.Disk.{DiskError, save_yaml, render_wg_config}
use wg_busy.Config.Live.{ApplyError, apply_live}
use wg_busy.Config.Live.Kept.{KeptLive, apply_live_kept}
use wg_busy.Config.Live.Reached.{Reached, apply_live-Reached}
use wg_busy.Config.Tables.{ensure_vpn_gateway_routing_table_ids}
use wg_busy.Config.Write.{
  WriteResult, applied, saved_only, mutation_failed, invalid, not_saved, not_rendered, not_restored,
  restart_error, with_config, clean, notified, restored, rendered, saved, validated, mutated, write,
}

module _ {W : Type 0} (env : Env W) (mutate : AppConfig → AppConfig × Option Text) (s : Store)
    (w0 : W) where
  -- The configuration that the change asks for, completed, and the store that has it.
  abbrev pub wanted : AppConfig
  wanted = ensure_vpn_gateway_routing_table_ids (mutate s.config).0

  abbrev pub next_store : Store
  next_store = with_config s wanted

  -- Saving it, and rendering wg0.conf after that.
  abbrev pub saving : W × Option DiskError
  saving = save_yaml env next_store w0

  abbrev pub rendering : W × Option DiskError
  rendering = render_wg_config env (clean next_store) saving.0

  -- Putting the former configuration back after that.
  abbrev pub restoring : W × Option DiskError
  restoring = save_yaml env (clean s) rendering.0

  -- The change has no error; what it asks for, completed, is valid and is the store's; it was saved and
  -- rendered without an error, and the rest was done to the disk that this left.
  abbrev pub Committed : Store → W → Type 0
  Committed t w =
      ((mutate s.config).1 ≡ none)
      × (t.config ≡ wanted)
      × (validate_config t.config ≡ [])
      × (t.stats_dirty ≡ false)
      × (saving.1 ≡ none)
      × (rendering.1 ≡ none)
      × (w
          ≡ env.on_change (apply_live env (clean next_store) (restart_error s wanted) rendering.0).1
              t.config)

  -- Either the change is committed, or the store is what it was.
  abbrev pub Outcome : Store × W × WriteResult → Type 0
  Outcome (t, w, applied) =
      Committed t w
      × Reached env (clean next_store) rendering.0
      × (t.routing_state ≡ t.config)
      × (t.wg_restart_pending ≡ false)
  Outcome (t, w, saved_only e es) = Committed t w
  Outcome (t, w, mutation_failed e) = ((mutate s.config).1 ≡ some e) × (t ≡ s) × (w ≡ w0)
  Outcome (t, w, invalid e es) = (validate_config wanted ≡ e ∷ es) × (t ≡ s) × (w ≡ w0)
  Outcome (t, w, not_saved e) = (saving ≡ (w, some e)) × (t ≡ s)
  Outcome (t, w, not_rendered e) =
      (saving.1 ≡ none) × (rendering.1 ≡ some e) × (restoring ≡ (w, none)) × (t ≡ clean s)
  Outcome (t, w, not_restored e f) =
      (saving.1 ≡ none) × (rendering.1 ≡ some e) × (restoring ≡ (w, some f)) × (t ≡ clean s)

  -- What is known once the configuration is valid.
  abbrev Accepted : Type 0
  Accepted = ((mutate s.config).1 ≡ none) × (validate_config wanted ≡ [])

  notified_outcome :
      (r : Store × W × List ApplyError)
      → apply_live env (clean next_store) (restart_error s wanted) rendering.0 ≡ r
      → Accepted
      → saving.1 ≡ none
      → rendering.1 ≡ none
      → KeptLive (clean next_store) r
      → Outcome (notified env r)
  unfolding notified with_config
  notified_outcome (t, w, []) e (ok, valid) a b (kept, live) = (
    (
      ok,
      kept.0,
      ap validate_config kept.0 ∙ valid,
      kept.1,
      a,
      b,
      ap (λ r. env.on_change r.1 t.config) (sym e),
    ),
    apply_live-Reached env (clean next_store) (restart_error s wanted) rendering.0
        (ap (λ r. r.2) e),
    live.0,
    live.1,
  )
  notified_outcome (t, w, x ∷ xs) e (ok, valid) a b (kept, live) = (
    ok,
    kept.0,
    ap validate_config kept.0 ∙ valid,
    kept.1,
    a,
    b,
    ap (λ r. env.on_change r.1 t.config) (sym e),
  )

  restored_outcome :
      (e : DiskError) (r : W × Option DiskError)
      → restoring ≡ r
      → saving.1 ≡ none
      → rendering.1 ≡ some e
      → Outcome (restored env (clean s) e r)
  unfolding restored
  restored_outcome e (w, none) q a b = (a, b, q, refl)
  restored_outcome e (w, some f) q a b = (a, b, q, refl)

  rendered_outcome :
      (r : W × Option DiskError)
      → rendering ≡ r
      → Accepted
      → saving.1 ≡ none
      → Outcome (rendered env s (clean next_store) (restart_error s wanted) r)
  unfolding rendered
  rendered_outcome (w, some e) q acc a =
      restored_outcome e _ (ap (λ r. save_yaml env (clean s) r.0) q) a (ap (λ r. r.1) q)
  rendered_outcome (w, none) q acc a =
      let same = ap (λ r. apply_live env (clean next_store) (restart_error s wanted) r.0) q in
      notified_outcome _ same acc a (ap (λ r. r.1) q)
        (apply_live_kept env (clean next_store) (restart_error s wanted) w)

  saved_outcome :
      (r : W × Option DiskError)
      → saving ≡ r
      → Accepted
      → Outcome (saved env s next_store (restart_error s wanted) r)
  unfolding saved
  saved_outcome (w, some e) q acc = (q, refl)
  saved_outcome (w, none) q acc =
      rendered_outcome _ (ap (λ r. render_wg_config env (clean next_store) r.0) q) acc
        (ap (λ r. r.1) q)

  validated_outcome :
      (errors : List ValidationError)
      → (mutate s.config).1 ≡ none
      → validate_config wanted ≡ errors
      → Outcome (validated env s wanted w0 errors)
  unfolding validated
  validated_outcome (e ∷ es) ok h = (h, refl, refl)
  validated_outcome [] ok h = saved_outcome _ refl (ok, h)

  mutated_outcome :
      (r : AppConfig × Option Text) → mutate s.config ≡ r → Outcome (mutated env s w0 r)
  unfolding mutated
  mutated_outcome (next, some e) h = (ap (λ x. x.1) h, refl, refl)
  mutated_outcome (next, none) h =
      subst (λ cfg. Outcome (validated env s cfg w0 (validate_config cfg)))
        (ap (λ x. ensure_vpn_gateway_routing_table_ids x.0) h)
        (validated_outcome (validate_config wanted) (ap (λ x. x.1) h) refl)

-- `Write` refines an atomic change of the configuration. Returning no error or an `ApplyError`, the
-- store has the changed configuration, its gateways with routing tables, which is valid, and saving
-- it and rendering wg0.conf succeeded, one after the other. With no error wg0 was then reloaded and
-- `Reconcile` took the routing to this configuration without a failure; the store has it as the
-- applied routing, and no restart is pending. With any other error the store is what it was, or
-- what it was with its statistics saved: an error of the change or of the validation left the disk
-- alone, a failed save is the error that is returned, and after a failed rendering the former
-- configuration was saved again, or that failed, too, as the error says.
pub write-Outcome :
    {W : Type 0} (env : Env W) (mutate : AppConfig → AppConfig × Option Text) (s : Store) (w : W)
    → Outcome env mutate s w (write env mutate s w)
unfolding write
write-Outcome env mutate s w = mutated_outcome env mutate s w (mutate s.config) refl
