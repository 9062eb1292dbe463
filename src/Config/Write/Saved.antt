-- ===== src/Config/Write/Saved.antt =====
-- The configuration on disk is the one in the store, unless there are statistics still to be saved.
use wg_busy.Prelude.{
  ◌≡◌, ◌≢◌, ◌⊎◌, inl, inr, refl, sym, ap, subst, ◌∙◌, true, List, [], ◌∷◌, Option, none, some, Text,
}
use wg_busy.Models.{AppConfig, ValidationError}
use wg_busy.Config.{Store, Env}
use wg_busy.Config.Disk.{DiskError, temp_path, save_yaml}
use wg_busy.Config.Disk.Atomic.{Files, Replaced, save_yaml-Replaced, render_wg_config_other}
use wg_busy.Config.Live.{ApplyError, apply_live}
use wg_busy.Config.Live.Kept.{Kept, KeptLive, apply_live_kept}
use wg_busy.Config.Live.Quiet.{Quiet, apply_live_same}
use wg_busy.Config.Tables.{ensure_vpn_gateway_routing_table_ids}
use wg_busy.Config.Write.{
  WriteResult, applied, saved_only, mutation_failed, invalid, not_saved, not_rendered, not_restored,
  with_config, clean, notified, restored, rendered, saved, validated, mutated, write,
}

-- The path of wg0.conf and that of the configuration are different, also with the suffix of the
-- temporary file.
abbrev pub PathsApart : Store → Type 0
PathsApart s = (temp_path s.wg_config_path ≢ s.config_path) × (s.wg_config_path ≢ s.config_path)

module _ {W : Type 0} {env : Env W} (contents : W → Text → Option Text)
    (files : Files env contents) where
  -- With no statistics to save, the file has the configuration of the store.
  abbrev pub Saved : Store → W → Type 0
  Saved s w = (s.stats_dirty ≡ true) ⊎ (contents w s.config_path ≡ env.marshal s.config)

  -- Only a failure to restore the file lets the two differ.
  abbrev pub SavedUnless : Store × W × WriteResult → Type 0
  SavedUnless (t, w, not_restored e f) = Unit
  SavedUnless (t, w, applied) = Saved t w
  SavedUnless (t, w, saved_only e es) = Saved t w
  SavedUnless (t, w, mutation_failed e) = Saved t w
  SavedUnless (t, w, invalid e es) = Saved t w
  SavedUnless (t, w, not_saved e) = Saved t w
  SavedUnless (t, w, not_rendered e) = Saved t w

  module _ (s : Store) (quiet : Quiet env (λ w. contents w s.config_path))
      (apart : PathsApart s) where
    file_of :
        (t next : Store) (w w1 : W)
        → next.config_path ≡ s.config_path
        → Kept next t
        → contents w s.config_path ≡ contents w1 s.config_path
        → contents w1 s.config_path ≡ env.marshal next.config
        → contents (env.on_change w t.config) t.config_path ≡ env.marshal t.config
    file_of t next w w1 path k same h =
        ap (λ p. contents (env.on_change w t.config) p) (k.2 ∙ path)
        ∙ quiet.change_same w t.config
        ∙ same
        ∙ h
        ∙ ap env.marshal (sym k.0)

    notified_saved :
        (t next : Store) (w w1 : W) (errors : List ApplyError)
        → next.config_path ≡ s.config_path
        → KeptLive next (t, w, errors)
        → contents w s.config_path ≡ contents w1 s.config_path
        → contents w1 s.config_path ≡ env.marshal next.config
        → SavedUnless (notified env (t, w, errors))
    unfolding notified
    notified_saved t next w w1 [] path k same h = inr (file_of t next w w1 path k.0 same h)
    notified_saved t next w w1 (e ∷ es) path k same h = inr (file_of t next w w1 path k.0 same h)

    restored_saved :
        (e : DiskError) (w1 : W) (r : W × Option DiskError)
        → save_yaml env (clean s) w1 ≡ r
        → SavedUnless (restored env (clean s) e r)
    unfolding restored
    restored_saved e w1 (w, none) h = inr (
        subst (λ x. Replaced contents files w1 s.config_path (env.marshal s.config) x) h
          (save_yaml-Replaced contents files (clean s) w1))
    restored_saved e w1 (w, some f) h = tt

    rendered_saved :
        (next : Store) (reason : Option Text) (w1 : W) (r : W × Option DiskError)
        → next.config_path ≡ s.config_path
        → contents r.0 s.config_path ≡ contents w1 s.config_path
        → contents w1 s.config_path ≡ env.marshal next.config
        → SavedUnless (rendered env s next reason r)
    unfolding rendered
    rendered_saved next reason w1 (w, some e) path other h = restored_saved e w _ refl
    rendered_saved next reason w1 (w, none) path other h =
        let r = apply_live env next reason w in
        notified_saved r.0 next r.1 w1 r.2 path (apply_live_kept env next reason w)
          (apply_live_same (λ w. contents w s.config_path) quiet next reason w ∙ other) h

    saved-saved :
        (next : AppConfig) (reason : Option Text) (w0 : W) (r : W × Option DiskError)
        → save_yaml env (with_config s next) w0 ≡ r
        → Saved s w0
        → SavedUnless (saved env s (with_config s next) reason r)
    unfolding saved with_config
    saved-saved next reason w0 (w, some e) h (inl dirty) = inl dirty
    saved-saved next reason w0 (w, some e) h (inr same) = inr (
        subst (λ x. Replaced contents files w0 s.config_path (env.marshal next) x) h
          (save_yaml-Replaced contents files (with_config s next) w0)
        ∙ same)
    saved-saved next reason w0 (w, none) h old =
        let full : Store = clean (with_config s next) in
        rendered_saved full reason w _ refl
          (render_wg_config_other contents files full w s.config_path apart.0 apart.1)
          (subst (λ x. Replaced contents files w0 s.config_path (env.marshal next) x) h
            (save_yaml-Replaced contents files (with_config s next) w0))

    validated-Saved :
        (next : AppConfig) (w : W) (errors : List ValidationError)
        → Saved s w
        → SavedUnless (validated env s next w errors)
    unfolding validated
    validated-Saved next w (e ∷ es) h = h
    validated-Saved next w [] h = saved-saved next _ w _ refl h

    mutated-Saved :
        (w : W) (r : AppConfig × Option Text) → Saved s w → SavedUnless (mutated env s w r)
    unfolding mutated
    mutated-Saved w (next, some e) h = h
    mutated-Saved w (next, none) h =
        validated-Saved (ensure_vpn_gateway_routing_table_ids next) w _ h

    -- If the file has the configuration of the store before `Write`, unless statistics were to be
    -- saved, it has so afterwards, whatever step failed, except where the former configuration could
    -- not be restored. The paths are different, and the commands leave the file alone.
    pub write-Saved :
        (mutate : AppConfig → AppConfig × Option Text) (w : W)
        → Saved s w
        → SavedUnless (write env mutate s w)
    unfolding write
    write-Saved mutate w h = mutated-Saved w (mutate s.config) h
