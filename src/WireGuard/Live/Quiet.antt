-- ===== src/WireGuard/Live/Quiet.antt =====
-- What no command changes, reloading wg0 does not change.
use wg_busy.Prelude.{◌≡◌, refl, ◌∙◌, List, Option, none, some, Text}
use wg_busy.WireGuard.Live.{link_show, synced, stripped, reload_if_up, reload_wg_config}

module _ {ℓ κ} {W : Type ℓ} {A : Type κ}
    (run : W → Text → List Text → Option Text → W × Text × Option Text) (view : W → A)
    (same : (w : W) (name : Text) (args : List Text) (stdin : Option Text)
      → view (run w name args stdin).0 ≡ view w) where
  synced_same : (r : W × Text × Option Text) → view (synced run r).0 ≡ view r.0
  unfolding synced
  synced_same (w, out, none) = refl
  synced_same (w, out, some e) = refl

  stripped_same : (r : W × Text × Option Text) → view (stripped run r).0 ≡ view r.0
  unfolding stripped
  stripped_same (w, out, some e) = refl
  stripped_same (w, out, none) = synced_same _ ∙ same w _ _ _

  reload_same :
      (path : Text) (r : W × Text × Option Text) → view (reload_if_up run path r).0 ≡ view r.0
  unfolding reload_if_up
  reload_same path (w, out, some e) = refl
  reload_same path (w, out, none) = stripped_same _ ∙ same w _ _ _

  pub reload_wg_config_same : (w : W) (path : Text) → view (reload_wg_config run w path).0 ≡ view w
  unfolding reload_wg_config
  reload_wg_config_same w path = reload_same path (link_show run w) ∙ same w _ _ _
