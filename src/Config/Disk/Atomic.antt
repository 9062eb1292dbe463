-- ===== src/Config/Disk/Atomic.antt =====
-- A file that is replaced has its former content or the new one, never a part of it.
use wg_busy.Prelude.{
  ℕ, ◌≡◌, ◌≢◌, refl, sym, ap, ◌∙◌, Bool, true, false, ◌∷◌, ◌++◌, Option, none, some, Text, length,
  length-append, arith,
}
use wg_busy.Config.{Store, Env}
use wg_busy.Config.Disk.{
  DiskError, temp_path, renamed, written, in_dir, replace_file, save_marshaled, save_yaml,
  wg_content, render_wg_config,
}

-- What the program relies on of package os: `contents` is what is in the files. A write that fails
-- may leave anything in the file that is written, and nothing in others.
pub record Files {W : Type 0} (env : Env W) (contents : W → Text → Option Text) : Type 0 where
  pub make_dir_same : (w : W) (p q : Text) → contents (env.make_dir_of w p).0 q ≡ contents w q
  pub write_other :
      (w : W) (p text q : Text) → p ≢ q → contents (env.write_file w p text).0 q ≡ contents w q
  pub write_done :
      (w : W) (p text : Text)
      → (env.write_file w p text).1 ≡ true
      → contents (env.write_file w p text).0 p ≡ some text
  pub rename_done :
      (w : W) (a b : Text)
      → (env.rename w a b).1 ≡ true
      → contents (env.rename w a b).0 b ≡ contents w a
  pub rename_failed :
      (w : W) (a b q : Text)
      → (env.rename w a b).1 ≡ false
      → contents (env.rename w a b).0 q ≡ contents w q
  pub rename_other :
      (w : W) (a b q : Text) → a ≢ q → b ≢ q → contents (env.rename w a b).0 q ≡ contents w q

longer_ne : (s : Text) (c : ℕ) (t : Text) → s ++ c ∷ t ≢ s
longer_ne s c t e = absurd (omega (arith, ap length e, length-append s (c ∷ t)))

pub temp_path_ne : (path : Text) → temp_path path ≢ path
temp_path_ne path = longer_ne path _ _

module _ {W : Type 0} {env : Env W} (contents : W → Text → Option Text)
    (files : Files env contents) where
  -- With no error the new text, and with an error what was there.
  abbrev pub Replaced : W → Text → Option Text → W × Option DiskError → Type 0
  Replaced w path text (w', none) = contents w' path ≡ text
  Replaced w path text (w', some e) = contents w' path ≡ contents w path

  renamed-Replaced :
      (w w1 : W) (path text : Text) (r : W × Bool)
      → env.rename w1 (temp_path path) path ≡ r
      → contents w1 (temp_path path) ≡ some text
      → contents w1 path ≡ contents w path
      → Replaced w path (some text) (renamed env r)
  unfolding renamed
  renamed-Replaced w w1 path text (w2, true) e new old =
      ap (λ x. contents x.0 path) (sym e)
      ∙ files.rename_done w1 (temp_path path) path (ap (λ x. x.1) e)
      ∙ new
  renamed-Replaced w w1 path text (w2, false) e new old =
      ap (λ x. contents x.0 path) (sym e)
      ∙ files.rename_failed w1 (temp_path path) path path (ap (λ x. x.1) e)
      ∙ old

  written-Replaced :
      (w w1 : W) (path text : Text) (r : W × Bool)
      → env.write_file w1 (temp_path path) text ≡ r
      → contents w1 path ≡ contents w path
      → Replaced w path (some text) (written env path r)
  unfolding written
  written-Replaced w w1 path text (w2, true) e old =
      renamed-Replaced w w2 path text _ refl
        (ap (λ x. contents x.0 (temp_path path)) (sym e)
          ∙ files.write_done w1 (temp_path path) text (ap (λ x. x.1) e))
        (ap (λ x. contents x.0 path) (sym e)
          ∙ files.write_other w1 (temp_path path) text path (temp_path_ne path)
          ∙ old)
  written-Replaced w w1 path text (w2, false) e old =
      ap (λ x. contents x.0 path) (sym e)
      ∙ files.write_other w1 (temp_path path) text path (temp_path_ne path)
      ∙ old

  in_dir-Replaced :
      (w : W) (path text : Text) (r : W × Bool)
      → env.make_dir_of w path ≡ r
      → Replaced w path (some text) (in_dir env path text r)
  unfolding in_dir
  in_dir-Replaced w path text (w1, true) e =
      written-Replaced w w1 path text _ refl
        (ap (λ x. contents x.0 path) (sym e) ∙ files.make_dir_same w path path)
  in_dir-Replaced w path text (w1, false) e =
      ap (λ x. contents x.0 path) (sym e) ∙ files.make_dir_same w path path

  -- Whatever fails on the way, the file that is replaced is complete: with no error it has the new text,
  -- with an error the text it had.
  pub replace_file-Replaced :
      (w : W) (path text : Text) → Replaced w path (some text) (replace_file env w path text)
  unfolding replace_file
  replace_file-Replaced w path text = in_dir-Replaced w path text _ refl

  -- Another file, that is not the temporary one, is left alone.
  renamed_other :
      (w1 : W) (path q : Text) (r : W × Bool)
      → env.rename w1 (temp_path path) path ≡ r
      → temp_path path ≢ q
      → path ≢ q
      → contents (renamed env r).0 q ≡ contents w1 q
  unfolding renamed
  renamed_other w1 path q (w2, true) e m n =
      ap (λ x. contents x.0 q) (sym e) ∙ files.rename_other w1 (temp_path path) path q m n
  renamed_other w1 path q (w2, false) e m n =
      ap (λ x. contents x.0 q) (sym e) ∙ files.rename_other w1 (temp_path path) path q m n

  written_other :
      (w1 : W) (path text q : Text) (r : W × Bool)
      → env.write_file w1 (temp_path path) text ≡ r
      → temp_path path ≢ q
      → path ≢ q
      → contents (written env path r).0 q ≡ contents w1 q
  unfolding written
  written_other w1 path text q (w2, true) e m n =
      renamed_other w2 path q _ refl m n
      ∙ ap (λ x. contents x.0 q) (sym e)
      ∙ files.write_other w1 (temp_path path) text q m
  written_other w1 path text q (w2, false) e m n =
      ap (λ x. contents x.0 q) (sym e) ∙ files.write_other w1 (temp_path path) text q m

  in_dir_other :
      (w : W) (path text q : Text) (r : W × Bool)
      → env.make_dir_of w path ≡ r
      → temp_path path ≢ q
      → path ≢ q
      → contents (in_dir env path text r).0 q ≡ contents w q
  unfolding in_dir
  in_dir_other w path text q (w1, true) e m n =
      written_other w1 path text q _ refl m n
      ∙ ap (λ x. contents x.0 q) (sym e)
      ∙ files.make_dir_same w path q
  in_dir_other w path text q (w1, false) e m n =
      ap (λ x. contents x.0 q) (sym e) ∙ files.make_dir_same w path q

  pub replace_file_other :
      (w : W) (path text q : Text)
      → temp_path path ≢ q
      → path ≢ q
      → contents (replace_file env w path text).0 q ≡ contents w q
  unfolding replace_file
  replace_file_other w path text q m n = in_dir_other w path text q _ refl m n

  -- The same for the two files of the store.
  saved-Replaced :
      (w : W) (path : Text) (o : Option Text) → Replaced w path o (save_marshaled env w path o)
  unfolding save_marshaled
  saved-Replaced w path none = refl
  saved-Replaced w path (some text) = replace_file-Replaced w path text

  pub save_yaml-Replaced :
      (s : Store) (w : W) → Replaced w s.config_path (env.marshal s.config) (save_yaml env s w)
  unfolding save_yaml
  save_yaml-Replaced s w = saved-Replaced w s.config_path (env.marshal s.config)

  pub render_wg_config_other :
      (s : Store) (w : W) (q : Text)
      → temp_path s.wg_config_path ≢ q
      → s.wg_config_path ≢ q
      → contents (render_wg_config env s w).0 q ≡ contents w q
  unfolding render_wg_config
  render_wg_config_other s w q m n =
      replace_file_other w s.wg_config_path (wg_content env s.config w) q m n
