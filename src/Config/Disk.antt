-- ===== src/Config/Disk.antt =====
-- config.go: `saveYAML` and `renderWGConfig`. Each writes a file beside its target and renames it.
pub mod Atomic
use wg_busy.Prelude.{Bool, true, false, ◌++◌, Option, none, some, if◌then◌else◌, Text, codes}
use wg_busy.Models.{AppConfig}
use wg_busy.Routing.Hooks.{generate_post_up_commands, generate_post_down_commands}
use wg_busy.WireGuard.Render.{render_server_config}
use wg_busy.Config.{Store, Env, host_for}

pub data DiskError : Type 0 where
  marshaling creating_dir writing_temp renaming : DiskError

abbrev pub temp_path : Text → Text
temp_path path = path ++ codes ".tmp"

module _ {W : Type 0} (env : Env W) where
  renamed : W × Bool → W × Option DiskError
  renamed (w, true) = (w, none)
  renamed (w, false) = (w, some renaming)

  written : Text → W × Bool → W × Option DiskError
  unfolding renamed
  written path (w, true) = renamed (env.rename w (temp_path path) path)
  written path (w, false) = (w, some writing_temp)

  in_dir : Text → Text → W × Bool → W × Option DiskError
  unfolding written
  in_dir path content (w, true) = written path (env.write_file w (temp_path path) content)
  in_dir path content (w, false) = (w, some creating_dir)

  -- What both functions do with the text for a file.
  unfoldable pub replace_file : W → Text → Text → W × Option DiskError
  unfolding in_dir
  replace_file w path content = in_dir path content (env.make_dir_of w path)

  save_marshaled : W → Text → Option Text → W × Option DiskError
  unfolding replace_file
  save_marshaled w path none = (w, some marshaling)
  save_marshaled w path (some content) = replace_file w path content

  unfoldable pub save_yaml : Store → W → W × Option DiskError
  unfolding save_marshaled
  save_yaml s w = save_marshaled w s.config_path (env.marshal s.config)

  unfoldable pub wg_content : AppConfig → W → Text
  wg_content cfg w =
      render_server_config cfg (generate_post_up_commands (host_for env cfg w) cfg)
        (generate_post_down_commands (host_for env cfg w) cfg)

  unfoldable pub render_wg_config : Store → W → W × Option DiskError
  unfolding replace_file wg_content
  render_wg_config s w = replace_file w s.wg_config_path (wg_content s.config w)
