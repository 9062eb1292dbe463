-- ===== src/WireGuard/Live.antt =====
-- wireguard.go: the commands on the live interface, and the names in the output of `wg show`. The
-- commands run in a world `W`; `run` gives a command's output and, where it failed, its error.
pub mod Quiet
use wg_busy.Prelude.{
  ℕ, Bool, true, false, not, ◌&&◌, ◌||◌, List, [], ◌∷◌, ◌++◌, Option, none, some, if◌then◌else◌,
  Text, codes, concat, is_empty, trim_space, split, has_prefix, drop, join, lookup, put, ◌==◌,
}
use mathlib.Core.List.{reverse}
use wg_busy.Models.{Peer}

-- What failed, with the command's error and its output.
pub data LiveError : Type 0 where
  stripping reloading bringing_down bringing_up showing : Text → Text → LiveError

-- The carriage returns at the end of a line.
drop_returns : Text → Text
drop_returns [] = []
drop_returns (c ∷ s) = if c == 13 then drop_returns s else c ∷ s

abbrev without_returns : Text → Text
without_returns line = reverse (drop_returns (reverse line))

-- The names of the peers by public key; a later peer replaces an earlier one.
unfoldable pub names_by_key : List (Text × Text) → List Peer → List (Text × Text)
names_by_key m [] = m
names_by_key m (p ∷ ps) =
    names_by_key
      (if not (is_empty (trim_space p.public_key)) && not (is_empty (trim_space p.name))
        then put (trim_space p.public_key) (trim_space p.name) m
        else m)
      ps

name_comment : Option Text → List Text
name_comment none = []
name_comment (some name) = (codes "# " ++ name) ∷ []

unfoldable pub shown_line : List (Text × Text) → Text → List Text
unfolding name_comment drop_returns
shown_line names line =
    (if has_prefix (without_returns line) (codes "peer: ")
      then name_comment (lookup names (trim_space (drop 6 (without_returns line))))
      else [])
    ++ without_returns line ∷ []

unfoldable pub shown_lines : List (Text × Text) → List Text → List Text
unfolding shown_line
shown_lines names [] = []
shown_lines names (l ∷ ls) = shown_line names l ++ shown_lines names ls

unfoldable pub format_wg_show : Text → List Peer → Text
unfolding names_by_key shown_lines
format_wg_show raw peers = join (10 ∷ []) (shown_lines (names_by_key [] peers) (split 10 raw))

module _ {ℓ} {W : Type ℓ} (run : W → Text → List Text → Option Text → W × Text × Option Text) where
  abbrev link_show : W → W × Text × Option Text
  link_show w = run w (codes "ip") (codes "link" ∷ codes "show" ∷ codes "wg0" ∷ []) none

  synced : W × Text × Option Text → W × Bool × Option LiveError
  synced (w, out, none) = (w, true, none)
  synced (w, out, some e) = (w, true, some (reloading e (trim_space out)))

  stripped : W × Text × Option Text → W × Bool × Option LiveError
  unfolding synced
  stripped (w, out, some e) = (w, true, some (stripping e (trim_space out)))
  stripped (w, out, none) =
      synced
        (run w (codes "wg") (codes "syncconf" ∷ codes "wg0" ∷ codes "/dev/stdin" ∷ []) (some out))

  reload_if_up : Text → W × Text × Option Text → W × Bool × Option LiveError
  unfolding stripped
  reload_if_up path (w, out, some e) = (w, false, none)
  reload_if_up path (w, out, none) =
      stripped (run w (codes "wg-quick") (codes "strip" ∷ path ∷ []) none)

  -- Whether the interface is up, and the error of the reload.
  unfoldable pub reload_wg_config : W → Text → W × Bool × Option LiveError
  unfolding reload_if_up
  reload_wg_config w path = reload_if_up path (link_show w)

  brought_up : W × Text × Option Text → W × Option LiveError
  brought_up (w, out, none) = (w, none)
  brought_up (w, out, some e) = (w, some (bringing_up e (trim_space out)))

  abbrev bring_up : W → Text → W × Option LiveError
  unfolding brought_up
  bring_up w path = brought_up (run w (codes "wg-quick") (codes "up" ∷ path ∷ []) none)

  brought_down : Text → W × Text × Option Text → W × Option LiveError
  unfolding brought_up
  brought_down path (w, out, some e) = (w, some (bringing_down e (trim_space out)))
  brought_down path (w, out, none) = bring_up w path

  restart_from : Text → W × Text × Option Text → W × Option LiveError
  unfolding brought_down brought_up
  restart_from path (w, out, some e) = bring_up w path
  restart_from path (w, out, none) =
      brought_down path (run w (codes "wg-quick") (codes "down" ∷ path ∷ []) none)

  unfoldable pub restart_wg_config : W → Text → W × Option LiveError
  unfolding restart_from
  restart_wg_config w path = restart_from path (link_show w)

  shown : List Peer → W × Text × Option Text → W × Text × Option LiveError
  unfolding format_wg_show
  shown peers (w, out, some e) = (w, [], some (showing e (trim_space out)))
  shown peers (w, out, none) = (w, format_wg_show out peers, none)

  unfoldable pub show_wg : W → List Peer → W × Text × Option LiveError
  unfolding shown
  show_wg w peers = shown peers (run w (codes "wg") (codes "show" ∷ []) none)
