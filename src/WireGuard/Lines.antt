-- ===== src/WireGuard/Lines.antt =====
-- wireguard.go: `hookLines`, and the lines of the templates.
use wg_busy.Prelude.{
  ℕ, List, [], ◌∷◌, ◌++◌, if◌then◌else◌, Text, codes, concat, is_empty, trim_space, split, itoa,
  ◌==◌,
}

-- The lines of a hook that are not blank, without the spaces around them.
unfoldable pub keep_lines : List Text → List Text
keep_lines [] = []
keep_lines (l ∷ ls) =
    let rest = keep_lines ls in if is_empty (trim_space l) then rest else trim_space l ∷ rest

unfoldable pub hook_lines : Text → List Text
unfolding keep_lines
hook_lines value = keep_lines (split 10 value)

-- A line end, the name of a setting and its value.
unfoldable pub setting : Text → Text → Text
setting name value = concat ((10 ∷ []) ∷ name ∷ codes " = " ∷ value ∷ [])

-- A setting that is left out if it is empty, or 0.
unfoldable pub optional : Text → Text → Text
unfolding setting
optional name value = if is_empty value then [] else setting name value

unfoldable pub optional_number : Text → ℕ → Text
unfolding setting
optional_number name n = if n == 0 then [] else setting name (itoa n)

-- One setting for each value.
unfoldable pub settings : Text → List Text → Text
unfolding setting
settings name [] = []
settings name (v ∷ vs) = setting name v ++ settings name vs
