-- ===== src/Routing/PolicyText.antt =====
-- routing.go and models.go: `strings.Split(routeStr, " via ")`, of which only a result of two parts
-- is used.
use wg_busy.Prelude.{
  ℕ, zero, suc, List, [], ◌∷◌, Option, none, some, if◌then◌else◌, Text, codes, has_prefix,
}

abbrev via : Text
via = codes " via "

-- The parts between the separators. `skip` counts the bytes of a separator still to be passed over.
via_parts : ℕ → Text → List Text
via_parts skip [] = [] ∷ []
via_parts (suc k) (c ∷ s) = via_parts k s
via_parts zero (c ∷ s) =
    let behind = [] ∷ via_parts 4 s in
    let inside : List Text = elim (via_parts zero s) [
      | [] ↦ (c ∷ []) ∷ []
      | p ∷ ps ↦ (c ∷ p) ∷ ps
    ] in
    if has_prefix (c ∷ s) via then behind else inside

two : List Text → Option (Text × Text)
two (a ∷ b ∷ []) = some (a, b)
two parts = none

unfoldable pub split_via : Text → Option (Text × Text)
unfolding via_parts two
split_via s = two (via_parts 0 s)
