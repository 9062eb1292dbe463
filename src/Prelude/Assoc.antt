-- ===== src/Prelude/Assoc.antt =====
-- A Go map from strings: the list of its entries, newest first.
use mathlib.Core.Path.{◌≡◌, refl}
use mathlib.Core.Logic.{◌≢◌}
use mathlib.Core.Option.{Option, none, some}
use mathlib.Core.List.{List, [], ◌∷◌}
use native.Mathlib.Omega.{arith}
use wg_busy.Prelude.Tests.{if◌then◌else◌}
use wg_busy.Prelude.Texts.{Text, text_eq, text_eq_iff, text_eq_refl}

module _ {V : Type 0} where
  unfoldable pub lookup : List (Text × V) → Text → Option V
  lookup [] k = none
  lookup ((x, v) ∷ m) k = let rest = lookup m k in if text_eq x k then some v else rest

  unfoldable pub remove : List (Text × V) → Text → List (Text × V)
  remove [] k = []
  remove ((x, v) ∷ m) k = let rest = remove m k in if text_eq x k then rest else (x, v) ∷ rest

  unfoldable pub put : Text → V → List (Text × V) → List (Text × V)
  unfolding remove
  put k v m = (k, v) ∷ remove m k

  pub lookup-remove : (m : List (Text × V)) (k : Text) → lookup (remove m k) k ≡ none
  unfolding lookup remove
  lookup-remove [] k = refl
  lookup-remove ((x, v) ∷ m) k = ground (arith, lookup-remove m k)

  pub lookup_other : (m : List (Text × V)) (j k : Text) → j ≢ k → lookup (remove m j) k ≡ lookup m k
  unfolding lookup remove
  lookup_other [] j k n = refl
  lookup_other ((x, v) ∷ m) j k n =
      ground (arith, lookup_other m j k, text_eq_iff x j, text_eq_iff x k)

  pub lookup-put : (m : List (Text × V)) (k : Text) (v : V) → lookup (put k v m) k ≡ some v
  unfolding lookup put
  lookup-put m k v = ground (arith, text_eq_refl k)

  pub lookup-put_other :
      (m : List (Text × V)) (j k : Text) (v : V) → j ≢ k → lookup (put j v m) k ≡ lookup m k
  unfolding lookup put
  lookup-put_other m j k v n = ground (arith, lookup_other m j k, text_eq_iff j k)
