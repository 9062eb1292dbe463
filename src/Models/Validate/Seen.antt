-- ===== src/Models/Validate/Seen.antt =====
-- The sets of keys that the validators' loops keep: what a loop that met no key twice has shown.
use wg_busy.Prelude.{◌≡◌, ◌≢◌, false, List, [], ◌∷◌, Text, text_eq_iff, has, arith, All}

module _ {A : Type 0} (key : A → Text) where
  -- No two entries have the same key.
  abbrev pub DistinctBy : List A → Type 0
  DistinctBy [] = Unit {0}
  DistinctBy (x ∷ xs) = All (λ y. key x ≢ key y) xs × DistinctBy xs

  abbrev pub NotSeen : List Text → A → Type 0
  NotSeen seen x = has seen (key x) ≡ false

  -- What is not in a set with one more key differs from that key.
  pub unseen :
      (k : Text) (seen : List Text) (xs : List A)
      → All (NotSeen (k ∷ seen)) xs
      → All (λ y. k ≢ key y) xs × All (NotSeen seen) xs
  unfolding has
  unseen k seen [] h = (tt, tt)
  unseen k seen (x ∷ xs) h =
      let rest = unseen k seen xs h.1 in
      let apart : k ≢ key x = ground (arith, h.0, text_eq_iff k (key x)) in
      let other : NotSeen seen x = ground (arith, h.0) in ((apart, rest.0), (other, rest.1))
