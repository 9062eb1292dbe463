-- ===== src/Models/Addresses/Distinct.antt =====
-- Loops that keep the first occurrence of each text: every text is kept, and kept once.
use wg_busy.Prelude.{
  ◌≡◌, refl, true, false, inl, inr, List, [], ◌∷◌, Text, has, text_eq, ◌||◌, text_eq_iff,
  text_eq_refl, Any, arith, Bool-cases,
}
use wg_busy.Models.Addresses.{first_seen}

abbrev pub Among : Text → List Text → Type 0
Among s xs = Any (λ t. t ≡ s) xs

-- No text stands twice in the list.
abbrev pub Distinct : List Text → Type 0
Distinct [] = Unit
Distinct (x ∷ xs) = ¬ Among x xs × Distinct xs

has-cons : (x : Text) (xs : List Text) (s : Text) → has (x ∷ xs) s ≡ (text_eq x s || has xs s)
unfolding has
has-cons x xs s = refl

first_seen_old :
    (seen : List Text) (x : Text) (xs : List Text)
    → has seen x ≡ true
    → first_seen seen (x ∷ xs) ≡ first_seen seen xs
unfolding first_seen
first_seen_old seen x xs h = ground arith

first_seen_new :
    (seen : List Text) (x : Text) (xs : List Text)
    → has seen x ≡ false
    → first_seen seen (x ∷ xs) ≡ x ∷ first_seen (x ∷ seen) xs
unfolding first_seen
first_seen_new seen x xs h = ground arith

pub has-first_seen :
    (seen xs : List Text) (s : Text)
    → has seen s ≡ false
    → Among s xs
    → Among s (first_seen seen xs)
has-first_seen seen [] s h m = absurd m
has-first_seen seen (x ∷ xs) s h m = elim (Bool-cases (has seen x)) [
  | inl old ↦
      rw (first_seen_old seen x xs old)
        (elim m [ inl e ↦ cc (e, old, h) | inr n ↦ has-first_seen seen xs s h n ])
  | inr new ↦ rw (first_seen_new seen x xs new) (elim (Bool-cases (text_eq x s)) [
    | inl e ↦ inl ((text_eq_iff x s).0 e)
    | inr e ↦ elim m [
      | inl q ↦ inl q
      | inr n ↦ inr (has-first_seen (x ∷ seen) xs s (ground (arith, has-cons x seen s)) n)
    ]
  ])
]

first_seen-not-seen :
    (seen xs : List Text) (s : Text) → has seen s ≡ true → ¬ Among s (first_seen seen xs)
unfolding first_seen
first_seen-not-seen seen [] s h m = m
first_seen-not-seen seen (x ∷ xs) s h m =
    ground
      (arith, first_seen-not-seen seen xs s, first_seen-not-seen (x ∷ seen) xs s, has-cons x seen s)

pub first_seen-Distinct : (seen xs : List Text) → Distinct (first_seen seen xs)
unfolding first_seen
first_seen-Distinct seen [] = tt
first_seen-Distinct seen (x ∷ xs) = elim (Bool-cases (has seen x)) [
  | inl old ↦ rw (first_seen_old seen x xs old) (first_seen-Distinct seen xs)
  | inr new ↦ rw (first_seen_new seen x xs new) (
    first_seen-not-seen (x ∷ seen) xs x (ground (arith, text_eq_refl x, has-cons x seen x)),
    first_seen-Distinct (x ∷ seen) xs,
  )
]
