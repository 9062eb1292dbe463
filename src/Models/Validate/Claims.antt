-- ===== src/Models/Validate/Claims.antt =====
-- models.go: the maps from a key to the name of the entry that has it, with which `ValidateConfig`
-- finds a key that is used twice.
pub mod Apart
use wg_busy.Prelude.{
  ℕ, Bool, true, ◌≡◌, ◌↔◌, List, [], ◌∷◌, ◌++◌, Option, none, some, if◌then◌else◌, Text, text_eq,
  text_eq_iff, ◌==◌, ==_iff,
}
use wg_busy.Models.{ValidationError}

-- A type that can be the key of a map.
pub record Key (K : Type 0) : Type 0 where
  pub same : K → K → Bool
  pub same_iff : (a b : K) → (same a b ≡ true) ↔ (a ≡ b)

instance abbrev pub text_key : Key Text
text_key = record { same = text_eq; same_iff = text_eq_iff }

instance abbrev pub num_key : Key ℕ
num_key = record { same = ◌==◌; same_iff = ==_iff }

module _ {K : Type 0} ⦃key : Key K⦄ where
  unfoldable pub owner_of : List (K × Text) → K → Option Text
  owner_of [] k = none
  owner_of ((x, owner) ∷ m) k = if key.same x k then some owner else owner_of m k

  -- The first entry with a key keeps it.
  unfoldable pub claim : List (K × Text) → K → Text → List (K × Text)
  claim m k owner = elim (owner_of m k) [ none ↦ (k, owner) ∷ m | some previous ↦ m ]

  -- The error of an entry whose key has an owner already.
  unfoldable pub repeated : List (K × Text) → K → (Text → ValidationError) → List ValidationError
  repeated m k error = elim (owner_of m k) [ none ↦ [] | some previous ↦ error previous ∷ [] ]
