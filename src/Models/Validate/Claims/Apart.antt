-- ===== src/Models/Validate/Claims/Apart.antt =====
-- Keys that were claimed one after the other with no error are all different.
use wg_busy.Prelude.{◌≡◌, ◌≢◌, refl, List, [], ◌∷◌, Option, none, some, Text, arith, All}
use wg_busy.Models.{ValidationError}
use wg_busy.Models.Validate.Claims.{Key, owner_of, claim, repeated}

-- No two of the keys are equal.
abbrev pub Apart : {K : Type 0} → List K → Type 0
Apart [] = Unit
Apart (k ∷ ks) = All (λ j. k ≢ j) ks × Apart ks

module _ {K : Type 0} ⦃key : Key K⦄ where
  abbrev New : List (K × Text) → K → Type 0
  New m k = owner_of m k ≡ none

  -- Each key had no owner when its turn came.
  abbrev pub Claimed : List (K × Text) → List K → Type 0
  Claimed m [] = Unit
  Claimed m (k ∷ ks) = New m k × (owner : Text) × Claimed ((k, owner) ∷ m) ks

  claimed_step :
      (m : List (K × Text)) (k : K) (error : Text → ValidationError) (o : Option Text)
      → owner_of m k ≡ o
      → elim o [ none ↦ [] | some previous ↦ error previous ∷ [] ] ≡ []
      → owner_of m k ≡ none
  claimed_step m k error none e h = e
  claimed_step m k error (some previous) e h = cc

  pub new_of_repeated :
      (m : List (K × Text)) (k : K) (error : Text → ValidationError)
      → repeated m k error ≡ []
      → owner_of m k ≡ none
  unfolding repeated
  new_of_repeated m k error h = claimed_step m k error (owner_of m k) refl h

  pub claim_new :
      (m : List (K × Text)) (k : K) (owner : Text)
      → owner_of m k ≡ none
      → claim m k owner ≡ (k, owner) ∷ m
  unfolding claim
  claim_new m k owner h = rw (claim, h) refl

  -- One key more in front.
  pub Claimed-cons :
      (m : List (K × Text)) (k : K) (owner : Text) (error : Text → ValidationError) (ks : List K)
      → repeated m k error ≡ []
      → Claimed (claim m k owner) ks
      → Claimed m (k ∷ ks)
  Claimed-cons m k owner error ks h rest =
      let new = new_of_repeated m k error h in (new, owner, rw (claim_new m k owner new) at rest)

  old-New :
      (m : List (K × Text)) (k : K) (owner : Text) (ks : List K)
      → All (New ((k, owner) ∷ m)) ks
      → All (λ j. k ≢ j) ks × All (New m) ks
  unfolding owner_of
  old-New m k owner [] h = (tt, tt)
  old-New m k owner (j ∷ ks) h =
      let rest = old-New m k owner ks h.1 in
      let apart : k ≢ j = ground (arith, h.0, key.same_iff k j) in
      let other : New m j = ground (arith, h.0) in ((apart, rest.0), (other, rest.1))

  Claimed-sound : (m : List (K × Text)) (ks : List K) → Claimed m ks → All (New m) ks × Apart ks
  Claimed-sound m [] h = (tt, tt)
  Claimed-sound m (k ∷ ks) (new, owner, rest) =
      let more = Claimed-sound ((k, owner) ∷ m) ks rest in
      let parts = old-New m k owner ks more.0 in ((new, parts.1), (parts.0, more.1))

  pub Claimed-Apart : (ks : List K) → Claimed [] ks → Apart ks
  Claimed-Apart ks h = (Claimed-sound [] ks h).1
