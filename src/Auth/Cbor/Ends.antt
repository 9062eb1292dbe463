-- ===== src/Auth/Cbor/Ends.antt =====
-- `DecodeCBOR` ends, and each item that it returns was read from at least one byte.
use wg_busy.Prelude.{
  ℕ, zero, suc, ◌≤◌, ◌<◌, ◌≡◌, ◌/◌, ◌%◌, refl, Bool, true, false, [], ◌∷◌, if◌then◌else◌, Text,
  length, arith, ap,
}
use wg_busy.Auth.Cbor.{
  Cbor, Entries, Decoded, Major, uint_type, nint_type, bytes_type, text_type, array_type, map_type,
  tag_type, simple_type, other_type, major_of, read_length, items, entries, set_entry, is_hashable,
  decode_item, decode_with, decode, decode_cbor, and_then, got, panicked, slice_too_large, array,
  dict, no_entries,
}
use wg_busy.Auth.Cbor.Leaves.{
  Leaves, Leaves-weaken, and_then_same, items-Leaves, read_length-Leaves, decode_with-Leaves,
}

if_same :
    {A : Type 0} (b : Bool) (d e other : A)
    → d ≡ e
    → (if b then d else other) ≡ (if b then e else other)
if_same true d e other q = q
if_same false d e other q = refl

-- Two decoders of the items inside that agree on fewer than n bytes.
module _ (n : ℕ) (step again : Text → Decoded Cbor)
    (ends : (t : Text) → length t < n → Leaves n (step t))
    (agree : (t : Text) → length t < n → step t ≡ again t) where
  items_same : (k : ℕ) (t : Text) → length t < n → items step k t ≡ items again k t
  unfolding items
  items_same zero t h = refl
  items_same (suc k) t h =
      and_then_same n (step t) (again t) _ _ (agree t h) (ends t h) (λ v more less.
        and_then_same n (items step k more) (items again k more) _ _ (items_same k more less)
          (items-Leaves n step ends k more less) (λ vs left l. refl))

  entries_same :
      (k : ℕ) (m : Entries) (t : Text) → length t < n → entries step k m t ≡ entries again k m t
  unfolding entries
  entries_same zero m t h = refl
  entries_same (suc k) m t h =
      and_then_same n (step t) (again t) _ _ (agree t h) (ends t h) (λ j more less.
        and_then_same n (step more) (again more) _ _ (agree more less) (ends more less)
          (λ v left l. if_same (is_hashable j) _ _ _ (entries_same k (set_entry j v m) left l)))

  module _ (can_make : ℕ → ℕ → Bool) where
    decode_item_same :
        (major : Major) (info val : ℕ) (t : Text)
        → length t < n
        → decode_item can_make step major info val t ≡ decode_item can_make again major info val t
    unfolding decode_item
    decode_item_same uint_type info val t h = refl
    decode_item_same nint_type info val t h = refl
    decode_item_same bytes_type info val t h = refl
    decode_item_same text_type info val t h = refl
    decode_item_same array_type info val t h =
        if_same (can_make 16 val) _ _ (panicked (slice_too_large val))
          (ap (λ d. and_then d (λ vs left. got (array vs) left)) (items_same val t h))
    decode_item_same map_type info val t h =
        ap (λ d. and_then d (λ m left. got (dict m) left)) (entries_same val no_entries t h)
    decode_item_same tag_type info val t h = agree t h
    decode_item_same simple_type info val t h = refl
    decode_item_same other_type info val t h = refl

    decode_with_same :
        (header : ℕ) (t : Text)
        → length t < n
        → decode_with can_make step header t ≡ decode_with can_make again header t
    unfolding decode_with
    decode_with_same header t h =
        and_then_same n (read_length (header % 32) t) _ _ _ refl
          (read_length-Leaves n (header % 32) t h)
          (λ val left l. decode_item_same (major_of (header / 32)) (header % 32) val left l)

module _ (can_make : ℕ → ℕ → Bool) where
  decode-Leaves :
      (fuel n : ℕ) (t : Text) → length t < n → n ≤ fuel → Leaves n (decode can_make fuel t)
  unfolding decode
  decode-Leaves zero n t h le = absurd (omega arith)
  decode-Leaves (suc fuel) n [] h le = tt
  decode-Leaves (suc fuel) zero (header ∷ t) h le = absurd (omega arith)
  decode-Leaves (suc fuel) (suc n) (header ∷ t) h le = Leaves-weaken n (suc n) _ (omega arith) (
      decode_with-Leaves n (decode can_make fuel)
        (λ u less. decode-Leaves fuel n u less (omega arith)) can_make header t (omega arith))

  decode_same :
      (fuel more n : ℕ) (t : Text)
      → length t < n
      → n ≤ fuel
      → n ≤ more
      → decode can_make fuel t ≡ decode can_make more t
  unfolding decode
  decode_same zero more n t h le gr = absurd (omega arith)
  decode_same (suc fuel) zero n t h le gr = absurd (omega arith)
  decode_same (suc fuel) (suc more) n [] h le gr = refl
  decode_same (suc fuel) (suc more) zero (header ∷ t) h le gr = absurd (omega arith)
  decode_same (suc fuel) (suc more) (suc n) (header ∷ t) h le gr =
      decode_with_same n (decode can_make fuel) (decode can_make more)
        (λ u less. decode-Leaves fuel n u less (omega arith))
        (λ u less. decode_same fuel more n u less (omega arith) (omega arith)) can_make header t
        (omega arith)

  decode-Leaves_less :
      (input : Text) → Leaves (length input) (decode can_make (suc (length input)) input)
  unfolding decode
  decode-Leaves_less [] = tt
  decode-Leaves_less (header ∷ t) =
      decode_with-Leaves (suc (length t)) (decode can_make (suc (length t)))
        (λ u less. decode-Leaves (suc (length t)) (suc (length t)) u less (omega arith)) can_make
        header t (omega arith)

  -- DecodeCBOR ends on every input, with a value, an error or a panic: with one more round than the
  -- input has bytes the fuel is not used up, and any larger fuel gives the same. A value leaves fewer
  -- bytes than there were.
  pub decode_cbor-Leaves :
      (input : Text)
      → Leaves (length input) (decode_cbor can_make input)
        × ((fuel : ℕ)
            → length input < fuel
            → decode can_make fuel input ≡ decode_cbor can_make input)
  unfolding decode_cbor
  decode_cbor-Leaves input = (
    decode-Leaves_less input,
    λ fuel less.
        decode_same fuel (suc (length input)) (suc (length input)) input (omega arith) (omega arith)
          (omega arith),
  )
