-- ===== src/Auth/Cbor/Leaves.antt =====
-- What `DecodeCBOR` leaves of its input.
use wg_busy.Prelude.{
  ℕ, zero, suc, ◌≤◌, ◌<◌, ◌≡◌, ◌/◌, ◌%◌, Bool, true, false, inl, inr, List, [], ◌∷◌, if◌then◌else◌,
  Text, drop, length, arith, ap, ◌∙◌, leb, ltb, ◌==◌, Bool-cases,
}
use wg_busy.Auth.Cbor.{
  Cbor, Entries, Decoded, got, failed, panicked, out_of_fuel, and_then, read_full, read_number,
  read_length, Major, uint_type, nint_type, bytes_type, text_type, array_type, map_type, tag_type,
  simple_type, other_type, major_of, items, entries, set_entry, is_hashable, read_bytes,
  decode_item, decode_with,
}

-- The decoder came to an end, and a value leaves fewer than n bytes.
abbrev pub Leaves : {A : Type 0} → ℕ → Decoded A → Type 0
Leaves n (got v rest) = length rest < n
Leaves n (failed e) = Unit
Leaves n (panicked p) = Unit
Leaves n out_of_fuel = ⊥

pub Leaves-weaken : {A : Type 0} (m n : ℕ) (d : Decoded A) → m ≤ n → Leaves m d → Leaves n d
Leaves-weaken m n (got v rest) le h = omega arith
Leaves-weaken m n (failed e) le h = tt
Leaves-weaken m n (panicked p) le h = tt
Leaves-weaken m n out_of_fuel le h = absurd h

pub Leaves-and_then :
    {A B : Type 0} (n : ℕ) (d : Decoded A) (next : A → Text → Decoded B)
    → Leaves n d
    → ((v : A) (t : Text) → length t < n → Leaves n (next v t))
    → Leaves n (and_then d next)
Leaves-and_then n (got v rest) next h k = k v rest h
Leaves-and_then n (failed e) next h k = tt
Leaves-and_then n (panicked p) next h k = tt
Leaves-and_then n out_of_fuel next h k = absurd h

pub and_then_same :
    {A B : Type 0} (n : ℕ) (d e : Decoded A) (next other : A → Text → Decoded B)
    → d ≡ e
    → Leaves n d
    → ((v : A) (t : Text) → length t < n → next v t ≡ other v t)
    → and_then d next ≡ and_then e other
and_then_same n (got v rest) e next other q h k = k v rest h ∙ ap (λ x. and_then x other) q
and_then_same n (failed x) e next other q h k = ap (λ x. and_then x other) q
and_then_same n (panicked p) e next other q h k = ap (λ x. and_then x other) q
and_then_same n out_of_fuel e next other q h k = absurd h

length-drop : {A : Type 0} (n : ℕ) (xs : List A) → length (drop n xs) ≤ length xs
length-drop zero xs = omega arith
length-drop (suc n) [] = omega arith
length-drop (suc n) (x ∷ xs) = omega (arith, length-drop n xs)

module _ (n : ℕ) where
  pub read_full-Leaves : (k : ℕ) (t : Text) → length t < n → Leaves n (read_full k t)
  unfolding read_full
  read_full-Leaves k t h = elim (Bool-cases (leb k (length t))) [
    | inl enough ↦ rw enough (omega (arith, length-drop k t))
    | inr short ↦ rw short (elim (Bool-cases (length t == 0)) [ inl e ↦ rw e tt | inr e ↦ rw e tt ])
  ]

  pub read_number-Leaves : (k : ℕ) (t : Text) → length t < n → Leaves n (read_number k t)
  unfolding read_number
  read_number-Leaves k t h =
      Leaves-and_then n (read_full k t) _ (read_full-Leaves k t h) (λ v rest less. less)

  pub if-Leaves :
      {A : Type 0} (b : Bool) (d e : Decoded A)
      → Leaves n d
      → Leaves n e
      → Leaves n (if b then d else e)
  if-Leaves true d e h k = h
  if-Leaves false d e h k = k

  pub read_length-Leaves : (info : ℕ) (t : Text) → length t < n → Leaves n (read_length info t)
  unfolding read_length
  read_length-Leaves info t h = if-Leaves (ltb info 24) _ _ h (
      if-Leaves (info == 24) _ _ (read_number-Leaves 1 t h) (
        if-Leaves (info == 25) _ _ (read_number-Leaves 2 t h) (
          if-Leaves (info == 26) _ _ (read_number-Leaves 4 t h)
            (if-Leaves (info == 27) _ _ (read_number-Leaves 8 t h) tt))))

  -- What decodes an item behind the header ends with fewer than n bytes, on fewer than n bytes.
  module _ (step : Text → Decoded Cbor) (ends : (t : Text) → length t < n → Leaves n (step t)) where
    pub items-Leaves : (k : ℕ) (t : Text) → length t < n → Leaves n (items step k t)
    unfolding items
    items-Leaves zero t h = h
    items-Leaves (suc k) t h = Leaves-and_then n (step t) _ (ends t h) (λ v more less.
        Leaves-and_then n (items step k more) _ (items-Leaves k more less) (λ vs left l. l))

    pub entries-Leaves :
        (k : ℕ) (m : Entries) (t : Text) → length t < n → Leaves n (entries step k m t)
    unfolding entries
    entries-Leaves zero m t h = h
    entries-Leaves (suc k) m t h = Leaves-and_then n (step t) _ (ends t h) (λ j more less.
        Leaves-and_then n (step more) _ (ends more less) (λ v left l.
          if-Leaves (is_hashable j) _ _ (entries-Leaves k (set_entry j v m) left l) tt))

    module _ (can_make : ℕ → ℕ → Bool) where
      pub read_bytes-Leaves : (k : ℕ) (t : Text) → length t < n → Leaves n (read_bytes can_make k t)
      unfolding read_bytes
      read_bytes-Leaves k t h = if-Leaves (can_make 1 k) _ _ (read_full-Leaves k t h) tt

      pub decode_item-Leaves :
          (major : Major) (info val : ℕ) (t : Text)
          → length t < n
          → Leaves n (decode_item can_make step major info val t)
      unfolding decode_item
      decode_item-Leaves uint_type info val t h = h
      decode_item-Leaves nint_type info val t h = h
      decode_item-Leaves bytes_type info val t h =
          Leaves-and_then n (read_bytes can_make val t) _ (read_bytes-Leaves val t h) (λ v r l. l)
      decode_item-Leaves text_type info val t h =
          Leaves-and_then n (read_bytes can_make val t) _ (read_bytes-Leaves val t h) (λ v r l. l)
      decode_item-Leaves array_type info val t h =
          if-Leaves (can_make 16 val) _ _
            (Leaves-and_then n (items step val t) _ (items-Leaves val t h) (λ v r l. l)) tt
      decode_item-Leaves map_type info val t h =
          Leaves-and_then n (entries step val _ t) _ (entries-Leaves val _ t h) (λ v r l. l)
      decode_item-Leaves tag_type info val t h = ends t h
      decode_item-Leaves simple_type info val t h = h
      decode_item-Leaves other_type info val t h = tt

      pub decode_with-Leaves :
          (header : ℕ) (t : Text) → length t < n → Leaves n (decode_with can_make step header t)
      unfolding decode_with
      decode_with-Leaves header t h =
          Leaves-and_then n (read_length (header % 32) t) _ (read_length-Leaves (header % 32) t h)
            (λ val left l. decode_item-Leaves (major_of (header / 32)) (header % 32) val left l)
