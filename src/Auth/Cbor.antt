-- ===== src/Auth/Cbor.antt =====
-- internal/auth/cbor.go: `DecodeCBOR` and `readLength`, on a reader that holds the bytes it has left.
-- What Go's `make` accepts is an argument: the size of an element and the length.
pub mod Leaves
pub mod Ends
use wg_busy.Prelude.{
  ℕ, zero, suc, ◌+◌, ◌-◌, ◌*◌, ◌/◌, ◌%◌, ◌^◌, Bool, true, false, List, [], ◌∷◌, if◌then◌else◌, Text,
  text_eq, take, drop, length, leb, ltb, ◌==◌, ℤ, pos, negsuc, int_eq,
}

-- The values of type `any` that the decoder returns: uint64, int64, []byte, string, []any,
-- map[any]any, bool and nil.
mutual
  pub data Cbor : Type 0 where
    uint : ℕ → Cbor
    nint : ℤ → Cbor
    byte_string : Text → Cbor
    text_string : Text → Cbor
    array : Items → Cbor
    dict : Entries → Cbor
    flag : Bool → Cbor
    null : Cbor

  pub data Items : Type 0 where
    no_items : Items
    item_then : Cbor → Items → Items

  pub data Entries : Type 0 where
    no_entries : Entries
    entry_then : Cbor → Cbor → Entries → Entries

pub data CborError : Type 0 where
  eof : CborError
  unexpected_eof : CborError
  unsupported_length : ℕ → CborError
  unsupported_major : CborError

-- Where the Go code panics.
pub data Panic : Type 0 where
  slice_too_large : ℕ → Panic
  unhashable_key : Cbor → Panic

pub data Decoded (A : Type 0) : Type 0 where
  got : A → Text → Decoded A
  failed : CborError → Decoded A
  panicked : Panic → Decoded A
  out_of_fuel : Decoded A

abbrev pub and_then : {A B : Type 0} → Decoded A → (A → Text → Decoded B) → Decoded B
and_then (got v rest) next = next v rest
and_then (failed e) next = failed e
and_then (panicked p) next = panicked p
and_then out_of_fuel next = out_of_fuel

-- `io.ReadFull` into a buffer of n bytes.
unfoldable pub read_full : ℕ → Text → Decoded Text
read_full n input =
    if leb n (length input)
    then got (take n input) (drop n input)
    else if length input == 0
    then failed eof
    else failed unexpected_eof

unfoldable pub big_endian : ℕ → Text → ℕ
big_endian high [] = high
big_endian high (b ∷ bs) = big_endian (high * 256 + b) bs

unfoldable pub read_number : ℕ → Text → Decoded ℕ
unfolding big_endian read_full
read_number n input = and_then (read_full n input) (λ bs rest. got (big_endian 0 bs) rest)

unfoldable pub read_length : ℕ → Text → Decoded ℕ
unfolding read_number
read_length info input =
    if ltb info 24
    then got info input
    else if info == 24
    then read_number 1 input
    else if info == 25
    then read_number 2 input
    else if info == 26
    then read_number 4 input
    else if info == 27
    then read_number 8 input
    else failed (unsupported_length info)

pub data Major : Type 0 where
  uint_type : Major
  nint_type : Major
  bytes_type : Major
  text_type : Major
  array_type : Major
  map_type : Major
  tag_type : Major
  simple_type : Major
  other_type : Major

abbrev pub major_of : ℕ → Major
major_of n =
    if n == 0
    then uint_type
    else if n == 1
    then nint_type
    else if n == 2
    then bytes_type
    else if n == 3
    then text_type
    else if n == 4
    then array_type
    else if n == 5
    then map_type
    else if n == 6
    then tag_type
    else if n == 7
    then simple_type
    else other_type

-- `-1 - int64(val)`: a val from 2^63 on is negative as an int64.
abbrev pub negative : ℕ → ℤ
negative val = if ltb val (2 ^ 63) then negsuc val else pos (2 ^ 64 - 1 - val)

-- The keys of a map[any]any are compared with their dynamic types.
abbrev pub key_eq : Cbor → Cbor → Bool
key_eq (uint a) (uint b) = a == b
key_eq (nint a) (nint b) = int_eq a b
key_eq (text_string s) (text_string t) = text_eq s t
key_eq (flag true) (flag b) = b
key_eq (flag false) (flag true) = false
key_eq (flag false) (flag false) = true
key_eq null null = true
key_eq a b = false

-- Slices and maps cannot be keys.
abbrev pub is_hashable : Cbor → Bool
is_hashable (byte_string s) = false
is_hashable (array xs) = false
is_hashable (dict m) = false
is_hashable v = true

unfoldable pub remove_key : Cbor → Entries → Entries
remove_key k no_entries = no_entries
remove_key k (entry_then j v m) =
    let rest = remove_key k m in if key_eq j k then rest else entry_then j v rest

-- `m[k] = v`
abbrev pub set_entry : Cbor → Cbor → Entries → Entries
unfolding remove_key
set_entry k v m = entry_then k v (remove_key k m)

unfoldable pub items : (Text → Decoded Cbor) → ℕ → Text → Decoded Items
items step zero rest = got no_items rest
items step (suc n) rest =
    and_then (step rest)
      (λ v more. and_then (items step n more) (λ vs left. got (item_then v vs) left))

unfoldable pub entries : (Text → Decoded Cbor) → ℕ → Entries → Text → Decoded Entries
unfolding remove_key
entries step zero m rest = got m rest
entries step (suc n) m rest = and_then (step rest) (λ k more. and_then (step more) (λ v left.
    if is_hashable k then entries step n (set_entry k v m) left else panicked (unhashable_key k)))

abbrev pub simple_value : ℕ → ℕ → Cbor
simple_value info val =
    if info == 20
    then flag false
    else if info == 21
    then flag true
    else if info == 22
    then null
    else uint val

module _ (can_make : ℕ → ℕ → Bool) where
  unfoldable pub read_bytes : ℕ → Text → Decoded Text
  unfolding read_full
  read_bytes n rest = if can_make 1 n then read_full n rest else panicked (slice_too_large n)

  -- The switch on the major type; `step` decodes an item behind it.
  unfoldable pub decode_item : (Text → Decoded Cbor) → Major → ℕ → ℕ → Text → Decoded Cbor
  unfolding read_bytes items entries
  decode_item step uint_type info val rest = got (uint val) rest
  decode_item step nint_type info val rest = got (nint (negative val)) rest
  decode_item step bytes_type info val rest =
      and_then (read_bytes val rest) (λ bs left. got (byte_string bs) left)
  decode_item step text_type info val rest =
      and_then (read_bytes val rest) (λ bs left. got (text_string bs) left)
  decode_item step array_type info val rest =
      if can_make 16 val
      then and_then (items step val rest) (λ vs left. got (array vs) left)
      else panicked (slice_too_large val)
  decode_item step map_type info val rest =
      and_then (entries step val no_entries rest) (λ m left. got (dict m) left)
  decode_item step tag_type info val rest = step rest
  decode_item step simple_type info val rest = got (simple_value info val) rest
  decode_item step other_type info val rest = failed unsupported_major

  unfoldable pub decode_with : (Text → Decoded Cbor) → ℕ → Text → Decoded Cbor
  unfolding read_length decode_item
  decode_with step header rest =
      and_then (read_length (header % 32) rest)
        (λ val left. decode_item step (major_of (header / 32)) (header % 32) val left)

  unfoldable pub decode : ℕ → Text → Decoded Cbor
  unfolding decode_with
  decode zero input = out_of_fuel
  decode (suc fuel) [] = failed eof
  decode (suc fuel) (header ∷ rest) = decode_with (decode fuel) header rest

  -- Each item has a header of one byte, so the bytes bound the depth.
  unfoldable pub decode_cbor : Text → Decoded Cbor
  unfolding decode
  decode_cbor input = decode (suc (length input)) input
