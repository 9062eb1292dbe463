-- ===== src/Models/Validate/Formats/Numbers.antt =====
-- models.go: the numbers in endpoints, routing tables and firewall marks, as `strconv.Atoi` and
-- `strconv.ParseUint` read them.
use wg_busy.Prelude.{
  ℕ, ◌+◌, ◌-◌, ◌*◌, ◌^◌, Bool, true, false, not, ◌&&◌, ◌||◌, [], ◌∷◌, Option, none, some,
  if◌then◌else◌, Text, codes, is_empty, text_eq, has_prefix, drop, ltb, leb, ◌==◌, ℤ, pos, negsuc,
}
use wg_busy.Models.Validate.{is_digit}
use wg_busy.Models.Validate.Formats.{split_host_port}

digit_value : ℕ → Option ℕ
digit_value c =
    if is_digit c
    then some (c - 48)
    else if leb 97 c && leb c 102
    then some (c - 87)
    else if leb 65 c && leb c 70
    then some (c - 55)
    else none

-- The digits of a base that is at most 16, with no bound on the number yet.
unfoldable pub digits_value : ℕ → ℕ → Text → Option ℕ
unfolding digit_value
digits_value base n [] = some n
digits_value base n (c ∷ s) = elim (digit_value c) [
  | none ↦ none
  | some d ↦ if ltb d base then digits_value base (n * base + d) s else none
]

abbrev below : ℕ → Option ℕ → Option ℕ
below limit none = none
below limit (some n) = if ltb n limit then some n else none

-- `strconv.ParseUint` with a base and a number of bits.
unfoldable pub parse_uint : Text → ℕ → ℕ → Option ℕ
unfolding digits_value
parse_uint s base bits = if is_empty s then none else below (2 ^ bits) (digits_value base 0 s)

negated : Option ℕ → Option ℤ
negated none = none
negated (some n) = some (if n == 0 then pos 0 else negsuc (n - 1))

positive : Option ℕ → Option ℤ
positive none = none
positive (some n) = some (pos n)

-- `strconv.Atoi`: an optional sign, digits, and a value that an `int64` holds.
unfoldable pub atoi : Text → Option ℤ
unfolding digits_value negated positive
atoi [] = none
atoi (c ∷ s) =
    if c == 45
    then (if is_empty s then none else negated (below (2 ^ 63 + 1) (digits_value 10 0 s)))
    else if c == 43
    then (if is_empty s then none else positive (below (2 ^ 63) (digits_value 10 0 s)))
    else positive (below (2 ^ 63) (digits_value 10 0 (c ∷ s)))

port_in_range : Option ℤ → Bool
port_in_range none = false
port_in_range (some (pos n)) = leb 1 n && leb n 65535
port_in_range (some (negsuc n)) = false

unfoldable pub is_valid_endpoint : Text → Bool
unfolding port_in_range
is_valid_endpoint s = elim (split_host_port s) [
  | none ↦ false
  | some p ↦ not (is_empty p.0) && port_in_range (atoi p.1)
]

not_negative : Option ℤ → Bool
not_negative none = false
not_negative (some (pos n)) = true
not_negative (some (negsuc n)) = false

unfoldable pub is_valid_table : Text → Bool
unfolding not_negative
is_valid_table s = text_eq s (codes "off") || text_eq s (codes "auto") || not_negative (atoi s)

is_some : Option ℕ → Bool
is_some none = false
is_some (some n) = true

unfoldable pub is_valid_fw_mark : Text → Bool
unfolding is_some
is_valid_fw_mark s =
    if text_eq s (codes "off")
    then true
    else if has_prefix s (codes "0x") || has_prefix s (codes "0X")
    then is_some (parse_uint (drop 2 s) 16 32)
    else is_some (parse_uint s 10 32)
