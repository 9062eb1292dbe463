-- ===== src/Models/Validate/Formats.antt =====
-- models.go: the `isValid…` helpers of the validators, with what they use of Go's packages
-- encoding/base64, net, regexp and strconv.
pub mod Numbers
use wg_busy.Prelude.{
  ℕ, ◌+◌, ◌-◌, ◌*◌, ◌%◌, ◌≤◌, ◌^◌, Bool, true, false, not, ◌&&◌, ◌||◌, List, [], ◌∷◌, ◌++◌, Option,
  none, some, if◌then◌else◌, Text, codes, is_empty, trim_space, text_eq, length, has_prefix, drop,
  contains_byte, split, cut, ltb, leb, ◌==◌, ℤ, pos, negsuc,
}
use mathlib.Core.List.{reverse}
use wg_busy.Net.Parse.{parse_ip, parse_cidr}
use wg_busy.Models.Validate.{is_none, is_digit, all_chars, is_hex_char}

abbrev is_letter : ℕ → Bool
is_letter c = leb 97 c && leb c 122 || leb 65 c && leb c 90

-- A character of the alphabet of `base64.StdEncoding`: letters, digits, `+` and `/`.
abbrev is_base64_char : ℕ → Bool
is_base64_char c = is_letter c || is_digit c || c == 43 || c == 47

-- The decoder passes over line ends.
without_line_ends : Text → Text
without_line_ends [] = []
without_line_ends (c ∷ s) =
    let rest = without_line_ends s in if c == 10 || c == 13 then rest else c ∷ rest

-- Groups of four characters; only the last one may be padded, with one or two `=`.
unfoldable pub base64_groups : Text → Bool
base64_groups [] = true
base64_groups (a ∷ b ∷ c ∷ d ∷ s) =
    let more = base64_groups s in
    is_base64_char a
    && is_base64_char b
    && (is_base64_char c && is_base64_char d && more
        || is_empty s && d == 61 && (is_base64_char c || c == 61))
base64_groups s = false

unfoldable pub is_valid_base64_key : Text → Bool
unfolding without_line_ends base64_groups
is_valid_base64_key s =
    let key = trim_space s in length key == 44 && base64_groups (without_line_ends key)

abbrev is_cidr_entry : Text → Bool
is_cidr_entry part = not (is_empty part) && not (is_none (parse_cidr part))

unfoldable pub all_entries : (Text → Bool) → List Text → Bool
all_entries ok [] = true
all_entries ok (p ∷ ps) = ok (trim_space p) && all_entries ok ps

unfoldable pub is_valid_cidr_list : Text → Bool
unfolding all_entries
is_valid_cidr_list s = all_entries is_cidr_entry (split 44 s)

abbrev is_alnum : ℕ → Bool
is_alnum c = is_letter c || is_digit c

abbrev first_alnum : Text → Bool
first_alnum [] = false
first_alnum (c ∷ s) = is_alnum c

-- `[a-zA-Z0-9]([a-zA-Z0-9\-]*[a-zA-Z0-9])?`
unfoldable pub is_label : Text → Bool
unfolding all_chars
is_label s =
    first_alnum s && first_alnum (reverse s) && all_chars (λ (c : ℕ). is_alnum c || c == 45) s

all_labels : List Text → Bool
unfolding is_label
all_labels [] = true
all_labels (l ∷ ls) = is_label l && all_labels ls

-- `hostnameRegexp.MatchString`: labels with dots between them.
unfoldable pub hostname_matches : Text → Bool
unfolding all_labels
hostname_matches s = all_labels (split 46 s)

abbrev is_dns_entry : Text → Bool
is_dns_entry part = not (is_empty part) && (not (is_none (parse_ip part)) || hostname_matches part)

unfoldable pub is_valid_dns_list : Text → Bool
unfolding all_entries
is_valid_dns_list s = all_entries is_dns_entry (split 44 s)

-- The parts before and after the last occurrence of a byte.
unfoldable pub cut_last : ℕ → Text → Option (Text × Text)
cut_last sep [] = none
cut_last sep (c ∷ s) = elim (cut_last sep s) [
  | some p ↦ some (c ∷ p.0, p.1)
  | none ↦ if c == sep then some ([], s) else none
]

-- `net.SplitHostPort` of an address in brackets, behind the opening one: `before` and `port` are the
-- parts around the last colon. The first closing bracket stands just before that colon.
bracketed : Text → Text → Option (Text × Text)
unfolding cut
bracketed before port =
    let (host, behind) = cut 93 before in
    elim behind [
      | none ↦ none
      | some rest ↦
          if is_empty rest
            && not (contains_byte 91 host)
            && not (contains_byte 91 port)
            && not (contains_byte 93 port)
          then some (host, port)
          else none
    ]

host_and_port : Text → Text → Option (Text × Text)
unfolding bracketed
host_and_port [] port =
    if contains_byte 91 port || contains_byte 93 port then none else some ([], port)
host_and_port (c ∷ before) port =
    let plain = (c ∷ before) ++ port in
    if c == 91
    then bracketed before port
    else if contains_byte 58 (c ∷ before) || contains_byte 91 plain || contains_byte 93 plain
    then none
    else some (c ∷ before, port)

-- `net.SplitHostPort`
unfoldable pub split_host_port : Text → Option (Text × Text)
unfolding cut_last host_and_port
split_host_port s = elim (cut_last 58 s) [ none ↦ none | some p ↦ host_and_port p.0 p.1 ]
