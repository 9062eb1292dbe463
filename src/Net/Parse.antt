-- ===== src/Net/Parse.antt =====
-- `net.ParseIP` and `net.ParseCIDR`, as package net/netip of Go parses addresses.
use mathlib.Core.List.{reverse}
use wg_busy.Prelude.{
  ℕ, zero, suc, ◌+◌, ◌-◌, ◌*◌, ◌/◌, ◌%◌, ◌^◌, Bool, true, false, ◌==◌, leb, ltb, ◌&&◌, ◌||◌,
  if◌then◌else◌, List, [], ◌∷◌, Option, none, some, length, take, drop, Text, cut, split,
}
use wg_busy.Net.{Ip, v4, v6, of_16, Cidr, clear_low}

infixl 5 ◌>>=◌
abbrev ◌>>=◌ : {A B : Type 0} → Option A → (A → Option B) → Option B
none >>= f = none
some a >>= f = f a

abbrev is_digit : ℕ → Bool
is_digit c = leb 48 c && leb c 57

-- One field of a dotted address: at most 255.
octet_from : ℕ → Text → Option ℕ
octet_from n [] = some n
octet_from n (c ∷ s) =
    let rest = octet_from (n * 10 + (c - 48)) s in
    if is_digit c && leb (n * 10 + (c - 48)) 255 then rest else none

-- A field has a digit, and no leading zero.
octet : Text → Option ℕ
unfolding octet_from
octet [] = none
octet (c ∷ []) = octet_from 0 (c ∷ [])
octet (c ∷ d ∷ s) = if c == 48 then none else octet_from 0 (c ∷ d ∷ s)

dotted : List Text → Option ℕ
unfolding octet
dotted (a ∷ b ∷ c ∷ d ∷ []) = do
  w ← octet a
  x ← octet b
  y ← octet c
  z ← octet d
  some (((w * 256 + x) * 256 + y) * 256 + z)
dotted parts = none

-- `parseIPv4Fields`
parse_v4 : Text → Option ℕ
unfolding dotted split
parse_v4 s = dotted (split 46 s)

hex_digit : ℕ → Option ℕ
hex_digit c =
    if is_digit c
    then some (c - 48)
    else if leb 97 c && leb c 102
    then some (c - 87)
    else if leb 65 c && leb c 70
    then some (c - 55)
    else none

-- The hexadecimal digits at the front: how many, their value, and the rest.
hex_run : ℕ → ℕ → Text → ℕ × ℕ × Text
unfolding hex_digit
hex_run n acc [] = (n, acc, [])
hex_run n acc (c ∷ s) = elim (hex_digit c) [
  | none ↦ (n, acc, c ∷ s)
  | some d ↦ hex_run (n + 1) (acc * 16 + d) s
]

-- The groups of 16 bits, newest first, and the place of the ellipsis, counted in groups.
abbrev Groups : Type 0
Groups = List ℕ × Option ℕ

-- A dotted tail is the last two groups.
v4_tail : List ℕ → Option ℕ → Text → Option Groups
unfolding parse_v4
v4_tail gs ell s =
    if leb (length gs) 6 && (length gs == 6 || elim ell [ none ↦ false | some e ↦ true ])
    then (do v ← parse_v4 s; some (v % 65536 ∷ v / 65536 ∷ gs, ell))
    else none

-- The text behind a group: its end, or a colon and more, or the ellipsis.
after_group : (List ℕ → Option ℕ → Text → Option Groups) → List ℕ → Option ℕ → Text → Option Groups
after_group next gs ell [] = some (gs, ell)
after_group next gs ell (c ∷ []) = none
after_group next gs ell (c ∷ d ∷ s) =
    if c == 58
    then (if d == 58
        then elim ell [
          | some e ↦ none
          | none ↦ elim s [
            | [] ↦ some (gs, some (length gs))
            | x ∷ t ↦ next gs (some (length gs)) (x ∷ t)
          ]
        ]
        else next gs ell (d ∷ s))
    else none

abbrev starts_dot : Text → Bool
starts_dot [] = false
starts_dot (c ∷ s) = c == 46

-- The loop of `parseIPv6`; the fuel is the number of groups that still fit.
groups : ℕ → List ℕ → Option ℕ → Text → Option Groups
unfolding hex_run v4_tail after_group
groups zero gs ell s = none
groups (suc fuel) gs ell s =
    let (n, acc, rest) = hex_run 0 0 s in
    let more = after_group (groups fuel) (acc ∷ gs) ell rest in
    if n == 0 || ltb 4 n then none else if starts_dot rest then v4_tail gs ell s else more

join_groups : ℕ → List ℕ → ℕ
join_groups acc [] = acc
join_groups acc (g ∷ gs) = join_groups (acc * 65536 + g) gs

-- The ellipsis stands for at least one group.
expand : Groups → Option ℕ
unfolding join_groups
expand (gs, none) = if length gs == 8 then some (join_groups 0 (reverse gs)) else none
expand (gs, some e) =
    if ltb (length gs) 8
    then some (
        join_groups (join_groups 0 (take e (reverse gs)) * 65536 ^ (8 - length gs))
          (drop e (reverse gs)))
    else none

parse_v6 : Text → Option ℕ
unfolding groups expand
parse_v6 (c ∷ d ∷ s) =
    if c == 58 && d == 58
    then elim s [ [] ↦ some 0 | x ∷ t ↦ groups 8 [] (some 0) (x ∷ t) >>= expand ]
    else groups 8 [] none (c ∷ d ∷ s) >>= expand
parse_v6 s = none

pub data Shape : Type 0 where
  dots colons neither : Shape

-- The first of `.`, `:` and `%` decides.
shape : Text → Shape
shape [] = neither
shape (c ∷ s) =
    if c == 46 then dots else if c == 58 then colons else if c == 37 then neither else shape s

-- The address and the number of its bits as written: a mapped address has 128. A zone (`%`) is no
-- digit, so an address with one is refused.
parse_addr : Text → Option (Ip × ℕ)
unfolding shape parse_v4 parse_v6 of_16
parse_addr s = elim (shape s) [
  | dots ↦ do n ← parse_v4 s; some (v4 n, 32)
  | colons ↦ do n ← parse_v6 s; some (of_16 n, 128)
  | neither ↦ none
]

-- `net.ParseIP`
unfoldable pub parse_ip : Text → Option Ip
unfolding parse_addr
parse_ip s = do (ip, bits) ← parse_addr s; some ip

decimal : ℕ → Text → Option ℕ
decimal n [] = some n
decimal n (c ∷ s) =
    let rest = decimal (n * 10 + (c - 48)) s in
    if is_digit c && ltb (n * 10 + (c - 48)) 0xFFFFFF then rest else none

-- The mask length: digits only.
mask_length : Text → Option ℕ
unfolding decimal
mask_length [] = none
mask_length (c ∷ s) = decimal 0 (c ∷ s)

abbrev sixteen : Ip → ℕ
sixteen (v4 n) = n + 0xffff * 2 ^ 32
sixteen (v6 n) = n

-- `IP.Mask`, with a mask of the address's own width.
masked : Ip → ℕ → ℕ → Ip
unfolding of_16
masked (v4 n) ones bits =
    if bits == 32
    then v4 (clear_low (32 - ones) n)
    else of_16 (clear_low (128 - ones) (sixteen (v4 n)))
masked (v6 n) ones bits = of_16 (clear_low (128 - ones) n)

-- `net.ParseCIDR`
unfoldable pub parse_cidr : Text → Option Cidr
unfolding parse_addr mask_length masked cut
parse_cidr s = do
  let parts = cut 47 s
  mask ← parts.1
  (ip, bits) ← parse_addr parts.0
  ones ← mask_length mask
  if leb ones bits
      then some (record { ip = ip; base = masked ip ones bits; ones = ones; bits = bits })
      else none
