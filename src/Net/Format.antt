-- ===== src/Net/Format.antt =====
-- `IP.String` and `IPNet.String`.
use wg_busy.Prelude.{
  ℕ, zero, suc, ◌+◌, ◌-◌, ◌/◌, ◌%◌, ◌^◌, Bool, true, false, ◌==◌, leb, ltb, ◌&&◌, if◌then◌else◌, [],
  ◌∷◌, ◌++◌, Text, itoa,
}
use wg_busy.Net.{Ip, v4, v6, Cidr, mask_ones}

dot_text : ℕ → Text
unfolding itoa
dot_text n =
    itoa (n / 2 ^ 24)
    ++ 46 ∷ (itoa (n / 2 ^ 16 % 256) ++ 46 ∷ (itoa (n / 2 ^ 8 % 256) ++ 46 ∷ itoa (n % 256)))

hex_char : ℕ → ℕ
hex_char d = if ltb d 10 then 48 + d else 87 + d

-- A group without leading zeros.
hex_text : ℕ → Text
unfolding hex_char
hex_text g =
    if ltb g 16
    then hex_char g ∷ []
    else if ltb g 256
    then hex_char (g / 16) ∷ hex_char (g % 16) ∷ []
    else if ltb g 4096
    then hex_char (g / 256) ∷ hex_char (g / 16 % 16) ∷ hex_char (g % 16) ∷ []
    else hex_char (g / 4096)
      ∷ hex_char (g / 256 % 16)
      ∷ hex_char (g / 16 % 16)
      ∷ hex_char (g % 16)
      ∷ []

group : ℕ → ℕ → ℕ
group n i = n / 65536 ^ (7 - i) % 65536

-- The length of the run of zero groups from place `i`.
zero_run : ℕ → ℕ → ℕ → ℕ
unfolding group
zero_run zero n i = 0
zero_run (suc k) n i = let rest = zero_run k n (i + 1) in if group n i == 0 then rest + 1 else 0

-- The first longest run of at least two zero groups: where it starts, and its length.
longest : ℕ → ℕ → ℕ → ℕ × ℕ → ℕ × ℕ
unfolding zero_run
longest zero n i best = best
longest (suc k) n i (start, len) =
    let run = zero_run (suc k) n i in
    longest k n (i + 1) (if leb 2 run && ltb len run then (i, run) else (start, len))

-- The groups from place `i`; the run is skipped, with `::` in its place.
emit : ℕ → ℕ → ℕ → ℕ → Bool → ℕ → Text
unfolding group hex_text
emit zero n start len colon skip = []
emit (suc k) n start len colon zero =
    let i = 8 - suc k in
    let run = 58 ∷ 58 ∷ emit k n start len false (len - 1) in
    let plain =
      (if colon then 58 ∷ [] else []) ++ (hex_text (group n i) ++ emit k n start len true 0) in
    if leb 2 len && i == start then run else plain
emit (suc k) n start len colon (suc skip) = emit k n start len colon skip

unfoldable pub ip_text : Ip → Text
unfolding dot_text emit longest
ip_text (v4 n) = dot_text n
ip_text (v6 n) = let best = longest 8 n 0 (9, 0) in emit 8 n best.0 best.1 false 0

-- `IPNet.String`
unfoldable pub cidr_text : Cidr → Text
unfolding ip_text mask_ones itoa
cidr_text c = ip_text c.base ++ 47 ∷ itoa (mask_ones c)
