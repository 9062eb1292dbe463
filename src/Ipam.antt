-- ===== src/Ipam.antt =====
-- internal/ipam/ipam.go: the next free address of the server's pool. `none` is the error that the
-- server address holds no prefix, or that no address is free.
pub mod Next
pub mod Search
pub mod Unused
mod Tests
use wg_busy.Prelude.{
  ℕ, zero, suc, ◌+◌, ◌-◌, ◌*◌, ◌/◌, ◌%◌, ◌^◌, Bool, true, false, List, [], ◌∷◌, ◌++◌, Option, none,
  some, if◌then◌else◌, Text, trim_space, split, has, itoa, ◌==◌, ltb, leb,
}
use wg_busy.Net.{Ip, v4, v6, of_16, is_v4, Cidr, contains, mask_ones}
use wg_busy.Net.Parse.{parse_ip, parse_cidr}
use wg_busy.Net.Format.{ip_text}

-- The bytes of an address, the last one first, and the number that they make.
unfoldable pub to_bytes : ℕ → ℕ → List ℕ
to_bytes zero n = []
to_bytes (suc k) n = n % 256 ∷ to_bytes k (n / 256)

unfoldable pub of_bytes : List ℕ → ℕ
of_bytes [] = 0
of_bytes (b ∷ bs) = b + 256 * of_bytes bs

-- The loop of `nextIP` from the last byte on: a byte that wraps to 0 carries. `none` is the nil that
-- is returned when every byte wraps.
unfoldable pub carry : List ℕ → Option (List ℕ)
carry [] = none
carry (b ∷ bs) =
    let rest = carry bs in
    if (b + 1) % 256 == 0
    then elim rest [ none ↦ none | some cs ↦ some (0 ∷ cs) ]
    else some ((b + 1) % 256 ∷ bs)

unfoldable pub next_ip : Ip → Option Ip
unfolding carry of_bytes to_bytes
next_ip (v4 n) = elim (carry (to_bytes 4 n)) [ none ↦ none | some bs ↦ some (v4 (of_bytes bs)) ]
next_ip (v6 n) = elim (carry (to_bytes 16 n)) [ none ↦ none | some bs ↦ some (of_16 (of_bytes bs)) ]

-- The first prefix, or the first IPv4 one if there is any.
unfoldable pub first_v4 : Option Cidr → List Text → Option Cidr
first_v4 first [] = first
first_v4 first (v ∷ vs) = elim (parse_cidr (trim_space v)) [
  | none ↦ first_v4 first vs
  | some c ↦
      if is_v4 c.ip
      then some c
      else elim first [ none ↦ first_v4 (some c) vs | some f ↦ first_v4 (some f) vs ]
]

unfoldable pub allocation_network : Text → Option Cidr
unfolding first_v4
allocation_network addresses = first_v4 none (split 44 addresses)

-- An address of the network with the bits outside the mask set: the first four bytes of the mask.
unfoldable pub broadcast : Cidr → ℕ → Ip
broadcast net b =
    let k =
      if net.bits == 32 then 32 - net.ones else 32 - (if leb net.ones 32 then net.ones else 32) in
    v4 (b / 2 ^ k * 2 ^ k + (2 ^ k - 1))

-- The network's own addresses that are not given out.
reserved_at : Cidr → Ip → List Text
unfolding broadcast
reserved_at net (v4 b) = ip_text (v4 b) ∷ ip_text (broadcast net b) ∷ []
reserved_at net (v6 b) = []

reserved : Cidr → List Text
unfolding reserved_at
reserved net = reserved_at net net.base

-- `ParseCIDR`, or `ParseIP` if that fails.
unfoldable pub used_address : Text → List Text
used_address s = elim (parse_cidr s) [
  | some c ↦ ip_text c.ip ∷ []
  | none ↦ elim (parse_ip s) [ none ↦ [] | some ip ↦ ip_text ip ∷ [] ]
]

used_parts : List Text → List Text
unfolding used_address
used_parts [] = []
used_parts (p ∷ ps) = used_address (trim_space p) ++ used_parts ps

used_values : List Text → List Text
unfolding used_parts
used_values [] = []
used_values (v ∷ vs) = used_parts (split 44 v) ++ used_values vs

-- The keys of the map `used`.
unfoldable pub used_set : Cidr → List Text → List Text
unfolding reserved used_values
used_set net used_ips = ip_text net.ip ∷ (reserved net ++ used_values used_ips)

-- `for ipNet.Contains(ip) { … }`; nil is in no network.
unfoldable pub search : ℕ → Cidr → List Text → Option Ip → Option Ip
search fuel net used none = none
search zero net used (some ip) = none
search (suc fuel) net used (some ip) = elim (contains net ip) [
  | false ↦ none
  | true ↦ elim (has used (ip_text ip)) [
    | true ↦ search fuel net used (next_ip ip)
    | false ↦ some ip
  ]
]

-- How many addresses the network has, which is enough fuel.
abbrev pub size : Cidr → ℕ
size net = if is_v4 net.base then 2 ^ (32 - mask_ones net) else 2 ^ (128 - mask_ones net)

abbrev pub with_prefix_bits : Cidr → Ip → Text
with_prefix_bits net ip = ip_text ip ++ 47 ∷ itoa (if is_v4 net.base then 32 else 128)

unfoldable pub shown : Cidr → Option Ip → Option Text
shown net none = none
shown net (some ip) = some (with_prefix_bits net ip)

unfoldable pub allocate : List Text → Option Cidr → Option Text
unfolding shown
allocate used_ips none = none
allocate used_ips (some net) =
    shown net (search (size net) net (used_set net used_ips) (next_ip net.base))

unfoldable pub next_available_ip : Text → List Text → Option Text
unfolding allocate
next_available_ip server_address used_ips = allocate used_ips (allocation_network server_address)
