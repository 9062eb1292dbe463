-- ===== src/Net.antt =====
-- What the program uses of Go's package net: addresses, prefixes, and the texts of both. An
-- address is kept as `To4` sees it: `v4` also stands for the IPv4-mapped IPv6 addresses, which
-- `String`, `To4`, `Equal` and `Contains` do not tell from the IPv4 address.
pub mod Parse
pub mod Format
mod Tests
use wg_busy.Prelude.{
  ℕ, ◌+◌, ◌-◌, ◌*◌, ◌/◌, ◌^◌, Bool, true, false, ◌==◌, leb, ltb, ◌&&◌, if◌then◌else◌,
}

pub data Ip : Type 0 where
  v4 : ℕ → Ip
  v6 : ℕ → Ip

-- `::ffff:0:0/96`, the mapped addresses.
abbrev pub mapped_base : ℕ
mapped_base = 0xffff * 2 ^ 32

-- The address of 16 bytes.
unfoldable pub of_16 : ℕ → Ip
of_16 n = if n / 2 ^ 32 == 0xffff then v4 (n - mapped_base) else v6 n

abbrev pub is_v4 : Ip → Bool
is_v4 (v4 n) = true
is_v4 (v6 n) = false

abbrev pub value : Ip → ℕ
value (v4 n) = n
value (v6 n) = n

unfoldable pub ip_eq : Ip → Ip → Bool
ip_eq (v4 a) (v4 b) = a == b
ip_eq (v6 a) (v6 b) = a == b
ip_eq a b = false

-- `ParseCIDR` returns the address and the network; `Mask.Size()` is `(ones, bits)`.
pub record Cidr : Type 0 where
  pub ip : Ip
  pub base : Ip
  pub ones : ℕ
  pub bits : ℕ

-- The low bits cleared: `ip & mask` for a mask that leaves `k` bits.
abbrev pub clear_low : ℕ → ℕ → ℕ
clear_low k n = n / 2 ^ k * 2 ^ k

-- The mask's ones as `networkNumberAndMask` uses them: a 16-byte mask over an IPv4 base is cut to
-- its last 4 bytes.
unfoldable pub mask_ones : Cidr → ℕ
mask_ones c = if is_v4 c.base && c.bits == 128 then c.ones - 96 else c.ones

abbrev same_block : ℕ → ℕ → ℕ → Bool
same_block k a b = a / 2 ^ k == b / 2 ^ k

-- `IPNet.Contains`
contains_at : Ip → Ip → ℕ → Bool
contains_at (v4 b) (v4 n) ones = same_block (32 - ones) b n
contains_at (v6 b) (v6 n) ones = same_block (128 - ones) b n
contains_at b n ones = false

unfoldable pub contains : Cidr → Ip → Bool
unfolding contains_at mask_ones
contains c ip = contains_at c.base ip (mask_ones c)
