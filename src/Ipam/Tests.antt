-- ===== src/Ipam/Tests.antt =====
-- Runs of the allocation, and its theorems on a pool of six hosts.
use wg_busy.Prelude.{
  ℕ, ◌≡◌, refl, true, false, ◌^◌, ◌+◌, ◌==◌, List, [], ◌∷◌, Option, none, some, Text, codes, arith,
  if◌then◌else◌,
}
use wg_busy.Net.{v4, v6, Cidr, contains, mask_ones, of_16}
use wg_busy.Net.Format.{ip_text}
use wg_busy.Ipam.{next_ip, allocation_network, next_available_ip, used_set, search}
use wg_busy.Ipam.Next.{next_ip_v4, next_ip_v6}
use wg_busy.Ipam.Unused.{Unused, next_available_ip-Unused}
use wg_busy.Ipam.Search.{with_32, IsPool, Allocated, next_available_ip-Allocated}

abbrev pool_net : Cidr
pool_net = record { ip = v4 167772161; base = v4 167772160; ones = 29; bits = 32 }

abbrev taken : List Text
taken = codes "10.0.0.2/32, fd00::2/128" ∷ codes "10.0.0.3" ∷ []

allocates : next_available_ip (codes "fd00::1/64, 10.0.0.1/29") taken ≡ some (codes "10.0.0.4/32")
unfolding next_available_ip allocation_network wg_busy.Prelude.split wg_busy.Net.Parse.parse_cidr
    wg_busy.Prelude.trim_space search next_ip mask_ones contains wg_busy.Prelude.has used_set
    wg_busy.Prelude.text_eq wg_busy.Net.Format.ip_text wg_busy.Net.Parse.parse_ip
allocates = refl

full : next_available_ip (codes "10.0.0.1/30") (codes "10.0.0.2/32" ∷ []) ≡ none
unfolding next_available_ip allocation_network wg_busy.Prelude.split wg_busy.Net.Parse.parse_cidr
    wg_busy.Prelude.trim_space search next_ip mask_ones contains wg_busy.Prelude.has used_set
    wg_busy.Prelude.text_eq wg_busy.Net.Format.ip_text
full = refl

six : next_available_ip (codes "fd00::1/64") [] ≡ some (codes "fd00::2/128")
unfolding next_available_ip allocation_network wg_busy.Prelude.split wg_busy.Net.Parse.parse_cidr
    wg_busy.Prelude.trim_space search next_ip mask_ones contains wg_busy.Prelude.has used_set
    wg_busy.Prelude.text_eq wg_busy.Net.Format.ip_text
six = refl

found : allocation_network (codes "fd00::1/64, 10.0.0.1/29") ≡ some pool_net
unfolding allocation_network wg_busy.Prelude.split wg_busy.Net.Parse.parse_cidr
    wg_busy.Prelude.trim_space
found = refl

pool : IsPool pool_net 167772160
unfolding mask_ones
pool = (refl, omega arith, refl, omega arith)

next_ip_v4_example : next_ip (v4 255) ≡ (if 255 + 1 == 2 ^ 32 then none else some (v4 (255 + 1)))
next_ip_v4_example = next_ip_v4 255 (omega arith)

next_ip_v6_example :
    next_ip (v6 65535) ≡ (if 65535 + 1 == 2 ^ 128 then none else some (of_16 (65535 + 1)))
next_ip_v6_example = next_ip_v6 65535 (omega arith)

next_available_ip-Allocated_example :
    Allocated pool_net 167772160
      (used_set pool_net taken)
      (next_available_ip (codes "fd00::1/64, 10.0.0.1/29") taken)
next_available_ip-Allocated_example =
    next_available_ip-Allocated (codes "fd00::1/64, 10.0.0.1/29") taken pool_net 167772160 found
      pool

next_available_ip-Unused_example :
    (r : ℕ) × (codes "10.0.0.4/32" ≡ with_32 r) × Unused (ip_text (v4 r)) pool_net 167772160 taken
next_available_ip-Unused_example =
    next_available_ip-Unused (codes "fd00::1/64, 10.0.0.1/29") taken pool_net 167772160
      (codes "10.0.0.4/32") found refl pool allocates

-- The pool is an IPv4 network in IPv6 notation: its last address, 10.0.0.3, is given out.
mapped_broadcast :
    next_available_ip (codes "::ffff:10.0.0.1/126") (codes "10.0.0.2" ∷ [])
    ≡ some (codes "10.0.0.3/32")
unfolding next_available_ip allocation_network wg_busy.Prelude.split wg_busy.Net.Parse.parse_cidr
    wg_busy.Prelude.trim_space search next_ip mask_ones contains wg_busy.Prelude.has used_set
    wg_busy.Prelude.text_eq ip_text wg_busy.Net.Parse.parse_ip
mapped_broadcast = refl
