-- ===== src/Models/Addresses.antt =====
-- models.go: the addresses in a comma-separated list of prefixes.
pub mod Distinct
use wg_busy.Prelude.{
  ℕ, Bool, true, false, List, [], ◌∷◌, Option, none, some, if◌then◌else◌, Text, trim_space, split,
  has, ◌==◌,
}
use wg_busy.Net.{Cidr}
use wg_busy.Net.Parse.{parse_cidr}
use wg_busy.Net.Format.{ip_text, cidr_text}

-- Each entry that parses, in order.
unfoldable pub parsed : List Text → List Cidr
parsed [] = []
parsed (v ∷ vs) = elim (parse_cidr (trim_space v)) [ none ↦ parsed vs | some c ↦ c ∷ parsed vs ]

-- The first occurrence of each text: the loops that keep a `seen` set.
unfoldable pub first_seen : List Text → List Text → List Text
first_seen seen [] = []
first_seen seen (x ∷ xs) = elim (has seen x) [
  | true ↦ first_seen seen xs
  | false ↦ x ∷ first_seen (x ∷ seen) xs
]

abbrev pub host_of : Cidr → Text
host_of c = ip_text c.ip

abbrev pub texts_of : (Cidr → Text) → List Cidr → List Text
texts_of f [] = []
texts_of f (c ∷ cs) = f c ∷ texts_of f cs

-- The selector of `ip rule`: a host without its mask, or the network.
unfoldable pub selector : Cidr → Text
selector c = if c.ones == c.bits then ip_text c.ip else cidr_text c

unfoldable pub peer_ips : Text → List Text
unfolding parsed first_seen
peer_ips cidrs = first_seen [] (texts_of host_of (parsed (split 44 cidrs)))

unfoldable pub peer_sources : Text → List Text
unfolding parsed first_seen selector
peer_sources cidrs = first_seen [] (texts_of selector (parsed (split 44 cidrs)))

unfoldable pub first_ip : Text → Text
unfolding peer_ips
first_ip cidrs = elim (peer_ips cidrs) [ [] ↦ [] | ip ∷ rest ↦ ip ]
