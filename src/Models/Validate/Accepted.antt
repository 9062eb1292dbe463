-- ===== src/Models/Validate/Accepted.antt =====
-- What an accepted BGP peer and an accepted ZeroTier configuration look like.
use wg_busy.Prelude.{
  ℕ, ◌+◌, ◌≤◌, ◌≡◌, ◌≢◌, ◌↔◌, ◌⊎◌, true, false, List, [], ◌∷◌, none, Text, codes, is_empty,
  trim_space, text_eq_iff, length, arith, All, append_nil,
}
use wg_busy.Net.Parse.{parse_ip, parse_cidr}
use wg_busy.Models.{BgpPeer, RouteFilter, ZeroTierNetwork, ZeroTierConfig}
use wg_busy.Models.Validate.Seen.{DistinctBy, NotSeen, unseen}
use wg_busy.Models.Validate.{
  name_errors, ip_errors, port_errors, prefix_errors, filter_errors, filters_from, name_matches,
  validate_route_filters, validate_bgp_peer, normal_id, network_id_matches, id_error, long_name,
  networks_from, validate_zero_tier, field_at,
}

-- A filter whose prefix parses, with one of the two matchers and one of the two actions.
abbrev pub GoodFilter : RouteFilter → Type 0
GoodFilter f =
    (is_empty f.prefix ≡ false)
    × (parse_cidr f.prefix ≢ none)
    × ((f.matcher ≡ codes "exact") ⊎ (f.matcher ≡ codes "orlonger"))
    × ((f.action ≡ codes "accept") ⊎ (f.action ≡ codes "reject"))

abbrev pub GoodName : Text → Type 0
GoodName s = (is_empty (trim_space s) ≡ false) × (length s ≤ 64) × (name_matches s ≡ true)

abbrev pub GoodBgpPeer : BgpPeer → Type 0
GoodBgpPeer p =
    GoodName p.name
    × (is_empty p.peer_ip ≡ false)
    × (parse_ip p.peer_ip ≢ none)
    × (p.peer_port ≡ 179)
    × (p.peer_asn ≢ 0)
    × (p.max_received_prefix_length ≤ 128)
    × (p.max_advertised_prefix_length ≤ 128)
    × All GoodFilter p.route_filters
    × All GoodFilter p.export_filters

prefix_good :
    (field prefix : Text)
    → (prefix_errors field prefix ≡ []) ↔ ((is_empty prefix ≡ false) × (parse_cidr prefix ≢ none))
unfolding prefix_errors
prefix_good field prefix = ground arith

filter_good : (list : Text) (i : ℕ) (f : RouteFilter) → (filter_errors list i f ≡ []) ↔ GoodFilter f
unfolding filter_errors
filter_good list i f = ground (
  arith,
  append_nil (prefix_errors (field_at list i (codes "prefix")) f.prefix),
  prefix_good (field_at list i (codes "prefix")) f.prefix,
  text_eq_iff f.matcher (codes "exact"),
  text_eq_iff f.matcher (codes "orlonger"),
  text_eq_iff f.action (codes "accept"),
  text_eq_iff f.action (codes "reject"),
)

filters_good :
    (list : Text) (i : ℕ) (fs : List RouteFilter)
    → (filters_from list i fs ≡ []) ↔ All GoodFilter fs
unfolding filters_from
filters_good list i [] = ground arith
filters_good list i (f ∷ fs) = ground (
  arith,
  append_nil (filter_errors list i f) (filters_from list (i + 1) fs),
  filter_good list i f,
  filters_good list (i + 1) fs,
)

name_good : (s : Text) → (name_errors s ≡ []) ↔ GoodName s
unfolding name_errors
name_good s = ground arith

ip_good : (s : Text) → (ip_errors s ≡ []) ↔ ((is_empty s ≡ false) × (parse_ip s ≢ none))
unfolding ip_errors
ip_good s = ground arith

port_good : (n : ℕ) → (port_errors n ≡ []) ↔ (n ≡ 179)
unfolding port_errors
port_good n = ground arith

-- A BGP peer passes its validation exactly when its name is neither blank nor longer than 64 bytes and
-- has only the allowed characters, its address parses, its port is 179, its AS number is not 0, both
-- prefix limits are at most 128, and every filter has a prefix that parses and one of the two
-- matchers and actions.
pub validate_bgp_peer_iff : (p : BgpPeer) → (validate_bgp_peer p ≡ []) ↔ GoodBgpPeer p
unfolding validate_bgp_peer validate_route_filters
validate_bgp_peer_iff p = ground (
  arith,
  append_nil (name_errors p.name),
  append_nil (ip_errors p.peer_ip),
  append_nil (port_errors p.peer_port),
  append_nil (filters_from (codes "routeFilters") 0 p.route_filters)
      (filters_from (codes "exportFilters") 0 p.export_filters),
  name_good p.name,
  ip_good p.peer_ip,
  port_good p.peer_port,
  filters_good (codes "routeFilters") 0 p.route_filters,
  filters_good (codes "exportFilters") 0 p.export_filters,
)

abbrev pub GoodNetwork : ZeroTierNetwork → Type 0
GoodNetwork n = (network_id_matches (normal_id n) ≡ true) × (length n.name ≤ 64)

-- No two networks have the same ID, spaces around it and upper case aside.
abbrev pub DistinctIds : List ZeroTierNetwork → Type 0
DistinctIds = DistinctBy normal_id

-- The step of the loop at a network without an error.
networks_step :
    (seen : List Text) (i : ℕ) (n : ZeroTierNetwork) (ns : List ZeroTierNetwork)
    → networks_from seen i (n ∷ ns) ≡ []
    → GoodNetwork n
      × NotSeen normal_id seen n
      × (networks_from (normal_id n ∷ seen) (i + 1) ns ≡ [])
unfolding networks_from id_error long_name
networks_step seen i n ns h =
    ground (arith, append_nil (long_name i n) (networks_from (normal_id n ∷ seen) (i + 1) ns))

networks_sound :
    (seen : List Text) (i : ℕ) (ns : List ZeroTierNetwork)
    → networks_from seen i ns ≡ []
    → All GoodNetwork ns × All (NotSeen normal_id seen) ns × DistinctIds ns
networks_sound seen i [] h = (tt, tt, tt)
networks_sound seen i (n ∷ ns) h =
    let first = networks_step seen i n ns h in
    let rest = networks_sound (normal_id n ∷ seen) (i + 1) ns first.2 in
    let apart = unseen normal_id (normal_id n) seen ns rest.1 in
    ((first.0, rest.0), (first.1, apart.1), (apart.0, rest.2))

-- In a ZeroTier configuration that passes its validation the port is 0 or at least 1024, every network
-- has an ID of 16 hexadecimal characters and a name of at most 64 bytes, and no two networks have the
-- same ID, spaces around it and upper case aside.
pub validate_zero_tier_sound :
    (z : ZeroTierConfig)
    → validate_zero_tier z ≡ []
    → ((z.port ≡ 0) ⊎ (1024 ≤ z.port)) × All GoodNetwork z.networks × DistinctIds z.networks
unfolding validate_zero_tier
validate_zero_tier_sound z h =
    let parts : ((z.port ≡ 0) ⊎ (1024 ≤ z.port)) × (networks_from [] 0 z.networks ≡ []) =
      ground (arith, h) in
    let good = networks_sound [] 0 z.networks parts.1 in (parts.0, good.0, good.2)
