-- ===== src/Models/Validate.antt =====
-- models.go: the validators of BGP peers and of the ZeroTier configuration. Each returns its errors in
-- the order of the source.
pub mod Accepted
pub mod Seen
pub mod Claims
pub mod Formats
pub mod Server
pub mod Peer
pub mod Gateway
pub mod Config
use wg_busy.Prelude.{
  ℕ, ◌+◌, Bool, true, false, not, ◌&&◌, ◌||◌, List, [], ◌∷◌, ◌++◌, Option, none, some,
  if◌then◌else◌, Text, codes, concat, is_empty, trim_space, text_eq, itoa, length, has, ltb, leb,
  ◌==◌,
}
use wg_busy.Net.Parse.{parse_ip, parse_cidr}
use wg_busy.Models.{BgpPeer, RouteFilter, ZeroTierNetwork, ZeroTierConfig, ValidationError}

abbrev pub problem : Text → Text → List ValidationError
problem field message = record { field = field; message = message } ∷ []

-- An error if the test holds.
abbrev pub check : Bool → Text → Text → List ValidationError
check bad field message = if bad then problem field message else []

abbrev pub is_none : {A : Type 0} → Option A → Bool
is_none none = true
is_none (some a) = false

abbrev pub is_digit : ℕ → Bool
is_digit c = leb 48 c && leb c 57

-- A character of `nameRegexp`.
abbrev pub is_name_char : ℕ → Bool
is_name_char c =
    leb 97 c && leb c 122
    || leb 65 c && leb c 90
    || is_digit c
    || c == 32
    || c == 95
    || c == 46
    || c == 45

unfoldable pub all_chars : (ℕ → Bool) → Text → Bool
all_chars p [] = true
all_chars p (c ∷ s) = p c && all_chars p s

-- `nameRegexp.MatchString`: one character or more.
unfoldable pub name_matches : Text → Bool
unfolding all_chars
name_matches s = not (is_empty s) && all_chars is_name_char s

name_errors : Text → List ValidationError
name_errors name =
    if is_empty (trim_space name)
    then problem (codes "name") (codes "required")
    else if ltb 64 (length name)
    then problem (codes "name") (codes "maximum 64 characters")
    else check (not (name_matches name)) (codes "name")
        (codes "only letters, numbers, spaces, dashes, dots, underscores")

ip_errors : Text → List ValidationError
ip_errors ip =
    if is_empty ip
    then problem (codes "bgpPeerIP") (codes "required")
    else check (is_none (parse_ip ip)) (codes "bgpPeerIP") (codes "must be a valid IP address")

port_errors : ℕ → List ValidationError
port_errors port =
    if port == 0
    then problem (codes "bgpPeerPort") (codes "must be > 0")
    else check (not (port == 179)) (codes "bgpPeerPort")
        (codes "the embedded BGP engine currently supports peer port 179 only")

field_at : Text → ℕ → Text → Text
field_at list i name = concat (list ∷ codes "[" ∷ itoa i ∷ codes "]." ∷ name ∷ [])

prefix_errors : Text → Text → List ValidationError
prefix_errors field prefix =
    if is_empty prefix
    then problem field (codes "required")
    else check (is_none (parse_cidr prefix)) field (codes "invalid CIDR")

filter_errors : Text → ℕ → RouteFilter → List ValidationError
unfolding prefix_errors field_at
filter_errors list i f =
    prefix_errors (field_at list i (codes "prefix")) f.prefix
    ++ (check
          (not (text_eq f.matcher (codes "exact")) && not (text_eq f.matcher (codes "orlonger")))
          (field_at list i (codes "matcher")) (codes "must be 'exact' or 'orlonger'")
        ++ check
            (not (text_eq f.action (codes "accept")) && not (text_eq f.action (codes "reject")))
            (field_at list i (codes "action")) (codes "must be 'accept' or 'reject'"))

filters_from : Text → ℕ → List RouteFilter → List ValidationError
unfolding filter_errors
filters_from list i [] = []
filters_from list i (f ∷ fs) = filter_errors list i f ++ filters_from list (i + 1) fs

unfoldable pub validate_route_filters : List RouteFilter → Text → List ValidationError
unfolding filters_from
validate_route_filters filters field_prefix = filters_from field_prefix 0 filters

unfoldable pub validate_bgp_peer : BgpPeer → List ValidationError
unfolding name_errors ip_errors port_errors
validate_bgp_peer p =
    name_errors p.name
    ++ (ip_errors p.peer_ip
        ++ (port_errors p.peer_port
            ++ (check (p.peer_asn == 0) (codes "bgpPeerAsn") (codes "required")
                ++ (check (ltb 128 p.max_received_prefix_length)
                      (codes "bgpMaxReceivedPrefixLength") (codes "must be between 0 and 128")
                    ++ (check (ltb 128 p.max_advertised_prefix_length)
                          (codes "bgpMaxAdvertisedPrefixLength") (codes "must be between 0 and 128")
                        ++ (validate_route_filters p.route_filters (codes "routeFilters")
                            ++ validate_route_filters p.export_filters (codes "exportFilters")))))))

-- `strings.ToLower`
unfoldable pub to_lower : Text → Text
to_lower [] = []
to_lower (c ∷ s) = (if leb 65 c && leb c 90 then c + 32 else c) ∷ to_lower s

abbrev pub is_hex_char : ℕ → Bool
is_hex_char c = is_digit c || leb 97 c && leb c 102 || leb 65 c && leb c 70

-- `networkIDRegexp.MatchString`
unfoldable pub network_id_matches : Text → Bool
unfolding all_chars
network_id_matches s = length s == 16 && all_chars is_hex_char s

abbrev pub normal_id : ZeroTierNetwork → Text
normal_id n = to_lower (trim_space n.id)

-- The switch over a network's ID: its error, if any. Only an ID without an error is seen later.
id_error : List Text → ZeroTierNetwork → Option Text
id_error seen n =
    if is_empty (normal_id n)
    then some (codes "required")
    else if not (network_id_matches (normal_id n))
    then some (codes "must be 16 hexadecimal characters: " ++ n.id)
    else if has seen (normal_id n)
    then some (codes "duplicate network: " ++ n.id)
    else none

long_name : ℕ → ZeroTierNetwork → List ValidationError
unfolding field_at
long_name i n =
    check (ltb 64 (length n.name)) (field_at (codes "ztNetworks") i (codes "name"))
      (codes "maximum 64 characters")

networks_from : List Text → ℕ → List ZeroTierNetwork → List ValidationError
unfolding id_error long_name
networks_from seen i [] = []
networks_from seen i (n ∷ ns) = elim (id_error seen n) [
  | some message ↦
      record { field = field_at (codes "ztNetworks") i (codes "id"); message = message }
      ∷ (long_name i n ++ networks_from seen (i + 1) ns)
  | none ↦ long_name i n ++ networks_from (normal_id n ∷ seen) (i + 1) ns
]

unfoldable pub validate_zero_tier : ZeroTierConfig → List ValidationError
unfolding networks_from
validate_zero_tier z =
    check (not (z.port == 0) && ltb z.port 1024) (codes "ztPort")
      (codes "must be 1024-65535, or empty for the default (9993)")
    ++ networks_from [] 0 z.networks

unfoldable pub zero_tier_port : ZeroTierConfig → ℕ
zero_tier_port z = if z.port == 0 then 9993 else z.port

-- `strings.EqualFold`, for ASCII.
unfoldable pub find_zero_tier_network : List ZeroTierNetwork → Text → Option ZeroTierNetwork
find_zero_tier_network [] id = none
find_zero_tier_network (n ∷ ns) id =
    let rest = find_zero_tier_network ns id in
    if text_eq (to_lower n.id) (to_lower id) then some n else rest
