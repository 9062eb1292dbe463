-- ===== src/Routing/Masquerade.antt =====
-- routing.go: the NAT rules for ZeroTier egress. The map from peers to the routes that are
-- advertised to them is the list of its entries in the order in which Go ranges over it.
use wg_busy.Prelude.{
  Bool, true, false, not, ◌&&◌, ◌||◌, List, [], ◌∷◌, ◌++◌, none, some, if◌then◌else◌, Text, codes,
  concat, trim_space, has_prefix, ltb, ◌==◌,
}
use wg_busy.Net.{is_v4}
use wg_busy.Net.Parse.{parse_cidr}
use wg_busy.Net.Format.{cidr_text}
use wg_busy.Models.{AppConfig, GatewayNet}
use wg_busy.Models.Addresses.{first_seen}
use wg_busy.Models.Gateways.{device_for_gateway}

pub record Advertised : Type 0 where
  pub peer_ip : Text
  pub routes : List Text

abbrev pub masquerade_spec : Text
masquerade_spec = codes "POSTROUTING -o zt+ -j MASQUERADE"

-- The IPv4 networks among the texts, in Go's notation.
networks_of : List Text → List Text
networks_of [] = []
networks_of (r ∷ rs) =
    let rest = networks_of rs in
    elim (parse_cidr (trim_space r)) [
      | none ↦ rest
      | some c ↦ if is_v4 c.ip then cidr_text c ∷ rest else rest
    ]

-- What is advertised to peers that are reached over ZeroTier.
advertised_networks : List GatewayNet → List Advertised → List Text
unfolding networks_of
advertised_networks gateways [] = []
advertised_networks gateways (a ∷ more) =
    (if has_prefix (device_for_gateway a.peer_ip gateways) (codes "zt")
      then networks_of a.routes
      else [])
    ++ advertised_networks gateways more

accept_specs : List Text → List Text
accept_specs [] = []
accept_specs (n ∷ ns) = concat (codes "-s " ∷ n ∷ codes " -o zt+ -j ACCEPT" ∷ []) ∷ accept_specs ns

-- Go's order of strings.
unfoldable pub text_le : Text → Text → Bool
text_le [] t = true
text_le (c ∷ s) [] = false
text_le (c ∷ s) (d ∷ t) = ltb c d || c == d && text_le s t

unfoldable pub insert : Text → List Text → List Text
insert s [] = s ∷ []
insert s (t ∷ ts) = if text_le s t then s ∷ t ∷ ts else t ∷ insert s ts

-- `sort.Strings`
unfoldable pub sort : List Text → List Text
unfolding insert
sort [] = []
sort (s ∷ ss) = insert s (sort ss)

unfoldable pub masquerade_specs : AppConfig → List GatewayNet → List Advertised → List Text
unfolding advertised_networks accept_specs
masquerade_specs cfg gateways advertised =
    if cfg.zerotier.exclude_advertised_routes_from_masquerade
    then sort (accept_specs (first_seen [] (advertised_networks gateways advertised)))
    else []

accept_adds : List Text → List Text
accept_adds [] = []
accept_adds (s ∷ ss) =
    concat (
      codes "iptables -t nat -C POSTROUTING "
      ∷ s
      ∷ codes " 2>/dev/null || iptables -t nat -I POSTROUTING 1 "
      ∷ s
      ∷ [])
    ∷ accept_adds ss

accept_dels : List Text → List Text
accept_dels [] = []
accept_dels (s ∷ ss) =
    concat (codes "iptables -t nat -D POSTROUTING " ∷ s ∷ codes " || true" ∷ []) ∷ accept_dels ss

unfoldable pub zero_tier_masquerade :
    AppConfig → List GatewayNet → List Advertised → Bool → List Text
unfolding masquerade_specs accept_adds accept_dels
zero_tier_masquerade cfg gateways advertised add =
    if not cfg.zerotier.enabled || cfg.zerotier.disable_masquerade
    then []
    else let specs = masquerade_specs cfg gateways advertised in
      if add
      then accept_adds specs
        ++ concat (
            codes "iptables -t nat -C "
            ∷ masquerade_spec
            ∷ codes " 2>/dev/null || iptables -t nat -A "
            ∷ masquerade_spec
            ∷ [])
          ∷ []
      else concat (codes "iptables -t nat -D " ∷ masquerade_spec ∷ codes " || true" ∷ [])
        ∷ accept_dels specs
