-- ===== src/Models/Gateways.antt =====
-- models.go: which interface a policy route's gateway is reached through.
pub mod Longest
use wg_busy.Prelude.{
  ℕ, Bool, true, false, ◌&&◌, ◌||◌, List, [], ◌∷◌, ◌++◌, Option, none, some, if◌then◌else◌, Text,
  codes, trim_space, split, is_empty, text_eq, ltb, ◌==◌, not,
}
use wg_busy.Net.{Ip, Cidr, contains}
use wg_busy.Net.Parse.{parse_ip, parse_cidr}
use wg_busy.Models.{GatewayNet}

abbrev pub wg_device : Text
wg_device = codes "wg0"

-- The closure `add`: entries that are no prefix are dropped.
unfoldable pub add_net : Text → Text → List GatewayNet
add_net device cidr =
    let trimmed = trim_space cidr in
    if is_empty trimmed then [] else elim (parse_cidr trimmed) [
      | none ↦ []
      | some c ↦ record { device = device; cidr = trimmed } ∷ []
    ]

unfoldable pub server_nets : List Text → List GatewayNet
unfolding add_net
server_nets [] = []
server_nets (part ∷ parts) = add_net wg_device part ++ server_nets parts

unfoldable pub zt_nets : List GatewayNet → List GatewayNet
unfolding add_net
zt_nets [] = []
zt_nets (n ∷ ns) = add_net n.device n.cidr ++ zt_nets ns

unfoldable pub gateway_nets : Text → List GatewayNet → List GatewayNet
unfolding server_nets zt_nets
gateway_nets server_addr nets = server_nets (split 44 server_addr) ++ zt_nets nets

pub data GatewayError : Type 0 where
  unresolved ambiguous invalid : GatewayError

pub data Resolved : Type 0 where
  device : Text → Resolved
  failed : GatewayError → Resolved

-- The variables of the loop: the best prefix length so far (`none` for -1), its device, and
-- whether another device matched as well.
pub record Best : Type 0 where
  pub best_prefix_len : Option ℕ
  pub matched_device : Text
  pub is_ambiguous : Bool

abbrev pub longer : ℕ → Option ℕ → Bool
longer ones none = true
longer ones (some best) = ltb best ones

-- The prefix of an entry that holds the gateway, if it does.
unfoldable pub holding : Ip → GatewayNet → Option ℕ
holding ip n = elim (parse_cidr (trim_space n.cidr)) [
  | none ↦ none
  | some c ↦ if contains c ip then some c.ones else none
]

same_length : ℕ → Option ℕ → Bool
same_length ones none = false
same_length ones (some best) = ones == best

-- The body of the loop at an entry whose prefix of length `ones` holds the gateway.
unfoldable pub consider : Text → ℕ → Best → Best
unfolding same_length
consider dev ones b =
    if longer ones b.best_prefix_len
    then record { best_prefix_len = some ones; matched_device = dev; is_ambiguous = false }
    else if same_length ones b.best_prefix_len && not (text_eq dev b.matched_device)
    then record b { is_ambiguous = true }
    else b

-- One round of the loop, for an entry with this device whose prefix may hold the gateway.
unfoldable pub visit : Option ℕ → Text → Best → Best
unfolding consider
visit none dev b = b
visit (some ones) dev b = consider dev ones b

unfoldable pub scan : Ip → List GatewayNet → Best → Best
scan ip [] b = b
scan ip (n ∷ ns) b = scan ip ns (visit (holding ip n) n.device b)

abbrev pub start : Best
start = record { best_prefix_len = none; matched_device = []; is_ambiguous = false }

unfoldable pub verdict : Best → Resolved
verdict b =
    if b.is_ambiguous
    then failed ambiguous
    else elim b.best_prefix_len [ none ↦ failed unresolved | some n ↦ device b.matched_device ]

unfoldable pub resolve_gateway : Text → List GatewayNet → Resolved
unfolding scan visit verdict
resolve_gateway gateway nets = elim (parse_ip (trim_space gateway)) [
  | none ↦ failed invalid
  | some ip ↦ verdict (scan ip nets start)
]

unfoldable pub device_for_gateway : Text → List GatewayNet → Text
unfolding resolve_gateway
device_for_gateway gateway nets = elim (resolve_gateway gateway nets) [
  | device d ↦ d
  | failed e ↦ []
]
