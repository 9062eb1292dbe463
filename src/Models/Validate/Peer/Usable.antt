-- ===== src/Models/Validate/Peer/Usable.antt =====
-- What the routing of an accepted peer can rely on.
use wg_busy.Prelude.{
  ◌≡◌, ◌≢◌, ◌⊎◌, List, [], ◌∷◌, none, some, Text, trim_space, All, append_nil, flat_map,
}
use wg_busy.Net.{Ip}
use wg_busy.Net.Parse.{parse_ip, parse_cidr}
use wg_busy.Net.Format.{ip_text}
use wg_busy.Models.{Peer, GatewayNet, ValidationError}
use wg_busy.Models.Gateways.{resolve_gateway, device}
use wg_busy.Routing.PolicyText.{split_via}

-- The route is a prefix and an address that is reached through one known interface.
abbrev pub GoodPolicyRoute : List GatewayNet → Text → Type 0
GoodPolicyRoute gateways route =
    (cidr : Text) × (via : Text) × (gw : Ip) × (split_via route ≡ some (cidr, via))
    × (parse_cidr (trim_space cidr) ≢ none)
    × (parse_ip (trim_space via) ≡ some gw)
    × ((gateways ≡ []) ⊎ ((d : Text) × (resolve_gateway (ip_text gw) gateways ≡ device d)))

pub flat_map_nil :
    {A : Type 0} (f : A → List ValidationError) (xs : List A)
    → flat_map f xs ≡ []
    → All (λ x. f x ≡ []) xs
flat_map_nil f [] h = tt
flat_map_nil f (x ∷ xs) h =
    let both = (append_nil (f x) (flat_map f xs)).0 h in (both.0, flat_map_nil f xs both.1)
