-- ===== src/Models/Validate/Gateway.antt =====
-- models.go: `ValidateVPNGateway`, which the import of a gateway and its form ask, and what is shown
-- of a list of errors.
pub mod Agrees
use wg_busy.Prelude.{
  ℕ, Bool, true, false, not, ◌&&◌, ◌||◌, List, [], ◌∷◌, Option, none, some, if◌then◌else◌, Text,
  codes, concat, is_empty, trim_space, text_eq, join, map, ltb, ◌==◌,
}
use wg_busy.Models.{VpnGateway, ValidationError}
use wg_busy.Models.Validate.Formats.{is_valid_base64_key, is_valid_cidr_list}
use wg_busy.Models.Validate.Formats.Numbers.{is_valid_endpoint}

-- The first test that fails gives the error.
unfoldable pub first_error : List (Bool × Text) → Option Text
first_error [] = none
first_error ((bad, message) ∷ rest) = if bad then some message else first_error rest

abbrev pub gateway_checks : VpnGateway → List (Bool × Text)
gateway_checks g =
    (is_empty (trim_space g.id), codes "gateway ID is required")
    ∷ (is_empty (trim_space g.name), codes "gateway name is required")
    ∷ (is_empty (trim_space g.interface), codes "gateway interface is required")
    ∷ (not (is_valid_base64_key g.private_key), codes "gateway private key is invalid")
    ∷ (not (is_valid_cidr_list g.address), codes "gateway address is invalid")
    ∷ (not (is_valid_base64_key g.public_key), codes "gateway public key is invalid")
    ∷ (not (is_valid_cidr_list g.allowed_ips), codes "gateway AllowedIPs are invalid")
    ∷ (not (is_valid_endpoint g.endpoint), codes "gateway endpoint is invalid")
    ∷ (not (g.mtu == 0) && ltb g.mtu 1280, codes "gateway MTU must be at least 1280")
    ∷ []

unfoldable pub validate_vpn_gateway : VpnGateway → Option Text
unfolding first_error
validate_vpn_gateway g = first_error (gateway_checks g)

abbrev error_line : ValidationError → Text
error_line e = concat (e.field ∷ codes ": " ∷ e.message ∷ [])

unfoldable pub error_text : List ValidationError → Text
unfolding join
error_text errors = join (codes "; ") (map error_line errors)

unfoldable pub has_field : List ValidationError → Text → Bool
unfolding text_eq
has_field [] field = false
has_field (e ∷ es) field = text_eq e.field field || has_field es field
