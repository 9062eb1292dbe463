-- ===== src/Models/Validate/Gateway/Agrees.antt =====
-- A gateway that ValidateVPNGateway accepts, in the loop of ValidateConfig.
use wg_busy.Prelude.{
  ◌≡◌, refl, Bool, true, false, not, List, [], ◌∷◌, none, Text, arith, All, flatten_nil,
}
use wg_busy.Models.{VpnGateway}
use wg_busy.Models.Validate.Formats.{is_valid_base64_key, is_valid_cidr_list}
use wg_busy.Models.Validate.Formats.Numbers.{is_valid_endpoint}
use wg_busy.Models.Validate.Claims.{repeated, text_key, num_key}
use wg_busy.Models.Validate.Config.Gateways.{
  GatewaySeen, malformed, gateway_errors, id_repeated, iface_repeated, table_repeated,
}
use wg_busy.Models.Validate.Gateway.{first_error, gateway_checks, validate_vpn_gateway}

first_error-none :
    (checks : List (Bool × Text)) → first_error checks ≡ none → All (λ c. c.0 ≡ false) checks
unfolding first_error
first_error-none [] h = tt
first_error-none ((true, message) ∷ rest) h = absurd (ground (arith, h))
first_error-none ((false, message) ∷ rest) h = (refl, first_error-none rest h)

malformed_valid :
    (g : VpnGateway) (value : Text) (valid : Text → Bool) (field what : Text)
    → not (valid value) ≡ false
    → malformed g value valid field what ≡ []
unfolding malformed
malformed_valid g value valid field what h = ground (arith, h)

-- ValidateConfig has no error for a gateway that ValidateVPNGateway accepts, whose preshared key is
-- well-formed or not set, and whose ID, interface and table no gateway before it has.
pub validate_vpn_gateway_agrees :
    (seen : GatewaySeen) (g : VpnGateway)
    → validate_vpn_gateway g ≡ none
    → ((field what : Text) → malformed g g.preshared_key is_valid_base64_key field what ≡ [])
    → repeated seen.ids g.id (id_repeated g) ≡ []
    → repeated seen.ifaces g.interface (iface_repeated g) ≡ []
    → repeated seen.tables g.routing_table_id (table_repeated g) ≡ []
    → gateway_errors seen g ≡ []
unfolding validate_vpn_gateway gateway_errors
validate_vpn_gateway_agrees seen g h preshared id iface table =
    let t = first_error-none (gateway_checks g) h in
    (flatten_nil _).1 (
      rw t.0 refl,
      (
        rw t.1.0 refl,
        (
          id,
          (
            ground (arith, iface),
            (
              ground (arith, table),
              (
                malformed_valid g g.private_key is_valid_base64_key _ _ t.1.1.1.0,
                (
                  malformed_valid g g.address is_valid_cidr_list _ _ t.1.1.1.1.0,
                  (
                    malformed_valid g g.public_key is_valid_base64_key _ _ t.1.1.1.1.1.0,
                    (
                      preshared _ _,
                      (
                        malformed_valid g g.allowed_ips is_valid_cidr_list _ _ t.1.1.1.1.1.1.0,
                        (malformed_valid g g.endpoint is_valid_endpoint _ _ t.1.1.1.1.1.1.1.0, tt),
                      ),
                    ),
                  ),
                ),
              ),
            ),
          ),
        ),
      ),
    )
