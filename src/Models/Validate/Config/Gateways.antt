-- ===== src/Models/Validate/Config/Gateways.antt =====
-- models.go: the loop of `ValidateConfig` over the imported gateways.
use wg_busy.Prelude.{
  ℕ, Bool, not, ◌&&◌, List, [], ◌∷◌, ◌++◌, if◌then◌else◌, Text, codes, concat, quote, itoa,
  is_empty, trim_space, flatten, ◌==◌,
}
use wg_busy.Models.{VpnGateway, ValidationError}
use wg_busy.Models.Validate.{check}
use wg_busy.Models.Validate.Claims.{claim, repeated, text_key, num_key}
use wg_busy.Models.Validate.Formats.{is_valid_base64_key, is_valid_cidr_list}
use wg_busy.Models.Validate.Formats.Numbers.{is_valid_endpoint}

-- The maps of the loop: from IDs, interfaces and routing tables to the gateway's name.
pub record GatewaySeen : Type 0 where
  pub ids : List (Text × Text)
  pub ifaces : List (Text × Text)
  pub tables : List (ℕ × Text)

abbrev pub no_gateways : GatewaySeen
no_gateways = record { ids = []; ifaces = []; tables = [] }

unfoldable pub id_repeated : VpnGateway → Text → ValidationError
id_repeated g previous = record {
  field = codes "vpnGateway.id";
  message =
      concat
        (codes "gateway " ∷ quote g.name ∷ codes " duplicates ID used by " ∷ quote previous ∷ []);
}

unfoldable pub iface_repeated : VpnGateway → Text → ValidationError
iface_repeated g previous = record {
  field = codes "vpnGateway.interface";
  message = concat (
      codes "gateway "
      ∷ quote g.name
      ∷ codes " reuses interface "
      ∷ quote g.interface
      ∷ codes " used by "
      ∷ quote previous
      ∷ []);
}

unfoldable pub table_repeated : VpnGateway → Text → ValidationError
table_repeated g previous = record {
  field = codes "vpnGateway.routingTableID";
  message = concat (
      codes "gateway "
      ∷ quote g.name
      ∷ codes " reuses routing table "
      ∷ itoa g.routing_table_id
      ∷ codes " used by "
      ∷ quote previous
      ∷ []);
}

-- An optional field of a gateway that has a wrong form.
unfoldable pub malformed : VpnGateway → Text → (Text → Bool) → Text → Text → List ValidationError
malformed g value valid field what =
    check (not (is_empty value) && not (valid value)) field
      (concat (codes "gateway " ∷ quote g.name ∷ what ∷ []))

unfoldable pub gateway_errors : GatewaySeen → VpnGateway → List ValidationError
unfolding malformed id_repeated iface_repeated table_repeated
gateway_errors seen g = flatten (
    check (is_empty (trim_space g.id)) (codes "vpnGateway.id") (codes "required")
    ∷ check (is_empty (trim_space g.name)) (codes "vpnGateway.name") (codes "required")
    ∷ repeated seen.ids g.id (id_repeated g)
    ∷ (if is_empty g.interface then [] else repeated seen.ifaces g.interface (iface_repeated g))
    ∷ (if g.routing_table_id == 0
        then []
        else repeated seen.tables g.routing_table_id (table_repeated g))
    ∷ malformed g g.private_key is_valid_base64_key (codes "vpnGateway.privateKey")
        (codes " has an invalid private key")
    ∷ malformed g g.address is_valid_cidr_list (codes "vpnGateway.address")
        (codes " has an invalid address")
    ∷ malformed g g.public_key is_valid_base64_key (codes "vpnGateway.publicKey")
        (codes " has an invalid public key")
    ∷ malformed g g.preshared_key is_valid_base64_key (codes "vpnGateway.presharedKey")
        (codes " has an invalid preshared key")
    ∷ malformed g g.allowed_ips is_valid_cidr_list (codes "vpnGateway.allowedIPs")
        (codes " has invalid AllowedIPs")
    ∷ malformed g g.endpoint is_valid_endpoint (codes "vpnGateway.endpoint")
        (codes " has an invalid endpoint")
    ∷ [])

-- Only an ID, an interface and a table that is set is entered.
unfoldable pub after_gateway : GatewaySeen → VpnGateway → GatewaySeen
after_gateway seen g = record {
  ids = if is_empty g.id then seen.ids else claim seen.ids g.id g.name;
  ifaces = if is_empty g.interface then seen.ifaces else claim seen.ifaces g.interface g.name;
  tables =
      if g.routing_table_id == 0 then seen.tables else claim seen.tables g.routing_table_id g.name;
}

unfoldable pub gateways_from : GatewaySeen → List VpnGateway → List ValidationError
unfolding gateway_errors after_gateway
gateways_from seen [] = []
gateways_from seen (g ∷ gs) = gateway_errors seen g ++ gateways_from (after_gateway seen g) gs
