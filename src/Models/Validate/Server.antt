-- ===== src/Models/Validate/Server.antt =====
-- models.go: `ServerConfig.Validate`.
pub mod Login
use wg_busy.Prelude.{
  ℕ, ◌+◌, Bool, true, false, not, ◌&&◌, List, [], ◌∷◌, ◌++◌, if◌then◌else◌, Text, codes, is_empty,
  trim_space, length, has, ltb, ◌==◌, flatten,
}
use wg_busy.Net.Parse.{parse_ip}
use wg_busy.Models.{Passkey, ServerConfig, ValidationError}
use wg_busy.Models.Validate.{problem, check, is_none, field_at}
use wg_busy.Models.Validate.Formats.{is_valid_base64_key, is_valid_cidr_list, is_valid_dns_list}
use wg_busy.Models.Validate.Formats.Numbers.{is_valid_endpoint, is_valid_table, is_valid_fw_mark}

-- A key, a list of addresses, and the optional fields: the empty text is accepted.
unfoldable pub required_key : Text → Text → List ValidationError
required_key field key =
    if is_empty key
    then problem field (codes "required")
    else check (not (is_valid_base64_key key)) field (codes "must be a 44-character base64 key")

address_errors : Text → List ValidationError
address_errors address =
    if is_empty address
    then problem (codes "address") (codes "required")
    else check (not (is_valid_cidr_list address)) (codes "address")
        (codes "must be valid CIDR (e.g. 10.0.0.1/24)")

unfoldable pub endpoint_errors : Text → List ValidationError
endpoint_errors endpoint =
    check (not (is_empty endpoint) && not (is_valid_endpoint endpoint)) (codes "endpoint")
      (codes "must be host:port")

unfoldable pub dns_errors : Text → List ValidationError
dns_errors dns =
    check (not (is_empty dns) && not (is_valid_dns_list dns)) (codes "dns")
      (codes "must be comma-separated IPs or hostnames")

-- MTU, table and firewall mark.
link_errors : ServerConfig → List ValidationError
link_errors s =
    check (not (s.mtu == 0) && ltb s.mtu 1280) (codes "mtu") (codes "must be 1280-65535")
    ++ (check (not (is_empty s.table) && not (is_valid_table s.table)) (codes "table")
          (codes "must be 'off', 'auto', or a numeric value")
        ++ check (not (is_empty s.fw_mark) && not (is_valid_fw_mark s.fw_mark)) (codes "fwMark")
            (codes "must be a number, hex (0x...), or 'off'"))

too_long : Text → Text → List ValidationError
too_long hook field = check (ltb 4096 (length hook)) field (codes "maximum 4096 characters")

hook_errors : ServerConfig → List ValidationError
unfolding too_long
hook_errors s =
    too_long s.pre_up (codes "preUp")
    ++ (too_long s.post_up (codes "postUp")
        ++ (too_long s.pre_down (codes "preDown") ++ too_long s.post_down (codes "postDown")))

bgp_errors : ServerConfig → List ValidationError
bgp_errors s =
    if s.bgp_enabled
    then check (not (is_empty s.bgp_listen_address) && is_none (parse_ip s.bgp_listen_address))
        (codes "bgpListenAddress") (codes "must be a valid IP address")
      ++ (check (s.bgp_listen_port == 0) (codes "bgpListenPort") (codes "must be > 0")
          ++ check (s.bgp_asn == 0) (codes "bgpAsn") (codes "required when BGP is enabled"))
    else []

passkey_name_errors : ℕ → Text → List ValidationError
unfolding field_at
passkey_name_errors i name =
    if is_empty (trim_space name)
    then problem (field_at (codes "passkeys") i (codes "name")) (codes "required")
    else check (ltb 64 (length name)) (field_at (codes "passkeys") i (codes "name"))
        (codes "maximum 64 characters")

passkey_id_errors : List Text → ℕ → Text → List ValidationError
unfolding field_at
passkey_id_errors seen i id =
    if is_empty (trim_space id)
    then problem (field_at (codes "passkeys") i (codes "id")) (codes "required")
    else check (has seen id) (field_at (codes "passkeys") i (codes "id"))
        (codes "duplicate credential ID")

passkey_key_errors : ℕ → Text → List ValidationError
unfolding field_at
passkey_key_errors i key =
    check (is_empty (trim_space key)) (field_at (codes "passkeys") i (codes "publicKey"))
      (codes "required")

-- An ID without an error is entered into the set.
seen_after : List Text → Text → List Text
seen_after seen id =
    if is_empty (trim_space id) then seen else if has seen id then seen else id ∷ seen

passkeys_from : List Text → ℕ → List Passkey → List ValidationError
unfolding passkey_name_errors passkey_id_errors passkey_key_errors seen_after
passkeys_from seen i [] = []
passkeys_from seen i (k ∷ ks) =
    passkey_name_errors i k.name
    ++ (passkey_id_errors seen i k.id
        ++ (passkey_key_errors i k.public_key ++ passkeys_from (seen_after seen k.id) (i + 1) ks))

-- Passkey login may be required only if there is a passkey.
abbrev pub no_passkey : List Passkey → Bool
no_passkey [] = true
no_passkey (k ∷ ks) = false

unfoldable pub validate_server : ServerConfig → List ValidationError
unfolding required_key address_errors endpoint_errors dns_errors link_errors hook_errors bgp_errors
    passkeys_from
validate_server s = flatten (
    required_key (codes "privateKey") s.private_key
    ∷ check (s.listen_port == 0) (codes "listenPort") (codes "required and must be > 0")
    ∷ address_errors s.address
    ∷ endpoint_errors s.endpoint
    ∷ dns_errors s.dns
    ∷ link_errors s
    ∷ hook_errors s
    ∷ bgp_errors s
    ∷ check (s.require_passkey && no_passkey s.passkeys) (codes "requirePasskey")
        (codes "cannot require passkey login when no passkeys are configured")
    ∷ passkeys_from [] 0 s.passkeys
    ∷ [])
