-- ===== src/Models/Validate/Server/Login.antt =====
-- What an accepted server configuration guarantees for the link and for login.
use wg_busy.Prelude.{
  ℕ, ◌+◌, ◌≤◌, ◌≡◌, ◌≢◌, ◌⊎◌, true, false, List, [], ◌∷◌, Text, is_empty, trim_space, length, arith,
  All, append_nil, flatten_nil, Bool, ◌&&◌,
}
use wg_busy.Models.{Passkey, ServerConfig}
use wg_busy.Models.Validate.{check}
use wg_busy.Models.Validate.Seen.{DistinctBy, NotSeen, unseen}
use wg_busy.Models.Validate.Formats.{is_valid_base64_key, is_valid_cidr_list}
use wg_busy.Models.Validate.Server.{
  required_key, address_errors, link_errors, bgp_errors, passkey_name_errors, passkey_id_errors,
  passkey_key_errors, seen_after, passkeys_from, no_passkey, validate_server,
}

-- A passkey that can be told apart and used.
abbrev pub GoodPasskey : Passkey → Type 0
GoodPasskey k =
    (is_empty (trim_space k.id) ≡ false)
    × (is_empty (trim_space k.name) ≡ false)
    × (length k.name ≤ 64)
    × (is_empty (trim_space k.public_key) ≡ false)

abbrev passkey_id : Passkey → Text
passkey_id k = k.id

-- No two passkeys have the same ID.
abbrev pub DistinctKeys : List Passkey → Type 0
DistinctKeys = DistinctBy passkey_id

passkeys_step :
    (seen : List Text) (i : ℕ) (k : Passkey) (ks : List Passkey)
    → passkeys_from seen i (k ∷ ks) ≡ []
    → GoodPasskey k × NotSeen passkey_id seen k × (passkeys_from (k.id ∷ seen) (i + 1) ks ≡ [])
unfolding passkeys_from passkey_name_errors passkey_id_errors passkey_key_errors seen_after
passkeys_step seen i k ks h = ground (
  arith,
  append_nil (passkey_name_errors i k.name),
  append_nil (passkey_id_errors seen i k.id),
  append_nil (passkey_key_errors i k.public_key),
)

passkeys_sound :
    (seen : List Text) (i : ℕ) (ks : List Passkey)
    → passkeys_from seen i ks ≡ []
    → All GoodPasskey ks × All (NotSeen passkey_id seen) ks × DistinctKeys ks
passkeys_sound seen i [] h = (tt, tt, tt)
passkeys_sound seen i (k ∷ ks) h =
    let first = passkeys_step seen i k ks h in
    let rest = passkeys_sound (k.id ∷ seen) (i + 1) ks first.2 in
    let apart = unseen passkey_id k.id seen ks rest.1 in
    ((first.0, rest.0), (first.1, apart.1), (apart.0, rest.2))

key_good : (field key : Text) → required_key field key ≡ [] → is_valid_base64_key key ≡ true
unfolding required_key
key_good field key h = ground arith

address_good : (s : Text) → address_errors s ≡ [] → is_valid_cidr_list s ≡ true
unfolding address_errors
address_good s h = ground arith

mtu_good : (s : ServerConfig) → link_errors s ≡ [] → (s.mtu ≡ 0) ⊎ (1280 ≤ s.mtu)
unfolding link_errors
mtu_good s h = ground arith

bgp_good :
    (s : ServerConfig)
    → bgp_errors s ≡ []
    → (s.bgp_enabled ≡ false) ⊎ (s.bgp_asn ≢ 0) × (s.bgp_listen_port ≢ 0)
unfolding bgp_errors
bgp_good s h = ground arith

login_good :
    (required : Bool) (keys : List Passkey) (field message : Text)
    → check (required && no_passkey keys) field message ≡ []
    → (required ≡ false) ⊎ (keys ≢ [])
login_good required keys field message h = ground arith

-- The private key and the addresses of an accepted server parse, its port is not 0 and its MTU is 0
-- or at least 1280; while BGP is enabled the AS number and the BGP port are not 0; if passkey
-- login is required there is a passkey; every passkey has an ID, a name of at most 64 bytes and a
-- public key that are not blank, and no two passkeys have the same ID.
pub validate_server_sound :
    (s : ServerConfig)
    → validate_server s ≡ []
    → (is_valid_base64_key s.private_key ≡ true)
      × (s.listen_port ≢ 0)
      × (is_valid_cidr_list s.address ≡ true)
      × ((s.mtu ≡ 0) ⊎ (1280 ≤ s.mtu))
      × ((s.bgp_enabled ≡ false) ⊎ (s.bgp_asn ≢ 0) × (s.bgp_listen_port ≢ 0))
      × ((s.require_passkey ≡ false) ⊎ (s.passkeys ≢ []))
      × All GoodPasskey s.passkeys
      × DistinctKeys s.passkeys
unfolding validate_server
validate_server_sound s h =
    let parts = (flatten_nil _).0 h in
    let good = passkeys_sound [] 0 s.passkeys parts.1.1.1.1.1.1.1.1.1.0 in
    (
      key_good _ s.private_key parts.0,
      ground (arith, parts.1.0),
      address_good s.address parts.1.1.0,
      mtu_good s parts.1.1.1.1.1.0,
      bgp_good s parts.1.1.1.1.1.1.1.0,
      login_good s.require_passkey s.passkeys _ _ parts.1.1.1.1.1.1.1.1.0,
      good.0,
      good.2,
    )
