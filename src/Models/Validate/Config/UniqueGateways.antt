-- ===== src/Models/Validate/Config/UniqueGateways.antt =====
-- What the gateways of an accepted configuration do not share.
use wg_busy.Prelude.{
  ℕ, ◌≡◌, refl, false, inl, inr, List, [], ◌∷◌, ◌++◌, if◌then◌else◌, Text, is_empty, trim_space,
  ◌==◌, arith, All, append_nil, flatten_nil, flat_map, Bool-cases,
}
use wg_busy.Models.{VpnGateway, ValidationError}
use wg_busy.Models.Validate.Claims.{claim, repeated, text_key, num_key}
use wg_busy.Models.Validate.Claims.Apart.{Claimed, Claimed-cons}
use wg_busy.Models.Validate.Config.Gateways.{
  GatewaySeen, gateway_errors, after_gateway, gateways_from,
}

-- The ID, the interface and the routing table of a gateway, where they are set.
abbrev pub set_text : Text → List Text
set_text s = if is_empty s then [] else s ∷ []

abbrev pub gateway_id : VpnGateway → List Text
gateway_id g = set_text g.id

abbrev pub gateway_iface : VpnGateway → List Text
gateway_iface g = set_text g.interface

abbrev pub gateway_table : VpnGateway → List ℕ
gateway_table g = if g.routing_table_id == 0 then [] else g.routing_table_id ∷ []

abbrev pub Named : VpnGateway → Type 0
Named g = (is_empty (trim_space g.id) ≡ false) × (is_empty (trim_space g.name) ≡ false)

abbrev AllClaimed : GatewaySeen → List VpnGateway → Type 0
AllClaimed seen gs =
    Claimed seen.ids (flat_map gateway_id gs)
    × Claimed seen.ifaces (flat_map gateway_iface gs)
    × Claimed seen.tables (flat_map gateway_table gs)
    × All Named gs

-- An optional text that is entered into a map.
text_then :
    (m : List (Text × Text)) (k owner : Text) (error : Text → ValidationError) (js : List Text)
    → (if is_empty k then [] else repeated m k error) ≡ []
    → Claimed (if is_empty k then m else claim m k owner) js
    → Claimed m (set_text k ++ js)
text_then m [] owner error js h rest = rest
text_then m (c ∷ k) owner error js h rest = Claimed-cons m (c ∷ k) owner error js h rest

table_then :
    (m : List (ℕ × Text)) (k : ℕ) (owner : Text) (error : Text → ValidationError) (js : List ℕ)
    → (if k == 0 then [] else repeated m k error) ≡ []
    → Claimed (if k == 0 then m else claim m k owner) js
    → Claimed m ((if k == 0 then [] else k ∷ []) ++ js)
table_then m k owner error js h rest = elim (Bool-cases (k == 0)) [
  | inl zero ↦ simp zero (simp zero at rest)
  | inr set ↦ simp set (Claimed-cons m k owner error js (simp set at h) (simp set at rest))
]

shown :
    (m : List (Text × Text)) (k : Text) (error : Text → ValidationError)
    → repeated m k error ≡ []
    → (if is_empty k then [] else repeated m k error) ≡ []
shown m [] error h = refl
shown m (c ∷ k) error h = h

gateway_step :
    (seen : GatewaySeen) (g : VpnGateway) (gs : List VpnGateway)
    → gateway_errors seen g ≡ []
    → AllClaimed (after_gateway seen g) gs
    → AllClaimed seen (g ∷ gs)
unfolding gateway_errors after_gateway
gateway_step seen g gs h (ids, ifaces, tables, more) =
    let parts = (flatten_nil _).0 h in
    (
      text_then seen.ids g.id g.name _ _ (shown seen.ids g.id _ parts.1.1.0) ids,
      text_then seen.ifaces g.interface g.name _ _ parts.1.1.1.0 ifaces,
      table_then seen.tables g.routing_table_id g.name _ _ parts.1.1.1.1.0 tables,
      ((ground (arith, parts.0), ground (arith, parts.1.0)), more),
    )

pub gateways_claimed :
    (seen : GatewaySeen) (gs : List VpnGateway) → gateways_from seen gs ≡ [] → AllClaimed seen gs
unfolding gateways_from
gateways_claimed seen [] h = (tt, tt, tt, tt)
gateways_claimed seen (g ∷ gs) h =
    let both = (append_nil (gateway_errors seen g) _).0 h in
    gateway_step seen g gs both.0 (gateways_claimed (after_gateway seen g) gs both.1)
