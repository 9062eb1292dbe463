-- ===== src/Config/Tables/Fresh.antt =====
-- The routing tables that imported gateways are given.
use wg_busy.Prelude.{
  ℕ, ◌+◌, ◌≤◌, ◌≡◌, ◌≢◌, inl, inr, refl, true, false, List, [], ◌∷◌, ◌++◌, has_num, length, ◌==◌,
  arith, All, All-map, map, subst, sym, ap, ◌∙◌, flat_map, Bool-cases,
}
use wg_busy.Models.{VpnGateway, AppConfig}
use wg_busy.Models.Validate.Claims.Apart.{Apart}
use wg_busy.Models.Validate.Config.UniqueGateways.{gateway_table}
use wg_busy.Routing.Tables.{used_tables, first_free}
use wg_busy.Routing.Tables.Fresh.{first_free_fresh, le-first_free}
use wg_busy.Config.Tables.{
  gateway_tables, tables_in_use, assign_tables, ensure_vpn_gateway_routing_table_ids,
}
use wg_busy.Config.Tables.Given.{
  table_of, AllGiven, assign_new, assign_old, assign_tables_given, Counted, given_nonzero,
  has_num_head, new_differs, old_differs,
}

more-Counted :
    (x : ℕ) (used : List ℕ) (gs : List VpnGateway)
    → All (Counted used) gs
    → All (Counted (x ∷ used)) gs
unfolding has_num
more-Counted x used [] c = tt
more-Counted x used (g ∷ gs) c = (ground (arith, c.0), more-Counted x used gs c.1)

assign_tables-Apart :
    (next : ℕ) (used : List ℕ) (gs : List VpnGateway)
    → 20000 ≤ next
    → All (Counted used) gs
    → Apart (flat_map gateway_table gs)
    → Apart (map table_of (assign_tables next used gs))
unfolding assign_tables
assign_tables-Apart next used [] low c a = tt
assign_tables-Apart next used (g ∷ gs) low c a = elim (Bool-cases (g.routing_table_id == 0)) [
  | inl new ↦
      let id : ℕ = first_free (length used) next used in
      let above : next ≤ id = le-first_free (length used) next used in
      let fresh : has_num used id ≡ false =
        first_free_fresh (length used) next used (omega arith) in
      rw (assign_new next used g gs new) (
        new_differs id used gs _ fresh c.1
            (assign_tables_given (id + 1) (id ∷ used) gs (omega arith)),
        assign_tables-Apart (id + 1) (id ∷ used) gs (omega arith) (more-Counted id used gs c.1)
            (simp new at a),
      )
  | inr old ↦
      let parts : All (λ j. g.routing_table_id ≢ j) (flat_map gateway_table gs)
          × Apart (flat_map gateway_table gs) =
        simp old at a in
      rw (assign_old next used g gs old) (
        old_differs g.routing_table_id used gs _ (ground (arith, c.0)) parts.0
            (assign_tables_given next used gs low),
        assign_tables-Apart next used gs low c.1 parts.1,
      )
]

has_num-append :
    (xs ys : List ℕ) (n : ℕ)
    → has_num (xs ++ ys) n ≡ false
    → (has_num xs n ≡ false) × (has_num ys n ≡ false)
unfolding has_num
has_num-append [] ys n h = (refl, h)
has_num-append (x ∷ xs) ys n h = ground (arith, has_num-append xs ys n)

-- What is in use by a part is in use.
in_front : (xs ys : List ℕ) (n : ℕ) → has_num xs n ≡ true → has_num (xs ++ ys) n ≡ true
in_front xs ys n h = elim (Bool-cases (has_num (xs ++ ys) n)) [
  | inl found ↦ found
  | inr missing ↦ cc ((has_num-append xs ys n missing).0, h)
]

tables_unset :
    (g : VpnGateway) (gs : List VpnGateway)
    → (g.routing_table_id == 0) ≡ true
    → gateway_tables (g ∷ gs) ≡ gateway_tables gs
unfolding gateway_tables
tables_unset g gs h = ground arith

tables_set :
    (g : VpnGateway) (gs : List VpnGateway)
    → (g.routing_table_id == 0) ≡ false
    → gateway_tables (g ∷ gs) ≡ g.routing_table_id ∷ gateway_tables gs
unfolding gateway_tables
tables_set g gs h = ground arith

gateways-Counted : (gs : List VpnGateway) → All (Counted (gateway_tables gs)) gs
gateways-Counted [] = tt
gateways-Counted (g ∷ gs) = elim (Bool-cases (g.routing_table_id == 0)) [
  | inl unset ↦ (
    inl (ground arith),
    subst (λ x. All (Counted x) gs) (sym (tables_unset g gs unset)) (gateways-Counted gs),
  )
  | inr set ↦ (
    inr (rw (tables_set g gs set) (has_num_head g.routing_table_id (gateway_tables gs))),
    subst (λ x. All (Counted x) gs) (sym (tables_set g gs set))
        (more-Counted g.routing_table_id (gateway_tables gs) gs (gateways-Counted gs)),
  )
]

Counted-front : (used more : List ℕ) (g : VpnGateway) → Counted used g → Counted (used ++ more) g
Counted-front used more g (inl z) = inl z
Counted-front used more g (inr h) = inr (in_front used more g.routing_table_id h)

assign_tables_set :
    (next : ℕ) (used : List ℕ) (gs : List VpnGateway)
    → All (λ g. g.routing_table_id ≢ 0) gs
    → assign_tables next used gs ≡ gs
unfolding assign_tables
assign_tables_set next used [] h = refl
assign_tables_set next used (g ∷ gs) h =
    assign_old next used g gs (ground (arith, h.0))
    ∙ ap (λ x. g ∷ x) (assign_tables_set next used gs h.1)

pub ensure_nonzero :
    (cfg : AppConfig)
    → All (λ g. g.routing_table_id ≢ 0) (ensure_vpn_gateway_routing_table_ids cfg).vpn_gateways
unfolding ensure_vpn_gateway_routing_table_ids
ensure_nonzero cfg =
    given_nonzero (tables_in_use cfg) cfg.vpn_gateways _
      (assign_tables_given 20000 (tables_in_use cfg) cfg.vpn_gateways (omega arith))

pub ensure_complete :
    (cfg : AppConfig)
    → All (λ g. g.routing_table_id ≢ 0) cfg.vpn_gateways
    → ensure_vpn_gateway_routing_table_ids cfg ≡ cfg
unfolding ensure_vpn_gateway_routing_table_ids
ensure_complete cfg set =
    ap (λ gs. record cfg { vpn_gateways = gs }) (assign_tables_set 20000 _ _ set)

-- Where the tables that gateways already have are different, afterwards every gateway has a table and no
-- two have the same; a gateway that had one is unchanged; one that had none is changed only in its
-- table, which is at least 20000 and was not the table of a peer or a gateway. The search for it
-- ends, and doing it again changes nothing.
pub ensure_vpn_gateway_routing_table_ids_fresh :
    (cfg : AppConfig)
    → Apart (flat_map gateway_table cfg.vpn_gateways)
    → let new = ensure_vpn_gateway_routing_table_ids cfg in
      All (λ g. g.routing_table_id ≢ 0) new.vpn_gateways
      × Apart (map table_of new.vpn_gateways)
      × AllGiven (tables_in_use cfg) cfg.vpn_gateways new.vpn_gateways
      × (ensure_vpn_gateway_routing_table_ids new ≡ new)
unfolding ensure_vpn_gateway_routing_table_ids tables_in_use
ensure_vpn_gateway_routing_table_ids_fresh cfg a =
    let given = assign_tables_given 20000 (tables_in_use cfg) cfg.vpn_gateways (omega arith) in
    let counted : All (Counted (tables_in_use cfg)) cfg.vpn_gateways =
      All-map (Counted (gateway_tables cfg.vpn_gateways)) (Counted (tables_in_use cfg))
        cfg.vpn_gateways (Counted-front (gateway_tables cfg.vpn_gateways) (used_tables cfg.peers))
        (gateways-Counted cfg.vpn_gateways) in
    (
      ensure_nonzero cfg,
      assign_tables-Apart 20000 (tables_in_use cfg) cfg.vpn_gateways (omega arith) counted a,
      given,
      ensure_complete _ (ensure_nonzero cfg),
    )
