-- ===== src/Config/Tables/Given.antt =====
-- What assign_tables gives each gateway.
use wg_busy.Prelude.{
  ℕ, ◌+◌, ◌≤◌, ◌≡◌, ◌≢◌, ◌⊎◌, inl, inr, refl, true, false, List, [], ◌∷◌, has_num, length, ◌==◌,
  arith, All, map, flat_map, Bool-cases,
}
use wg_busy.Models.{VpnGateway}
use wg_busy.Models.Validate.Config.UniqueGateways.{gateway_table}
use wg_busy.Routing.Tables.{first_free}
use wg_busy.Routing.Tables.Fresh.{first_free_fresh, le-first_free}
use wg_busy.Config.Tables.{with_table, assign_tables}

abbrev pub table_of : VpnGateway → ℕ
table_of g = g.routing_table_id

-- A gateway with a table is kept as it is; one without is given an ID from 20000 on that is not in use.
abbrev pub GivenTable : List ℕ → VpnGateway → VpnGateway → Type 0
GivenTable used g h =
    ((g.routing_table_id ≢ 0) × (h ≡ g))
    ⊎ ((g.routing_table_id ≡ 0)
        × (h ≡ with_table g h.routing_table_id)
        × (20000 ≤ h.routing_table_id)
        × (has_num used h.routing_table_id ≡ false))

abbrev pub AllGiven : List ℕ → List VpnGateway → List VpnGateway → Type 0
AllGiven used [] [] = Unit
AllGiven used [] (h ∷ hs) = ⊥
AllGiven used (g ∷ gs) [] = ⊥
AllGiven used (g ∷ gs) (h ∷ hs) = GivenTable used g h × AllGiven used gs hs

has_num-cons :
    (x : ℕ) (used : List ℕ) (k : ℕ) → has_num (x ∷ used) k ≡ false → has_num used k ≡ false
unfolding has_num
has_num-cons x used k h = ground arith

fewer_used :
    (x : ℕ) (used : List ℕ) (gs hs : List VpnGateway)
    → AllGiven (x ∷ used) gs hs
    → AllGiven used gs hs
fewer_used x used [] [] h = tt
fewer_used x used [] (k ∷ hs) h = absurd h
fewer_used x used (g ∷ gs) [] h = absurd h
fewer_used x used (g ∷ gs) (k ∷ hs) (inl old, more) = (inl old, fewer_used x used gs hs more)
fewer_used x used (g ∷ gs) (k ∷ hs) (inr (z, e, low, new), more) =
    (inr (z, e, low, has_num-cons x used k.routing_table_id new), fewer_used x used gs hs more)

pub assign_new :
    (next : ℕ) (used : List ℕ) (g : VpnGateway) (gs : List VpnGateway)
    → (g.routing_table_id == 0) ≡ true
    → assign_tables next used (g ∷ gs)
      ≡ with_table g (first_free (length used) next used)
        ∷ assign_tables
            (first_free (length used) next used + 1)
            (first_free (length used) next used ∷ used)
            gs
unfolding assign_tables
assign_new next used g gs h = ground arith

pub assign_old :
    (next : ℕ) (used : List ℕ) (g : VpnGateway) (gs : List VpnGateway)
    → (g.routing_table_id == 0) ≡ false
    → assign_tables next used (g ∷ gs) ≡ g ∷ assign_tables next used gs
unfolding assign_tables
assign_old next used g gs h = ground arith

pub assign_tables_given :
    (next : ℕ) (used : List ℕ) (gs : List VpnGateway)
    → 20000 ≤ next
    → AllGiven used gs (assign_tables next used gs)
unfolding assign_tables
assign_tables_given next used [] low = tt
assign_tables_given next used (g ∷ gs) low = elim (Bool-cases (g.routing_table_id == 0)) [
  | inl new ↦
      let id : ℕ = first_free (length used) next used in
      let above : next ≤ id = le-first_free (length used) next used in
      rw (assign_new next used g gs new) (
        inr (
          ground arith,
          refl,
          omega arith,
          first_free_fresh (length used) next used (omega arith),
        ),
        fewer_used id used gs _ (assign_tables_given (id + 1) (id ∷ used) gs (omega arith)),
      )
  | inr old ↦
      rw (assign_old next used g gs old)
        (inl (ground arith, refl), assign_tables_given next used gs low)
]

-- The tables of the gateways that have one are in use.
abbrev pub Counted : List ℕ → VpnGateway → Type 0
Counted used g = (g.routing_table_id ≡ 0) ⊎ (has_num used g.routing_table_id ≡ true)

abbrev pub Differ : ℕ → List VpnGateway → Type 0
Differ x hs = All (λ j. x ≢ j) (map table_of hs)

pub given_nonzero :
    (used : List ℕ) (gs hs : List VpnGateway)
    → AllGiven used gs hs
    → All (λ h. h.routing_table_id ≢ 0) hs
given_nonzero used [] [] h = tt
given_nonzero used [] (k ∷ hs) h = absurd h
given_nonzero used (g ∷ gs) [] h = absurd h
given_nonzero used (g ∷ gs) (k ∷ hs) (inl (n, e), more) =
    (ground arith, given_nonzero used gs hs more)
given_nonzero used (g ∷ gs) (k ∷ hs) (inr (z, e, low, new), more) =
    (omega arith, given_nonzero used gs hs more)

pub has_num_head : (x : ℕ) (used : List ℕ) → has_num (x ∷ used) x ≡ true
unfolding has_num
has_num_head x used = ground arith

-- An ID that was new differs from those of the gateways behind it.
pub new_differs :
    (x : ℕ) (used : List ℕ) (gs hs : List VpnGateway)
    → has_num used x ≡ false
    → All (Counted used) gs
    → AllGiven (x ∷ used) gs hs
    → Differ x hs
new_differs x used [] [] n c h = tt
new_differs x used [] (k ∷ hs) n c h = absurd h
new_differs x used (g ∷ gs) [] n c h = absurd h
new_differs x used (g ∷ gs) (k ∷ hs) n c (inl (set, e), more) =
    (λ q. ground (arith, c.0), new_differs x used gs hs n c.1 more)
new_differs x used (g ∷ gs) (k ∷ hs) n c (inr (z, e, low, new), more) =
    (λ q. cc (q, new, has_num_head x used), new_differs x used gs hs n c.1 more)

-- So does an ID that a gateway had, if no gateway behind it had the same.
pub old_differs :
    (x : ℕ) (used : List ℕ) (gs hs : List VpnGateway)
    → has_num used x ≡ true
    → All (λ j. x ≢ j) (flat_map gateway_table gs)
    → AllGiven used gs hs
    → Differ x hs
old_differs x used [] [] n c h = tt
old_differs x used [] (k ∷ hs) n c h = absurd h
old_differs x used (g ∷ gs) [] n c h = absurd h
old_differs x used (g ∷ gs) (k ∷ hs) n c (given, more) =
    elim (Bool-cases (g.routing_table_id == 0)) [
      | inl unset ↦ elim given [
        | inl (set, e) ↦ absurd (set (ground arith))
        | inr (z, e, low, new) ↦
            (λ q. cc (q, n, new), old_differs x used gs hs n (simp unset at c) more)
      ]
      | inr set ↦
          let parts : (x ≢ g.routing_table_id) × All (λ j. x ≢ j) (flat_map gateway_table gs) =
            simp set at c in
          elim given [
            | inl (s, e) ↦ (λ q. parts.0 (cc (q, e)), old_differs x used gs hs n parts.1 more)
            | inr (z, e, low, new) ↦ (λ q. cc (q, n, new), old_differs x used gs hs n parts.1 more)
          ]
    ]
