-- ===== src/Routing/Tables/Fresh.antt =====
-- The IDs that the search for a free routing table finds.
use wg_busy.Prelude.{
  ℕ, zero, suc, ◌+◌, ◌≤◌, ◌<◌, ◌≡◌, ◌≢◌, refl, true, false, List, [], ◌∷◌, if◌then◌else◌, has_num,
  leb, length, arith, All,
}
use wg_busy.Models.{Peer}
use wg_busy.Routing.Tables.{used_tables, first_free, assign_routing_table_id}

-- How many of the IDs are at least `id`.
count_from : ℕ → List ℕ → ℕ
count_from id [] = 0
count_from id (x ∷ xs) = (if leb id x then 1 else 0) + count_from id xs

count_from-le-length : (id : ℕ) (xs : List ℕ) → count_from id xs ≤ length xs
unfolding count_from
count_from-le-length id [] = omega arith
count_from-le-length id (x ∷ xs) = ground (arith, count_from-le-length id xs)

count_from_next : (id : ℕ) (xs : List ℕ) → count_from (id + 1) xs ≤ count_from id xs
unfolding count_from
count_from_next id [] = omega arith
count_from_next id (x ∷ xs) = ground (arith, count_from_next id xs)

-- A used ID counts.
count_from_used :
    (id : ℕ) (xs : List ℕ) → has_num xs id ≡ true → count_from (id + 1) xs < count_from id xs
unfolding count_from has_num
count_from_used id [] h = cc
count_from_used id (x ∷ xs) h = ground (arith, count_from_used id xs, count_from_next id xs)

count_from_zero : (id : ℕ) (xs : List ℕ) → count_from id xs ≡ 0 → has_num xs id ≡ false
unfolding count_from has_num
count_from_zero id [] h = refl
count_from_zero id (x ∷ xs) h = ground (arith, count_from_zero id xs)

-- With enough rounds the loop ends at an ID that is not in use.
first_free_fresh_from :
    (fuel id : ℕ) (used : List ℕ)
    → count_from id used ≤ fuel
    → has_num used (first_free fuel id used) ≡ false
unfolding first_free
first_free_fresh_from zero id used h = count_from_zero id used (omega arith)
first_free_fresh_from (suc fuel) id used h =
    ground (arith, first_free_fresh_from fuel (id + 1) used, count_from_used id used)

pub first_free_fresh :
    (fuel id : ℕ) (used : List ℕ)
    → length used ≤ fuel
    → has_num used (first_free fuel id used) ≡ false
first_free_fresh fuel id used h =
    first_free_fresh_from fuel id used (omega (arith, count_from-le-length id used))

-- And it passes over used IDs only.
pub first_free_least :
    (fuel id : ℕ) (used : List ℕ) (k : ℕ)
    → id ≤ k
    → k < first_free fuel id used
    → has_num used k ≡ true
unfolding first_free
first_free_least zero id used k h lt = absurd (omega arith)
first_free_least (suc fuel) id used k h lt = ground (arith, first_free_least fuel (id + 1) used k)

pub le-first_free : (fuel id : ℕ) (used : List ℕ) → id ≤ first_free fuel id used
unfolding first_free
le-first_free zero id used = omega arith
le-first_free (suc fuel) id used = ground (arith, le-first_free fuel (id + 1) used)

-- An ID that is not 0 and not among the used ones is no peer's table.
pub used_tables_sound :
    (peers : List Peer) (id : ℕ)
    → 0 < id
    → has_num (used_tables peers) id ≡ false
    → All (λ p. (p.routing_table_id ≢ id) × (p.policy_routing_table_id ≢ id)) peers
unfolding used_tables has_num
used_tables_sound [] id h n = tt
used_tables_sound (p ∷ ps) id h n = ground (arith, used_tables_sound ps id h)

-- The ID that is assigned is at least 100, is not the routing table or the policy table of any
-- peer, and every smaller ID from 100 on is in use.
pub assign_routing_table_id_fresh :
    (peers : List Peer)
    → let id = assign_routing_table_id peers in
      (100 ≤ id)
      × All (λ p. (p.routing_table_id ≢ id) × (p.policy_routing_table_id ≢ id)) peers
      × ((k : ℕ) → 100 ≤ k → k < id → has_num (used_tables peers) k ≡ true)
unfolding assign_routing_table_id
assign_routing_table_id_fresh peers =
    let used : List ℕ = used_tables peers in
    let low : 100 ≤ first_free (length used) 100 used = le-first_free (length used) 100 used in
    (
      low,
      used_tables_sound peers _ (omega arith)
          (first_free_fresh (length used) 100 used (omega arith)),
      first_free_least (length used) 100 used,
    )
