-- ===== src/Ipam/Search.antt =====
-- The search for a free address in an IPv4 pool: it finds the first one, and fails only if there is
-- none.
use native.Mathlib.Nat.{div-eq_of_lt-le, div-mul-le_self, lt-div-mul-add}
use wg_busy.Prelude.{
  ℕ, subst, zero, suc, ◌+◌, ◌-◌, ◌*◌, ◌/◌, ◌^◌, ◌≤◌, ◌<◌, ◌≡◌, ◌↔◌, refl, sym, ap, ◌∙◌, true, false,
  inl, inr, List, ◌++◌, codes, itoa, Option, none, some, Text, has, arith, Bool-cases, ◌==◌,
  if◌then◌else◌,
}
use wg_busy.Net.{Ip, v4, v6, Cidr, contains, mask_ones}
use wg_busy.Net.Format.{ip_text}
use wg_busy.Ipam.{
  next_ip, search, size, used_set, allocation_network, next_available_ip, with_prefix_bits, shown,
  allocate,
}
use wg_busy.Ipam.Next.{next_ip_v4}

same_quotient : (p b n : ℕ) → 0 < p → b / p * p ≡ b → (b / p ≡ n / p) ↔ ((b ≤ n) × (n < b + p))
same_quotient p b n pos al = (
  λ e.
      let c : n / p * p ≡ b = ap (λ q. q * p) (sym e) ∙ al in
      omega (arith, c, div-mul-le_self n p, lt-div-mul-add {a = n} pos),
  λ h.
      let low : b / p * p ≤ n = omega (arith, al, h.0) in
      let high : n < (b / p + 1) * p = omega (arith, al, h.1) in sym (div-eq_of_lt-le p low high),
)

abbrev at_or_none : ℕ → Option Ip
at_or_none n = if n == 2 ^ 32 then none else some (v4 n)

-- The IPv4 network of the addresses from `b` on, as `ParseCIDR` returns it: its address has no bit
-- outside the mask.
abbrev pub pool_size : Cidr → ℕ
pool_size net = 2 ^ (32 - mask_ones net)

abbrev pub IsPool : Cidr → ℕ → Type 0
IsPool net b =
    (net.base ≡ v4 b)
    × (0 < pool_size net)
    × (b / pool_size net * pool_size net ≡ b)
    × (b + pool_size net ≤ 2 ^ 32)

module _ (fuel : ℕ) (net : Cidr) (used : List Text) (ip : Ip) where
  search_out : contains net ip ≡ false → search (suc fuel) net used (some ip) ≡ none
  unfolding search
  search_out h = ground arith

  search_free :
      contains net ip ≡ true
      → has used (ip_text ip) ≡ false
      → search (suc fuel) net used (some ip) ≡ some ip
  unfolding search
  search_free h free = ground arith

  search_taken :
      contains net ip ≡ true
      → has used (ip_text ip) ≡ true
      → search (suc fuel) net used (some ip) ≡ search fuel net used (next_ip ip)
  unfolding search
  search_taken h taken = ground arith

module _ (net : Cidr) (b : ℕ) (used : List Text) (pool : IsPool net b) where
  abbrev Used : ℕ → Type 0
  Used n = has used (ip_text (v4 n)) ≡ true

  -- What the search says of the addresses from `n` on.
  abbrev Answer : ℕ → Option Ip → Type 0
  Answer n none = (m : ℕ) → n ≤ m → m < b + pool_size net → Used m
  Answer n (some (v4 r)) =
      (n ≤ r)
      × (r < b + pool_size net)
      × (has used (ip_text (v4 r)) ≡ false)
      × ((m : ℕ) → n ≤ m → m < r → Used m)
  Answer n (some (v6 r)) = ⊥

  contains_v4 : (n : ℕ) → contains net (v4 n) ≡ (b / pool_size net == n / pool_size net)
  unfolding contains
  contains_v4 n = simp (pool.0) refl

  contains_iff : (n : ℕ) → (contains net (v4 n) ≡ true) ↔ ((b ≤ n) × (n < b + pool_size net))
  contains_iff n = ground (arith, contains_v4 n, same_quotient (pool_size net) b n pool.1 pool.2)

  upward : (n m : ℕ) → Used n → n ≤ m → (n + 1 ≤ m → Used m) → Used m
  upward n m u low f = elim (Bool-cases (n == m)) [
    | inl e ↦ let same : n ≡ m = ground arith in cc (same, u)
    | inr e ↦ f (ground arith)
  ]

  -- A used address in front.
  Answer-Used : (n : ℕ) (o : Option Ip) → Used n → Answer (n + 1) o → Answer n o
  Answer-Used n none u a = λ m low high. upward n m u low (λ more. a m more high)
  Answer-Used n (some (v4 r)) u a =
      (omega (arith, a.0), a.1, a.2, λ m low high. upward n m u low (λ more. a.3 m more high))
  Answer-Used n (some (v6 r)) u a = a

  beyond : (n : ℕ) → b + pool_size net ≤ n → Answer n none
  beyond n h = λ m low high. absurd (omega (arith, low, high, h))

  search_from :
      (fuel n : ℕ)
      → b < n
      → n ≤ b + pool_size net
      → b + pool_size net ≤ n + fuel
      → Answer n (search fuel net used (at_or_none n))
  unfolding search
  search_from zero n above top enough = elim (Bool-cases (n == 2 ^ 32)) [
    | inl last ↦ simp last (beyond n (omega (arith, enough)))
    | inr more ↦ simp more (beyond n (omega (arith, enough)))
  ]
  search_from (suc fuel) n above top enough = elim (Bool-cases (n == 2 ^ 32)) [
    | inl last ↦ simp last (beyond n (ground (arith, pool.3)))
    | inr more ↦ simp more (elim (Bool-cases (contains net (v4 n))) [
      | inr out ↦
          rw (search_out fuel net used (v4 n) out) (beyond n (ground (arith, contains_iff n)))
      | inl inside ↦
          let room : n < b + pool_size net = ((contains_iff n).0 inside).1 in
          elim (Bool-cases (has used (ip_text (v4 n)))) [
            | inr free ↦
                rw (search_free fuel net used (v4 n) inside free)
                  (omega arith, room, free, λ m low high. absurd (omega (arith, low, high)))
            | inl taken ↦
                let next : next_ip (v4 n) ≡ at_or_none (n + 1) =
                  next_ip_v4 n (omega (arith, pool.3)) in
                rw (search_taken fuel net used (v4 n) inside taken, next)
                  (Answer-Used n _ taken
                    (search_from fuel (n + 1) (omega arith) (omega arith) (omega (arith, enough))))
          ]
    ])
  ]

abbrev pub with_32 : ℕ → Text
with_32 r = ip_text (v4 r) ++ codes "/32"

-- What `NextAvailableIP` answers: the first free address of the pool behind the network's own, or
-- that every one is used.
abbrev pub Allocated : Cidr → ℕ → List Text → Option Text → Type 0
Allocated net b used none =
    (m : ℕ) → b < m → m < b + pool_size net → has used (ip_text (v4 m)) ≡ true
Allocated net b used (some t) =
    (r : ℕ) × (t ≡ with_32 r)
    × (b < r)
    × (r < b + pool_size net)
    × (has used (ip_text (v4 r)) ≡ false)
    × ((m : ℕ) → b < m → m < r → has used (ip_text (v4 m)) ≡ true)

prefix_text : (net : Cidr) (b r : ℕ) → net.base ≡ v4 b → with_prefix_bits net (v4 r) ≡ with_32 r
unfolding itoa
prefix_text net b r e = simp e refl

first_of : (net : Cidr) (b : ℕ) → IsPool net b → next_ip net.base ≡ at_or_none (b + 1)
first_of net b pool = ap next_ip pool.0 ∙ next_ip_v4 b (omega (arith, pool.1, pool.3))

pool_fuel : (net : Cidr) (b : ℕ) → IsPool net b → size net ≡ pool_size net
pool_fuel net b pool = simp (pool.0) refl

allocated :
    (net : Cidr) (b : ℕ) (used : List Text) (pool : IsPool net b) (o : Option Ip)
    → Answer net b used pool (b + 1) o
    → Allocated net b used (shown net o)
unfolding shown
allocated net b used pool none a = λ m low high. a m (omega (arith, low)) high
allocated net b used pool (some (v4 r)) a = (
  r,
  prefix_text net b r pool.0,
  omega (arith, a.0),
  a.1,
  a.2,
  λ m low high. a.3 m (omega (arith, low)) high,
)
allocated net b used pool (some (v6 r)) a = absurd a

next_available_at :
    (server_address : Text) (used_ips : List Text) (net : Cidr)
    → allocation_network server_address ≡ some net
    → next_available_ip server_address used_ips
      ≡ shown net (search (size net) net (used_set net used_ips) (next_ip net.base))
unfolding next_available_ip allocate
next_available_at server_address used_ips net found = ap (allocate used_ips) found

-- For a server address whose pool is the IPv4 network `net`: the answer is the smallest address of
-- the network, behind its first, whose text is not in use, written as a /32 prefix. There is no
-- answer only if every such address is in use; the search always ends.
pub next_available_ip-Allocated :
    (server_address : Text) (used_ips : List Text) (net : Cidr) (b : ℕ)
    → allocation_network server_address ≡ some net
    → IsPool net b
    → Allocated net b (used_set net used_ips) (next_available_ip server_address used_ips)
next_available_ip-Allocated server_address used_ips net b found pool =
    let used : List Text = used_set net used_ips in
    let answer =
      search_from net b used pool (pool_size net) (b + 1) (omega arith) (omega (arith, pool.1))
        (omega arith) in
    let same : shown net (search (pool_size net) net used (at_or_none (b + 1)))
        ≡ next_available_ip server_address used_ips =
      rw
        (
          next_available_at server_address used_ips net found,
          pool_fuel net b pool,
          first_of net b pool,
        )
        refl in
    subst (Allocated net b used) same (allocated net b used pool _ answer)
