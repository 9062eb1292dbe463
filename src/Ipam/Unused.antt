-- ===== src/Ipam/Unused.antt =====
-- The address that is given out is none of the addresses that are reserved or in use.
use wg_busy.Prelude.{
  ℕ, ◌+◌, ◌-◌, ◌*◌, ◌/◌, ◌^◌, ◌<◌, ◌≡◌, ◌≢◌, refl, sym, ◌∙◌, ap, subst, false, List, [], ◌∷◌, ◌++◌,
  Option, none, some, Text, has, text_eq_iff, split, trim_space, arith, All,
}
use wg_busy.Net.{v4, Cidr, mask_ones}
use wg_busy.Net.Format.{ip_text}
use wg_busy.Ipam.{
  reserved, reserved_at, broadcast, used_address, used_parts, used_values, used_set,
  allocation_network, next_available_ip,
}
use wg_busy.Ipam.Search.{IsPool, pool_size, Allocated, with_32, next_available_ip-Allocated}

abbrev pub Differs : Text → Text → Type 0
Differs t u = u ≢ t

mask_ones_v4 : (net : Cidr) → net.bits ≡ 32 → mask_ones net ≡ net.ones
unfolding mask_ones
mask_ones_v4 net w = ground (arith, w)

broadcast_v4 :
    (net : Cidr) (b : ℕ)
    → net.bits ≡ 32
    → broadcast net b
      ≡ v4 (b / 2 ^ (32 - net.ones) * 2 ^ (32 - net.ones) + (2 ^ (32 - net.ones) - 1))
unfolding broadcast
broadcast_v4 net b w = rw w refl

-- The mask of the network leaves the 32 bits of an IPv4 address, so the bits outside it are set in the
-- last address of the network only.
broadcast_last :
    (net : Cidr) (b : ℕ)
    → net.bits ≡ 32
    → IsPool net b
    → broadcast net b ≡ v4 (b + pool_size net - 1)
broadcast_last net b w pool =
    let aligned : b / pool_size net * pool_size net ≡ b = pool.2 in
    let size : 0 < pool_size net = pool.1 in
    subst (λ k. broadcast net b ≡ v4 (b / 2 ^ (32 - k) * 2 ^ (32 - k) + (2 ^ (32 - k) - 1)))
      (sym (mask_ones_v4 net w)) (broadcast_v4 net b w)
    ∙ ap v4 (omega (arith, aligned, size))

module _ (t : Text) where
  not_in : (xs : List Text) → has xs t ≡ false → All (Differs t) xs
  unfolding has
  not_in [] h = tt
  not_in (x ∷ xs) h = ground (arith, not_in xs, text_eq_iff x t)

  All-left : (xs ys : List Text) → All (Differs t) (xs ++ ys) → All (Differs t) xs
  All-left [] ys h = tt
  All-left (x ∷ xs) ys h = (h.0, All-left xs ys h.1)

  All-right : (xs ys : List Text) → All (Differs t) (xs ++ ys) → All (Differs t) ys
  All-right [] ys h = h
  All-right (x ∷ xs) ys h = All-right xs ys h.1

  -- No address that the part of a list of prefixes stands for.
  abbrev pub AvoidsPart : Text → Type 0
  AvoidsPart p = All (Differs t) (used_address (trim_space p))

  parts_avoided : (ps : List Text) → All (Differs t) (used_parts ps) → All AvoidsPart ps
  unfolding used_parts
  parts_avoided [] h = tt
  parts_avoided (p ∷ ps) h = (
    All-left (used_address (trim_space p)) (used_parts ps) h,
    parts_avoided ps (All-right (used_address (trim_space p)) (used_parts ps) h),
  )

  -- No address of a list of prefixes.
  abbrev pub Avoids : Text → Type 0
  Avoids v = All AvoidsPart (split 44 v)

  values_avoided : (vs : List Text) → All (Differs t) (used_values vs) → All Avoids vs
  unfolding used_values
  values_avoided [] h = tt
  values_avoided (v ∷ vs) h = (
    parts_avoided (split 44 v) (All-left (used_parts (split 44 v)) (used_values vs) h),
    values_avoided vs (All-right (used_parts (split 44 v)) (used_values vs) h),
  )

  -- The text is not the server's address, the first or the last address of the network, or a used
  -- one.
  abbrev pub Unused : Cidr → ℕ → List Text → Type 0
  Unused net b used_ips =
      (ip_text net.ip ≢ t)
      × (ip_text (v4 b) ≢ t)
      × (ip_text (v4 (b + pool_size net - 1)) ≢ t)
      × All Avoids used_ips

  reserved_v4 :
      (net : Cidr) (b : ℕ)
      → net.base ≡ v4 b
      → reserved net ≡ ip_text (v4 b) ∷ ip_text (broadcast net b) ∷ []
  unfolding reserved reserved_at
  reserved_v4 net b e = ap (reserved_at net) e

  unused :
      (net : Cidr) (b : ℕ) (used_ips : List Text)
      → net.bits ≡ 32
      → IsPool net b
      → has (used_set net used_ips) t ≡ false
      → Unused net b used_ips
  unfolding used_set
  unused net b used_ips w pool h =
      let all = not_in (used_set net used_ips) h in
      let two = All-left (reserved net) (used_values used_ips) all.1 in
      let pair = subst (All (Differs t)) (reserved_v4 net b pool.0) two in
      (
        all.0,
        pair.0,
        subst (λ ip. ip_text ip ≢ t) (broadcast_last net b w pool) pair.1.0,
        values_avoided used_ips (All-right (reserved net) (used_values used_ips) all.1),
      )

given_out :
    (net : Cidr) (b : ℕ) (used_ips : List Text) (o : Option Text) (t : Text)
    → net.bits ≡ 32
    → IsPool net b
    → Allocated net b (used_set net used_ips) o
    → o ≡ some t
    → (r : ℕ) × (t ≡ with_32 r) × Unused (ip_text (v4 r)) net b used_ips
given_out net b used_ips none t w pool a s = cc
given_out net b used_ips (some u) t w pool a s =
    let same : u ≡ t = cc in
    (a.0, sym same ∙ a.1, unused (ip_text (v4 a.0)) net b used_ips w pool a.4)

-- For a server address whose pool is the IPv4 network `net`, written as such: an address that is given
-- out is not the server's, not the first or the last address of the network, and none of the
-- addresses in the lists of used prefixes, whether they stand there with a mask or without.
pub next_available_ip-Unused :
    (server_address : Text) (used_ips : List Text) (net : Cidr) (b : ℕ) (t : Text)
    → allocation_network server_address ≡ some net
    → net.bits ≡ 32
    → IsPool net b
    → next_available_ip server_address used_ips ≡ some t
    → (r : ℕ) × (t ≡ with_32 r) × Unused (ip_text (v4 r)) net b used_ips
next_available_ip-Unused server_address used_ips net b t found written pool given =
    given_out net b used_ips (next_available_ip server_address used_ips) t written pool
      (next_available_ip-Allocated server_address used_ips net b found pool) given
