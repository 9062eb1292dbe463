-- ===== src/Ipam/Next.antt =====
-- The byte loop of `nextIP` adds one.
use wg_busy.Prelude.{
  ℕ, zero, suc, ◌+◌, ◌*◌, ◌/◌, ◌%◌, ◌^◌, ◌<◌, ◌≡◌, inl, inr, List, ◌∷◌, Option, none, some, arith,
  Bool-cases, ◌==◌, if◌then◌else◌,
}
use wg_busy.Net.{v4, v6, of_16}
use wg_busy.Ipam.{to_bytes, of_bytes, carry, next_ip}

-- 256 to the k.
abbrev pow256 : ℕ → ℕ
pow256 zero = 1
pow256 (suc k) = 256 * pow256 k

of_bytes-to_bytes : (k n : ℕ) → n < pow256 k → of_bytes (to_bytes k n) ≡ n
unfolding of_bytes to_bytes
of_bytes-to_bytes zero n h = omega arith
of_bytes-to_bytes (suc k) n h =
    let rest = of_bytes-to_bytes k (n / 256) (omega arith) in omega (arith, rest)

abbrev Succ : ℕ → ℕ → Option (List ℕ) → Type 0
Succ k n none = n + 1 ≡ pow256 k
Succ k n (some bs) = (of_bytes bs ≡ n + 1) × (n + 1 < pow256 k)

-- One more byte in front.
Succ-cons :
    (k n : ℕ) (o : Option (List ℕ))
    → n < pow256 (suc k)
    → (n % 256 + 1) % 256 ≡ 0
    → Succ k (n / 256) o
    → Succ (suc k) n (elim o [ none ↦ none | some cs ↦ some (0 ∷ cs) ])
unfolding of_bytes
Succ-cons k n none h z s = omega arith
Succ-cons k n (some cs) h z s = (omega (arith, s.0), omega (arith, s.1))

carry-to_bytes : (k n : ℕ) → n < pow256 k → Succ k n (carry (to_bytes k n))
unfolding carry to_bytes of_bytes
carry-to_bytes zero n h = omega arith
carry-to_bytes (suc k) n h = elim (Bool-cases ((n % 256 + 1) % 256 == 0)) [
  | inl wraps ↦ simp wraps (
      Succ-cons k n (carry (to_bytes k (n / 256))) h (ground arith)
        (carry-to_bytes k (n / 256) (omega arith)))
  | inr stays ↦
      let low : (n % 256 + 1) % 256 ≡ n % 256 + 1 = ground arith in
      let rest = of_bytes-to_bytes k (n / 256) (omega arith) in
      simp stays (omega (arith, low, rest), ground arith)
]

next_of :
    (n : ℕ) (o : Option (List ℕ))
    → Succ 4 n o
    → elim o [ none ↦ none | some bs ↦ some (v4 (of_bytes bs)) ]
      ≡ (if n + 1 == 2 ^ 32 then none else some (v4 (n + 1)))
next_of n none s = ground arith
next_of n (some bs) s = ground arith

-- The address behind an IPv4 address is the next number, and there is none behind the last address.
pub next_ip_v4 :
    (n : ℕ) → n < 2 ^ 32 → next_ip (v4 n) ≡ (if n + 1 == 2 ^ 32 then none else some (v4 (n + 1)))
unfolding next_ip
next_ip_v4 n h = next_of n (carry (to_bytes 4 n)) (carry-to_bytes 4 n h)

next_of_16 :
    (n : ℕ) (o : Option (List ℕ))
    → Succ 16 n o
    → elim o [ none ↦ none | some bs ↦ some (of_16 (of_bytes bs)) ]
      ≡ (if n + 1 == 2 ^ 128 then none else some (of_16 (n + 1)))
next_of_16 n none s = ground arith
next_of_16 n (some bs) s = ground arith

-- The same for IPv6, where a mapped address stands for its IPv4 address.
pub next_ip_v6 :
    (n : ℕ)
    → n < 2 ^ 128
    → next_ip (v6 n) ≡ (if n + 1 == 2 ^ 128 then none else some (of_16 (n + 1)))
unfolding next_ip
next_ip_v6 n h = next_of_16 n (carry (to_bytes 16 n)) (carry-to_bytes 16 n h)
