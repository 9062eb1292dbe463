-- ===== src/Auth/Challenges.antt =====
-- A challenge is good once, and for five minutes, whatever other ceremonies run in between.
use wg_busy.Prelude.{
  ℕ, ◌+◌, ◌≤◌, ◌<◌, ◌≡◌, ◌≢◌, refl, ◌∙◌, true, false, inl, inr, List, [], ◌∷◌, none, some, Text,
  is_empty, lookup, remove, put, lookup-remove, lookup_other, lookup-put, lookup-put_other, text_eq,
  arith, Bool-cases, All,
}
use wg_busy.Auth.{Challenges, challenge_ttl, prune, generate_challenge, consume, verify_and_consume}

-- The calls on the store, each with the time it happens at.
pub data Call : Type 0 where
  generate verify : Text → ℕ → Call

unfoldable pub after : Call → Challenges → Challenges
after (generate c now) m = generate_challenge c now m
after (verify c now) m = (verify_and_consume c now m).0

unfoldable pub after_all : List Call → Challenges → Challenges
unfolding after
after_all [] m = m
after_all (call ∷ calls) m = after_all calls (after call m)

-- The call does not generate `c`.
abbrev pub NotGenerated : Text → Call → Type 0
NotGenerated c (generate d now) = d ≢ c
NotGenerated c (verify d now) = Unit

lookup-prune_absent :
    (now : ℕ) (m : Challenges) (c : Text) → lookup m c ≡ none → lookup (prune now m) c ≡ none
unfolding lookup prune
lookup-prune_absent now [] c h = refl
lookup-prune_absent now ((d, e) ∷ m) c h = ground (arith, lookup-prune_absent now m c)

remove_absent : (m : Challenges) (d c : Text) → lookup m c ≡ none → lookup (remove m d) c ≡ none
unfolding lookup remove
remove_absent [] d c h = refl
remove_absent ((x, e) ∷ m) d c h = ground (arith, remove_absent m d c)

after_absent :
    (call : Call) (m : Challenges) (c : Text)
    → NotGenerated c call
    → lookup m c ≡ none
    → lookup (after call m) c ≡ none
unfolding after generate_challenge verify_and_consume consume
after_absent (generate d now) m c n h =
    lookup-put_other (prune now m) d c (now + challenge_ttl) n ∙ lookup-prune_absent now m c h
after_absent (verify d now) m c n h = ground (arith, remove_absent m d c)

after_all_absent :
    (calls : List Call) (m : Challenges) (c : Text)
    → All (NotGenerated c) calls
    → lookup m c ≡ none
    → lookup (after_all calls m) c ≡ none
unfolding after_all
after_all_absent [] m c n h = h
after_all_absent (call ∷ calls) m c n h =
    after_all_absent calls (after call m) c n.1 (after_absent call m c n.0 h)

verify_missing :
    (c : Text) (now : ℕ) (m : Challenges)
    → lookup m c ≡ none
    → (verify_and_consume c now m).1 ≡ false
unfolding verify_and_consume consume
verify_missing c now m h = ground arith

consumed :
    (c : Text) (now : ℕ) (m : Challenges)
    → is_empty c ≡ false
    → lookup (verify_and_consume c now m).0 c ≡ none
unfolding verify_and_consume consume
consumed c now m h = ground (arith, lookup-remove m c)

refused_empty :
    (c : Text) (now : ℕ) (m : Challenges)
    → is_empty c ≡ true
    → (verify_and_consume c now m).1 ≡ false
unfolding verify_and_consume
refused_empty c now m h = ground arith

-- Once a challenge has been presented, whether it was accepted or not, it is refused at any later
-- time, after any calls that do not generate the same challenge again.
pub challenge_single_use :
    (c : Text) (first later : ℕ) (m : Challenges) (calls : List Call)
    → All (NotGenerated c) calls
    → (verify_and_consume c later (after_all calls (verify_and_consume c first m).0)).1 ≡ false
challenge_single_use c first later m calls n = elim (Bool-cases (is_empty c)) [
  | inl empty ↦ refused_empty c later _ empty
  | inr full ↦
      verify_missing c later _
        (after_all_absent calls (verify_and_consume c first m).0 c n (consumed c first m full))
]

-- The call happens by `end`, and does not present or generate `c`.
abbrev pub Apart : Text → ℕ → Call → Type 0
Apart c end (generate d now) = (d ≢ c) × (now ≤ end)
Apart c end (verify d now) = (d ≢ c) × (now ≤ end)

lookup-prune :
    (now : ℕ) (m : Challenges) (c : Text) (e : ℕ)
    → lookup m c ≡ some e
    → now ≤ e
    → lookup (prune now m) c ≡ some e
unfolding lookup prune
lookup-prune now [] c e h le = cc
lookup-prune now ((d, x) ∷ m) c e h le = elim (Bool-cases (text_eq d c)) [
  | inl here ↦ ground arith
  | inr away ↦ ground (arith, lookup-prune now m c e)
]

after_kept :
    (call : Call) (m : Challenges) (c : Text) (e end : ℕ)
    → Apart c end call
    → end ≤ e
    → lookup m c ≡ some e
    → lookup (after call m) c ≡ some e
unfolding after generate_challenge verify_and_consume consume
after_kept (generate d now) m c e end n le h =
    lookup-put_other (prune now m) d c (now + challenge_ttl) n.0
    ∙ lookup-prune now m c e h (omega (arith, n.1))
after_kept (verify d now) m c e end n le h = ground (arith, lookup_other m d c n.0)

after_all_kept :
    (calls : List Call) (m : Challenges) (c : Text) (e end : ℕ)
    → All (Apart c end) calls
    → end ≤ e
    → lookup m c ≡ some e
    → lookup (after_all calls m) c ≡ some e
unfolding after_all
after_all_kept [] m c e end n le h = h
after_all_kept (call ∷ calls) m c e end n le h =
    after_all_kept calls (after call m) c e end n.1 le (after_kept call m c e end n.0 le h)

accepted :
    (c : Text) (now e : ℕ) (m : Challenges)
    → is_empty c ≡ false
    → lookup m c ≡ some e
    → now < e
    → (verify_and_consume c now m).1 ≡ true
unfolding verify_and_consume consume
accepted c now e m full h lt = ground arith

-- A challenge that is not the empty text is accepted less than five minutes after it was generated,
-- when no call by then presents or generates the same challenge: neither the other ceremonies nor
-- the pruning of the store loses it.
pub challenge_accepted_in_time :
    (c : Text) (made now : ℕ) (m : Challenges) (calls : List Call)
    → is_empty c ≡ false
    → now < made + challenge_ttl
    → All (Apart c now) calls
    → (verify_and_consume c now (after_all calls (generate_challenge c made m))).1 ≡ true
unfolding generate_challenge
challenge_accepted_in_time c made now m calls full lt n =
    accepted c now (made + challenge_ttl) _ full
      (after_all_kept calls (put c (made + challenge_ttl) (prune made m)) c (made + challenge_ttl)
        now n (omega arith) (lookup-put (prune made m) c (made + challenge_ttl)))
      lt
