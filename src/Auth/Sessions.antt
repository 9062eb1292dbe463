-- ===== src/Auth/Sessions.antt =====
-- A session is valid for seven days from its login, unless it is cleared.
use wg_busy.Prelude.{
  ℕ, ◌+◌, ◌≤◌, ◌≡◌, ◌≢◌, ◌⊎◌, refl, ◌∙◌, true, false, inl, inr, List, [], ◌∷◌, Option, none, some,
  Text, is_empty, ltb, lookup, remove, put, lookup-remove, lookup_other, lookup-put,
  lookup-put_other, text_eq, text_eq_iff, arith, Bool-cases, All,
}
use wg_busy.Auth.{
  Session, Sessions, session_duration, create_session, check_session, validate_session,
  clear_session,
}

-- The requests that reach the manager: a login, a page, a logout, each with its token.
pub data Request : Type 0 where
  login page : Text → ℕ → Request
  logout : Text → Request

unfoldable pub after : Request → Sessions → Sessions
after (login t now) m = create_session t now m
after (page t now) m = (validate_session (some t) now m).0
after (logout t) m = clear_session (some t) m

unfoldable pub after_all : List Request → Sessions → Sessions
unfolding after
after_all [] m = m
after_all (r ∷ rs) m = after_all rs (after r m)

-- The request is no login that is given the token `t`.
abbrev pub NoLogin : Text → Request → Type 0
NoLogin t (login u now) = u ≢ t
NoLogin t r = Unit

-- Nor a logout of `t`, and it happens by `end`.
abbrev pub Leaves : Text → ℕ → Request → Type 0
Leaves t end (login u now) = u ≢ t
Leaves t end (page u now) = now ≤ end
Leaves t end (logout u) = u ≢ t

remove_absent : (m : Sessions) (u t : Text) → lookup m t ≡ none → lookup (remove m u) t ≡ none
unfolding lookup remove
remove_absent [] u t h = refl
remove_absent ((x, s) ∷ m) u t h = ground (arith, remove_absent m u t)

-- What the manager may hold for a token: nothing, or this session.
abbrev OnlySession : Sessions → Text → Session → Type 0
OnlySession m t s = (lookup m t ≡ none) ⊎ (lookup m t ≡ some s)

remove_only :
    (m : Sessions) (u t : Text) (s : Session) → OnlySession m t s → OnlySession (remove m u) t s
remove_only m u t s h = elim (Bool-cases (text_eq u t)) [
  | inl same ↦ inl (let e : u ≡ t = (text_eq_iff u t).0 same in cc (e, lookup-remove m u))
  | inr other ↦ ground (arith, lookup_other m u t, text_eq_iff u t)
]

checked_only :
    (u : Text) (now : ℕ) (m : Sessions) (t : Text) (s : Session) (o : Option Session)
    → OnlySession m t s
    → OnlySession (check_session u now m o).0 t s
unfolding check_session
checked_only u now m t s none h = h
checked_only u now m t s (some v) h = elim (Bool-cases (ltb v.expires_at now)) [
  | inl old ↦ simp old (remove_only m u t s h)
  | inr good ↦ simp good h
]

after_only :
    (r : Request) (m : Sessions) (t : Text) (s : Session)
    → NoLogin t r
    → OnlySession m t s
    → OnlySession (after r m) t s
unfolding after create_session validate_session check_session clear_session
after_only (login u now) m t s n h = ground (
  arith,
  lookup-put_other m u t (record { created_at = now; expires_at = now + session_duration }) n,
)
after_only (page u now) m t s n h = ground (arith, h, checked_only u now m t s (lookup m u) h)
after_only (logout u) m t s n h = elim (Bool-cases (is_empty u)) [
  | inl empty ↦ simp empty h
  | inr full ↦ simp full (remove_only m u t s h)
]

after_all_only :
    (rs : List Request) (m : Sessions) (t : Text) (s : Session)
    → All (NoLogin t) rs
    → OnlySession m t s
    → OnlySession (after_all rs m) t s
unfolding after_all
after_all_only [] m t s n h = h
after_all_only (r ∷ rs) m t s n h = after_all_only rs (after r m) t s n.1 (after_only r m t s n.0 h)

valid_of_only :
    (m : Sessions) (t : Text) (s : Session) (now : ℕ)
    → OnlySession m t s
    → (validate_session (some t) now m).1 ≡ true
    → now ≤ s.expires_at
unfolding validate_session check_session
valid_of_only m t s now h v = ground arith

-- A session is not valid later than seven days after its login, after any requests that do not log in
-- with the same token again.
pub session_expires :
    (t : Text) (made now : ℕ) (m : Sessions) (rs : List Request)
    → All (NoLogin t) rs
    → (validate_session (some t) now (after_all rs (create_session t made m))).1 ≡ true
    → now ≤ made + session_duration
unfolding create_session
session_expires t made now m rs n v =
    let s : Session = record { created_at = made; expires_at = made + session_duration } in
    valid_of_only (after_all rs (put t s m)) t s now
      (after_all_only rs (put t s m) t s n (inr (lookup-put m t s))) v

after_kept :
    (r : Request) (m : Sessions) (t : Text) (s : Session) (end : ℕ)
    → Leaves t end r
    → end ≤ s.expires_at
    → lookup m t ≡ some s
    → lookup (after r m) t ≡ some s
unfolding after create_session validate_session check_session clear_session
after_kept (login u now) m t s end n le h =
    lookup-put_other m u t (record { created_at = now; expires_at = now + session_duration }) n ∙ h
after_kept (page u now) m t s end n le h = ground (arith, lookup_other m u t, text_eq_iff u t)
after_kept (logout u) m t s end n le h = ground (arith, lookup_other m u t n)

after_all_kept :
    (rs : List Request) (m : Sessions) (t : Text) (s : Session) (end : ℕ)
    → All (Leaves t end) rs
    → end ≤ s.expires_at
    → lookup m t ≡ some s
    → lookup (after_all rs m) t ≡ some s
unfolding after_all
after_all_kept [] m t s end n le h = h
after_all_kept (r ∷ rs) m t s end n le h =
    after_all_kept rs (after r m) t s end n.1 le (after_kept r m t s end n.0 le h)

valid_of_found :
    (m : Sessions) (t : Text) (s : Session) (now : ℕ)
    → is_empty t ≡ false
    → lookup m t ≡ some s
    → now ≤ s.expires_at
    → (validate_session (some t) now m).1 ≡ true
unfolding validate_session check_session
valid_of_found m t s now full h le = ground arith

-- A session with a token that is not the empty text is valid for seven days from its login, after any
-- requests by then that neither log in with the same token nor log it out.
pub session_stays_valid :
    (t : Text) (made now : ℕ) (m : Sessions) (rs : List Request)
    → is_empty t ≡ false
    → now ≤ made + session_duration
    → All (Leaves t now) rs
    → (validate_session (some t) now (after_all rs (create_session t made m))).1 ≡ true
unfolding create_session
session_stays_valid t made now m rs full le n =
    let s : Session = record { created_at = made; expires_at = made + session_duration } in
    valid_of_found (after_all rs (put t s m)) t s now full
      (after_all_kept rs (put t s m) t s now n le (lookup-put m t s)) le

after_absent :
    (r : Request) (m : Sessions) (t : Text)
    → NoLogin t r
    → lookup m t ≡ none
    → lookup (after r m) t ≡ none
unfolding after create_session validate_session check_session clear_session
after_absent (login u now) m t n h =
    lookup-put_other m u t (record { created_at = now; expires_at = now + session_duration }) n ∙ h
after_absent (page u now) m t n h = ground (arith, remove_absent m u t h)
after_absent (logout u) m t n h = ground (arith, remove_absent m u t h)

after_all_absent :
    (rs : List Request) (m : Sessions) (t : Text)
    → All (NoLogin t) rs
    → lookup m t ≡ none
    → lookup (after_all rs m) t ≡ none
unfolding after_all
after_all_absent [] m t n h = h
after_all_absent (r ∷ rs) m t n h = after_all_absent rs (after r m) t n.1 (after_absent r m t n.0 h)

refused :
    (t : Text) (now : ℕ) (m : Sessions)
    → (is_empty t ≡ true) ⊎ (lookup m t ≡ none)
    → (validate_session (some t) now m).1 ≡ false
unfolding validate_session check_session
refused t now m h = ground arith

-- A session that was logged out is refused from then on, after any requests that do not log in with
-- the same token again.
pub session_revoked :
    (t : Text) (now : ℕ) (m : Sessions) (rs : List Request)
    → All (NoLogin t) rs
    → (validate_session (some t) now (after_all rs (clear_session (some t) m))).1 ≡ false
unfolding clear_session
session_revoked t now m rs n = elim (Bool-cases (is_empty t)) [
  | inl empty ↦ refused t now _ (inl empty)
  | inr full ↦
      refused t now _ (inr (simp full (after_all_absent rs (remove m t) t n (lookup-remove m t))))
]
