-- ===== src/Auth.antt =====
-- internal/auth/session.go: login sessions and WebAuthn challenges. The random tokens and the clock
-- are arguments; a time is in nanoseconds. The cookie of a response is not kept, and the cookie of a
-- request is the text of its value, if it has one.
pub mod Challenges
pub mod Sessions
pub mod Cbor
mod Tests
use wg_busy.Prelude.{
  ℕ, ◌+◌, ◌*◌, Bool, true, false, not, ◌&&◌, List, [], ◌∷◌, Option, none, some, if◌then◌else◌, Text,
  is_empty, leb, ltb, lookup, remove, put,
}

-- Seven days, and five minutes.
abbrev pub session_duration : ℕ
session_duration = 7 * 24 * 3600 * 1000000000

abbrev pub challenge_ttl : ℕ
challenge_ttl = 5 * 60 * 1000000000

pub record Session : Type 0 where
  pub created_at : ℕ
  pub expires_at : ℕ

abbrev pub Sessions : Type 0
Sessions = List (Text × Session)

unfoldable pub create_session : Text → ℕ → Sessions → Sessions
create_session token now sessions =
    put token (record { created_at = now; expires_at = now + session_duration }) sessions

-- `time.Now().UTC().After(session.ExpiresAt)`
check_session : Text → ℕ → Sessions → Option Session → Sessions × Bool
check_session token now sessions none = (sessions, false)
check_session token now sessions (some session) =
    if ltb session.expires_at now then (remove sessions token, false) else (sessions, true)

unfoldable pub validate_session : Option Text → ℕ → Sessions → Sessions × Bool
unfolding check_session
validate_session none now sessions = (sessions, false)
validate_session (some token) now sessions =
    if is_empty token
    then (sessions, false)
    else check_session token now sessions (lookup sessions token)

unfoldable pub clear_session : Option Text → Sessions → Sessions
clear_session none sessions = sessions
clear_session (some token) sessions = if is_empty token then sessions else remove sessions token

abbrev pub Challenges : Type 0
Challenges = List (Text × ℕ)

-- The challenges that have not expired.
unfoldable pub prune : ℕ → Challenges → Challenges
prune now [] = []
prune now ((c, expiry) ∷ rest) =
    let kept = prune now rest in if ltb expiry now then kept else (c, expiry) ∷ kept

unfoldable pub generate_challenge : Text → ℕ → Challenges → Challenges
unfolding prune
generate_challenge challenge now challenges =
    put challenge (now + challenge_ttl) (prune now challenges)

consume : Text → ℕ → Challenges → Option ℕ → Challenges × Bool
consume challenge now challenges none = (challenges, false)
consume challenge now challenges (some expiry) = (remove challenges challenge, ltb now expiry)

unfoldable pub verify_and_consume : Text → ℕ → Challenges → Challenges × Bool
unfolding consume
verify_and_consume challenge now challenges =
    if is_empty challenge
    then (challenges, false)
    else consume challenge now challenges (lookup challenges challenge)
