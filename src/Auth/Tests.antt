-- ===== src/Auth/Tests.antt =====
-- The theorems on sessions and challenges, with two ceremonies that interleave.
use wg_busy.Prelude.{
  ℕ, ◌≡◌, ◌≤◌, ◌<◌, ◌+◌, refl, Bool, true, false, List, [], ◌∷◌, Option, some, Text, codes, arith,
  ap, ◌≢◌, ◌*◌, ◌^◌, leb, length, negsuc,
}
use wg_busy.Auth.{
  create_session, validate_session, clear_session, generate_challenge, verify_and_consume,
  session_duration, challenge_ttl,
}
use wg_busy.Auth.Cbor.{
  uint, nint, byte_string, dict, no_entries, entry_then, got, failed, panicked, eof,
  slice_too_large, unhashable_key, decode, decode_cbor,
}
use wg_busy.Auth.Cbor.Leaves.{Leaves}
use wg_busy.Auth.Cbor.Ends.{decode_cbor-Leaves}
use wg_busy.Auth.Challenges.{
  Call, generate, verify, challenge_single_use, challenge_accepted_in_time,
}
use wg_busy.Auth.Sessions.{
  Request, login, page, logout, session_expires, session_stays_valid, session_revoked,
}

abbrev first_byte : Text → ℕ
first_byte [] = 0
first_byte (c ∷ s) = c

b-ne-a : codes "b" ≢ codes "a"
b-ne-a e = omega (arith, ap first_byte e)

-- A second ceremony starts and ends.
abbrev calls : List Call
calls = generate (codes "b") 20 ∷ verify (codes "b") 30 ∷ []

challenge_single_use_example :
    (verify_and_consume (codes "a") 50 (
      wg_busy.Auth.Challenges.after_all calls
        (verify_and_consume (codes "a") 15 (generate_challenge (codes "a") 10 [])).0)).1
    ≡ false
challenge_single_use_example =
    challenge_single_use (codes "a") 15 50 (generate_challenge (codes "a") 10 []) calls
      (b-ne-a, (tt, tt))

challenge_accepted_in_time_example :
    (verify_and_consume
      (codes "a")
      50
      (wg_busy.Auth.Challenges.after_all calls (generate_challenge (codes "a") 10 []))).1
    ≡ true
challenge_accepted_in_time_example =
    challenge_accepted_in_time (codes "a") 10 50 [] calls refl (omega arith)
      ((b-ne-a, omega arith), ((b-ne-a, omega arith), tt))

-- Another user logs in and out.
abbrev requests : List Request
requests = login (codes "b") 20 ∷ page (codes "a") 25 ∷ logout (codes "b") ∷ []

session_stays_valid_example :
    (validate_session
      (some (codes "a"))
      50
      (wg_busy.Auth.Sessions.after_all requests (create_session (codes "a") 10 []))).1
    ≡ true
session_stays_valid_example =
    session_stays_valid (codes "a") 10 50 [] requests refl (omega arith)
      (b-ne-a, (omega arith, (b-ne-a, tt)))

valid_run :
    (validate_session
      (some (codes "a"))
      50
      (wg_busy.Auth.Sessions.after_all requests (create_session (codes "a") 10 []))).1
    ≡ true
unfolding validate_session wg_busy.Prelude.lookup wg_busy.Auth.Sessions.after_all clear_session
    wg_busy.Prelude.remove create_session wg_busy.Prelude.put wg_busy.Prelude.text_eq
valid_run = refl

session_expires_example : 50 ≤ 10 + session_duration
session_expires_example =
    session_expires (codes "a") 10 50 [] requests (b-ne-a, (tt, (tt, tt))) valid_run

session_revoked_example :
    (validate_session (some (codes "a")) 50 (
      wg_busy.Auth.Sessions.after_all requests
        (clear_session (some (codes "a")) (create_session (codes "a") 10 [])))).1
    ≡ false
session_revoked_example =
    session_revoked (codes "a") 50 (create_session (codes "a") 10 []) requests
      (b-ne-a, (tt, (tt, tt)))

-- `make` takes up to 2^48 bytes.
abbrev fits : ℕ → ℕ → Bool
fits size n = leb (size * n) (2 ^ 48)

-- A COSE key as a map: 1 ↦ 2, -1 ↦ h'07 08', and a byte behind it.
abbrev key_map : Text
key_map = 162 ∷ 1 ∷ 2 ∷ 32 ∷ 66 ∷ 7 ∷ 8 ∷ 255 ∷ []

key_map_decoded :
    decode_cbor fits key_map
    ≡ got
        (dict (
          entry_then
            (nint (negsuc 0))
            (byte_string (7 ∷ 8 ∷ []))
            (entry_then (uint 1) (uint 2) no_entries)))
        (255 ∷ [])
unfolding decode_cbor
key_map_decoded = refl

-- A byte string as a key.
key_panics :
    decode_cbor fits (161 ∷ 65 ∷ 0 ∷ 0 ∷ []) ≡ panicked (unhashable_key (byte_string (0 ∷ [])))
unfolding decode_cbor
key_panics = refl

-- A byte string of 2^63 bytes is announced.
length_panics :
    decode_cbor fits (91 ∷ 128 ∷ 0 ∷ 0 ∷ 0 ∷ 0 ∷ 0 ∷ 0 ∷ 0 ∷ [])
    ≡ panicked (slice_too_large (2 ^ 63))
unfolding decode_cbor
length_panics = refl

cut_short : decode_cbor fits (130 ∷ 1 ∷ []) ≡ failed eof
unfolding decode_cbor
cut_short = refl

decode_cbor-Leaves_example :
    Leaves 8 (decode_cbor fits key_map)
    × ((fuel : ℕ) → length key_map < fuel → decode fits fuel key_map ≡ decode_cbor fits key_map)
decode_cbor-Leaves_example = decode_cbor-Leaves fits key_map
