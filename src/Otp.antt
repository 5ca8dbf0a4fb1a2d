-- ===== src/Otp.antt =====
-- One-time passwords: backend/src/auth/otp.service.ts. The code that `randomInt` draws is an
-- argument, and so is the time. A code is never the empty text, so `!stored` says that there is none.
pub mod Rounds
pub mod Guesses
use Prim.Native.String.{String}
use text.Mathlib.Text.{◌==◌ as str_eq}
use movie_reservation_system.Base.{ℕ, ◌*◌, Bool, true, false, not, ltb, if◌then◌else◌}
use movie_reservation_system.Redis.Sessions.{otp, otp_attempts, otp_cooldown, word, tally, as_text}
use movie_reservation_system.World.{
  Env, World, Action, bad_request, pure, throw, ◌>>=◌, ◌>>◌, throw_if, or_throw, gets, on_sessions,
}
use movie_reservation_system.Reservations.{is_some}

module _ ⦃env : Env⦄ where
  open env.auth_env use {otp_ttl_seconds, otp_max_attempts, otp_resend_cooldown_seconds}
  open env.sessions use {read, set, del, incr, expire}

  -- The pipeline of `issue`.
  unfoldable pub store_code : ℕ → String → String → env.sessions.State → env.sessions.State
  store_code now code email s =
      set (otp_cooldown email) (word "1") (otp_resend_cooldown_seconds * 1000) now
        (del (otp_attempts email) now (set (otp email) (word code) (otp_ttl_seconds * 1000) now s))

  -- `OtpService.issue`
  unfoldable pub issue : ℕ → String → String → Action String
  unfolding store_code
  issue now code email = do
    waiting ← gets (λ w. read w.sessions (otp_cooldown email) now)
    throw_if (is_some waiting) bad_request
    on_sessions (store_code now code email)
    pure code

  -- The pipeline of `verify`.
  unfoldable pub count_attempt : ℕ → String → env.sessions.State → env.sessions.State
  count_attempt now email s =
      expire (otp_attempts email) (otp_ttl_seconds * 1000) now (incr (otp_attempts email) now s)

  -- `result[0][1]`, what `INCR` answers.
  unfoldable pub attempts : ℕ → String → env.sessions.State → ℕ
  attempts now email s = tally (read (incr (otp_attempts email) now s) (otp_attempts email) now)

  -- From `if (attempts > otpMaxAttempts)` on.
  unfoldable pub check_code : ℕ → String → String → String → ℕ → Action Bool
  check_code now email code stored n =
      if ltb otp_max_attempts n
      then (on_sessions (del (otp email) now) >> throw bad_request)
      else if not (str_eq stored code)
      then pure false
      else (on_sessions (del (otp email) now)
          >> on_sessions (del (otp_attempts email) now)
          >> pure true)

  -- `OtpService.verify`
  unfoldable pub verify : ℕ → String → String → Action Bool
  unfolding count_attempt attempts check_code
  verify now email code = do
    found ← gets (λ w. as_text (read w.sessions (otp email) now))
    stored ← or_throw found bad_request
    n ← gets (λ w. attempts now email w.sessions)
    on_sessions (count_attempt now email)
    check_code now email code stored n
