-- ===== src/Otp/Rounds.antt =====
-- A code that was issued is accepted, once: `issue` and `verify` of auth/otp.service.ts.
use Prim.Native.String.{String}
use text.Mathlib.TextPositions.{eq_refl}
use movie_reservation_system.Base.{
  ℕ, ◌+◌, ◌*◌, ◌≤◌, ◌<◌, true, false, none, some, ◌≡◌, ◌≢◌, refl, ap, ◌∙◌, ltb, if◌then◌else◌,
  arith, lt→ltb, Option-cases, inl, inr,
}
use movie_reservation_system.Table.{ok, err}
use movie_reservation_system.Redis.Sessions.{
  otp, otp_attempts, otp_cooldown, word, tally, after_incr,
}
use movie_reservation_system.World.{Env, World, bad_request}
use movie_reservation_system.Otp.{issue, verify, store_code, count_attempt, attempts, check_code}

pub otp-attempts : (a b : String) → otp a ≢ otp_attempts b
otp-attempts a b h = absurd (ground (arith, h))

pub attempts-otp : (a b : String) → otp_attempts a ≢ otp b
attempts-otp a b h = absurd (ground (arith, h))

pub cooldown-otp : (a b : String) → otp_cooldown a ≢ otp b
cooldown-otp a b h = absurd (ground (arith, h))

pub cooldown-attempts : (a b : String) → otp_cooldown a ≢ otp_attempts b
cooldown-attempts a b h = absurd (ground (arith, h))

module _ ⦃env : Env⦄ where
  open env.auth_env use {otp_ttl_seconds, otp_max_attempts, otp_resend_cooldown_seconds}
  open env.sessions use {read, set, del, incr, expire}

  pub store_code-otp :
      (now t : ℕ) (code email : String) (s : env.sessions.State)
      → now ≤ t
      → read (store_code now code email s) (otp email) t
        ≡ (if ltb t (now + otp_ttl_seconds * 1000) then some (word code) else none)
  unfolding store_code
  store_code-otp now t code email s h =
      env.sessions.set-others (otp_cooldown email) (otp email) _ _ now t _
        (cooldown-otp email email)
      ∙ env.sessions.del-others (otp_attempts email) (otp email) now t _ (attempts-otp email email)
      ∙ env.sessions.set_lem (otp email) (word code) _ now t s h

  pub store_code-attempts :
      (now t : ℕ) (code email : String) (s : env.sessions.State)
      → now ≤ t
      → read (store_code now code email s) (otp_attempts email) t ≡ none
  unfolding store_code
  store_code-attempts now t code email s h =
      env.sessions.set-others (otp_cooldown email) (otp_attempts email) _ _ now t _
        (cooldown-attempts email email)
      ∙ env.sessions.del_lem (otp_attempts email) now t _ h

  pub count_attempt-otp :
      (now t : ℕ) (email : String) (s : env.sessions.State)
      → read (count_attempt now email s) (otp email) t ≡ read s (otp email) t
  unfolding count_attempt
  count_attempt-otp now t email s =
      env.sessions.expire-others (otp_attempts email) (otp email) _ now t _
        (attempts-otp email email)
      ∙ env.sessions.incr-others (otp_attempts email) (otp email) now t s (attempts-otp email email)

  -- A code that is gone is refused.
  pub verify_absent :
      (now : ℕ) (email code : String) (w : World)
      → read w.sessions (otp email) now ≡ none
      → verify now email code w ≡ (err bad_request, w)
  unfolding verify
  verify_absent now email code w h = rw h refl

  attempts_first :
      (now : ℕ) (email : String) (s : env.sessions.State)
      → read s (otp_attempts email) now ≡ none
      → attempts now email s ≡ 1
  unfolding attempts
  attempts_first now email s h =
      ap tally (env.sessions.incr_lem (otp_attempts email) now now s (omega arith))
      ∙ ap (λ o. tally (after_incr o o)) h

  -- The world after a code was accepted.
  abbrev pub used_up : ℕ → String → World → World
  used_up now email w = record w {
    sessions =
        del (otp_attempts email) now (del (otp email) now (count_attempt now email w.sessions));
  }

  -- The right code within its lifetime is accepted, and deleted.
  pub verify_fits :
      (now : ℕ) (email code : String) (w : World)
      → read w.sessions (otp email) now ≡ some (word code)
      → read w.sessions (otp_attempts email) now ≡ none
      → verify now email code w ≡ (ok true, used_up now email w)
  unfolding verify check_code
  verify_fits now email code w there first =
      let one = attempts_first now email w.sessions first in
      let few : ltb otp_max_attempts 1 ≡ false =
        ground (arith, env.auth_env.otp_max_attempts-positive) in
      rw there (rw one (rw few (rw (eq_refl code) refl)))

  verify_right :
      (now t : ℕ) (email code : String) (w : World)
      → now ≤ t
      → read w.sessions (otp email) now ≡ some (word code)
      → read w.sessions (otp_attempts email) now ≡ none
      → ((verify now email code w).0 ≡ ok true)
        × (read ((verify now email code w).1.sessions) (otp email) t ≡ none)
  verify_right now t email code w h there first =
      let done = verify_fits now email code w there first in
      (
        ap (λ x. x.0) done,
        ap (λ x. read x.1.sessions (otp email) t) done
            ∙ env.sessions.del-others (otp_attempts email) (otp email) now t _
                (attempts-otp email email)
            ∙ env.sessions.del_lem (otp email) now t _ h,
      )

  pub issue_lem :
      (now : ℕ) (code email : String) (w : World)
      → read w.sessions (otp_cooldown email) now ≡ none
      → issue now code email w
        ≡ (ok code, record w { sessions = store_code now code email w.sessions })
  unfolding issue
  issue_lem now code email w h = ground (arith, h)

  pub issue-ok :
      (now : ℕ) (code email : String) (w w' : World)
      → issue now code email w ≡ (ok code, w')
      → w'.sessions ≡ store_code now code email w.sessions
  unfolding issue
  issue-ok now code email w w' h = elim (Option-cases (read w.sessions (otp_cooldown email) now)) [
    | inl a ↦ ground (arith, a, h)
    | inr (e, a) ↦ absurd (ground (arith, a, h))
  ]

  -- A code that was issued is accepted within its lifetime if it is the first one tried, and then
  -- every later attempt, with any code, is refused with 400 until another code is issued.
  pub issue-verify :
      (now t later : ℕ) (code other email : String) (w w' : World)
      → issue now code email w ≡ (ok code, w')
      → now ≤ t
      → t < now + otp_ttl_seconds * 1000
      → t ≤ later
      → ((verify t email code w').0 ≡ ok true)
        × (verify later email other (verify t email code w').1
            ≡ (err bad_request, (verify t email code w').1))
  issue-verify now t later code other email w w' h from until after =
      let s = issue-ok now code email w w' h in
      let there : read w'.sessions (otp email) t ≡ some (word code) =
        ap (λ x. read x (otp email) t) s
        ∙ store_code-otp now t code email w.sessions from
        ∙ ap (λ b. if b then some (word code) else none) (lt→ltb t _ until) in
      let first : read w'.sessions (otp_attempts email) t ≡ none =
        ap (λ x. read x (otp_attempts email) t) s
        ∙ store_code-attempts now t code email w.sessions from in
      let (fits, gone) = verify_right t later email code w' after there first in
      (fits, verify_absent later email other (verify t email code w').1 gone)
