-- ===== src/Otp/Guesses.antt =====
-- How often a code can be tried: `verify` of auth/otp.service.ts, called again and again.
use Prim.Native.String.{String}
use text.Mathlib.Text.{◌==◌ as str_eq}
use movie_reservation_system.Base.{
  ℕ, suc, ◌+◌, ◌*◌, ◌≤◌, ◌<◌, Bool, true, false, Option, none, some, List, [], ◌∷◌, ◌≡◌, ◌⊎◌, refl,
  ap, ◌∙◌, sym, ltb, if◌then◌else◌, arith, Bool-cases, Option-cases, inl, inr, length, keep, subst,
  ltb→lt,
}
use movie_reservation_system.Table.{Result, ok, err}
use movie_reservation_system.Redis.Sessions.{
  otp, otp_attempts, word, count, tally, as_text, after_incr, Entry,
}
use movie_reservation_system.World.{Env, World, Failure, bad_request}
use movie_reservation_system.Otp.{issue, verify, count_attempt, attempts, check_code}
use movie_reservation_system.Otp.Rounds.{
  attempts-otp, store_code-otp, store_code-attempts, count_attempt-otp, issue-ok,
}

-- The call compared its code with the stored one.
abbrev pub is_compared : Result Failure Bool → Bool
is_compared (ok b) = true
is_compared (err e) = false

-- The call accepted its code.
abbrev pub is_accepted : Result Failure Bool → Bool
is_accepted (ok b) = b
is_accepted (err e) = false

accepted-compared :
    (rs : List (Result Failure Bool)) → length (keep is_accepted rs) ≤ length (keep is_compared rs)
accepted-compared [] = omega arith
accepted-compared (ok true ∷ rs) = omega (arith, accepted-compared rs)
accepted-compared (ok false ∷ rs) = omega (arith, accepted-compared rs)
accepted-compared (err e ∷ rs) = accepted-compared rs

-- Guesses in the order of their times, from `now` on.
abbrev pub InOrder : ℕ → List (ℕ × String) → Type 0
InOrder now [] = Unit
InOrder now ((t, code) ∷ gs) = (now ≤ t) × InOrder t gs

-- A counter that stands at `n` or above.
abbrev AtLeast : ℕ → Option Entry → Type 0
AtLeast n none = n ≡ 0
AtLeast n (some (word s)) = ⊥
AtLeast n (some (count m)) = n ≤ m

AtLeast-after_incr :
    (n : ℕ) (o : Option Entry)
    → AtLeast n o
    → (m : ℕ) × (n ≤ m) × (after_incr o o ≡ some (count (suc m)))
AtLeast-after_incr n none h = (0, ground (arith, h), refl)
AtLeast-after_incr n (some (word s)) h = absurd h
AtLeast-after_incr n (some (count m)) h = (m, h, refl)

module _ ⦃env : Env⦄ where
  open env.auth_env use {otp_ttl_seconds, otp_max_attempts}
  open env.sessions use {read, set, del, incr, expire}

  abbrev lifetime : ℕ
  lifetime = otp_ttl_seconds * 1000

  -- What the calls of `verify` answer, one after the other.
  abbrev pub verify_all : String → List (ℕ × String) → World → List (Result Failure Bool)
  verify_all email [] w = []
  verify_all email ((t, code) ∷ gs) w =
      (verify t email code w).0 ∷ verify_all email gs (verify t email code w).1

  -- From `now` on the code is gone, or `n` attempts are counted; from `end` on it is gone.
  abbrev Counted : ℕ → ℕ → ℕ → String → env.sessions.State → Type 0
  Counted n now end email s =
      (t : ℕ)
      → now ≤ t
      → (read s (otp email) t ≡ none) ⊎ ((t < end) × AtLeast n (read s (otp_attempts email) t))

  Counted-later :
      (n now t end : ℕ) (email : String) (s : env.sessions.State)
      → now ≤ t
      → Counted n now end email s
      → Counted n t end email s
  Counted-later n now t end email s h c x from = c x (omega (arith, h, from))

  -- One more attempt is counted, and the counter outlives the code.
  count_attempt-Counted :
      (m now end : ℕ) (email : String) (s : env.sessions.State)
      → end ≤ now + lifetime
      → after_incr (read s (otp_attempts email) now) (read s (otp_attempts email) now)
        ≡ some (count (suc m))
      → ((t : ℕ) → now ≤ t → (read s (otp email) t ≡ none) ⊎ (t < end))
      → Counted (suc m) now end email (count_attempt now email s)
  unfolding count_attempt
  count_attempt-Counted m now end email s short a c t from =
      let same = count_attempt-otp now t email s in
      elim (c t from) [
        | inl gone ↦ inl (same ∙ gone)
        | inr early ↦
            let stored : read (count_attempt now email s) (otp_attempts email) t
                ≡ some (count (suc m)) =
              env.sessions.expire_lem (otp_attempts email) lifetime now t
                (incr (otp_attempts email) now s) from
              ∙ ground (
                arith,
                early,
                short,
                a,
                env.sessions.incr_lem (otp_attempts email) now now s (omega arith),
              ) in
            inr (early, subst (AtLeast (suc m)) (sym stored) (omega arith))
      ]

  -- What one call does to the count: it compares nothing, or it compares as one of `otpMaxAttempts`.
  abbrev Tried : ℕ → ℕ → ℕ → String → Result Failure Bool × World → Type 0
  Tried n now end email x =
      ((e : Failure) × (x.0 ≡ err e) × Counted n now end email x.1.sessions)
      ⊎ (((m : ℕ) × (x.0 ≡ ok false)
            × (n < m)
            × (m ≤ otp_max_attempts)
            × Counted m now end email x.1.sessions)
          ⊎ ((x.0 ≡ ok true)
              × (n < otp_max_attempts)
              × Counted otp_max_attempts now end email x.1.sessions))

  deleted_for_good :
      (now t : ℕ) (email : String) (s : env.sessions.State)
      → now ≤ t
      → read (del (otp_attempts email) now (del (otp email) now s)) (otp email) t ≡ none
  deleted_for_good now t email s h =
      env.sessions.del-others (otp_attempts email) (otp email) now t _ (attempts-otp email email)
      ∙ env.sessions.del_lem (otp email) now t s h

  verify-Tried :
      (n now end : ℕ) (email code : String) (w : World)
      → n ≤ otp_max_attempts
      → end ≤ now + lifetime
      → Counted n now end email w.sessions
      → Tried n now end email (verify now email code w)
  unfolding verify check_code attempts
  verify-Tried n now end email code w few short c =
      elim (Option-cases (as_text (read w.sessions (otp email) now))) [
        | inl a ↦ rw a (inl (bad_request, refl, c))
        | inr (stored, a) ↦ elim (c now (omega arith)) [
          | inl gone ↦ absurd (ground (arith, a, gone))
          | inr (early, least) ↦
              let (m, above, next) =
                AtLeast-after_incr n (read w.sessions (otp_attempts email) now) least in
              let made =
                env.sessions.incr_lem (otp_attempts email) now now w.sessions (omega arith) in
              let answer : tally
                    (read (incr (otp_attempts email) now w.sessions) (otp_attempts email) now)
                  ≡ suc m =
                ap tally (made ∙ next) in
              let counted =
                count_attempt-Counted m now end email w.sessions short next
                  (λ t from. elim (c t from) [ inl g ↦ inl g | inr x ↦ inr (x.0) ]) in
              let some_left : ltb otp_max_attempts (suc m) ≡ false → n < otp_max_attempts =
                λ b. ground (arith, above, b) in
              elim (Bool-cases (ltb otp_max_attempts (suc m))) [
                | inl b ↦ rw a (
                    rw answer (
                      rw b (
                        inl (
                          bad_request,
                          refl,
                          λ t from. inl (env.sessions.del_lem (otp email) now t _ from),
                        ))))
                | inr b ↦ elim (Bool-cases (str_eq stored code)) [
                  | inr d ↦ rw a (
                      rw answer (
                        rw b (
                          rw d (
                            inr (
                              inl
                                (suc m, refl, omega (arith, above), ground (arith, b), counted))))))
                  | inl d ↦ rw a (
                      rw answer (
                        rw b (
                          rw d (
                            inr (
                              inr (
                                refl,
                                some_left b,
                                λ t from. inl (deleted_for_good now t email _ from),
                              ))))))
                ]
              ]
        ]
      ]

  -- With `n` attempts counted, only so many are compared, and one at most is accepted.
  Counted-few :
      (n now end : ℕ) (email : String) (gs : List (ℕ × String)) (w : World)
      → n ≤ otp_max_attempts
      → end ≤ now + lifetime
      → InOrder now gs
      → Counted n now end email w.sessions
      → (length (keep is_compared (verify_all email gs w)) + n ≤ otp_max_attempts)
        × (length (keep is_accepted (verify_all email gs w)) ≤ 1)
  Counted-few n now end email [] w few short order c = (omega (arith, few), omega arith)
  Counted-few n now end email ((t, code) ∷ gs) w few short order c =
      let w' = (verify t email code w).1 in
      let short' : end ≤ t + lifetime = omega (arith, short, order.0) in
      elim (verify-Tried n t end email code w few short'
        (Counted-later n now t end email w.sessions order.0 c)) [
          | inl (e, a, c') ↦ rw a (Counted-few n t end email gs w' few short' order.1 c')
          | inr (inl (m, a, more, max, c')) ↦
              let rest = Counted-few m t end email gs w' max short' order.1 c' in
              rw a (omega (arith, rest.0, more), rest.1)
          | inr (inr (a, more, c')) ↦
              let rest =
                Counted-few otp_max_attempts t end email gs w' (omega arith) short' order.1 c' in
              let fewer = accepted-compared (verify_all email gs w') in
              rw a (omega (arith, rest.0, more), omega (arith, rest.0, fewer))
        ]

  -- Between two codes at most `otpMaxAttempts` calls of `verify` compare their code with the stored
  -- one, and at most one call is accepted, however many calls there are and whenever they come.
  pub verify_all-issue :
      (now : ℕ) (code email : String) (gs : List (ℕ × String)) (w w' : World)
      → issue now code email w ≡ (ok code, w')
      → InOrder now gs
      → (length (keep is_compared (verify_all email gs w')) ≤ otp_max_attempts)
        × (length (keep is_accepted (verify_all email gs w')) ≤ 1)
  verify_all-issue now code email gs w w' h order =
      let s = issue-ok now code email w w' h in
      let fresh : Counted 0 now (now + lifetime) email w'.sessions = λ t from.
        elim (Bool-cases (ltb t (now + lifetime))) [
          | inl b ↦ inr (
            ltb→lt t _ b,
            subst (AtLeast 0)
                (sym (
                  ap (λ x. read x (otp_attempts email) t) s
                  ∙ store_code-attempts now t code email w.sessions from))
                refl,
          )
          | inr b ↦ inl (
              ap (λ x. read x (otp email) t) s
              ∙ store_code-otp now t code email w.sessions from
              ∙ ap (λ z. if z then some (word code) else none) b)
        ] in
      let bound =
        Counted-few 0 now (now + lifetime) email gs w' (omega arith) (omega arith) order fresh in
      (omega (arith, bound.0), bound.1)
