-- ===== src/Tokens/Revocation.antt =====
-- Ending every session of a user: `revokeAllSessions` of auth/token.service.ts finds the sessions in
-- the set that the other operations keep.
use Prim.Native.String.{String}
use native.Mathlib.Decide.{ℕ_discrete}
use movie_reservation_system.Base.{
  ℕ, ◌≤◌, none, List, [], ◌∷◌, ◌≡◌, ◌≢◌, ◌⊎◌, refl, ap, ◌∙◌, sym, In, inl, inr, arith, subst,
}
use movie_reservation_system.Table.{err}
use movie_reservation_system.Redis.Sessions.{refresh, access_version, String-discrete}
use movie_reservation_system.Secrets.{AuthUser}
use movie_reservation_system.World.{Env, World, unauthorized}
use movie_reservation_system.Tokens.{
  issue_auth_cookies, rotate_auth_cookies, revoke_all_sessions, increment_access_version,
  store_session, del_sessions, del_found,
}
use movie_reservation_system.Tokens.Steps.{
  Step, Later, login, rotated, revoked, deleted, version_raised, elsewhere, start, wait, step,
  UndividedStep, Undivided,
}
use movie_reservation_system.Tokens.Rotation.{
  Dead, del_sessions-none, del_found-none, version-read, rotate_cases, Later-Dead, rotate_refused,
}
use movie_reservation_system.Tokens.Recorded.{
  Recorded, store_session-Recorded, rotate_script-Recorded,
}

module _ ⦃env : Env⦄ where
  open env.sessions use {read, members, set, del, incr, expire, sadd, srem, del_set}

  Recorded-later :
      (now t u : ℕ) (s : env.sessions.State) → now ≤ t → Recorded now u s → Recorded t u s
  Recorded-later now t u s h r j x from = r j x (omega (arith, h, from))

  del_sessions-members :
      (now u v : ℕ) (is : List String) (s : env.sessions.State)
      → members (del_sessions now v is s) u ≡ members s u
  unfolding del_sessions
  del_sessions-members now u v [] s = refl
  del_sessions-members now u v (i ∷ is) s =
      del_sessions-members now u v is (del (refresh v i) now s)
      ∙ env.sessions.del-members (refresh v i) now u s

  -- A session of the list is deleted.
  del_sessions-In :
      (now t u : ℕ) (is : List String) (j : String) (s : env.sessions.State)
      → now ≤ t
      → In j is
      → read (del_sessions now u is s) (refresh u j) t ≡ none
  unfolding del_sessions
  del_sessions-In now t u [] j s h m = absurd m
  del_sessions-In now t u (i ∷ is) j s h m = elim (String-discrete i j) [
    | yes p ↦ del_sessions-none now t u u is j (del (refresh u i) now s) h (
        ap (λ x. read (del (refresh u x) now s) (refresh u j) t) p
        ∙ env.sessions.del_lem (refresh u j) now t s h)
    | no n ↦ elim m [
      | inl p ↦ absurd (n (sym p))
      | inr q ↦ del_sessions-In now t u is j (del (refresh u i) now s) h q
    ]
  ]

  -- The deletion of what the set names, in a state where every live session stands in the set.
  del_found-Dead :
      (now u : ℕ) (is : List String) (w : World)
      → ((j : String) (t : ℕ) → now ≤ t → (read w.sessions (refresh u j) t ≡ none) ⊎ In j is)
      → (j : String) → Dead now u j (del_found now u is w)
  unfolding del_found
  del_found-Dead now u [] w r j t h = elim (r j t h) [ inl gone ↦ gone | inr m ↦ absurd m ]
  del_found-Dead now u (i ∷ is) w r j t h =
      env.sessions.del_set-read u (refresh u j) t _ ∙ elim (r j t h) [
        | inl gone ↦ del_sessions-none now t u u (i ∷ is) j w.sessions h gone
        | inr m ↦ del_sessions-In now t u (i ∷ is) j w.sessions h m
      ]

  revoke-Dead :
      (now u : ℕ) (j : String) (w : World)
      → Recorded now u w.sessions
      → Dead now u j (revoke_all_sessions now u w)
  unfolding revoke_all_sessions
  revoke-Dead now u j w r = del_found-Dead now u (members w.sessions u) w r j

  del_found-members :
      (now u v : ℕ) (is : List String) (w : World)
      → v ≢ u
      → members (del_found now v is w).sessions u ≡ members w.sessions u
  unfolding del_found
  del_found-members now u v [] w n = refl
  del_found-members now u v (i ∷ is) w n =
      env.sessions.del_set-others u v _ n ∙ del_sessions-members now u v (i ∷ is) w.sessions

  revoke-Recorded :
      (now u v : ℕ) (w : World)
      → Recorded now u w.sessions
      → Recorded now u (revoke_all_sessions now v w).sessions
  unfolding revoke_all_sessions
  revoke-Recorded now u v w r j t h = elim (ℕ_discrete v u) [
    | yes p ↦ inl (
        ap (λ x. read (revoke_all_sessions now x w).sessions (refresh u j) t) p
        ∙ revoke-Dead now u j w r t h)
    | no n ↦ elim (r j t h) [
      | inl gone ↦ inl (del_found-none now t u v (members w.sessions v) j w h gone)
      | inr m ↦ inr (subst (In j) (sym (del_found-members now u v (members w.sessions v) w n)) m)
    ]
  ]

  version-members :
      (now u v : ℕ) (w : World)
      → members (increment_access_version now v w).sessions u ≡ members w.sessions u
  unfolding increment_access_version
  version-members now u v w =
      env.sessions.expire-members (access_version v) _ now u _
      ∙ env.sessions.incr-members (access_version v) now u w.sessions

  issue-sessions :
      (now : ℕ) (jti : String) (user : AuthUser) (w : World)
      → (issue_auth_cookies now jti user w).sessions ≡ store_session now user.id jti w.sessions
  unfolding issue_auth_cookies
  issue-sessions now jti user w = refl

  -- Every step keeps the set complete.
  Step-Recorded :
      (now u : ℕ) {new : List String} {w v : World}
      → (s : Step now new w v) → UndividedStep s
      → Recorded now u w.sessions
      → Recorded now u v.sessions
  Step-Recorded now u {w = w} (login jti user e) _ r =
      subst (Recorded now u) (sym (ap (λ x. x.sessions) e ∙ issue-sessions now jti user w))
        (store_session-Recorded now u user.id jti w.sessions r)
  Step-Recorded now u {w = w} (rotated jti p user own e) _ r =
      elim (rotate_cases now jti p user w) [
        | inl (a, _) ↦ subst (Recorded now u) (sym (ap (λ x. x.sessions) (e ∙ ap (λ x. x.1) a))) r
        | inr (_, a) ↦
            subst (Recorded now u) (sym (ap (λ x. x.sessions) e ∙ a))
              (rotate_script-Recorded now u p user.id jti w.sessions own r)
      ]
  Step-Recorded now u (deleted v is e) whole r = absurd whole
  Step-Recorded now u {w = w} (revoked v e) _ r =
      subst (Recorded now u) (sym (ap (λ x. x.sessions) e)) (revoke-Recorded now u v w r)
  Step-Recorded now u {w = w} (version_raised v e) _ r =
      subst (Recorded now u) (sym (ap (λ x. x.sessions) e)) (λ j t h. elim (r j t h) [
        | inl gone ↦ inl (version-read now t u v j w ∙ gone)
        | inr m ↦ inr (subst (In j) (sym (version-members now u v w)) m)
      ])
  Step-Recorded now u (elsewhere same sets) _ r = λ j t h. elim (r j t h) [
    | inl gone ↦ inl (same u j t ∙ gone)
    | inr m ↦ inr (subst (In j) (sym (sets u)) m)
  ]

  Later-Recorded :
      (u : ℕ) {now : ℕ} {w : World} {t : ℕ} {drawn : List String} {v : World}
      → (l : Later now w t drawn v) → Undivided l
      → Recorded now u w.sessions
      → Recorded t u v.sessions
  unfolding Undivided
  Later-Recorded u start whole r = r
  Later-Recorded u (wait {v = v} h l) whole r =
      Recorded-later _ _ u v.sessions h (Later-Recorded u l whole r)
  Later-Recorded u (step s l) whole r = Step-Recorded _ u s whole.0 (Later-Recorded u l whole.1 r)

  -- What the deletion names is dead after it, and what was dead stays so.
  del_found-In :
      (now u : ℕ) (is : List String) (j : String) (w : World)
      → In j is
      → Dead now u j (del_found now u is w)
  unfolding del_found
  del_found-In now u [] j w m t h = absurd m
  del_found-In now u (i ∷ is) j w m t h =
      env.sessions.del_set-read u (refresh u j) t _
      ∙ del_sessions-In now t u (i ∷ is) j w.sessions h m

  -- `revokeAllSessions` reads the set of the user's session ids at `t` and deletes what it read at
  -- `t'`, with any steps in between, also of other revocations. If the set was complete at the start,
  -- and no revocation before the reading was divided so, then no refresh token of the user is accepted
  -- after the deletion, at any later time and after any steps, unless its id was drawn after the
  -- reading.
  pub revoke_all_sessions-rotate :
      (now t t' later user_id : ℕ) (jti jti' : String) (user : AuthUser) (w v x y : World)
      (before between after : List String)
      → Recorded now user_id w.sessions
      → (l : Later now w t before v) → Undivided l
      → Later t v t' between x
      → Later t' (del_found t' user_id (members v.sessions user_id) x) later after y
      → (In jti between → ⊥)
      → (In jti after → ⊥)
      → rotate_auth_cookies later jti' (record { id = user_id; jti = jti }) user y
        ≡ (err unauthorized, y)
  revoke_all_sessions-rotate now t t' later u jti jti' user w v x y before between after r l whole
        busy m old fresh =
      let is = members v.sessions u in
      let dead : Dead t' u jti (del_found t' u is x) =
        elim (Later-Recorded u l whole r jti t (omega arith)) [
          | inr i ↦ del_found-In t' u is jti x i
          | inl gone ↦
              let before_it : Dead t u jti v =
                λ s from. env.sessions.read_later (refresh u jti) t s v.sessions from gone in
              let at_it = Later-Dead u jti busy old before_it in
              λ s from. del_found-none t' s u u is jti x from (at_it s from)
        ] in
      rotate_refused later jti' (record { id = u; jti = jti }) user y
        (Later-Dead u jti m fresh dead)
