-- ===== src/Tokens/Rotation.antt =====
-- Sessions that are dead: no step of Tokens/Steps.antt, for auth/token.service.ts, brings them back.
use Prim.Native.String.{String}
use movie_reservation_system.Base.{
  ℕ, ◌≤◌, none, List, [], ◌∷◌, ◌≡◌, ◌≢◌, ◌⊎◌, refl, ap, ◌∙◌, sym, In, In-left, In-right, inl, inr,
  Option-cases, arith, subst,
}
use movie_reservation_system.Table.{ok, err}
use movie_reservation_system.Redis.Sessions.{refresh, access_version, AuthKey-discrete}
use movie_reservation_system.Secrets.{AuthUser}
use movie_reservation_system.World.{Env, World, unauthorized}
use movie_reservation_system.Tokens.{
  RefreshUser, issue_auth_cookies, rotate_auth_cookies, revoke_all_sessions,
  increment_access_version, store_session, rotate_script, del_sessions, del_found,
}
use movie_reservation_system.Tokens.Steps.{
  Step, Later, login, rotated, revoked, deleted, version_raised, elsewhere, start, wait, step,
}

refresh_other : (u v : ℕ) (i j : String) → i ≢ j → refresh u i ≢ refresh v j
refresh_other u v i j n h = n (ground (arith, h))

version-refresh : (u v : ℕ) (j : String) → access_version u ≢ refresh v j
version-refresh u v j h = absurd (ground (arith, h))

module _ ⦃env : Env⦄ where
  open env.sessions use {read, members, set, del, incr, expire, sadd, srem, del_set}

  -- From `now` on no session of the user goes by this id.
  abbrev pub Dead : ℕ → ℕ → String → World → Type 0
  Dead now u j w = (t : ℕ) → now ≤ t → read w.sessions (refresh u j) t ≡ none

  -- A key that reads `none` does so after a deletion of any refresh key.
  pub del-none :
      (now t u v : ℕ) (i j : String) (s : env.sessions.State)
      → now ≤ t
      → read s (refresh u j) t ≡ none
      → read (del (refresh v i) now s) (refresh u j) t ≡ none
  del-none now t u v i j s h n = elim (AuthKey-discrete (refresh v i) (refresh u j)) [
    | yes p ↦
        ap (λ k. read (del k now s) (refresh u j) t) p
        ∙ env.sessions.del_lem (refresh u j) now t s h
    | no m ↦ env.sessions.del-others (refresh v i) (refresh u j) now t s m ∙ n
  ]

  pub rotate_script-read :
      (now t : ℕ) (p : RefreshUser) (u v : ℕ) (i j : String) (s : env.sessions.State)
      → i ≢ j
      → read (rotate_script now p v i s) (refresh u j) t
        ≡ read (del (refresh p.id p.jti) now s) (refresh u j) t
  unfolding rotate_script
  rotate_script-read now t p u v i j s n =
      env.sessions.sadd-read v i (refresh u j) t _
      ∙ env.sessions.srem-read v p.jti (refresh u j) t _
      ∙ env.sessions.set-others (refresh v i) (refresh u j) _ _ now t _ (refresh_other v u i j n)

  pub del_sessions-none :
      (now t u v : ℕ) (is : List String) (j : String) (s : env.sessions.State)
      → now ≤ t
      → read s (refresh u j) t ≡ none
      → read (del_sessions now v is s) (refresh u j) t ≡ none
  unfolding del_sessions
  del_sessions-none now t u v [] j s h n = n
  del_sessions-none now t u v (i ∷ is) j s h n =
      del_sessions-none now t u v is j (del (refresh v i) now s) h (del-none now t u v i j s h n)

  pub del_found-none :
      (now t u v : ℕ) (is : List String) (j : String) (w : World)
      → now ≤ t
      → read w.sessions (refresh u j) t ≡ none
      → read (del_found now v is w).sessions (refresh u j) t ≡ none
  unfolding del_found
  del_found-none now t u v [] j w h n = n
  del_found-none now t u v (i ∷ is) j w h n =
      env.sessions.del_set-read v (refresh u j) t _
      ∙ del_sessions-none now t u v (i ∷ is) j w.sessions h n

  -- Either the script runs, or nothing happens.
  pub rotate_cases :
      (now : ℕ) (jti : String) (p : RefreshUser) (user : AuthUser) (w : World)
      → ((rotate_auth_cookies now jti p user w ≡ (err unauthorized, w))
          × (read w.sessions (refresh p.id p.jti) now ≡ none))
        ⊎ (((rotate_auth_cookies now jti p user w).0 ≡ ok tt)
            × ((rotate_auth_cookies now jti p user w).1.sessions
                ≡ rotate_script now p user.id jti w.sessions))
  unfolding rotate_auth_cookies
  rotate_cases now jti p user w = elim (Option-cases (read w.sessions (refresh p.id p.jti) now)) [
    | inl a ↦ rw a (inl (refl, refl))
    | inr (e, a) ↦ rw a (inr (refl, refl))
  ]

  issue-Dead :
      (now u : ℕ) (jti j : String) (user : AuthUser) (w : World)
      → jti ≢ j
      → Dead now u j w
      → Dead now u j (issue_auth_cookies now jti user w)
  unfolding issue_auth_cookies store_session
  issue-Dead now u jti j user w n d t h =
      env.sessions.sadd-read user.id jti (refresh u j) t _
      ∙ env.sessions.set-others (refresh user.id jti) (refresh u j) _ _ now t _
          (refresh_other user.id u jti j n)
      ∙ d t h

  rotate-Dead :
      (now u : ℕ) (jti j : String) (p : RefreshUser) (user : AuthUser) (w : World)
      → jti ≢ j
      → Dead now u j w
      → Dead now u j (rotate_auth_cookies now jti p user w).1
  rotate-Dead now u jti j p user w n d t h = elim (rotate_cases now jti p user w) [
    | inl (a, _) ↦ ap (λ x. read (x.1.sessions) (refresh u j) t) a ∙ d t h
    | inr (_, a) ↦
        ap (λ x. read x (refresh u j) t) a
        ∙ rotate_script-read now t p u user.id jti j w.sessions n
        ∙ del-none now t u p.id p.jti j w.sessions h (d t h)
  ]

  pub version-read :
      (now t u v : ℕ) (j : String) (w : World)
      → read (increment_access_version now v w).sessions (refresh u j) t
        ≡ read w.sessions (refresh u j) t
  unfolding increment_access_version
  version-read now t u v j w =
      env.sessions.expire-others (access_version v) (refresh u j) _ now t _ (version-refresh v u j)
      ∙ env.sessions.incr-others (access_version v) (refresh u j) now t _ (version-refresh v u j)

  Step-Dead :
      (now u : ℕ) (j : String) {new : List String} {w v : World}
      → Step now new w v
      → (In j new → ⊥)
      → Dead now u j w
      → Dead now u j v
  unfolding revoke_all_sessions
  Step-Dead now u j {w = w} (login jti user e) n d =
      subst (Dead now u j) (sym e) (issue-Dead now u jti j user w (λ p. n (inl (sym p))) d)
  Step-Dead now u j {w = w} (rotated jti p user _ e) n d =
      subst (Dead now u j) (sym e) (rotate-Dead now u jti j p user w (λ q. n (inl (sym q))) d)
  Step-Dead now u j {w = w} (revoked v e) n d =
      subst (Dead now u j) (sym e)
        (λ t h. del_found-none now t u v (members w.sessions v) j w h (d t h))
  Step-Dead now u j {w = w} (deleted v is e) n d =
      subst (Dead now u j) (sym e) (λ t h. del_found-none now t u v is j w h (d t h))
  Step-Dead now u j {w = w} (version_raised v e) n d =
      subst (Dead now u j) (sym e) (λ t h. version-read now t u v j w ∙ d t h)
  Step-Dead now u j (elsewhere same _) n d = λ t h. same u j t ∙ d t h

  -- Unless its id is drawn again, a dead session stays dead.
  pub Later-Dead :
      (u : ℕ) (j : String) {now : ℕ} {w : World} {t : ℕ} {drawn : List String} {v : World}
      → Later now w t drawn v
      → (In j drawn → ⊥)
      → Dead now u j w
      → Dead t u j v
  Later-Dead u j start n d = d
  Later-Dead u j (wait h l) n d =
      let before = Later-Dead u j l n d in λ x from. before x (omega (arith, h, from))
  Later-Dead u j (step {new = new} {drawn} s l) n d =
      Step-Dead _ u j s (λ m. n (In-left j new drawn m))
        (Later-Dead u j l (λ m. n (In-right j new drawn m)) d)

  pub rotate_refused :
      (t : ℕ) (jti : String) (p : RefreshUser) (user : AuthUser) (w : World)
      → Dead t p.id p.jti w
      → rotate_auth_cookies t jti p user w ≡ (err unauthorized, w)
  unfolding rotate_auth_cookies
  rotate_refused t jti p user w d = rw (d t (omega arith)) refl

  -- From the time of a rotation on the session that it was asked for is dead.
  pub rotate_used :
      (now : ℕ) (jti : String) (p : RefreshUser) (user : AuthUser) (w : World)
      → jti ≢ p.jti
      → Dead now p.id p.jti (rotate_auth_cookies now jti p user w).1
  rotate_used now jti p user w n t h = elim (rotate_cases now jti p user w) [
    | inl (a, b) ↦
        ap (λ x. read (x.1.sessions) (refresh p.id p.jti) t) a
        ∙ env.sessions.read_later (refresh p.id p.jti) now t w.sessions h b
    | inr (_, a) ↦
        ap (λ x. read x (refresh p.id p.jti) t) a
        ∙ rotate_script-read now t p p.id user.id jti p.jti w.sessions n
        ∙ env.sessions.del_lem (refresh p.id p.jti) now t w.sessions h
  ]
