-- ===== src/Accounts/Sessions.antt =====
-- The handlers of auth/auth.controller.ts and `changePassword` of users/users.service.ts as steps of
-- Tokens/Steps.antt, and what becomes of the refresh tokens.
use Prim.Native.String.{String}
use movie_reservation_system.Base.{
  some, none, ◌+◌, ◌*◌, ◌≤◌, ◌<◌, lt→ltb, if◌then◌else◌, ℕ, List, [], ◌∷◌, ◌≡◌, ◌≢◌, ◌∙◌, refl, sym,
  ap, subst, In, inl, inr, arith, Option-cases,
}
use movie_reservation_system.Table.{ok, err, Result-cases}
use movie_reservation_system.Redis.Sessions.{refresh, Entry, word}
use movie_reservation_system.Schema.{User}
use movie_reservation_system.Secrets.{AuthUser}
use movie_reservation_system.World.{Env, World, unauthorized}
use movie_reservation_system.Tokens.{
  RefreshUser, issue_auth_cookies, rotate_auth_cookies, revoke_all_sessions,
  increment_access_version, clear_auth_cookies, store_session, refresh_ttl_seconds,
}
use movie_reservation_system.Tokens.Steps.{
  Step, Later, login, rotated, revoked, version_raised, elsewhere, start, step,
}
use movie_reservation_system.Tokens.Rotation.{Dead, Later-Dead, rotate_used, rotate_refused}
use movie_reservation_system.Accounts.{find_by_id, get_auth_user, auth_user, with_password}
use movie_reservation_system.Accounts.Handlers.{handle_login, handle_refresh, handle_logout}
use movie_reservation_system.Users.{check_current, change_password, update_password_row, with_hash}

module _ ⦃env : Env⦄ where
  -- Steps at time `now` that draw no id but this.
  abbrev pub Handled : ℕ → String → World → World → Type 0
  Handled now jti w v =
      (drawn : List String) × Later now w now drawn v × ((j : String) → In j drawn → j ≡ jti)

  nothing : (now : ℕ) (jti : String) (w : World) → Handled now jti w w
  nothing now jti w = ([], start, λ j i. absurd i)

  -- One more step that draws nothing.
  then-Step :
      (now : ℕ) (jti : String) (w v x : World)
      → Step now [] v x
      → Handled now jti w v
      → Handled now jti w x
  then-Step now jti w v x s h = (h.0, step s h.1, h.2)

  -- One more step that leaves the keys of authentication alone.
  then_same :
      (now : ℕ) (jti : String) (w v x : World)
      → x.sessions ≡ v.sessions
      → Handled now jti w v
      → Handled now jti w x
  then_same now jti w v x e = then-Step now jti w v x (
      elsewhere (λ u j t. ap (λ s. env.sessions.read s (refresh u j) t) e)
        (λ u. ap (λ s. env.sessions.members s u) e))

  then_login :
      (now : ℕ) (jti : String) (user : AuthUser) (w v : World)
      → Handled now jti w v
      → Handled now jti w (issue_auth_cookies now jti user v)
  then_login now jti user w v h =
      (jti ∷ h.0, step (login jti user refl) h.1, λ j i. elim i [ inl e ↦ e | inr m ↦ h.2 j m ])

  -- Each handler is made of such steps, whatever it returns or throws.
  pub handle_login-Handled :
      (now : ℕ) (jti : String) (user : AuthUser) (w : World)
      → Handled now jti w (handle_login now jti user w).1
  unfolding handle_login
  handle_login-Handled now jti user w =
      then_same now jti w (issue_auth_cookies now jti user w) _ refl
        (then_login now jti user w w (nothing now jti w))

  pub handle_logout-Handled :
      (now : ℕ) (jti : String) (user : AuthUser) (w : World)
      → Handled now jti w (handle_logout now user w).1
  unfolding handle_logout clear_auth_cookies
  handle_logout-Handled now jti user w =
      then_same now jti w (revoke_all_sessions now user.id w) _ refl
        (then-Step now jti w w _ (revoked user.id refl) (nothing now jti w))

  pub handle_refresh-Handled :
      (now : ℕ) (jti : String) (p : RefreshUser) (w : World)
      → Handled now jti w (handle_refresh now jti p w).1
  unfolding handle_refresh get_auth_user find_by_id
  handle_refresh-Handled now jti p w = elim (Option-cases (env.user.get w.users p.id)) [
    | inl a ↦ subst (Handled now jti w) (ground (arith, a)) (nothing now jti w)
    | inr (u, a) ↦
        let own : p.id ≡ u.id = sym (env.user.get-key w.users p.id u a) in
        let out = rotate_auth_cookies now jti p (auth_user u) w in
        let done : Handled now jti w out.1 = (
          jti ∷ [],
          step (rotated jti p (auth_user u) own refl) start,
          λ j i. elim i [ inl e ↦ e | inr m ↦ absurd m ],
        ) in
        elim (Result-cases out.0) [
          | inr (e, b) ↦ subst (Handled now jti w) (ground (arith, a, b)) done
          | inl (x, b) ↦ then_same now jti w out.1 _ (ground (arith, a, b)) done
        ]
  ]

  check_current-world :
      (user_id : ℕ) (current : String) (w : World) → (check_current user_id current w).1 ≡ w
  unfolding check_current find_by_id
  check_current-world user_id current w =
      elim (Option-cases (with_password (find_by_id user_id w))) [
        | inl a ↦ ground (arith, a)
        | inr (x, a) ↦ ground (arith, a)
      ]

  pub change_password-Handled :
      (now salt : ℕ) (jti : String) (user_id : ℕ) (current next : String) (w : World)
      → Handled now jti w (change_password now salt jti user_id current next w).1
  unfolding change_password update_password_row get_auth_user find_by_id
  change_password-Handled now salt jti user_id current next w =
      let same = check_current-world user_id current w in
      let hash = env.secrets.bcrypt_hash next salt in
      elim (Result-cases (check_current user_id current w).0) [
        | inr (e, a) ↦ subst (Handled now jti w) (ground (arith, a, same)) (nothing now jti w)
        | inl (_, a) ↦
            elim (Result-cases (env.user.update user_id (with_hash hash) (λ r. refl) w.users)) [
              | inr (e, b) ↦
                  subst (Handled now jti w) (ground (arith, a, same, b)) (nothing now jti w)
              | inl ((r, s), b) ↦
                  let v1 : World = record w { users = s } in
                  let v2 : World = increment_access_version now user_id v1 in
                  let v3 : World = revoke_all_sessions now user_id v2 in
                  let one = then_same now jti w w v1 refl (nothing now jti w) in
                  let two = then-Step now jti w v1 v2 (version_raised user_id refl) one in
                  let three = then-Step now jti w v2 v3 (revoked user_id refl) two in
                  elim (Option-cases (env.user.get v3.users user_id)) [
                    | inl c ↦ subst (Handled now jti w) (ground (arith, a, same, b, c)) three
                    | inr (u, c) ↦
                        then_same now jti w (issue_auth_cookies now jti (auth_user u) v3) _
                          (ground (arith, a, same, b, c))
                          (then_login now jti (auth_user u) w v3 three)
                  ]
            ]
      ]

  -- A refresh that succeeded rotated the session of the token's user.
  handle_refresh-rotate :
      (now : ℕ) (jti : String) (p : RefreshUser) (w w' : World)
      → handle_refresh now jti p w ≡ (ok tt, w')
      → (user : AuthUser) × (w'.sessions ≡ (rotate_auth_cookies now jti p user w).1.sessions)
  unfolding handle_refresh get_auth_user find_by_id
  handle_refresh-rotate now jti p w w' h = elim (Option-cases (env.user.get w.users p.id)) [
    | inl a ↦ absurd (ground (arith, a, h))
    | inr (u, a) ↦
        let out = rotate_auth_cookies now jti p (auth_user u) w in
        elim (Result-cases out.0) [
          | inr (e, b) ↦ absurd (ground (arith, a, b, h))
          | inl (x, b) ↦ (auth_user u, ground (arith, a, b, h))
        ]
  ]

  -- A session that is there is refreshed.
  handle_refresh_ok :
      (now : ℕ) (jti : String) (p : RefreshUser) (e : Entry) (u : User) (w : World)
      → env.user.get w.users p.id ≡ some u
      → env.sessions.read w.sessions (refresh p.id p.jti) now ≡ some e
      → handle_refresh now jti p w ≡ (ok tt, (handle_refresh now jti p w).1)
  unfolding handle_refresh get_auth_user find_by_id rotate_auth_cookies
  handle_refresh_ok now jti p e u w there alive = ground (arith, there, alive)

  -- A user who logged in can refresh for a week.
  pub handle_refresh-issue :
      (now t : ℕ) (jti jti' : String) (u : User) (w : World)
      → env.user.get w.users u.id ≡ some u
      → now ≤ t
      → t < now + refresh_ttl_seconds * 1000
      → let v = issue_auth_cookies now jti (auth_user u) w in
        let p : RefreshUser = record { id = u.id; jti = jti } in
        handle_refresh t jti' p v ≡ (ok tt, (handle_refresh t jti' p v).1)
  unfolding issue_auth_cookies store_session
  handle_refresh-issue now t jti jti' u w there from until =
      let p : RefreshUser = record { id = u.id; jti = jti } in
      let v = issue_auth_cookies now jti (auth_user u) w in
      let alive : env.sessions.read v.sessions (refresh u.id jti) t ≡ some (word "1") =
        env.sessions.sadd-read u.id jti (refresh u.id jti) t _
        ∙ env.sessions.set_lem (refresh u.id jti) (word "1") _ now t w.sessions from
        ∙ ap (λ b. if b then some (word "1") else none) (lt→ltb t _ until) in
      handle_refresh_ok t jti' p (word "1") u v there alive

  handle_refresh_refused :
      (now : ℕ) (jti : String) (p : RefreshUser) (w : World)
      → Dead now p.id p.jti w
      → handle_refresh now jti p w ≡ (err unauthorized, w)
  unfolding handle_refresh get_auth_user find_by_id
  handle_refresh_refused now jti p w d = elim (Option-cases (env.user.get w.users p.id)) [
    | inl a ↦ ground (arith, a)
    | inr (u, a) ↦ ground (arith, a, rotate_refused now jti p (auth_user u) w d)
  ]

  -- A refresh token is good for one refresh: once `refresh` has succeeded with it, every later one is
  -- answered with 401 and changes nothing, whatever logins, rotations, revocations and password
  -- changes came between, and whoever made them, if its session id is not drawn a second time.
  pub handle_refresh_once :
      (now later : ℕ) (jti jti' : String) (payload : RefreshUser) (w w' v : World)
      (drawn : List String)
      → handle_refresh now jti payload w ≡ (ok tt, w')
      → jti ≢ payload.jti
      → Later now w' later drawn v
      → (In payload.jti drawn → ⊥)
      → handle_refresh later jti' payload v ≡ (err unauthorized, v)
  handle_refresh_once now later jti jti' p w w' v drawn h n l fresh =
      let (user, same) = handle_refresh-rotate now jti p w w' h in
      let used : Dead now p.id p.jti w' = λ t from.
        ap (λ s. env.sessions.read s (refresh p.id p.jti) t) same
        ∙ rotate_used now jti p user w n t from in
      handle_refresh_refused later jti' p v (Later-Dead p.id p.jti l fresh used)
