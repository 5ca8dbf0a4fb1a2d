-- ===== src/Tokens.antt =====
-- Access and refresh tokens: backend/src/auth/token.service.ts, with the payload checks of the
-- Passport strategies in backend/src/auth/strategies. The `jti` that `randomUUID` draws is an
-- argument, and so is the time. The cookies of the response are fields of the world; their
-- attributes are not kept.
pub mod Steps
pub mod Rotation
pub mod Recorded
pub mod Revocation
use Prim.Native.String.{String}
use movie_reservation_system.Base.{
  ℕ, ◌*◌, Bool, true, false, Option, none, some, List, [], ◌∷◌, ltb, if◌then◌else◌,
}
use movie_reservation_system.Redis.Sessions.{refresh, access_version, word, tally}
use movie_reservation_system.Secrets.{
  AuthUser, AccessPayload, RefreshPayload, Claims, access_secret, refresh_secret, link_state_secret,
}
use movie_reservation_system.World.{
  Env, World, Action, unauthorized, pure, throw, ◌>>=◌, ◌>>◌, throw_if, gets, modify, on_sessions,
}
use movie_reservation_system.Reservations.{is_some}

abbrev pub refresh_ttl_seconds : ℕ
refresh_ttl_seconds = 7 * 24 * 60 * 60

-- auth/strategies/jwt-refresh.strategy.ts, `RefreshUser`
pub record RefreshUser : Type 0 where
  pub id : ℕ
  pub jti : String

-- `JwtRefreshStrategy.validate`
abbrev pub validate_refresh : RefreshPayload → RefreshUser
validate_refresh payload = record { id = payload.sub; jti = payload.jti }

abbrev pub access_claims : AuthUser → ℕ → AccessPayload
access_claims u ver = record {
  sub = u.id;
  name = u.name;
  email = u.email;
  role = u.role;
  ver = ver;
}

module _ ⦃env : Env⦄ where
  open env.sessions use {read, members, set, del, incr, expire, sadd, srem, del_set}
  open env.secrets use {Token, jwt_sign, jwt_verify}
  open env.auth_env use {jwt_access_expires_in, jwt_refresh_expires_in}

  -- `getAccessVersion`
  unfoldable pub get_access_version : ℕ → ℕ → World → ℕ
  get_access_version now user_id w = tally (read w.sessions (access_version user_id) now)

  -- `incrementAccessVersion`, with its `MULTI`.
  unfoldable pub increment_access_version : ℕ → ℕ → World → World
  increment_access_version now user_id w =
      let key = access_version user_id in
      record w { sessions = expire key (refresh_ttl_seconds * 1000) now (incr key now w.sessions) }

  -- `signAccess`
  unfoldable pub sign_access : ℕ → AuthUser → World → Token
  unfolding get_access_version
  sign_access now user w =
      jwt_sign access_secret (Claims.access (access_claims user (get_access_version now user.id w)))
        jwt_access_expires_in now

  -- `signRefresh`
  unfoldable pub sign_refresh : ℕ → ℕ → String → Token
  sign_refresh now user_id jti =
      jwt_sign refresh_secret (Claims.refresh (record { sub = user_id; jti = jti }))
        jwt_refresh_expires_in now

  -- `setAuthCookies` and `clearAuthCookies`
  unfoldable pub set_auth_cookies : Token → Token → World → World
  set_auth_cookies access refreshing w = record w {
    access_cookie = some access;
    refresh_cookie = some refreshing;
  }

  unfoldable pub clear_auth_cookies : World → World
  clear_auth_cookies w = record w { access_cookie = none; refresh_cookie = none }

  -- The `MULTI` of `issueAuthCookies`.
  unfoldable pub store_session : ℕ → ℕ → String → env.sessions.State → env.sessions.State
  store_session now user_id jti s =
      sadd user_id jti (set (refresh user_id jti) (word "1") (refresh_ttl_seconds * 1000) now s)

  -- `issueAuthCookies`
  unfoldable pub issue_auth_cookies : ℕ → String → AuthUser → World → World
  unfolding sign_access sign_refresh store_session set_auth_cookies
  issue_auth_cookies now jti user w =
      set_auth_cookies (sign_access now user w) (sign_refresh now user.id jti)
        (record w { sessions = store_session now user.id jti w.sessions })

  -- The writes of `ROTATE_SCRIPT` after its check.
  unfoldable pub rotate_script :
      ℕ → RefreshUser → ℕ → String → env.sessions.State → env.sessions.State
  rotate_script now payload user_id jti s = sadd user_id jti (
      srem user_id payload.jti (
        set (refresh user_id jti) (word "1") (refresh_ttl_seconds * 1000) now
          (del (refresh payload.id payload.jti) now s)))

  -- `rotateAuthCookies`
  unfoldable pub rotate_auth_cookies : ℕ → String → RefreshUser → AuthUser → Action (Unit {0})
  unfolding sign_access sign_refresh rotate_script set_auth_cookies
  rotate_auth_cookies now jti payload user = do
    old ← gets (λ w. read w.sessions (refresh payload.id payload.jti) now)
    if is_some old then on_sessions (rotate_script now payload user.id jti) else throw unauthorized
    access ← gets (λ w. sign_access now user w)
    modify (set_auth_cookies access (sign_refresh now user.id jti))

  -- `del(...refreshKeys)` of `revokeAllSessions`
  unfoldable pub del_sessions : ℕ → ℕ → List String → env.sessions.State → env.sessions.State
  del_sessions now user_id [] s = s
  del_sessions now user_id (jti ∷ jtis) s =
      del_sessions now user_id jtis (del (refresh user_id jti) now s)

  -- `if (jtis.length > 0)` of `revokeAllSessions`
  unfoldable pub del_found : ℕ → ℕ → List String → World → World
  unfolding del_sessions
  del_found now user_id [] w = w
  del_found now user_id (jti ∷ jtis) w = record w {
    sessions = del_set user_id (del_sessions now user_id (jti ∷ jtis) w.sessions);
  }

  -- `revokeAllSessions`, when nothing comes between its `SMEMBERS` and its `DEL`; Tokens/Steps.antt has
  -- the `DEL` as a step of its own.
  unfoldable pub revoke_all_sessions : ℕ → ℕ → World → World
  unfolding del_found
  revoke_all_sessions now user_id w = del_found now user_id (members w.sessions user_id) w

  -- `signLinkState`, for ten minutes
  unfoldable pub sign_link_state : ℕ → ℕ → Token
  sign_link_state now user_id = jwt_sign link_state_secret (Claims.link_state user_id) 600 now

  -- The `sub` of the payload; a token that verifies under this secret holds one.
  abbrev pub link_user : Option Claims → Option ℕ
  link_user (some (Claims.link_state id)) = some id
  link_user _ = none

  -- `verifyLinkState`
  unfoldable pub verify_link_state : ℕ → Option Token → Action ℕ
  verify_link_state now none = throw unauthorized
  verify_link_state now (some token) = elim (link_user (jwt_verify link_state_secret now token)) [
    | none ↦ throw unauthorized
    | some id ↦ pure id
  ]

  -- `JwtStrategy.validate`
  unfoldable pub validate_access : ℕ → AccessPayload → Action AuthUser
  unfolding get_access_version
  validate_access now payload = do
    current ← gets (λ w. get_access_version now payload.sub w)
    throw_if (ltb payload.ver current) unauthorized
    pure (record {
      id = payload.sub;
      name = payload.name;
      email = payload.email;
      role = payload.role;
    })
