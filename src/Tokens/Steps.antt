-- ===== src/Tokens/Steps.antt =====
-- The life of the sessions: what the handlers of auth/auth.controller.ts and users/users.service.ts
-- do to them through auth/token.service.ts, one step after the other.
use Prim.Native.String.{String}
use movie_reservation_system.Base.{ℕ, ◌≤◌, List, [], ◌∷◌, ◌≡◌, ◌++◌, arith}
use movie_reservation_system.Redis.Sessions.{refresh}
use movie_reservation_system.Secrets.{AuthUser}
use movie_reservation_system.World.{Env, World}
use movie_reservation_system.Tokens.{
  RefreshUser, issue_auth_cookies, rotate_auth_cookies, revoke_all_sessions,
  increment_access_version, del_found,
}

module _ ⦃env : Env⦄ where
  open env.sessions use {read, members}

  -- A step at time `now`, with the ids that `randomUUID` draws in it. A token is rotated for the
  -- user that it names.
  pub data Step (now : ℕ) : List String → World → World → Type 0 where
    login :
        {w v : World} (jti : String) (user : AuthUser)
        → v ≡ issue_auth_cookies now jti user w
        → Step now (jti ∷ []) w v
    rotated :
        {w v : World} (jti : String) (payload : RefreshUser) (user : AuthUser)
        → payload.id ≡ user.id
        → v ≡ (rotate_auth_cookies now jti payload user w).1
        → Step now (jti ∷ []) w v
    revoked : {w v : World} (user_id : ℕ) → v ≡ revoke_all_sessions now user_id w → Step now [] w v
    -- The deletion of `revokeAllSessions`, of what its `SMEMBERS` has read before other steps.
    deleted :
        {w v : World} (user_id : ℕ) (jtis : List String)
        → v ≡ del_found now user_id jtis w
        → Step now [] w v
    version_raised :
        {w v : World} (user_id : ℕ) → v ≡ increment_access_version now user_id w → Step now [] w v
    -- Anything else that a handler does: it leaves the sessions and their sets alone.
    elsewhere :
        {w v : World}
        → ((u : ℕ) (j : String) (t : ℕ)
            → read v.sessions (refresh u j) t ≡ read w.sessions (refresh u j) t)
        → ((u : ℕ) → members v.sessions u ≡ members w.sessions u)
        → Step now [] w v

  -- Steps from time `now` on, which reach a world at a later time, and the ids that they drew.
  pub data Later (now : ℕ) (w : World) : ℕ → List String → World → Type 0 where
    start : Later now w now [] w
    wait :
        {t t' : ℕ} {drawn : List String} {v : World}
        → t ≤ t'
        → Later now w t drawn v
        → Later now w t' drawn v
    step :
        {t : ℕ} {new drawn : List String} {v x : World}
        → Step t new v x
        → Later now w t drawn v
        → Later now w t (new ++ drawn) x

  -- No step is the deletion alone: each revocation runs with no other step between its two commands.
  abbrev pub UndividedStep : {now : ℕ} {new : List String} {w v : World} → Step now new w v → Type 0
  UndividedStep (deleted user_id jtis e) = ⊥
  UndividedStep _ = Unit

  unfoldable pub Undivided :
      {now : ℕ} {w : World} {t : ℕ} {drawn : List String} {v : World}
      → Later now w t drawn v
      → Type 0
  Undivided start = Unit
  Undivided (wait h l) = Undivided l
  Undivided (step s l) = UndividedStep s × Undivided l

  pub Later-le :
      {now : ℕ} {w : World} {t : ℕ} {drawn : List String} {v : World}
      → Later now w t drawn v
      → now ≤ t
  Later-le start = omega arith
  Later-le (wait h l) = omega (arith, h, Later-le l)
  Later-le (step s l) = Later-le l
