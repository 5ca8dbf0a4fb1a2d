-- ===== src/RateLimiter/Guard.antt =====
-- The guard of the rate limits: backend/src/common/guards/rate-limit.guard.ts.
use movie_reservation_system.Base.{
  ℕ, ◌-◌, ◌≤◌, ◌<◌, Bool, true, not, Option, some, none, List, ◌≡◌, ◌≢◌, ◌∙◌, length, ltb, arith,
  Bool-cases, inl, inr, if◌then◌else◌,
}
use movie_reservation_system.Table.{ok, err}
use movie_reservation_system.Redis.{Key, user_rate_limit, anonymous_rate_limit}
use movie_reservation_system.Redis.Scores.{count_above}
use movie_reservation_system.World.{
  Env, World, Action, too_many_requests, pure, ◌>>=◌, ◌>>◌, throw_if,
}
use movie_reservation_system.RateLimiter.{RateLimiterConfig, RateLimiterResult, rate_limiter}
use movie_reservation_system.RateLimiter.Window.{Tracks, rate_limiter-Tracks}

-- `RateLimitConfig`; a number stands for its key's name.
pub record RateLimitConfig : Type 0 where
  pub points : ℕ
  pub duration : ℕ
  pub key : ℕ

-- `rate_limit:user:${user?.id}:${config.key}`
abbrev pub redis_key : Option ℕ → ℕ → Key
redis_key none key = anonymous_rate_limit key
redis_key (some id) key = user_rate_limit id key

module _ ⦃env : Env⦄ where
  unfoldable pub run_rate_limiter : Key → RateLimiterConfig → ℕ → Action RateLimiterResult
  run_rate_limiter key config now w =
      let (result, s) = rate_limiter key config now w.redis in (ok result, record w { redis = s })

  unfoldable pub check_limit : ℕ → Option ℕ → RateLimitConfig → Action Bool
  unfolding run_rate_limiter
  check_limit now user config = do
    result ←
        run_rate_limiter (redis_key user config.key)
          (record { window_size = config.duration; max_requests = config.points }) now
    throw_if (not result.allowed) too_many_requests
    pure true

  -- `canActivate`; a handler without a configuration has no limit.
  unfoldable pub can_activate : ℕ → Option ℕ → Option RateLimitConfig → Action Bool
  unfolding check_limit
  can_activate now user none = pure true
  can_activate now user (some config) = check_limit now user config

  -- A decision on one key leaves every other key alone.
  rate_limiter-others :
      (key j : Key) (config : RateLimiterConfig) (now t : ℕ) (s : env.redis.State)
      → key ≢ j
      → env.redis.scores (rate_limiter key config now s).1 j t ≡ env.redis.scores s j t
  unfolding rate_limiter
  rate_limiter-others key j config now t s n =
      let s1 = env.redis.zremrangebyscore key (now - config.window_size) now s in
      let trimmed = env.redis.zremrangebyscore-others key j (now - config.window_size) now t s n in
      elim (Bool-cases (ltb (length (env.redis.scores s1 key now)) config.max_requests)) [
        | inl a ↦ rw a (
            env.redis.pexpire-others key j config.window_size now t (env.redis.zadd key now now s1)
              n
            ∙ env.redis.zadd-others key j now now t s1 n
            ∙ trimmed)
        | inr a ↦ rw a trimmed
      ]

  -- The guard lets a request of a user through exactly if the set under that user's own key counts
  -- fewer than `points` requests let through in the last `duration` milliseconds, and otherwise
  -- answers 429; and no other user's set changes, so that nobody uses up the requests of another.
  pub can_activate-ltb :
      (now last user : ℕ) (config : RateLimitConfig) (log : List ℕ) (w : World)
      → 0 < config.duration
      → config.duration ≤ now
      → last ≤ now
      → Tracks (user_rate_limit user config.key) config.duration w.redis last log
      → ((can_activate now (some user) (some config) w).0 ≡ (
          if ltb (count_above (now - config.duration) log) config.points
          then ok true
          else err too_many_requests))
        × ((other t : ℕ)
            → user ≢ other
            → env.redis.scores
                (can_activate now (some user) (some config) w).1.redis
                (user_rate_limit other config.key)
                t
              ≡ env.redis.scores w.redis (user_rate_limit other config.key) t)
  unfolding can_activate
  can_activate-ltb now last user config log w pos big later tracks =
      let limits : RateLimiterConfig = record {
        window_size = config.duration;
        max_requests = config.points;
      } in
      let step =
        (rate_limiter-Tracks (user_rate_limit user config.key) limits last now w.redis log pos big
          later tracks).0 in
      let others : (other t : ℕ)
          → user ≢ other
          → env.redis.scores (rate_limiter (user_rate_limit user config.key) limits now w.redis).1
              (user_rate_limit other config.key) t
            ≡ env.redis.scores w.redis (user_rate_limit other config.key) t =
        λ other t n.
          rate_limiter-others (user_rate_limit user config.key) (user_rate_limit other config.key)
            limits now t w.redis (λ e. n (ground (arith, e))) in
      elim (Bool-cases (ltb (count_above (now - config.duration) log) config.points)) [
        | inl a ↦ (ground (arith, step, a), λ other t n. ground (arith, step, a, others other t n))
        | inr a ↦ (ground (arith, step, a), λ other t n. ground (arith, step, a, others other t n))
      ]
