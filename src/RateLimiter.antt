-- ===== src/RateLimiter.antt =====
-- The sliding window of backend/src/redis/rate-limiter.service.ts: `RATE_LIMITER_SCRIPT`, which Redis runs
-- as one step.
pub mod Window
pub mod Guard
pub mod Addresses
use movie_reservation_system.Base.{
  ℕ, ◌+◌, ◌-◌, Bool, true, false, List, [], ◌∷◌, ltb, length, if◌then◌else◌,
}
use movie_reservation_system.Redis.{Key}
use movie_reservation_system.World.{Env}

pub record RateLimiterConfig : Type 0 where
  pub window_size : ℕ
  pub max_requests : ℕ

pub record RateLimiterResult : Type 0 where
  pub allowed : Bool
  pub remaining : ℕ
  pub reset_after_ms : ℕ

-- The time until the oldest request leaves the window.
abbrev pub reset_after : List ℕ → ℕ → ℕ → ℕ
reset_after [] window now = 0
reset_after (oldest ∷ _) window now = oldest + window - now

module _ ⦃env : Env⦄ where
  open env.redis use {zadd, pexpire, zremrangebyscore, scores}

  -- `Date.now()` is past the first window of 1970, so `now - windowSize` does not stop at 0; the member
  -- is a fresh UUID.
  unfoldable pub rate_limiter :
      Key → RateLimiterConfig → ℕ → env.redis.State → RateLimiterResult × env.redis.State
  rate_limiter key config now s =
      let s1 = zremrangebyscore key (now - config.window_size) now s in
      let count = length (scores s1 key now) in
      if ltb count config.max_requests
      then (
        record {
          allowed = true;
          remaining = config.max_requests - count - 1;
          reset_after_ms = config.window_size;
        },
        pexpire key config.window_size now (zadd key now now s1),
      )
      else (
        record {
          allowed = false;
          remaining = 0;
          reset_after_ms = reset_after (scores s1 key now) config.window_size now;
        },
        s1,
      )
