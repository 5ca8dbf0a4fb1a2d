-- ===== src/PaymentAbuse.antt =====
-- The payment lock-out: backend/src/redis/payment-abuse.service.ts.
pub mod Lockout
use movie_reservation_system.Base.{
  ℕ, suc, ◌-◌, ◌*◌, Bool, true, false, Option, some, none, leb, if◌then◌else◌, length,
}
use movie_reservation_system.Redis.{payment_failures, payment_lockout}
use movie_reservation_system.World.{Env, World, flag}

abbrev pub window_ms : ℕ
window_ms = 24 * 60 * 60000

abbrev pub lockout_ms : ℕ
lockout_ms = 30 * 60000

abbrev pub failure_threshold : ℕ
failure_threshold = 3

abbrev pub is_some : {A : Type 0} → Option A → Bool
is_some none = false
is_some (some a) = true

module _ ⦃env : Env⦄ where
  open env.redis use {zadd, pexpire, zremrangebyscore, scores, value, set}

  -- `zadd`, `pexpire` and `zremrangebyscore` of `recordFailure`. `Date.now()` is past the first day
  -- of 1970, so the subtraction does not stop at 0.
  unfoldable pub add_failure : ℕ → ℕ → env.redis.State → env.redis.State
  add_failure user_id now s =
      let key = payment_failures user_id in
      zremrangebyscore key (now - window_ms) now (pexpire key window_ms now (zadd key now now s))

  -- `recordFailure`
  unfoldable pub record_failure : ℕ → ℕ → World → World
  unfolding add_failure
  record_failure user_id now w =
      let s = add_failure user_id now w.redis in
      if leb failure_threshold (length (scores s (payment_failures user_id) now))
      then record w {
        redis = set (payment_lockout user_id) flag lockout_ms now s;
        metrics = record (w.metrics) { lockouts = suc w.metrics.lockouts };
      }
      else record w { redis = s }

  -- `isLockedOut`
  unfoldable pub is_locked_out : ℕ → ℕ → World → Bool
  is_locked_out user_id now w = is_some (value w.redis (payment_lockout user_id) now)
