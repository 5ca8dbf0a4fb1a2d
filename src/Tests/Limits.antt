-- ===== src/Tests/Limits.antt =====
-- Examples of the rate limiter and the payment lock-out.
use movie_reservation_system.Base.{◌-◌, suc, leb, ltb, ◌||◌, ◌≤◌, ◌+◌, ◌≡◌, refl, [], true, arith}
use movie_reservation_system.World.{World, Failure, too_many_requests}
use movie_reservation_system.Table.{Result, ok, err}
use movie_reservation_system.Base.{if◌then◌else◌, some, none, ℕ, Bool, ◌≢◌}
use movie_reservation_system.RateLimiter.Guard.{redis_key, can_activate, can_activate-ltb}
use movie_reservation_system.World.Memory.{demo, blank, in_memory}
use movie_reservation_system.RateLimiter.Addresses.{find_rule, route_key, rules, rule}
use movie_reservation_system.Redis.{Key, user_rate_limit}
use movie_reservation_system.Redis.Scores.{count_above}
use movie_reservation_system.RateLimiter.{RateLimiterConfig, rate_limiter}
use movie_reservation_system.RateLimiter.Window.{admit, Tracks, rate_limiter-Tracks}
use movie_reservation_system.PaymentAbuse.{
  window_ms, failure_threshold, record_failure, is_locked_out,
}
use movie_reservation_system.PaymentAbuse.Lockout.{failures_after, record_failure-is_locked_out}

abbrev after_two : World ⦃env = demo⦄
after_two = record_failure ⦃env = demo⦄ 5 90000000 (record_failure ⦃env = demo⦄ 5 89000000 blank)

record_failure-is_locked_out_example :
    is_locked_out ⦃env = demo⦄ 5 91500000 (record_failure ⦃env = demo⦄ 5 91000000 after_two) ≡ (
      leb failure_threshold
        (suc (failures_after ⦃env = demo⦄ 5 (91000000 - window_ms) 91000000 after_two.redis))
      || is_locked_out ⦃env = demo⦄ 5 91500000 after_two)
record_failure-is_locked_out_example =
    record_failure-is_locked_out ⦃env = demo⦄ 5 91000000 91500000 after_two (omega arith)
      (omega arith) (omega arith)

-- Two requests in ten seconds are admitted; nothing has been asked for yet.
abbrev config : RateLimiterConfig
config = record { window_size = 10000; max_requests = 2 }

abbrev requests : Key
requests = user_rate_limit 5 0

nothing_yet : Tracks ⦃env = demo⦄ requests 10000 blank.redis 50000 []
unfolding in_memory
nothing_yet = (λ t limit h le. refl, λ x i. absurd i)

rate_limiter-Tracks_example :
    let (result, s') = rate_limiter ⦃env = demo⦄ requests config 60000 blank.redis in
    let before = count_above (60000 - 10000) [] in
    let log' = admit result.allowed 60000 [] in
    (result.allowed ≡ ltb before 2)
    × (result.allowed ≡ true → result.remaining + suc before ≡ 2)
    × Tracks ⦃env = demo⦄ requests 10000 s' 60000 log'
    × (before ≤ 2 → count_above (60000 - 10000) log' ≤ 2)
rate_limiter-Tracks_example =
    rate_limiter-Tracks ⦃env = demo⦄ requests config 50000 60000 blank.redis [] (omega arith)
      (omega arith) (omega arith) nothing_yet

nothing_by_user_5 : Tracks ⦃env = demo⦄ (redis_key (some 5) 0) 10000 blank.redis 50000 []
nothing_by_user_5 = nothing_yet

abbrev asked : Result Failure Bool × World ⦃env = demo⦄
asked =
    can_activate ⦃env = demo⦄ 60000 (some 5)
      (some (record { points = 2; duration = 10000; key = 0 })) blank

can_activate-ltb_example :
    (asked.0 ≡ (if ltb (count_above (60000 - 10000) []) 2 then ok true else err too_many_requests))
    × ((other t : ℕ)
        → 5 ≢ other
        → demo.redis.scores asked.1.redis (user_rate_limit other 0) t
          ≡ demo.redis.scores blank.redis (user_rate_limit other 0) t)
can_activate-ltb_example =
    can_activate-ltb ⦃env = demo⦄ 60000 50000 5 (record { points = 2; duration = 10000; key = 0 })
      [] blank (omega arith) (omega arith) (omega arith) nothing_by_user_5

-- A path with the application's prefix falls under the rule of the login, and one with a slash at its
-- end under none.
login_rule : find_rule (route_key "POST" "/api/v1/auth/login") (rules none) ≡ some (rule 5 900000 0)
login_rule = refl

slash_rule : find_rule (route_key "POST" "/api/v1/auth/login/") (rules none) ≡ none
slash_rule = refl
