-- ===== src/World/Data.antt =====
-- What the services throw, store in Redis, emit, count and record, with their settings and the circuit
-- breaker.
use movie_reservation_system.Base.{ℕ, ◌<◌, Bool, Option, List}
use movie_reservation_system.Table.{DbError}
use Prim.Native.String.{String}
use movie_reservation_system.Schema.{Movie, Hall, Screening, SeatStatus}

-- What a method throws: NestJS's HTTP exceptions by their status, Prisma's errors, Stripe's, the
-- circuit breaker's own, and those of argon2 and nodemailer.
pub data Failure : Type 0 where
  bad_request unauthorized forbidden not_found conflict too_many_requests : Failure
  internal_server_error service_unavailable : Failure
  prisma : DbError → Failure
  stripe_error : Failure
  breaker_open breaker_timeout : Failure
  hash_error mail_error : Failure

-- One line of a seat map: screenings/screenings.service.ts, `SeatMapEntry`.
pub record SeatMapEntry : Type 0 where
  pub seat_id : ℕ
  pub row : List ℕ
  pub number : List ℕ
  pub status : SeatStatus

-- A screening with its movie and hall: screenings/screenings.repository.ts, `ScreeningWithMovieHall`.
pub record Detail : Type 0 where
  pub screening : Screening
  pub movie : Movie
  pub hall : Hall

-- One line of the selection of screenings: screenings/screenings.cache.ts, `FutureScreening`.
pub record FutureScreening : Type 0 where
  pub id : ℕ
  pub start_time : ℕ
  pub price : ℕ
  pub hall : Option Hall

-- What the services store as text under a Redis key.
pub data Cached : Type 0 where
  flag : Cached
  seats : List SeatMapEntry → Cached
  detail : Detail → Cached
  future : List FutureScreening → Cached
  halls : List Hall → Cached
  one_movie : Movie → Cached
  movies : List Movie → Cached

-- What `fire` does with the next call: run it, refuse it, or run it and give up waiting.
pub data Verdict : Type 0 where
  admit refuse give_up : Verdict

-- The circuit breaker of the package opossum.
pub record Breaker : Type 1 where
  pub State : Type 0
  pub verdict : State → Verdict
  -- The call is over; `true` if it counts as a failure.
  pub settle : Bool → State → State

-- auth/auth-env.config.ts, `authEnv`, as far as it decides anything; the process does not start with
-- a number that is not positive. The lifetimes are in seconds.
pub record AuthEnv : Type 0 where
  pub otp_ttl_seconds : ℕ
  pub otp_max_attempts : ℕ
  pub otp_resend_cooldown_seconds : ℕ
  pub jwt_access_expires_in : ℕ
  pub jwt_refresh_expires_in : ℕ
  pub otp_ttl_seconds-positive : 0 < otp_ttl_seconds
  pub otp_max_attempts-positive : 0 < otp_max_attempts

-- reservations/events/reservation.events.ts
pub data Event : Type 0 where
  created confirmed cancelled : ℕ → List ℕ → Event
  hold_expired : (user_id screening_id seat_id : ℕ) → Event

-- The Prometheus counters of the payment flow.
pub record Metrics : Type 0 where
  pub succeeded : ℕ
  pub failed : ℕ
  pub declined : ℕ
  pub timed_out : ℕ
  pub refunded : ℕ
  pub lockouts : ℕ

-- common/services/audit.service.ts: the action and the target of an audit line.
pub data Audit : Type 0 where
  payment_succeeded payment_failed payment_dispute payment_refunded : ℕ → Audit
  hold_expiry : Audit
  user_registered google_created google_linked login_google_success : ℕ → Audit
  login_failed login_success token_refreshed user_logout password_changed : ℕ → Audit
  email_change_requested : ℕ → String → Audit
