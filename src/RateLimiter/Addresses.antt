-- ===== src/RateLimiter/Addresses.antt =====
-- The rate limits of an address: backend/src/common/middleware/ip-rate-limit.middleware.ts. An address is
-- a number, and a rule's key stands for its place in the table. `LOGIN_RATE_LIMIT`, read as a number that
-- is not 0, is an argument.
use Prim.Native.String.{String, slice, len, ◌++◌}
use text.Mathlib.Text.{starts_with, ◌==◌ as str_eq}
use movie_reservation_system.Base.{
  ℕ, ◌*◌, Bool, true, Option, none, some, List, [], ◌∷◌, if◌then◌else◌,
}
use movie_reservation_system.Redis.{ip_rate_limit}
use movie_reservation_system.World.{Env, Action, pure, ◌>>=◌}
use movie_reservation_system.RateLimiter.Guard.{run_rate_limiter}

pub record Rule : Type 0 where
  pub points : ℕ
  pub duration : ℕ
  pub key : ℕ

abbrev pub rule : ℕ → ℕ → ℕ → Rule
rule points duration key = record { points = points; duration = duration; key = key }

-- `Number(process.env.LOGIN_RATE_LIMIT) || 5`
abbrev pub login_points : Option ℕ → ℕ
login_points none = 5
login_points (some n) = n

-- `rules`
abbrev pub rules : Option ℕ → List (String × Rule)
rules login_limit =
    ("POST /auth/login", rule (login_points login_limit) (15 * 60000) 0)
    ∷ ("GET /movies", rule 60 60000 1)
    ∷ ("POST /auth/register", rule 3 60000 2)
    ∷ ("POST /auth/verify-otp", rule 10 60000 3)
    ∷ ("POST /auth/resend-otp", rule 3 60000 4)
    ∷ ("POST /auth/refresh", rule 10 60000 5)
    ∷ []

-- `this.rules[routeKey]`
abbrev pub find_rule : String → List (String × Rule) → Option Rule
find_rule route [] = none
find_rule route ((name, r) ∷ rs) = if str_eq name route then some r else find_rule route rs

-- The path without the application's prefix.
abbrev pub route_path : String → String
route_path path = if starts_with path "/api/v1" then slice path 7 (len path) else path

abbrev pub route_key : String → String → String
route_key method path = method ++ (" " ++ route_path path)

module _ ⦃env : Env⦄ where
  -- From `if (!rule)` on: `true` if `next` is called, and `false` for the answer 429.
  unfoldable pub check_rule : ℕ → ℕ → Option Rule → Action Bool
  check_rule now ip none = pure true
  check_rule now ip (some r) = do
    result ←
        run_rate_limiter (ip_rate_limit ip r.key)
          (record { window_size = r.duration; max_requests = r.points }) now
    pure result.allowed

  -- `use`
  unfoldable pub use_ip_limit : ℕ → Option ℕ → ℕ → String → String → Action Bool
  unfolding check_rule
  use_ip_limit now login_limit ip method path =
      check_rule now ip (find_rule (route_key method path) (rules login_limit))
