-- ===== src/World.antt =====
-- What the services work on: the tables, the Redis server, the Stripe account and the circuit
-- breaker, which are parameters (`Env`), and the state that the process itself keeps. A service
-- method is an action: it changes the world, and returns or throws. What was written before a throw
-- stays written.
mod Data
pub mod Writes
pub mod Memory
pub use Data.*
use movie_reservation_system.Base.{
  ℕ, ◌<◌, Bool, Option, some, none, List, [], ◌∷◌, ◌++◌, if◌then◌else◌,
}
use movie_reservation_system.Table.{Table, DbError, Result, ok, err}
use movie_reservation_system.Redis.{Redis}
use movie_reservation_system.Redis.Sessions.{Sessions}
use movie_reservation_system.Secrets.{Secrets, Mailer}
use Prim.Native.String.{String}
use movie_reservation_system.Stripe.{Stripe, StripeError}
use movie_reservation_system.Schema.{
  Reservation, Payment, Movie, Hall, Screening, Seat, RefundPolicy, SeatStatus, active_clash,
  payment_clash, policy_clash, no_clash, seat_clash, User, user_clash,
}

pub record Env : Type 1 where
  pub reservation : Table Reservation (λ r. r.id) active_clash
  pub payment : Table Payment (λ r. r.id) payment_clash
  pub screening : Table Screening (λ r. r.id) no_clash
  pub seat : Table Seat (λ r. r.id) seat_clash
  pub policy : Table RefundPolicy (λ r. r.id) policy_clash
  pub movie : Table Movie (λ r. r.id) no_clash
  pub hall : Table Hall (λ r. r.id) no_clash
  pub user : Table User (λ r. r.id) user_clash
  pub redis : Redis Cached
  pub sessions : Sessions
  pub secrets : Secrets
  pub mailer : Mailer
  pub auth_env : AuthEnv
  pub stripe : Stripe
  pub breaker : Breaker

module _ ⦃env : Env⦄ where
  pub record World : Type 0 where
    pub reservations : env.reservation.State
    pub payments : env.payment.State
    pub screenings : env.screening.State
    pub seats : env.seat.State
    pub policies : env.policy.State
    pub movies : env.movie.State
    pub halls : env.hall.State
    pub users : env.user.State
    pub redis : env.redis.State
    pub sessions : env.sessions.State
    pub stripe : env.stripe.State
    pub breaker : env.breaker.State
    pub active : ℕ
    pub events : List Event
    pub metrics : Metrics
    pub audit : List Audit
    -- The mails sent, with the code that each carries, and the cookies of the response.
    pub mails : List (String × String)
    pub access_cookie : Option env.secrets.Token
    pub refresh_cookie : Option env.secrets.Token

  abbrev pub Action : Type 0 → Type 0
  Action A = World → Result Failure A × World

  abbrev pub pure : {A : Type 0} → A → Action A
  pure a w = (ok a, w)

  abbrev pub throw : {A : Type 0} → Failure → Action A
  throw e w = (err e, w)

  infixl 5 ◌>>=◌ ◌>>◌
  abbrev pub ◌>>=◌ : {A B : Type 0} → Action A → (A → Action B) → Action B
  ◌>>=◌ m f w = let (r, w') = m w in elim r [ ok a ↦ f a w' | err e ↦ (err e, w') ]

  abbrev pub ◌>>◌ : {A B : Type 0} → Action A → Action B → Action B
  m >> k = m >>= λ _. k

  abbrev pub throw_if : Bool → Failure → Action (Unit {0})
  throw_if c e w = (if c then err e else ok tt, w)

  -- `if (!x) throw …`
  abbrev pub or_throw : {A : Type 0} → Option A → Failure → Action A
  or_throw none e w = (err e, w)
  or_throw (some a) e w = (ok a, w)

  -- `try { … } finally { … }`
  abbrev pub finally : {A : Type 0} → Action A → (World → World) → Action A
  finally m f w = let (r, w') = m w in (r, f w')

  -- `try { … } catch (err) { … }`
  abbrev pub catch : {A : Type 0} → Action A → (Failure → Action A) → Action A
  catch m f w = let (r, w') = m w in elim r [ ok a ↦ (ok a, w') | err e ↦ f e w' ]

  -- `$transaction`: a failure rolls the tables back, and nothing else is touched in one.
  abbrev pub transaction : {A : Type 0} → Action A → Action A
  transaction m w = elim (m w).0 [ ok a ↦ (ok a, (m w).1) | err e ↦ (err e, w) ]

  abbrev pub gets : {A : Type 0} → (World → A) → Action A
  gets f w = (ok (f w), w)

  abbrev pub modify : (World → World) → Action (Unit {0})
  modify f w = (ok tt, f w)

  -- One write to a table. A write that fails throws, and changes nothing.
  abbrev pub on_reservations :
      {A : Type 0} → (env.reservation.State → Result DbError (A × env.reservation.State)) → Action A
  on_reservations f w = elim (f w.reservations) [
    | ok (a, s) ↦ (ok a, record w { reservations = s })
    | err e ↦ (err (prisma e), w)
  ]

  abbrev pub on_payments :
      {A : Type 0} → (env.payment.State → Result DbError (A × env.payment.State)) → Action A
  on_payments f w = elim (f w.payments) [
    | ok (a, s) ↦ (ok a, record w { payments = s })
    | err e ↦ (err (prisma e), w)
  ]

  abbrev pub on_screenings :
      {A : Type 0} → (env.screening.State → Result DbError (A × env.screening.State)) → Action A
  on_screenings f w = elim (f w.screenings) [
    | ok (a, s) ↦ (ok a, record w { screenings = s })
    | err e ↦ (err (prisma e), w)
  ]

  abbrev pub on_movies :
      {A : Type 0} → (env.movie.State → Result DbError (A × env.movie.State)) → Action A
  on_movies f w = elim (f w.movies) [
    | ok (a, s) ↦ (ok a, record w { movies = s })
    | err e ↦ (err (prisma e), w)
  ]

  abbrev pub on_halls :
      {A : Type 0} → (env.hall.State → Result DbError (A × env.hall.State)) → Action A
  on_halls f w = elim (f w.halls) [
    | ok (a, s) ↦ (ok a, record w { halls = s })
    | err e ↦ (err (prisma e), w)
  ]

  abbrev pub on_seats :
      {A : Type 0} → (env.seat.State → Result DbError (A × env.seat.State)) → Action A
  on_seats f w = elim (f w.seats) [
    | ok (a, s) ↦ (ok a, record w { seats = s })
    | err e ↦ (err (prisma e), w)
  ]

  abbrev pub on_users :
      {A : Type 0} → (env.user.State → Result DbError (A × env.user.State)) → Action A
  on_users f w = elim (f w.users) [
    | ok (a, s) ↦ (ok a, record w { users = s })
    | err e ↦ (err (prisma e), w)
  ]

  -- One command to the Redis server on the keys of authentication.
  abbrev pub on_sessions : (env.sessions.State → env.sessions.State) → Action (Unit {0})
  on_sessions f w = (ok tt, record w { sessions = f w.sessions })

  -- One command to the Redis server.
  abbrev pub on_redis : (env.redis.State → env.redis.State) → Action (Unit {0})
  on_redis f w = (ok tt, record w { redis = f w.redis })

  -- One call of the Stripe API.
  abbrev pub on_stripe :
      {A : Type 0} → (env.stripe.State → Result StripeError A × env.stripe.State) → Action A
  on_stripe f w =
      let (r, s) = f w.stripe in
      (elim r [ ok a ↦ ok a | err _ ↦ err stripe_error ], record w { stripe = s })

  -- `EventEmitter2.emit`
  abbrev pub emit : Event → Action (Unit {0})
  emit e w = (ok tt, record w { events = w.events ++ (e ∷ []) })

  -- `AuditService.record`
  abbrev pub record_audit : Audit → Action (Unit {0})
  record_audit a w = (ok tt, record w { audit = w.audit ++ (a ∷ []) })
