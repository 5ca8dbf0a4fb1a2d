-- ===== src/Lib.antt =====
-- A verification library of the movie reservation system: the backend under backend/src, a NestJS
-- server on Postgres (Prisma), Redis and Stripe.
--
-- The parts and how they interact. A user reserves a seat of a screening: the service checks the payment
-- lock-out and the screening, takes a slot of the concurrency guard, and holds the seat through a circuit
-- breaker in one transaction. The user then opens a checkout, which stores a payment and asks Stripe for a
-- session. Stripe's webhook confirms the reservation and the payment, or marks the payment. A job sweeps
-- expired holds and reconciles payments that timed out. A confirmed reservation can be cancelled, which
-- pays back the share that the refund policy grants. A user registers with an address that a mailed code
-- confirms, or signs in with Google, and holds an access token and a refresh token; the refresh tokens are
-- sessions in Redis, which a logout or a new password ends.
--
-- Which file models which part:
--   Schema.antt          backend/prisma/schema.prisma and the migration of the unique index
--   Table.antt           a Prisma delegate: findUnique, findFirst, findMany, create, update, updateMany,
--                        delete and SELECT ... FOR UPDATE, on an abstract state
--   Redis.antt           the commands of Redis that the services send
--   Stripe.antt          the calls of Stripe's API
--   World.antt           the state of the server: the tables, Redis, Stripe, the breaker, the guard's
--                        count, the events sent, the metrics and the audit log; exceptions; actions
--   Reservations.antt    backend/src/reservations/reservations.repository.ts (holdSeat, extendHold,
--                        confirm, setStatus, releaseExpiredHolds), reservation-breaker.service.ts, and
--                        backend/src/common/guards/concurrency.guard.ts (acquire)
--   Reservations/Service.antt
--                        backend/src/reservations/reservations.service.ts (reserve, expireHolds,
--                        finalizeCancel, findOwned, getById, confirmPayment, listMine)
--   PaymentAbuse.antt    backend/src/redis/payment-abuse.service.ts (recordFailure, isLockedOut)
--   Payments.antt        backend/src/payments/payments.repository.ts, and createCheckoutSession and
--                        getStatus of backend/src/payments/payments.service.ts
--   Payments/Webhook.antt     handleWebhookEvent and its handlers
--   Payments/Refund.antt      refundReservation, and cancel of the reservations service
--   Payments/Reconcile.antt   reconcileTimedOutPayments
--   Screenings.antt      backend/src/screenings/screenings.repository.ts and the writes of
--                        backend/src/screenings/screenings.service.ts
--   Screenings/SeatMap.antt   getSeatMap, getScreeningSummary and getScreeningDetail, with
--                        backend/src/screenings/screenings.cache.ts
--   Halls.antt           backend/src/screenings/halls.repository.ts and halls.service.ts
--   RateLimiter.antt     the Lua script of backend/src/redis/rate-limiter.service.ts
--   Movies.antt          backend/src/movies/movies.repository.ts, movies.service.ts and movies.cache.ts
--   Screenings/Selection.antt getMovieScreenings
--   Listeners.antt       backend/src/reservations/listeners/reservation-cache.listener.ts and
--                        backend/src/cron/hold-expiry.cron.ts
--   RateLimiter/Guard.antt    backend/src/common/guards/rate-limit.guard.ts
--   Redis/Sessions.antt  the keys of authentication in Redis
--   Secrets.antt         argon2, bcrypt, JWT and the mail service, and the payloads of
--                        backend/src/auth/token.service.ts
--   Otp.antt             backend/src/auth/otp.service.ts (issue, verify)
--   Tokens.antt          backend/src/auth/token.service.ts, and the validate of
--                        backend/src/auth/strategies/jwt.strategy.ts and jwt-refresh.strategy.ts
--   Accounts.antt        backend/src/auth/auth.repository.ts and auth.service.ts, and sendOtpEmail of
--                        backend/src/mailer/mailer.service.ts
--   Accounts/Handlers.antt    backend/src/auth/auth.controller.ts, util/google.profile.util.ts,
--                        guards/google-link-auth.guard.ts and backend/src/common/guards/roles.guard.ts
--   Users.antt           backend/src/users/users.service.ts and users.repository.ts
--   Reservations/Interleaving.antt
--                        holdSeat of backend/src/reservations/reservations.repository.ts as steps
--   Gateway.antt         backend/src/gateway/screening.gateway.ts
--   Gateway/Broadcast.antt    backend/src/gateway/reservation-broadcast.listener.ts and
--                        backend/src/reservations/listeners/reservation-metrics.listener.ts
--   Deletions.antt       deleteHall of backend/src/screenings/halls.service.ts and deleteMovie of
--                        backend/src/movies/movies.service.ts
--   RateLimiter/Addresses.antt
--                        backend/src/common/middleware/ip-rate-limit.middleware.ts
--   Settings.antt        the helpers of backend/src/auth/auth-env.config.ts
--   World/Data.antt      the exceptions, the cached values, the events, the counters and the audit lines
--   Payments/Doubles.antt     the arithmetic of the numbers in refundReservation
--
-- The other files below these are proofs, named for what they prove. Table/Memory, Redis/Memory,
-- Redis/Sessions/Memory, Stripe/Memory, Secrets/Memory and World/Memory are in memory: they show that the
-- assumptions on the third-party code can be met, and the examples in Tests run on them.
--
-- How the code is read. An async method is an action: it takes the world and returns its result or its
-- exception, with the world it leaves. Third-party code is a record of operations and laws (Table, Redis,
-- Sessions, Stripe, Secrets, Mailer, Breaker), together in Env, an instance argument of every definition
-- that uses it. A handler runs without another in between; Reservations/Interleaving runs the
-- transactions of holdSeat statement by statement, in any order, and Tokens/Steps takes the deletion of
-- a revocation as a step apart from its reading. What the code draws at random (codes,
-- salts, session ids) is an argument. Times are milliseconds in the native natural numbers, and the time
-- of a request is its first argument: the clock stands still within one. Prices are whole, as the column
-- is an integer. A refund rate is a fraction, as a double is a quotient of integers, and the refund is
-- computed in doubles, with their rounding; an overflow of the doubles is not treated.
--
-- The loop of rowLabel runs on fuel one above the row's index, which is more than its steps, and so does
-- that of the digits of a number. A double is scaled at most 1074 times up, to the smallest exponent, or
-- 971 times down, from the largest. Every other loop runs over a list or a count, and is structural recursion.
--
-- What is not modelled: reads that fail (writes do), a failure of COMMIT after the last statement,
-- createdAt and updatedAt but those of payments and movies, log lines, response headers and the
-- attributes of cookies, a failure of Redis but at the deletions of the caches (where reading or writing
-- a cache fails, the code goes on as after a miss), the regular
-- expression that finds a cookie, the registration of metrics and the timing of requests, and controllers
-- that only pass their arguments on.
pub mod Accounts
pub mod Base
pub mod Deletions
pub mod Gateway
pub mod Halls
pub mod Listeners
pub mod Movies
pub mod Otp
pub mod PaymentAbuse
pub mod Payments
pub mod RateLimiter
pub mod Redis
pub mod Reservations
pub mod Schema
pub mod Screenings
pub mod Secrets
pub mod Settings
pub mod Stripe
pub mod Table
pub mod Tests
pub mod Tokens
pub mod Users
pub mod World
