-- ===== src/World/Writes.antt =====
-- What a single write to a table does to a property of that table's state.
use movie_reservation_system.Base.{◌≡◌, refl, arith}
use movie_reservation_system.Table.{DbError, Result, ok, err}
use movie_reservation_system.World.{Env, World, prisma, on_reservations, on_payments}

module _ ⦃env : Env⦄ where
  pub on_reservations_ok :
      {A : Type 0} (f : env.reservation.State → Result DbError (A × env.reservation.State))
      (w : World) (a : A) (s : env.reservation.State)
      → f w.reservations ≡ ok (a, s)
      → on_reservations f w ≡ (ok a, record w { reservations = s })
  on_reservations_ok f w a s h = ground arith

  pub on_reservations_err :
      {A : Type 0} (f : env.reservation.State → Result DbError (A × env.reservation.State))
      (w : World) (e : DbError)
      → f w.reservations ≡ err e
      → on_reservations f w ≡ (err (prisma e), w)
  on_reservations_err f w e h = ground arith

  -- A property that holds before, and after every successful write, holds after the call.
  pub on_reservations_cases :
      {A : Type 0} (P : env.reservation.State → Type 0)
      (f : env.reservation.State → Result DbError (A × env.reservation.State)) (w : World)
      → P w.reservations
      → ((a : A) (s : env.reservation.State) → f w.reservations ≡ ok (a, s) → P s)
      → P (on_reservations f w).1.reservations
  on_reservations_cases {A} P f w before after = go (f w.reservations) refl
    where
      go :
          (x : Result DbError (A × env.reservation.State))
          → f w.reservations ≡ x
          → P (on_reservations f w).1.reservations
      go (ok (a, s)) h = rw (on_reservations_ok f w a s h) (after a s h)
      go (err e) h = rw (on_reservations_err f w e h) before

  pub on_payments_ok :
      {A : Type 0} (f : env.payment.State → Result DbError (A × env.payment.State)) (w : World)
      (a : A) (s : env.payment.State)
      → f w.payments ≡ ok (a, s)
      → on_payments f w ≡ (ok a, record w { payments = s })
  on_payments_ok f w a s h = ground arith

  pub on_payments_err :
      {A : Type 0} (f : env.payment.State → Result DbError (A × env.payment.State)) (w : World)
      (e : DbError)
      → f w.payments ≡ err e
      → on_payments f w ≡ (err (prisma e), w)
  on_payments_err f w e h = ground arith
