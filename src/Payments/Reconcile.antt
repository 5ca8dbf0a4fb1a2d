-- ===== src/Payments/Reconcile.antt =====
-- `reconcileTimedOutPayments` of backend/src/payments/payments.service.ts.
use movie_reservation_system.Base.{ℕ, suc, ◌-◌, ◌*◌, List, [], ◌∷◌, if◌then◌else◌}
use movie_reservation_system.Stripe.{Session}
use movie_reservation_system.Schema.{Payment}
use movie_reservation_system.World.{
  Env, Action, confirmed, cancelled, pure, ◌>>=◌, ◌>>◌, gets, modify, emit, on_stripe, Metrics,
}
use movie_reservation_system.PaymentAbuse.{record_failure}
use movie_reservation_system.Payments.{is_stuck, confirm_with_reservation, decline_with_reservation}
use movie_reservation_system.Payments.Webhook.{count, count_succeeded}

abbrev pub reconcile_grace_minutes : ℕ
reconcile_grace_minutes = 10

abbrev pub count_declined : Metrics → Metrics
count_declined m = record m { declined = suc m.declined }

module _ ⦃env : Env⦄ where
  unfoldable pub settle_confirmed : Payment → Session → Action (Unit {0})
  settle_confirmed payment session = do
    r ← confirm_with_reservation payment.id payment.reservation_id session.payment_intent
    count count_succeeded
    emit (confirmed r.screening_id (r.seat_id ∷ []))

  unfoldable pub settle_declined : ℕ → Payment → Action (Unit {0})
  settle_declined now payment = do
    r ← decline_with_reservation payment.id payment.reservation_id
    count count_declined
    emit (cancelled r.screening_id (r.seat_id ∷ []))
    modify (record_failure r.user_id now)

  unfoldable pub settle_session : ℕ → Payment → Session → Action (Unit {0})
  unfolding settle_confirmed settle_declined
  settle_session now payment session =
      if session.paid then settle_confirmed payment session else settle_declined now payment

  unfoldable pub reconcile_one : ℕ → Payment → Action (Unit {0})
  unfolding settle_session
  reconcile_one now payment = do
    session ← on_stripe (env.stripe.retrieve_session payment.stripe_session_id)
    settle_session now payment session

  unfoldable pub reconcile_all : ℕ → List Payment → Action (Unit {0})
  unfolding reconcile_one
  reconcile_all now [] = pure tt
  reconcile_all now (p ∷ ps) = do reconcile_one now p; reconcile_all now ps

  -- The clock is past the first ten minutes of 1970, so the subtraction does not stop at 0.
  unfoldable pub reconcile_timed_out_payments : ℕ → Action (Unit {0})
  unfolding reconcile_all
  reconcile_timed_out_payments now = do
    stuck ←
        gets
          (λ w. env.payment.find_many (is_stuck (now - reconcile_grace_minutes * 60000)) w.payments)
    reconcile_all now stuck
