-- ===== src/Payments/Refund.antt =====
-- `refundReservation` of backend/src/payments/payments.service.ts, and `cancel` of
-- backend/src/reservations/reservations.service.ts, which calls it.
use Prim.Native.String.{String}
use text.Mathlib.Text.{◌==◌ as str_eq}
use movie_reservation_system.Base.{
  ℕ, suc, ◌*◌, not, ◌&&◌, Option, some, none, refl, ltb, if◌then◌else◌,
}
use movie_reservation_system.Schema.{
  Reservation, Payment, RefundPolicy, refunded, is_refunded, is_held, is_confirmed,
}
use movie_reservation_system.World.{
  Env, Action, not_found, conflict, payment_refunded, pure, ◌>>=◌, ◌>>◌, throw_if, or_throw, gets,
  modify, record_audit, on_stripe,
}
use movie_reservation_system.Reservations.Service.{finalize_cancel, find_owned}
use movie_reservation_system.Payments.Doubles.{to_double, math_round}
use movie_reservation_system.Payments.{update_payment, find_by_reservation, find_policy}

-- `refundPercent`, 0 with no policy: its numerator and denominator.
abbrev pub percent : Option RefundPolicy → ℕ × ℕ
percent none = (0, 1)
percent (some p) = (p.percent_num, p.percent_den)

-- `Math.round((amount * refundPercent) / 100)`: the product and the quotient are doubles.
unfoldable pub refund_amount : ℕ → ℕ × ℕ → ℕ
refund_amount amount (num, den) =
    let (n, d) = to_double (amount * num, den) in math_round (to_double (n, d * 100))

-- `refundId: undefined` leaves the column alone.
abbrev pub or_keep : Option String → Option String → Option String
or_keep none old = old
or_keep (some id) old = some id

abbrev pub as_refunded : ℕ → Option String → Payment → Payment
as_refunded now id p = record p {
  status = refunded;
  refund_id = or_keep id p.refund_id;
  refunded_at = some now;
}

module _ ⦃env : Env⦄ where
  unfoldable pub call_stripe : Payment → ℕ × ℕ → String → Action (Option String)
  call_stripe payment rate intent = do
    id ← on_stripe (env.stripe.create_refund intent (refund_amount payment.amount rate) payment.id)
    pure (some id)

  -- `refundPercent > 0 && payment.stripePaymentId`; an empty text counts as none. The idempotency key
  -- `refund-<id>` is the payment's id.
  unfoldable pub pay_back : Payment → ℕ × ℕ → Option String → Action (Option String)
  unfolding call_stripe
  pay_back payment rate none = pure none
  pay_back payment rate (some intent) =
      if ltb 0 rate.0 && not (str_eq intent "") then call_stripe payment rate intent else pure none

  -- What follows the call of Stripe.
  unfoldable pub record_refund : ℕ → Reservation → Payment → Option String → Action Reservation
  record_refund now reservation payment refund_id = do
    update_payment payment.id (as_refunded now refund_id) (λ p. refl)
    modify (λ w. record w { metrics = record (w.metrics) { refunded = suc w.metrics.refunded } })
    record_audit (payment_refunded payment.id)
    finalize_cancel reservation

  -- A payment that is not refunded yet.
  unfoldable pub refund_now : ℕ → Reservation → Payment → Action Reservation
  unfolding pay_back record_refund
  refund_now now reservation payment = do
    found ← gets (λ w. env.screening.get w.screenings reservation.screening_id)
    screening ← or_throw found conflict
    policy ← gets (find_policy screening.start_time now)
    refund_id ← pay_back payment (percent policy) payment.stripe_payment_id
    record_refund now reservation payment refund_id

  -- `refundReservation`. The final `catch` only logs and throws again.
  unfoldable pub refund_reservation : ℕ → Reservation → Action Reservation
  unfolding refund_now
  refund_reservation now reservation = do
    found ← gets (find_by_reservation reservation.id)
    payment ← or_throw found not_found
    if is_refunded payment.status
        then finalize_cancel reservation
        else refund_now now reservation payment

  unfoldable pub cancel_held : Reservation → Action Reservation
  cancel_held reservation = do
    throw_if (not (is_held reservation.status)) conflict
    finalize_cancel reservation

  -- `ReservationsService.cancel`
  unfoldable pub cancel : ℕ → ℕ → ℕ → Action Reservation
  unfolding refund_reservation cancel_held
  cancel now user_id id = do
    reservation ← find_owned user_id id
    if is_confirmed reservation.status
        then refund_reservation now reservation
        else cancel_held reservation
