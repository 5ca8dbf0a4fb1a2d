-- ===== src/Payments/Webhook.antt =====
-- `handleWebhookEvent` of backend/src/payments/payments.service.ts.
use Prim.Native.String.{String}
use movie_reservation_system.Base.{ℕ, suc, true, Option, some, none, refl, if◌then◌else◌}
use movie_reservation_system.Stripe.{
  Session, EventObject, StripeEvent, checkout_completed, checkout_async_failed, checkout_expired,
  dispute_created, other_type,
}
use movie_reservation_system.Schema.{
  Payment, PaymentStatus, succeeded, in_progress, failed, timed_out,
}
use movie_reservation_system.World.{
  Env, Action, bad_request, payment_succeeded, payment_failed, payment_dispute, pure, ◌>>=◌, ◌>>◌,
  or_throw, gets, modify, record_audit, Metrics,
}
use movie_reservation_system.PaymentAbuse.{record_failure}
use movie_reservation_system.Reservations.Service.{confirm_payment, get_by_id}
use movie_reservation_system.Payments.{update_payment, payment_of, find_by_event, find_by_intent}

-- The `data` of the webhook's updates.
abbrev pub paid_by : String → Option String → Payment → Payment
paid_by event intent p = record p {
  status = succeeded;
  stripe_event_id = some event;
  stripe_payment_id = intent;
}

abbrev pub with_event : PaymentStatus → String → Payment → Payment
with_event s event p = record p { status = s; stripe_event_id = some event }

abbrev pub with_dispute : ℕ → String → String → Payment → Payment
with_dispute now reason event p = record p {
  disputed = some true;
  dispute_reason = some reason;
  disputed_at = some now;
  stripe_event_id = some event;
}

abbrev pub count_succeeded : Metrics → Metrics
count_succeeded m = record m { succeeded = suc m.succeeded }

abbrev pub count_failed : Metrics → Metrics
count_failed m = record m { failed = suc m.failed }

abbrev pub count_timed_out : Metrics → Metrics
count_timed_out m = record m { timed_out = suc m.timed_out }

module _ ⦃env : Env⦄ where
  abbrev pub count : (Metrics → Metrics) → Action (Unit {0})
  count f = modify (λ w. record w { metrics = f w.metrics })

  -- A paid session of a known payment: the reservation first, then the payment.
  unfoldable pub settle_paid : String → Session → Payment → Action (Unit {0})
  settle_paid event session payment = do
    confirm_payment payment.reservation_id
    update_payment session.payment_id (paid_by event session.payment_intent) (λ p. refl)
    count count_succeeded
    record_audit (payment_succeeded session.payment_id)

  unfoldable pub mark_in_progress : String → Session → Action (Unit {0})
  mark_in_progress event session = do
    update_payment session.payment_id (with_event in_progress event) (λ p. refl)
    pure tt

  unfoldable pub complete : String → Session → Option Payment → Action (Unit {0})
  unfolding settle_paid mark_in_progress
  complete event session none = pure tt
  complete event session (some payment) =
      if session.paid then settle_paid event session payment else mark_in_progress event session

  unfoldable pub handle_checkout_completed : String → Session → Action (Unit {0})
  unfolding complete
  handle_checkout_completed event session = do
    payment ← gets (λ w. payment_of w session.payment_id)
    complete event session payment

  unfoldable pub handle_async_payment_failed : ℕ → String → Session → Action (Unit {0})
  handle_async_payment_failed now event session = do
    payment ← update_payment session.payment_id (with_event failed event) (λ p. refl)
    reservation ← get_by_id payment.reservation_id
    modify (record_failure reservation.user_id now)
    count count_failed
    record_audit (payment_failed payment.id)

  unfoldable pub handle_checkout_expired : String → Session → Action (Unit {0})
  handle_checkout_expired event session = do
    update_payment session.payment_id (with_event timed_out event) (λ p. refl)
    count count_timed_out

  -- An unknown payment intent is only logged.
  unfoldable pub dispute : ℕ → String → String → Option Payment → Action (Unit {0})
  dispute now event reason none = pure tt
  dispute now event reason (some payment) = do
    update_payment payment.id (with_dispute now reason event) (λ p. refl)
    record_audit (payment_dispute payment.id)

  unfoldable pub handle_dispute_created : ℕ → String → String → String → Action (Unit {0})
  unfolding dispute
  handle_dispute_created now event intent reason = do
    payment ← gets (find_by_intent intent)
    dispute now event reason payment

  unfoldable pub dispatch : ℕ → String → EventObject → Action (Unit {0})
  unfolding handle_checkout_completed handle_async_payment_failed handle_checkout_expired
      handle_dispute_created
  dispatch now event (checkout_completed s) = handle_checkout_completed event s
  dispatch now event (checkout_async_failed s) = handle_async_payment_failed now event s
  dispatch now event (checkout_expired s) = handle_checkout_expired event s
  dispatch now event (dispute_created intent reason) =
      handle_dispute_created now event intent reason
  dispatch now event other_type = pure tt

  -- The event is handled unless a payment has recorded its id.
  unfoldable pub handle_once : ℕ → StripeEvent → Option Payment → Action (Unit {0})
  handle_once now event (some processed) = pure tt
  handle_once now event none = dispatch now event.id event.object

  -- `handleWebhookEvent`: the time, the raw body and the signature
  unfoldable pub handle_webhook_event : ℕ → String → String → Action (Unit {0})
  unfolding handle_once
  handle_webhook_event now body signature = do
    event ← or_throw (env.stripe.construct_event body signature) bad_request
    processed ← gets (find_by_event event.id)
    handle_once now event processed
