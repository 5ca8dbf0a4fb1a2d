-- ===== src/Tests/Payments.antt =====
-- Examples of the checkout, the webhook and the refund.
use Prim.Native.String.{String}
use movie_reservation_system.Base.{◌⊎◌, ℕ, ◌≡◌, refl, none, some, ◌≤◌, false, true, arith}
use movie_reservation_system.Table.{ok, err, Result, put, unavailable}
use movie_reservation_system.Stripe.{StripeEvent, checkout_completed}
use movie_reservation_system.Stripe.Memory.{session}
use movie_reservation_system.Schema.{Reservation, Payment, confirmed, succeeded}
use movie_reservation_system.World.{World, Failure, stripe_error, prisma}
use movie_reservation_system.World.Memory.{demo, in_memory}
use movie_reservation_system.Reservations.{confirm, extend_hold}
use movie_reservation_system.Reservations.Service.{confirm_payment, find_owned}
use movie_reservation_system.Payments.{
  create_payment, open_session, create_checkout_session, delete_payment,
}
use movie_reservation_system.Payments.Webhook.{
  settle_paid, complete, dispatch, handle_once, handle_webhook_event,
}
use movie_reservation_system.Payments.Refund.{refund_amount, cancel}
use movie_reservation_system.Payments.Doubles.{math_round, to_double}
use movie_reservation_system.Payments.Amounts.{refund_amount-le}
use movie_reservation_system.Payments.Events.{PaidEvent, PaidEvent-settles, PaidEvent-failed}
use movie_reservation_system.Payments.Checkout.{Undone, create_checkout_session-Undone}
use movie_reservation_system.Payments.Reconcile.{reconcile_one}
use movie_reservation_system.Payments.Settlement.{Asked, reconcile_one-Asked}
use movie_reservation_system.Payments.RefundOnce.{Due, cancel-Due}
use movie_reservation_system.Tests.Worlds.{cinema, paying, payment_1, hold_1}

-- A refund of 33.3 percent of 12.50.
refund_amount-le_example : refund_amount 1250 (333, 10) ≤ 1250
refund_amount-le_example = refund_amount-le 1250 333 10 (omega arith) (omega arith) (omega arith)

refund_third : refund_amount 1250 (333, 10) ≡ 416
unfolding refund_amount math_round to_double
refund_third = refl

-- The double 33.3 lies below 333 / 10, and the product rounds up to 16650.
refund_rounded : refund_amount 500 (to_double (333, 10)) ≡ 167
unfolding refund_amount math_round to_double
refund_rounded = refl

-- Stripe reports that the session of payment 1 is paid.
abbrev event_1 : StripeEvent
event_1 = record { id = "evt_1"; object = checkout_completed (session 1) }

abbrev delivered : Result Failure (Unit {0}) × World ⦃env = demo⦄
delivered = handle_webhook_event ⦃env = demo⦄ 100 "evt_1" "sig" paying

delivered_ok : delivered ≡ (ok tt, delivered.1)
unfolding handle_webhook_event handle_once dispatch complete settle_paid confirm_payment confirm
    in_memory
delivered_ok = refl

paid_event : PaidEvent ⦃env = demo⦄ "evt_1" "sig" event_1 (session 1) payment_1 paying
unfolding in_memory
paid_event = record { signed = refl; unseen = refl; kind = refl; is_paid = refl; known = refl }

PaidEvent-settles_example :
    ((r : Reservation) × (demo.reservation.get delivered.1.reservations 1 ≡ some r)
      × (r.status ≡ confirmed)
      × (r.held_until ≡ none))
    × ((q : Payment) × (demo.payment.get delivered.1.payments 1 ≡ some q)
        × (q.status ≡ succeeded)
        × (q.stripe_event_id ≡ some "evt_1")
        × (q.stripe_payment_id ≡ some "pi_1"))
    × ((later : ℕ)
        → handle_webhook_event ⦃env = demo⦄ later "evt_1" "sig" delivered.1 ≡ (ok tt, delivered.1))
PaidEvent-settles_example =
    PaidEvent-settles ⦃env = demo⦄ 100 "evt_1" "sig" event_1 (session 1) payment_1 paying
      delivered.1 paid_event delivered_ok

-- The same while the table of reservations does not answer.
abbrev down : World ⦃env = demo⦄
down = record paying { reservations = record paying.reservations { answers = false } }

abbrev lost : Result Failure (Unit {0}) × World ⦃env = demo⦄
lost = handle_webhook_event ⦃env = demo⦄ 100 "evt_1" "sig" down

lost_error : lost ≡ (err (prisma unavailable), down)
unfolding handle_webhook_event handle_once dispatch complete settle_paid confirm_payment confirm
    in_memory
lost_error = refl

PaidEvent-down : PaidEvent ⦃env = demo⦄ "evt_1" "sig" event_1 (session 1) payment_1 down
unfolding in_memory
PaidEvent-down = record { signed = refl; unseen = refl; kind = refl; is_paid = refl; known = refl }

PaidEvent-failed_example :
    (down.payments ≡ down.payments)
    × ((later : ℕ)
        → handle_webhook_event ⦃env = demo⦄ later "evt_1" "sig" down
          ≡ settle_paid ⦃env = demo⦄ "evt_1" (session 1) payment_1 down)
PaidEvent-failed_example =
    PaidEvent-failed ⦃env = demo⦄ 100 "evt_1" "sig" event_1 (session 1) payment_1
      (prisma unavailable) down down PaidEvent-down lost_error

-- A checkout while Stripe does not answer.
abbrev no_stripe : World ⦃env = demo⦄
no_stripe = record cinema { stripe = record cinema.stripe { answers = false } }

abbrev unopened : Result Failure String × World ⦃env = demo⦄
unopened = create_checkout_session ⦃env = demo⦄ 100 5 1 no_stripe

unopened_error : unopened ≡ (err stripe_error, unopened.1)
unfolding create_checkout_session create_payment open_session delete_payment find_owned extend_hold
    in_memory
unopened_error = refl

create_checkout_session-Undone_example : Undone ⦃env = demo⦄ no_stripe stripe_error unopened.1
create_checkout_session-Undone_example =
    create_checkout_session-Undone ⦃env = demo⦄ 100 5 1 no_stripe stripe_error unopened.1
      unopened_error

-- A confirmed reservation for whose payment Stripe has already paid back half, as the policy says, and
-- the tables do not know it: the cancellation asks Stripe again.
abbrev half_refunded : World ⦃env = demo⦄
half_refunded = record paying {
  reservations = record {
    bound = 2;
    at = put 1 (some (record hold_1 { status = confirmed; held_until = none })) (λ k. none);
    answers = true;
  };
  payments = record {
    bound = 2;
    at =
        put 1 (some (record payment_1 { status = succeeded; stripe_payment_id = some "pi_1" }))
          (λ k. none);
    answers = true;
  };
  stripe = record { answers = true; paid_back = put 1 (some 600) (λ k. none); forgotten = false };
  policies = record {
    bound = 2;
    at =
        put 1
          (some
            (record { id = 1; hours_from = 0; hours_to = 24; percent_num = 50; percent_den = 1 }))
          (λ k. none);
    answers = true;
  };
}

cancel-Due_example :
    (demo.stripe.refunded (cancel ⦃env = demo⦄ 100 5 1 half_refunded).1.stripe 1
      ≡ demo.stripe.refunded half_refunded.stripe 1)
    ⊎ ((amount : ℕ) × Due ⦃env = demo⦄ 100 5 1 1 amount half_refunded
        × (demo.stripe.refunded (cancel ⦃env = demo⦄ 100 5 1 half_refunded).1.stripe 1
            ≡ some amount))
cancel-Due_example = cancel-Due ⦃env = demo⦄ 100 5 1 1 half_refunded (λ b h. refl)

reconcile_one-Asked_example :
    Asked ⦃env = demo⦄ payment_1 paying (reconcile_one ⦃env = demo⦄ 100 payment_1 paying)
reconcile_one-Asked_example = reconcile_one-Asked ⦃env = demo⦄ 100 payment_1 paying
