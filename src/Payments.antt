-- ===== src/Payments.antt =====
-- Payments: backend/src/payments/payments.repository.ts and the checkout of
-- backend/src/payments/payments.service.ts. The webhook, the refund and the reconciliation are in the
-- children, and so are the proofs.
pub mod Webhook
pub mod Refund
pub mod Reconcile
pub mod Doubles
pub mod Amounts
pub mod Events
pub mod Checkout
pub mod RefundOnce
pub mod Settlement
use Prim.Native.String.{String}
use text.Mathlib.Text.{◌==◌ as str_eq}
use movie_reservation_system.Base.{
  ℕ, ◌+◌, ◌*◌, ◌/◌, Bool, true, false, not, ◌&&◌, Option, some, none, List, ◌≡◌, refl, ◌==◌, leb,
  ltb, if◌then◌else◌,
}
use movie_reservation_system.Table.{Result, ok, err, unique_violation}
use movie_reservation_system.Stripe.{Session}
use movie_reservation_system.Schema.{
  Reservation, ReservationStatus, Payment, PaymentStatus, RefundPolicy, confirmed, cancelled,
  succeeded, declined, pending, is_held, is_timed_out,
}
use movie_reservation_system.World.{
  transaction, Env, World, Action, Failure, conflict, prisma, pure, throw, ◌>>=◌, ◌>>◌, throw_if,
  or_throw, catch, gets, on_reservations, on_payments, on_stripe,
}
use movie_reservation_system.PaymentAbuse.{is_some}
use movie_reservation_system.Reservations.{extend_hold, as_confirmed, with_status}
use movie_reservation_system.Reservations.Service.{find_owned}

abbrev pub checkout_expiry_minutes : ℕ
checkout_expiry_minutes = 30

abbrev pub currency_code : String
currency_code = "usd"

-- `create`, as the checkout calls it; `createdAt` defaults to the time of the insertion.
abbrev pub new_payment : ℕ → ℕ → ℕ → ℕ → Payment
new_payment now reservation_id amount id = record {
  id = id;
  reservation_id = reservation_id;
  amount = amount;
  currency = currency_code;
  status = pending;
  stripe_payment_id = none;
  stripe_session_id = "";
  stripe_event_id = none;
  refund_id = none;
  refunded_at = none;
  disputed = none;
  dispute_reason = none;
  disputed_at = none;
  created_at = now;
}

-- The conditions of the finders.
abbrev pub is_for : ℕ → Payment → Bool
is_for reservation_id p = p.reservation_id == reservation_id

abbrev pub is_text : String → Option String → Bool
is_text s none = false
is_text s (some t) = str_eq t s

abbrev pub has_event : String → Payment → Bool
has_event id p = is_text id p.stripe_event_id

abbrev pub has_intent : String → Payment → Bool
has_intent id p = is_text id p.stripe_payment_id

abbrev pub is_stuck : ℕ → Payment → Bool
is_stuck older_than p = is_timed_out p.status && ltb p.created_at older_than

-- `hoursFrom <= h && hoursTo > h` at `h = (start - now) / 3600000`, which may be negative, with no
-- subtraction.
abbrev pub covers : ℕ → ℕ → RefundPolicy → Bool
covers start now p =
    leb (p.hours_from * 3600000 + now) start && ltb start (p.hours_to * 3600000 + now)

-- The `data` of the updates.
abbrev pub with_session : String → Payment → Payment
with_session id p = record p { stripe_session_id = id }

abbrev pub with_payment_status : PaymentStatus → Payment → Payment
with_payment_status s p = record p { status = s }

abbrev pub settled : Option String → Payment → Payment
settled intent p = record p { status = succeeded; stripe_payment_id = intent }

module _ ⦃env : Env⦄ where
  abbrev pub payment_of : World → ℕ → Option Payment
  payment_of w = env.payment.get w.payments

  abbrev pub find_by_reservation : ℕ → World → Option Payment
  find_by_reservation id w = env.payment.find_first (is_for id) w.payments

  abbrev pub find_by_event : String → World → Option Payment
  find_by_event id w = env.payment.find_first (has_event id) w.payments

  abbrev pub find_by_intent : String → World → Option Payment
  find_by_intent id w = env.payment.find_first (has_intent id) w.payments

  abbrev pub find_policy : ℕ → ℕ → World → Option RefundPolicy
  find_policy start now w = env.policy.find_first (covers start now) w.policies

  abbrev pub update_payment :
      ℕ → (f : Payment → Payment) → ((p : Payment) → (f p).id ≡ p.id) → Action Payment
  update_payment id f keeps = on_payments (env.payment.update id f keeps)

  -- `declineWithReservation`
  unfoldable pub decline_with_reservation : ℕ → ℕ → Action Reservation
  decline_with_reservation payment_id reservation_id = transaction do
    update_payment payment_id (with_payment_status declined) (λ p. refl)
    on_reservations (
        env.reservation.update reservation_id (with_status ReservationStatus.cancelled) (λ r. refl))

  -- `confirmWithReservation`
  unfoldable pub confirm_with_reservation : ℕ → ℕ → Option String → Action Reservation
  confirm_with_reservation payment_id reservation_id intent = transaction do
    update_payment payment_id (settled intent) (λ p. refl)
    on_reservations (env.reservation.update reservation_id as_confirmed (λ r. refl))

  -- The insertion of the checkout: a second payment of the reservation is a 409.
  unfoldable pub create_payment : ℕ → ℕ → ℕ → Action Payment
  create_payment now reservation_id amount =
      catch (on_payments (env.payment.create (new_payment now reservation_id amount) (λ k. refl)))
        (λ e. throw (elim e [
          | prisma d ↦ elim d [ unique_violation ↦ conflict | other ↦ prisma other ]
          | other ↦ other
        ]))

  -- The part of the checkout that is undone if it fails.
  unfoldable pub open_session : ℕ → ℕ → ℕ → Payment → Action String
  open_session expires_at reservation_id amount payment = do
    session ← on_stripe (env.stripe.create_session amount payment.id expires_at)
    update_payment payment.id (with_session session.id) (λ p. refl)
    extend_hold reservation_id (expires_at * 1000)
    pure session.url

  unfoldable pub delete_payment : ℕ → Action Payment
  delete_payment id = on_payments (env.payment.delete id)

  -- `createCheckoutSession`: the time, the user and the reservation.
  unfoldable pub create_checkout_session : ℕ → ℕ → ℕ → Action String
  create_checkout_session now user_id reservation_id = do
    reservation ← find_owned user_id reservation_id
    throw_if (not (is_held reservation.status)) conflict
    existing ← gets (find_by_reservation reservation_id)
    throw_if (is_some existing) conflict
    found ← gets (λ w. env.screening.get w.screenings reservation.screening_id)
    screening ← or_throw found conflict
    let amount = screening.price * 100
    payment ← create_payment now reservation_id amount
    catch (open_session (now / 1000 + checkout_expiry_minutes * 60) reservation_id amount payment)
        (λ e. delete_payment payment.id >> throw e)

  -- `getStatus`
  unfoldable pub get_status : ℕ → ℕ → Action (ReservationStatus × Option PaymentStatus)
  get_status user_id reservation_id = do
    reservation ← find_owned user_id reservation_id
    payment ← gets (find_by_reservation reservation_id)
    pure (reservation.status, elim payment [ none ↦ none | some p ↦ some p.status ])
