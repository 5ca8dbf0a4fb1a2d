-- ===== src/Payments/Settlement.antt =====
-- The reconciliation of one payment that timed out, in payments/payments.service.ts: the payment and its
-- reservation change together or not at all.
use movie_reservation_system.Base.{
  ℕ, Bool, true, false, some, [], ◌∷◌, ◌++◌, ◌≡◌, ◌≢◌, ◌⊎◌, inl, inr, refl, sym, subst, ◌∙◌, ap,
  arith, Bool-cases,
}
use movie_reservation_system.Table.{Result, Result-cases, ok, err}
use movie_reservation_system.Stripe.{Session}
use movie_reservation_system.Schema.{
  Reservation, ReservationStatus, Payment, PaymentStatus, succeeded, declined,
}
use movie_reservation_system.World.{Env, World, Failure, Event, prisma, stripe_error}
use movie_reservation_system.PaymentAbuse.{record_failure}
use movie_reservation_system.Reservations.{as_confirmed, with_status}
use movie_reservation_system.Payments.{
  payment_of, settled, with_payment_status, confirm_with_reservation, decline_with_reservation,
}
use movie_reservation_system.Payments.Webhook.{count_succeeded}
use movie_reservation_system.Payments.Reconcile.{
  count_declined, settle_confirmed, settle_declined, settle_session, reconcile_one,
}

-- What the session's state makes of the payment and of the reservation.
abbrev pub payment_status_of : Bool → PaymentStatus
payment_status_of true = succeeded
payment_status_of false = declined

abbrev pub reservation_status_of : Bool → ReservationStatus
reservation_status_of true = ReservationStatus.confirmed
reservation_status_of false = ReservationStatus.cancelled

abbrev pub event_of : Bool → Reservation → Event
event_of true r = Event.confirmed r.screening_id (r.seat_id ∷ [])
event_of false r = Event.cancelled r.screening_id (r.seat_id ∷ [])

module _ ⦃env : Env⦄ where
  pub record Settled (payment : Payment) (paid : Bool) (w w' : World) : Type 0 where
    pub stored_payment : Payment
    pub stored_reservation : Reservation
    pub payment_row : payment_of w' payment.id ≡ some stored_payment
    pub payment_status : stored_payment.status ≡ payment_status_of paid
    pub reservation_row :
        env.reservation.get w'.reservations payment.reservation_id ≡ some stored_reservation
    pub reservation_status : stored_reservation.status ≡ reservation_status_of paid
    pub other_payments : (j : ℕ) → payment.id ≢ j → payment_of w' j ≡ payment_of w j
    pub other_reservations :
        (j : ℕ)
        → payment.reservation_id ≢ j
        → env.reservation.get w'.reservations j ≡ env.reservation.get w.reservations j
    pub announced : w'.events ≡ w.events ++ (event_of paid stored_reservation ∷ [])

  -- The outcome of a settlement: all of it, or none of it.
  abbrev pub Together : Payment → Bool → World → Result Failure (Unit {0}) × World → Type 0
  Together payment paid w (ok _, w') = Settled payment paid w w'
  Together payment paid w (err e, w') =
      (w'.payments ≡ w.payments) × (w'.reservations ≡ w.reservations) × (w'.events ≡ w.events)

  record_failure-frame :
      (user_id now : ℕ) (w : World)
      → ((record_failure user_id now w).payments ≡ w.payments)
        × ((record_failure user_id now w).reservations ≡ w.reservations)
        × ((record_failure user_id now w).events ≡ w.events)
  unfolding record_failure
  record_failure-frame user_id now w = ground arith

  -- Both updates went through, and the run ends in `w'`.
  both :
      (payment : Payment) (paid : Bool) (f : Payment → Payment)
      (kf : (p : Payment) → (f p).id ≡ p.id) (g : Reservation → Reservation)
      (kg : (r : Reservation) → (g r).id ≡ r.id) (w w' : World) (p : Payment) (r : Reservation)
      (ps : env.payment.State) (rs : env.reservation.State)
      → ((x : Payment) → (f x).status ≡ payment_status_of paid)
      → ((x : Reservation) → (g x).status ≡ reservation_status_of paid)
      → env.payment.update payment.id f kf w.payments ≡ ok (p, ps)
      → env.reservation.update payment.reservation_id g kg w.reservations ≡ ok (r, rs)
      → w'.payments ≡ ps
      → w'.reservations ≡ rs
      → w'.events ≡ w.events ++ (event_of paid r ∷ [])
      → Settled payment paid w w'
  both payment paid f kf g kg w w' p r ps rs fs gs a b ep er ee =
      let (old, _, new, stored) = env.payment.update-ok payment.id f kf w.payments p ps a in
      let (was, _, is, table) =
        env.reservation.update-ok payment.reservation_id g kg w.reservations r rs b in
      record {
        stored_payment = p;
        stored_reservation = r;
        payment_row = ground (arith, ep, stored payment.id);
        payment_status = ap (λ x. x.status) new ∙ fs old;
        reservation_row = ground (arith, er, table payment.reservation_id);
        reservation_status = ap (λ x. x.status) is ∙ gs was;
        other_payments = λ j ne. ground (arith, ep, stored j, ne);
        other_reservations = λ j ne. ground (arith, er, table j, ne);
        announced = ee;
      }

  module _ (now : ℕ) (payment : Payment) (session : Session) (w : World) where
    ends :
        (b : Bool) (out : Result Failure (Unit {0}) × World)
        → session.paid ≡ b
        → settle_session now payment session w ≡ out
        → Together payment b w out
        → Together payment session.paid w (settle_session now payment session w)
    ends b out c e h =
        subst (λ x. Together payment x w (settle_session now payment session w)) (sym c)
          (subst (Together payment b w) (sym e) h)

    paid_case :
        session.paid ≡ true → Together payment session.paid w (settle_session now payment session w)
    unfolding settle_session settle_confirmed confirm_with_reservation
    paid_case c =
        elim (Result-cases
          (env.payment.update payment.id (settled session.payment_intent) (λ x. refl) w.payments)) [
            | inr (e, a) ↦ ends true (err (prisma e), w) c (ground (arith, c, a)) (refl, refl, refl)
            | inl ((p, ps), a) ↦
                elim (Result-cases (
                  env.reservation.update payment.reservation_id as_confirmed (λ x. refl)
                    w.reservations)) [
                      | inr (e, b) ↦
                          ends true (err (prisma e), w) c (ground (arith, c, a, b))
                            (refl, refl, refl)
                      | inl ((r, rs), b) ↦
                          let w' : World = record w {
                            payments = ps;
                            reservations = rs;
                            metrics = count_succeeded w.metrics;
                            events = w.events ++ (event_of true r ∷ []);
                          } in
                          ends true (ok tt, w') c (ground (arith, c, a, b))
                            (both payment true (settled session.payment_intent) (λ x. refl)
                              as_confirmed (λ x. refl) w w' p r ps rs (λ x. refl) (λ x. refl) a b
                              refl refl refl)
                    ]
          ]

    unpaid_case :
        session.paid ≡ false
        → Together payment session.paid w (settle_session now payment session w)
    unfolding settle_session settle_declined decline_with_reservation
    unpaid_case c =
        elim (Result-cases
          (env.payment.update payment.id (with_payment_status declined) (λ x. refl) w.payments)) [
            | inr (e, a) ↦
                ends false (err (prisma e), w) c (ground (arith, c, a)) (refl, refl, refl)
            | inl ((p, ps), a) ↦
                elim (Result-cases (
                  env.reservation.update payment.reservation_id
                    (with_status ReservationStatus.cancelled) (λ x. refl) w.reservations)) [
                      | inr (e, b) ↦
                          ends false (err (prisma e), w) c (ground (arith, c, a, b))
                            (refl, refl, refl)
                      | inl ((r, rs), b) ↦
                          let x : World = record w {
                            payments = ps;
                            reservations = rs;
                            metrics = count_declined w.metrics;
                            events = w.events ++ (event_of false r ∷ []);
                          } in
                          let frame = record_failure-frame r.user_id now x in
                          ends false (ok tt, record_failure r.user_id now x) c
                            (ground (arith, c, a, b))
                            (both payment false (with_payment_status declined) (λ x. refl)
                              (with_status ReservationStatus.cancelled) (λ x. refl) w
                              (record_failure r.user_id now x) p r ps rs (λ x. refl) (λ x. refl) a b
                              frame.0 frame.1 frame.2)
                    ]
          ]

    settle_session-Together : Together payment session.paid w (settle_session now payment session w)
    settle_session-Together = elim (Bool-cases session.paid) [
      | inl c ↦ paid_case c
      | inr c ↦ unpaid_case c
    ]

  -- The state of the Stripe account does not matter here.
  Together-stripe :
      (payment : Payment) (paid : Bool) (w : World) (s : env.stripe.State)
      (out : Result Failure (Unit {0}) × World)
      → Together payment paid (record w { stripe = s }) out
      → Together payment paid w out
  Together-stripe payment paid w s (err e, w') h = h
  Together-stripe payment paid w s (ok _, w') h = record {
    stored_payment = h.stored_payment;
    stored_reservation = h.stored_reservation;
    payment_row = h.payment_row;
    payment_status = h.payment_status;
    reservation_row = h.reservation_row;
    reservation_status = h.reservation_status;
    other_payments = h.other_payments;
    other_reservations = h.other_reservations;
    announced = h.announced;
  }

  abbrev pub Asked : Payment → World → Result Failure (Unit {0}) × World → Type 0
  Asked payment w out =
      ((session : Session) × ((env.stripe.retrieve_session payment.stripe_session_id w.stripe).0
          ≡ ok session)
        × Together payment session.paid w out)
      ⊎ ((out.0 ≡ err stripe_error)
          × (out.1.payments ≡ w.payments)
          × (out.1.reservations ≡ w.reservations)
          × (out.1.events ≡ w.events))

  -- The reconciliation of a payment asks Stripe for its session. A paid session makes the payment
  -- SUCCEEDED and the reservation CONFIRMED, any other makes them DECLINED and CANCELLED, with the one
  -- event that says so; no other payment or reservation changes. When anything fails, neither has
  -- changed and nothing is announced.
  pub reconcile_one-Asked :
      (now : ℕ) (payment : Payment) (w : World) → Asked payment w (reconcile_one now payment w)
  unfolding reconcile_one
  reconcile_one-Asked now payment w =
      let called = env.stripe.retrieve_session payment.stripe_session_id w.stripe in
      elim (Result-cases called.0) [
        | inr (e, a) ↦
            inr (ground (arith, a), ground (arith, a), ground (arith, a), ground (arith, a))
        | inl (session, a) ↦
            let x : World = record w { stripe = called.1 } in
            let out : reconcile_one now payment w ≡ settle_session now payment session x =
              ground (arith, a) in
            inl (
              session,
              a,
              subst (Together payment session.paid w) (sym out) (
                  Together-stripe payment session.paid w called.1
                    (settle_session now payment session x)
                    (settle_session-Together now payment session x)),
            )
      ]
