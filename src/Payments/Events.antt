-- ===== src/Payments/Events.antt =====
-- The webhook of payments/payments.service.ts: what a paid session does, that a failure can be
-- retried, and that an event is handled once.
use Prim.Native.String.{String}
use text.Mathlib.TextPositions.{eq_refl}
use movie_reservation_system.Base.{
  ℕ, true, some, none, ◌≡◌, inl, inr, refl, ap, ◌∙◌, sym, arith, Option-cases,
}
use movie_reservation_system.Table.{DbError, Result, Result-cases, ok, err}
use movie_reservation_system.Stripe.{Session, StripeEvent, checkout_completed}
use movie_reservation_system.Schema.{Reservation, Payment, confirmed, succeeded}
use movie_reservation_system.World.{Env, World, Failure, prisma}
use movie_reservation_system.Reservations.{as_confirmed, confirm}
use movie_reservation_system.Reservations.Service.{confirm_payment}
use movie_reservation_system.Payments.{payment_of, find_by_event, has_event}
use movie_reservation_system.Payments.Webhook.{
  paid_by, settle_paid, complete, dispatch, handle_webhook_event,
}

module _ ⦃env : Env⦄ where
  abbrev pub Known : StripeEvent → World → Type 0
  Known event w =
      (k : ℕ) × (p : Payment) × (payment_of w k ≡ some p) × (p.stripe_event_id ≡ some event.id)

  Known-found :
      (event : StripeEvent) (w : World)
      → Known event w
      → (p : Payment) × (find_by_event event.id w ≡ some p)
  Known-found event w (k, p, found, same) = elim (Option-cases (find_by_event event.id w)) [
    | inr (q, e) ↦ (q, e)
    | inl e ↦
        let missed = env.payment.find_first-none (has_event event.id) w.payments k p e found in
        absurd (ground (arith, missed, same, eq_refl event.id))
  ]

  -- An event whose id a payment has recorded is acknowledged, and nothing else happens.
  pub handle_webhook_event_again :
      (now : ℕ) (body signature : String) (event : StripeEvent) (w : World)
      → env.stripe.construct_event body signature ≡ some event
      → Known event w
      → handle_webhook_event now body signature w ≡ (ok tt, w)
  unfolding handle_webhook_event
  handle_webhook_event_again now body signature event w signed known =
      let (p, found) = Known-found event w known in ground (arith, signed, found)

  -- The ways through `settle_paid`.
  data Settling (event : String) (s : Session) (p : Payment) (w : World)
      : Result Failure (Unit {0}) × World → Type 0 where
    not_confirmed :
        (e : DbError) {out : Result Failure (Unit {0}) × World}
        → env.reservation.update p.reservation_id as_confirmed (λ r. refl) w.reservations ≡ err e
        → out ≡ (err (prisma e), w)
        → Settling event s p w out
    not_recorded :
        (e : DbError) {out : Result Failure (Unit {0}) × World}
        → out.1.payments ≡ w.payments
        → out.0 ≡ err (prisma e)
        → Settling event s p w out
    recorded :
        (r : Reservation) (q : Payment) (rs : env.reservation.State) (ps : env.payment.State)
        {out : Result Failure (Unit {0}) × World}
        → env.reservation.update p.reservation_id as_confirmed (λ x. refl) w.reservations
          ≡ ok (r, rs)
        → env.payment.update s.payment_id (paid_by event s.payment_intent) (λ x. refl) w.payments
          ≡ ok (q, ps)
        → out.0 ≡ ok tt
        → out.1.payments ≡ ps
        → out.1.reservations ≡ rs
        → Settling event s p w out

  settle_paid-Settling :
      (event : String) (s : Session) (p : Payment) (w : World)
      → Settling event s p w (settle_paid event s p w)
  unfolding settle_paid confirm_payment confirm
  settle_paid-Settling event s p w =
      elim (Result-cases
        (env.reservation.update p.reservation_id as_confirmed (λ r. refl) w.reservations)) [
          | inr (e, a) ↦ not_confirmed e a (ground (arith, a))
          | inl ((r, rs), a) ↦
              elim (Result-cases (
                env.payment.update s.payment_id (paid_by event s.payment_intent) (λ x. refl)
                  w.payments)) [
                    | inr (e, b) ↦ not_recorded e (ground (arith, a, b)) (ground (arith, a, b))
                    | inl ((q, ps), b) ↦
                        recorded r q rs ps a b (ground (arith, a, b)) (ground (arith, a, b))
                          (ground (arith, a, b))
                  ]
        ]

  -- A signed event that reports a paid session of a known payment, and that no payment has recorded.
  pub record PaidEvent (body signature : String) (event : StripeEvent) (s : Session) (p : Payment)
      (w : World) : Type 0 where
    pub signed : env.stripe.construct_event body signature ≡ some event
    pub unseen : find_by_event event.id w ≡ none
    pub kind : event.object ≡ checkout_completed s
    pub is_paid : s.paid ≡ true
    pub known : payment_of w s.payment_id ≡ some p

  handle_settles :
      (now : ℕ) (body signature : String) (event : StripeEvent) (s : Session) (p : Payment)
      (w : World)
      → PaidEvent body signature event s p w
      → handle_webhook_event now body signature w ≡ settle_paid event.id s p w
  unfolding handle_webhook_event dispatch complete
  handle_settles now body signature event s p w h =
      simp (h.signed, h.unseen, h.kind, h.known, h.is_paid)

  -- Once the webhook has acknowledged a paid session, the reservation is CONFIRMED with no hold time,
  -- the payment is SUCCEEDED and carries the event's id, and a delivery of the same event at any later
  -- time changes nothing.
  pub PaidEvent-settles :
      (now : ℕ) (body signature : String) (event : StripeEvent) (s : Session) (p : Payment)
      (w w' : World)
      → PaidEvent body signature event s p w
      → handle_webhook_event now body signature w ≡ (ok tt, w')
      → ((r : Reservation) × (env.reservation.get w'.reservations p.reservation_id ≡ some r)
          × (r.status ≡ confirmed)
          × (r.held_until ≡ none))
        × ((q : Payment) × (payment_of w' s.payment_id ≡ some q)
            × (q.status ≡ succeeded)
            × (q.stripe_event_id ≡ some event.id)
            × (q.stripe_payment_id ≡ s.payment_intent))
        × ((later : ℕ) → handle_webhook_event later body signature w' ≡ (ok tt, w'))
  PaidEvent-settles now body signature event s p w w' h e =
      let e' = sym (handle_settles now body signature event s p w h) ∙ e in
      elim (settle_paid-Settling event.id s p w) [
        | not_confirmed d a out ↦ absurd (ground (arith, e', out))
        | not_recorded d a out ↦ absurd (ground (arith, e', out))
        | recorded r q rs ps a b out payments rows ↦
            let (old, _, same, table) =
              env.reservation.update-ok p.reservation_id as_confirmed (λ x. refl) w.reservations r
                rs a in
            let (was, _, is_new, stored) =
              env.payment.update-ok s.payment_id (paid_by event.id s.payment_intent) (λ x. refl)
                w.payments q ps b in
            let row : env.reservation.get w'.reservations p.reservation_id ≡ some r =
              ground (arith, e', rows, table p.reservation_id) in
            let paid : payment_of w' s.payment_id ≡ some q =
              ground (arith, e', payments, stored s.payment_id) in
            (
              (r, row, ground (arith, same), ground (arith, same)),
              (q, paid, ground (arith, is_new), ground (arith, is_new), ground (arith, is_new)),
              λ later.
                  handle_webhook_event_again later body signature event w' h.signed
                    (s.payment_id, q, paid, ground (arith, is_new)),
            )
      ]

  -- When the handling of a paid session throws, no payment has recorded the event: Stripe's next
  -- delivery is handled again.
  pub PaidEvent-failed :
      (now : ℕ) (body signature : String) (event : StripeEvent) (s : Session) (p : Payment)
      (e : Failure) (w w' : World)
      → PaidEvent body signature event s p w
      → handle_webhook_event now body signature w ≡ (err e, w')
      → (w'.payments ≡ w.payments)
        × ((later : ℕ) → handle_webhook_event later body signature w' ≡ settle_paid event.id s p w')
  PaidEvent-failed now body signature event s p e w w' h out =
      let out' = sym (handle_settles now body signature event s p w h) ∙ out in
      let same : w'.payments ≡ w.payments = elim (settle_paid-Settling event.id s p w) [
        | not_confirmed d a b ↦ ground (arith, out', b)
        | not_recorded d a b ↦ ground (arith, out', a)
        | recorded r q rs ps a b c d f ↦ absurd (ground (arith, out', c))
      ] in
      (
        same,
        λ later. handle_settles later body signature event s p w' (record {
          signed = h.signed;
          unseen = ap (env.payment.find_first (has_event event.id)) same ∙ h.unseen;
          kind = h.kind;
          is_paid = h.is_paid;
          known = ap (λ x. env.payment.get x s.payment_id) same ∙ h.known;
        }),
      )
