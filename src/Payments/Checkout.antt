-- ===== src/Payments/Checkout.antt =====
-- `createCheckoutSession` of payments/payments.service.ts: what a checkout leaves behind when a later
-- step fails.
use Prim.Native.String.{String}
use movie_reservation_system.Base.{
  ℕ, ◌+◌, ◌*◌, ◌/◌, true, some, none, ◌≡◌, ◌≢◌, ◌⊎◌, inl, inr, refl, subst, arith, ◌==◌, Bool-cases,
  Option-cases,
}
use movie_reservation_system.Table.{DbError, Result, Result-cases, ok, err, unique_violation}
use movie_reservation_system.Stripe.{Session, StripeError}
use movie_reservation_system.Schema.{Reservation, Payment, Screening, is_held}
use movie_reservation_system.World.{
  Env, World, Failure, prisma, stripe_error, conflict, not_found, catch, throw, ◌>>◌,
}
use movie_reservation_system.Reservations.{extended, extend_hold}
use movie_reservation_system.Reservations.Service.{find_owned}
use movie_reservation_system.Payments.{
  new_payment, with_session, payment_of, find_by_reservation, checkout_expiry_minutes,
  create_payment, open_session, delete_payment, create_checkout_session,
}

module _ ⦃env : Env⦄ where
  -- A failed `open_session` has touched no reservation, and no payment but the one it was given.
  abbrev Contained : ℕ → World → Result Failure String × World → Type 0
  Contained id w (ok url, w') = Unit
  Contained id w (err e, w') =
      (w'.reservations ≡ w.reservations) × ((j : ℕ) → id ≢ j → payment_of w' j ≡ payment_of w j)

  module _ (expires_at reservation_id amount : ℕ) (payment : Payment) (w : World) where
    abbrev called : Result StripeError Session × env.stripe.State
    called = env.stripe.create_session amount payment.id expires_at w.stripe

    -- Where a run of `open_session` ends.
    ends_as :
        (out : Result Failure String × World)
        → out ≡ open_session expires_at reservation_id amount payment w
        → Contained payment.id w out
        → Contained payment.id w (open_session expires_at reservation_id amount payment w)
    ends_as out e h = subst (Contained payment.id w) e h

    with_update :
        (session : Session) (x : Result DbError (Payment × env.payment.State))
        → called.0 ≡ ok session
        → env.payment.update payment.id (with_session session.id) (λ p. refl) w.payments ≡ x
        → Contained payment.id w (open_session expires_at reservation_id amount payment w)
    unfolding open_session extend_hold
    with_update session (err e) a b =
        ends_as (err (prisma e), record w { stripe = called.1 }) (ground (arith, a, b))
          (refl, λ j ne. refl)
    with_update session (ok (q, ps)) a b =
        let (old, _, _, stored) =
          env.payment.update-ok payment.id (with_session session.id) (λ p. refl) w.payments q ps
            b in
        elim (Result-cases (
          env.reservation.update reservation_id (extended (expires_at * 1000)) (λ r. refl)
            w.reservations)) [
              | inl ((r, rs), c) ↦
                  ends_as
                    (
                      ok session.url,
                      record w { stripe = called.1; payments = ps; reservations = rs },
                    )
                    (ground (arith, a, b, c)) tt
              | inr (e, c) ↦
                  ends_as (err (prisma e), record w { stripe = called.1; payments = ps })
                    (ground (arith, a, b, c)) (refl, λ j ne. ground (arith, stored j))
            ]

    open_session-Contained :
        Contained payment.id w (open_session expires_at reservation_id amount payment w)
    unfolding open_session
    open_session-Contained = elim (Result-cases called.0) [
      | inr (e, a) ↦
          ends_as (err stripe_error, record w { stripe = called.1 }) (ground (arith, a))
            (refl, λ j ne. refl)
      | inl (session, a) ↦
          with_update session
            (env.payment.update payment.id (with_session session.id) (λ p. refl) w.payments) a refl
    ]

  -- What a failed checkout leaves: no reservation changed, and either the payments read as before, or
  -- the deletion of the new payment failed too.
  abbrev pub Undone : World → Failure → World → Type 0
  Undone w e w' =
      (w'.reservations ≡ w.reservations)
      × (((j : ℕ) → payment_of w' j ≡ payment_of w j)
          ⊎ ((k : ℕ) × (d : DbError) × (env.payment.delete k w'.payments ≡ err d) × (e ≡ prisma d)))

  -- The `catch` of the checkout, after a failure that left `x`.
  undo :
      (p : Payment) (e : Failure) (w w1 x : World)
      → w1.reservations ≡ w.reservations
      → payment_of w p.id ≡ none
      → ((j : ℕ) → p.id ≢ j → payment_of w1 j ≡ payment_of w j)
      → Contained p.id w1 (err e, x)
      → (f : Failure) (w' : World) → (delete_payment p.id >> throw {A = String} e) x ≡ (err f, w')
      → Undone w f w'
  unfolding delete_payment
  undo p e w w1 x same absent before (kept, others) f w' h =
      elim (Result-cases (env.payment.delete p.id x.payments)) [
        | inr (d, a) ↦ (
          ground (arith, a, h, kept, same),
          inr (p.id, d, ground (arith, a, h), ground (arith, a, h)),
        )
        | inl ((q, ps), a) ↦
            let gone = (env.payment.delete-ok p.id x.payments q ps a).1 in
            let next : w'.payments ≡ ps = ground (arith, a, h) in
            (
              ground (arith, a, h, kept, same),
              inl (λ j. elim (Bool-cases (p.id == j)) [
                | inl b ↦ ground (arith, next, gone j, absent, b)
                | inr b ↦ ground (arith, next, gone j, others j, before j, b)
              ]),
            )
      ]

  -- The rest of the checkout once the payment is stored.
  abbrev finish : ℕ → ℕ → ℕ → Payment → World → Result Failure String × World
  finish now reservation_id amount p =
      catch (open_session (now / 1000 + checkout_expiry_minutes * 60) reservation_id amount p)
        (λ e. delete_payment p.id >> throw e)

  finish-Undone :
      (now reservation_id amount : ℕ) (p : Payment) (w w1 : World)
      → w1.reservations ≡ w.reservations
      → payment_of w p.id ≡ none
      → ((j : ℕ) → p.id ≢ j → payment_of w1 j ≡ payment_of w j)
      → (f : Failure) (w' : World) → finish now reservation_id amount p w1 ≡ (err f, w')
      → Undone w f w'
  finish-Undone now reservation_id amount p w w1 same absent before f w' =
      go (open_session expires_at reservation_id amount p w1)
        (open_session-Contained expires_at reservation_id amount p w1) refl
    where
      expires_at : ℕ
      expires_at = now / 1000 + checkout_expiry_minutes * 60

      go :
          (out : Result Failure String × World)
          → Contained p.id w1 out
          → open_session expires_at reservation_id amount p w1 ≡ out
          → finish now reservation_id amount p w1 ≡ (err f, w')
          → Undone w f w'
      go (ok url, x) c a h = absurd (ground (arith, a))
      go (err e, x) c a h = undo p e w w1 x same absent before c f w' (ground (arith, a, h))

  module _ (now user_id reservation_id : ℕ) (w : World) where
    abbrev insert : ℕ → Result DbError (Payment × env.payment.State)
    insert amount =
        env.payment.create (new_payment now reservation_id amount) (λ k. refl) w.payments

    -- A checkout is refused with nothing changed, or it stores a payment of a HELD reservation of the
    -- user that had none, for the screening's price in cents, and goes on from there.
    checkout_cases :
        (P : Result Failure String × World → Type 0)
        → ((e : Failure) → P (err e, w))
        → ((r : Reservation) (s : Screening) (p : Payment) (ps : env.payment.State)
            → env.reservation.get w.reservations reservation_id ≡ some r
            → r.user_id ≡ user_id
            → is_held r.status ≡ true
            → find_by_reservation reservation_id w ≡ none
            → env.screening.get w.screenings r.screening_id ≡ some s
            → insert (s.price * 100) ≡ ok (p, ps)
            → P (finish now reservation_id (s.price * 100) p (record w { payments = ps })))
        → P (create_checkout_session now user_id reservation_id w)
    unfolding create_checkout_session find_owned create_payment
    checkout_cases P refused stored =
        elim (Option-cases (env.reservation.get w.reservations reservation_id)) [
          | inl a ↦ subst P (ground (arith, a)) (refused not_found)
          | inr (r, a) ↦ elim (Bool-cases (r.user_id == user_id)) [
            | inr b ↦ subst P (ground (arith, a, b)) (refused not_found)
            | inl b ↦ elim (Bool-cases (is_held r.status)) [
              | inr c ↦ subst P (ground (arith, a, b, c)) (refused conflict)
              | inl c ↦ elim (Option-cases (find_by_reservation reservation_id w)) [
                | inr (q, d) ↦ subst P (ground (arith, a, b, c, d)) (refused conflict)
                | inl d ↦ elim (Option-cases (env.screening.get w.screenings r.screening_id)) [
                  | inl f ↦ subst P (ground (arith, a, b, c, d, f)) (refused conflict)
                  | inr (s, f) ↦ elim (Result-cases (insert (s.price * 100))) [
                    | inl ((p, ps), g) ↦
                        subst P (ground (arith, a, b, c, d, f, g))
                          (stored r s p ps a (ground (arith, b)) c d f g)
                    | inr (e, g) ↦
                        subst P (ground (arith, a, b, c, d, f, g))
                          (refused (elim e [ unique_violation ↦ conflict | other ↦ prisma other ]))
                  ]
                ]
              ]
            ]
          ]
        ]

    -- A checkout that fails is undone: no reservation has changed, in particular no hold was extended,
    -- and the payments read as before; only if the deletion of the new payment fails too does it stay,
    -- and then the caller gets that error.
    pub create_checkout_session-Undone :
        (f : Failure) (w' : World)
        → create_checkout_session now user_id reservation_id w ≡ (err f, w')
        → Undone w f w'
    create_checkout_session-Undone f w' =
        checkout_cases (λ out. out ≡ (err f, w') → Undone w f w')
          (λ e h. (ground arith, inl (λ j. ground arith)))
          (λ r s p ps a b c d e g h.
            let made =
              env.payment.create-ok (new_payment now reservation_id (s.price * 100)) (λ k. refl)
                w.payments p ps g in
            finish-Undone now reservation_id (s.price * 100) p w (record w { payments = ps }) refl
              made.1 (λ j ne. ground (arith, made.2 j)) f w' h)
