-- ===== src/Payments/RefundOnce.antt =====
-- Stripe pays a payment back once: `cancel`, `refundReservation` and their retries.
use Prim.Native.String.{String}
use text.Mathlib.Text.{◌==◌ as str_eq}
use movie_reservation_system.Base.{
  ap, ◌⊎◌, sym, true, false, ℕ, not, ◌&&◌, Option, some, none, ◌≡◌, inl, inr, refl, suc, ◌∷◌, ◌++◌,
  [], ◌∙◌, ◌==◌, arith, Bool-cases, Option-cases, ltb, subst,
}
use movie_reservation_system.Table.{Result, Result-cases, ok, err}
use movie_reservation_system.Schema.{
  Screening, Reservation, Payment, cancelled, is_refunded, is_held, is_confirmed,
}
use movie_reservation_system.World.{Env, World, Failure, stripe_error, payment_refunded}
use movie_reservation_system.Reservations.{set_status, with_status}
use movie_reservation_system.Reservations.Service.{finalize_cancel, find_owned}
use movie_reservation_system.Payments.{find_by_reservation, find_policy}
use movie_reservation_system.Payments.Refund.{
  refund_amount, percent, as_refunded, call_stripe, pay_back, record_refund, refund_now,
  refund_reservation, cancel_held, cancel,
}

module _ ⦃env : Env⦄ where
  finalize_cancel-stripe : (r : Reservation) (w : World) → (finalize_cancel r w).1.stripe ≡ w.stripe
  unfolding finalize_cancel set_status
  finalize_cancel-stripe r w =
      elim (Result-cases
        (env.reservation.update r.id (with_status cancelled) (λ x. refl) w.reservations)) [
          | inl ((q, s), a) ↦ ground (arith, a)
          | inr (e, a) ↦ ground (arith, a)
        ]

  abbrev recorded : Payment → env.payment.State → World → World
  recorded p s w = record w {
    payments = s;
    metrics = record (w.metrics) { refunded = suc w.metrics.refunded };
    audit = w.audit ++ payment_refunded p.id ∷ [];
  }

  record_refund-stripe :
      (now : ℕ) (r : Reservation) (p : Payment) (id : Option String) (w : World)
      → (record_refund now r p id w).1.stripe ≡ w.stripe
  unfolding record_refund
  record_refund-stripe now r p id w =
      elim (Result-cases (env.payment.update p.id (as_refunded now id) (λ x. refl) w.payments)) [
        | inl ((q, s), a) ↦ ground (arith, a, finalize_cancel-stripe r (recorded p s w))
        | inr (e, a) ↦ ground (arith, a)
      ]

  -- What Stripe has paid back under the key `k`, after a call of `pay_back` at the rate: what it had, or
  -- the share of this payment, for which nothing had been paid back.
  abbrev Repaid : ℕ → Payment → ℕ × ℕ → World → World → Type 0
  Repaid k p rate w w' =
      (env.stripe.refunded w'.stripe k ≡ env.stripe.refunded w.stripe k)
      ⊎ ((p.id ≡ k)
          × (env.stripe.refunded w.stripe k ≡ none)
          × (env.stripe.refunded w'.stripe k ≡ some (refund_amount p.amount rate)))

  -- Stripe remembers the key under which it has paid back.
  abbrev pub Remembered : ℕ → World → Type 0
  Remembered k w =
      (b : ℕ) → env.stripe.refunded w.stripe k ≡ some b → env.stripe.remembers w.stripe k ≡ true

  module _ (k : ℕ) where
    called_stripe-Repaid :
        (p : Payment) (rate : ℕ × ℕ) (i : String) (w : World)
        → Remembered k w
        → Repaid k p rate w (record w {
          stripe = (env.stripe.create_refund i (refund_amount p.amount rate) p.id w.stripe).1;
        })
    called_stripe-Repaid p rate i w known =
        let a : ℕ = refund_amount p.amount rate in
        elim (Bool-cases (p.id == k)) [
          | inr e ↦ inl (env.stripe.create_refund-others i a p.id k w.stripe (ground (arith, e)))
          | inl e ↦
              let same : p.id ≡ k = ground (arith, e) in
              subst
                (λ x.
                  Remembered x w
                  → Repaid x p rate w
                      (record w { stripe = (env.stripe.create_refund i a p.id w.stripe).1 }))
                same
                (λ kept. elim (Option-cases (env.stripe.refunded w.stripe p.id)) [
                  | inr (b, c) ↦
                      inl (env.stripe.create_refund-again i a b p.id w.stripe c (kept b c) ∙ sym c)
                  | inl c ↦ elim (env.stripe.create_refund-new i a p.id w.stripe c) [
                    | inl d ↦ inr (refl, c, d)
                    | inr (d, _) ↦ inl (d ∙ sym c)
                  ]
                ])
                known
        ]

    pay_back_cases :
        (p : Payment) (rate : ℕ × ℕ) (intent : Option String) (w : World)
        → Remembered k w
        → (P : Result Failure (Option String) × World → Type 0)
        → ((x : Result Failure (Option String)) (w' : World) → Repaid k p rate w w' → P (x, w'))
        → P (pay_back p rate intent w)
    unfolding pay_back call_stripe
    pay_back_cases p rate none w known P all = all (ok none) w (inl refl)
    pay_back_cases p rate (some i) w known P all =
        let s' : env.stripe.State =
          (env.stripe.create_refund i (refund_amount p.amount rate) p.id w.stripe).1 in
        let back = called_stripe-Repaid p rate i w known in
        elim (Bool-cases (ltb 0 rate.0 && not (str_eq i ""))) [
          | inr b ↦ subst P (ground (arith, b)) (all (ok none) w (inl refl))
          | inl b ↦
              elim (Result-cases
                (env.stripe.create_refund i (refund_amount p.amount rate) p.id w.stripe).0) [
                  | inl (id, c) ↦
                      subst P (ground (arith, b, c))
                        (all (ok (some id)) (record w { stripe = s' }) back)
                  | inr (e, c) ↦
                      subst P (ground (arith, b, c))
                        (all (err stripe_error) (record w { stripe = s' }) back)
                ]
        ]

    refund_now-Repaid :
        (now : ℕ) (r : Reservation) (p : Payment) (w : World)
        → Remembered k w
        → (env.stripe.refunded (refund_now now r p w).1.stripe k ≡ env.stripe.refunded w.stripe k)
          ⊎ ((s : Screening) × (env.screening.get w.screenings r.screening_id ≡ some s)
              × Repaid k p (percent (find_policy s.start_time now w)) w (refund_now now r p w).1)
    unfolding refund_now
    refund_now-Repaid now r p w known =
        elim (Option-cases (env.screening.get w.screenings r.screening_id)) [
          | inl b ↦ inl (ground (arith, b))
          | inr (s, b) ↦
              let rate = percent (find_policy s.start_time now w) in
              let end : (w' : World)
                  → Repaid k p rate w w'
                  → (refund_now now r p w).1.stripe ≡ w'.stripe
                  → Repaid k p rate w (refund_now now r p w).1 =
                λ w' back same.
                  subst
                    (λ x.
                      (env.stripe.refunded x k ≡ env.stripe.refunded w.stripe k)
                      ⊎ ((p.id ≡ k)
                          × (env.stripe.refunded w.stripe k ≡ none)
                          × (env.stripe.refunded x k ≡ some (refund_amount p.amount rate))))
                    (sym same) back in
              inr (
                s,
                b,
                pay_back_cases p rate p.stripe_payment_id w known
                    (λ out.
                      pay_back p rate p.stripe_payment_id w ≡ out
                      → Repaid k p rate w (refund_now now r p w).1)
                    (λ x w' back e. end w' back (elim (Result-cases x) [
                      | inr (f, c) ↦ ground (arith, b, c, e)
                      | inl (id, c) ↦ ground (arith, b, c, e, record_refund-stripe now r p id w')
                    ]))
                    refl,
              )
        ]

  -- Why Stripe pays back `amount` under the key `k`: the user owns the confirmed reservation, `k` is its
  -- payment, which is not marked as refunded, nothing was paid back yet, and the amount is the share
  -- that the policy of this hour grants.
  pub record Due (now user_id id k amount : ℕ) (w : World) : Type 0 where
    pub reservation : Reservation
    pub payment : Payment
    pub screening : Screening
    pub booked : env.reservation.get w.reservations id ≡ some reservation
    pub owner : reservation.user_id ≡ user_id
    pub is_booked : is_confirmed reservation.status ≡ true
    pub paid : find_by_reservation id w ≡ some payment
    pub key : payment.id ≡ k
    pub unmarked : is_refunded payment.status ≡ false
    pub shown : env.screening.get w.screenings reservation.screening_id ≡ some screening
    pub nothing_back : env.stripe.refunded w.stripe k ≡ none
    pub share :
        amount ≡ refund_amount payment.amount (percent (find_policy screening.start_time now w))

  -- A cancellation, whether it succeeds or throws, leaves what Stripe has paid back for a payment as it
  -- was, or the payment's share is due and is now paid back; if Stripe still remembers the key of what
  -- it has paid back. So a retry after any failure pays nothing twice in the time that Stripe keeps the
  -- key, which is 24 hours at least.
  pub cancel-Due :
      (now user_id id k : ℕ) (w : World)
      → Remembered k w
      → (env.stripe.refunded (cancel now user_id id w).1.stripe k ≡ env.stripe.refunded w.stripe k)
        ⊎ ((amount : ℕ) × Due now user_id id k amount w
            × (env.stripe.refunded (cancel now user_id id w).1.stripe k ≡ some amount))
  unfolding cancel cancel_held find_owned refund_reservation
  cancel-Due now user_id id k w known =
      elim (Option-cases (env.reservation.get w.reservations id)) [
        | inl b ↦ inl (ground (arith, b))
        | inr (r, b) ↦ elim (Bool-cases (r.user_id == user_id)) [
          | inr c ↦ inl (ground (arith, b, c))
          | inl c ↦ elim (Bool-cases (is_confirmed r.status)) [
            | inr d ↦ elim (Bool-cases (is_held r.status)) [
              | inl f ↦ inl (ground (arith, b, c, d, f, finalize_cancel-stripe r w))
              | inr f ↦ inl (ground (arith, b, c, d, f))
            ]
            | inl d ↦ elim (Option-cases (find_by_reservation r.id w)) [
              | inl f ↦ inl (ground (arith, b, c, d, f))
              | inr (p, f) ↦ elim (Bool-cases (is_refunded p.status)) [
                | inl g ↦ inl (ground (arith, b, c, d, f, g, finalize_cancel-stripe r w))
                | inr g ↦
                    let run : (cancel now user_id id w).1.stripe ≡ (refund_now now r p w).1.stripe =
                      ground (arith, b, c, d, f, g) in
                    let same = env.reservation.get-key w.reservations id r b in
                    elim (refund_now-Repaid k now r p w known) [
                      | inl h ↦ inl (ap (λ x. env.stripe.refunded x k) run ∙ h)
                      | inr (s, shown, inl h) ↦ inl (ap (λ x. env.stripe.refunded x k) run ∙ h)
                      | inr (s, shown, inr (key, nothing, back)) ↦ inr (
                        refund_amount p.amount (percent (find_policy s.start_time now w)),
                        record {
                          reservation = r;
                          payment = p;
                          screening = s;
                          booked = b;
                          owner = ground (arith, c);
                          is_booked = d;
                          paid = subst (λ x. find_by_reservation x w ≡ some p) same f;
                          key = key;
                          unmarked = g;
                          shown = shown;
                          nothing_back = nothing;
                          share = refl;
                        },
                        ap (λ x. env.stripe.refunded x k) run ∙ back,
                      )
                    ]
              ]
            ]
          ]
        ]
      ]
