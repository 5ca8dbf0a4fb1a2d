-- ===== src/Reservations/Reserving.antt =====
-- `reserve` of reservations/reservations.service.ts, on every path.
use movie_reservation_system.Base.{
  ℕ, ◌<◌, true, false, Option, some, none, [], ◌∷◌, ◌++◌, ◌≡◌, ◌≢◌, inl, inr, refl, ap, ◌∙◌, sym,
  subst, arith, leb, Bool-cases, Option-cases,
}
use movie_reservation_system.Table.{Result, ok, err}
use movie_reservation_system.Schema.{Reservation, Screening, is_scheduled}
use movie_reservation_system.PaymentAbuse.{is_locked_out}
use movie_reservation_system.World.{
  Env, World, Failure, Verdict, created, bad_request, forbidden, not_found,
}
use movie_reservation_system.Reservations.{concurrency_limit, release, guarded_hold}
use movie_reservation_system.Reservations.Service.{
  scheduled_only, hold_params, hold_within_limit, reserve,
}
use movie_reservation_system.Reservations.Holding.{Held}
use movie_reservation_system.Reservations.Exclusive.{OneActive, view}
use movie_reservation_system.Reservations.Guarded.{guarded_hold-Held}
use movie_reservation_system.Reservations.Slot.{
  busier, within_limit_cases, within_limit-frame, within_limit-OneActive, within_limit_failed,
}

module _ ⦃env : Env⦄ where
  -- What the rest of `reserve` makes of the hold.
  abbrev announce : ℕ → Result Failure Reservation × World → Result Failure Reservation × World
  announce screening_id (ok r, w) =
      (ok r, record w { events = w.events ++ (created screening_id (r.seat_id ∷ []) ∷ []) })
  announce screening_id (err e, w) = (err e, w)

  module _ (now user_id screening_id seat_id : ℕ) (w : World) where
    abbrev found : Option Screening
    found = scheduled_only (env.screening.get w.screenings screening_id)

    abbrev attempt : Screening → Result Failure Reservation × World
    attempt s = hold_within_limit (hold_params now user_id screening_id seat_id s) w

    reserve_announces :
        (s : Screening) (out : Result Failure Reservation × World)
        → is_locked_out user_id now w ≡ false
        → found ≡ some s
        → leb s.start_time now ≡ false
        → attempt s ≡ out
        → reserve now user_id screening_id seat_id w ≡ announce screening_id out
    unfolding reserve
    reserve_announces s (ok r, w') a b c d = ground arith
    reserve_announces s (err e, w') a b c d = ground arith

    reserve_cases :
        (P : Result Failure Reservation × World → Type 0)
        → ((e : Failure) → P (err e, w))
        → ((s : Screening)
            → is_locked_out user_id now w ≡ false
            → found ≡ some s
            → now < s.start_time
            → P (announce screening_id (attempt s)))
        → P (reserve now user_id screening_id seat_id w)
    unfolding reserve
    reserve_cases P refused tried = elim (Bool-cases (is_locked_out user_id now w)) [
      | inl a ↦ subst P (ground (arith, a)) (refused forbidden)
      | inr a ↦ elim (Option-cases found) [
        | inl b ↦ subst P (ground (arith, a, b)) (refused not_found)
        | inr (s, b) ↦ elim (Bool-cases (leb s.start_time now)) [
          | inl c ↦ subst P (ground (arith, a, b, c)) (refused bad_request)
          | inr c ↦
              subst P (sym (reserve_announces s (attempt s) a b c refl))
                (tried s a b (ground (arith, c)))
        ]
      ]
    ]

    -- What a successful `reserve` means.
    pub record Reserved (r : Reservation) (w' : World) : Type 0 where
      pub screening : Screening
      pub found_it : env.screening.get w.screenings screening_id ≡ some screening
      pub is_open : is_scheduled screening.status ≡ true
      pub not_started : now < screening.start_time
      pub not_locked : is_locked_out user_id now w ≡ false
      pub had_slot : w.active < concurrency_limit
      pub after : World
      pub held_it : Held (hold_params now user_id screening_id seat_id screening) (busier w) r after
      pub rows : w'.reservations ≡ after.reservations
      pub told : w'.events ≡ w.events ++ (created screening_id (r.seat_id ∷ []) ∷ [])
      pub slot_back : w'.active ≡ w.active
      pub seats_kept : w'.seats ≡ w.seats
      pub screenings_kept : w'.screenings ≡ w.screenings

    scheduled_only-some :
        (o : Option Screening) (s : Screening)
        → scheduled_only o ≡ some s
        → (o ≡ some s) × (is_scheduled s.status ≡ true)
    scheduled_only-some none s h = absurd (ground arith)
    scheduled_only-some (some x) s h = ground arith

    attempt-Held :
        (s : Screening) (r : Reservation) (x : World)
        → attempt s ≡ (ok r, x)
        → (w.active < concurrency_limit)
          × ((w'' : World) × Held (hold_params now user_id screening_id seat_id s) (busier w) r w''
              × (x.reservations ≡ w''.reservations))
    unfolding release
    attempt-Held s r x =
        within_limit_cases (hold_params now user_id screening_id seat_id s) w
          (λ out.
            out ≡ (ok r, x)
            → (w.active < concurrency_limit)
              × ((w'' : World) × Held (hold_params now user_id screening_id seat_id s) (busier w) r
                    w''
                  × (x.reservations ≡ w''.reservations)))
          (λ _ h. absurd (ground arith))
          (λ slot h.
            let p = hold_params now user_id screening_id seat_id s in
            let (w'', held_it, rows) =
              guarded_hold-Held p (busier w) r (guarded_hold p (busier w)).1 (ground arith) in
            (
              slot,
              (w'', held_it, ap (λ (y : World). y.reservations) (sym (ap (λ y. y.1) h)) ∙ rows),
            ))

    -- `reserve` returns a reservation only to a user who is not locked out, for a scheduled screening
    -- that has not started, with a slot of the guard free, and by a successful hold of ten minutes;
    -- it announces the seat once and gives the slot back.
    pub reserve-Reserved :
        (r : Reservation) (w' : World)
        → reserve now user_id screening_id seat_id w ≡ (ok r, w')
        → Reserved r w'
    reserve-Reserved r w' =
        reserve_cases (λ out. out ≡ (ok r, w') → Reserved r w') (λ e h. absurd (ground arith))
          (λ s a b c. go s a b c (attempt s) refl)
      where
        go :
            (s : Screening)
            → is_locked_out user_id now w ≡ false
            → found ≡ some s
            → now < s.start_time
            → (out : Result Failure Reservation × World) → attempt s ≡ out
            → announce screening_id out ≡ (ok r, w')
            → Reserved r w'
        go s a b c (err e, x) d h = absurd (ground arith)
        go s a b c (ok r', x) d h =
            let same : r' ≡ r = ground arith in
            let (slot, (w'', held_it, rows)) = attempt-Held s r x (d ∙ ap (λ y. (ok y, x)) same) in
            let frame = within_limit-frame (hold_params now user_id screening_id seat_id s) w in
            let opened = scheduled_only-some _ s b in
            record {
              screening = s;
              found_it = opened.0;
              is_open = opened.1;
              not_started = c;
              not_locked = a;
              had_slot = slot;
              after = w'';
              held_it = held_it;
              rows = ground (arith, h, rows);
              told = ground (arith, h, d, frame);
              slot_back = ground (arith, h, d, frame);
              seats_kept = ground (arith, h, d, frame);
              screenings_kept = ground (arith, h, d, frame);
            }

    announce-err :
        (out : Result Failure Reservation × World) (e : Failure) (w' : World)
        → announce screening_id out ≡ (err e, w')
        → out ≡ (err e, w')
    announce-err (ok r, x) e w' h = absurd (ground arith)
    announce-err (err d, x) e w' h = h

    -- A `reserve` that throws announces nothing and gives its slot back; it has stored nothing either,
    -- unless the breaker gave up waiting for the hold.
    pub reserve_failed :
        (e : Failure) (w' : World)
        → reserve now user_id screening_id seat_id w ≡ (err e, w')
        → (w'.events ≡ w.events)
          × (w'.active ≡ w.active)
          × (env.breaker.verdict w.breaker ≢ Verdict.give_up → w'.reservations ≡ w.reservations)
    reserve_failed e w' =
        reserve_cases
          (λ out.
            out ≡ (err e, w')
            → (w'.events ≡ w.events)
              × (w'.active ≡ w.active)
              × (env.breaker.verdict w.breaker ≢ Verdict.give_up
                  → w'.reservations ≡ w.reservations))
          (λ d h. (ground arith, ground arith, λ _. ground arith))
          (λ s a b c h.
            let p = hold_params now user_id screening_id seat_id s in
            let same = announce-err (attempt s) e w' h in
            let frame = within_limit-frame p w in
            (
              ground (arith, same, frame),
              ground (arith, same, frame),
              λ never. within_limit_failed p w e w' same never,
            ))

    announce-view :
        (out : Result Failure Reservation × World) → view (announce screening_id out).1 ≡ view out.1
    announce-view (ok r, x) = refl
    announce-view (err e, x) = refl

    -- `reserve` never books a seat twice, on any path: with a refusal of the breaker, with a hold that
    -- outlives the breaker's time-out, and with every error of the database.
    pub reserve-OneActive :
        OneActive (view w) → OneActive (view (reserve now user_id screening_id seat_id w).1)
    reserve-OneActive one =
        reserve_cases (λ out. OneActive (view out.1)) (λ e. one)
          (λ s a b c.
            let p = hold_params now user_id screening_id seat_id s in
            subst OneActive (sym (announce-view (attempt s))) (within_limit-OneActive p w one))
