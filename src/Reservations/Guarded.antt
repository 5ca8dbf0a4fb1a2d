-- ===== src/Reservations/Guarded.antt =====
-- The circuit breaker around `holdSeat`: reservations/reservation-breaker.service.ts.
use movie_reservation_system.Base.{true, ◌≡◌, ◌≢◌, ◌⊎◌, inl, inr, refl, ap, ◌∙◌, sym, subst, arith}
use movie_reservation_system.Table.{Result, ok, err}
use movie_reservation_system.Schema.{Reservation}
use movie_reservation_system.World.{
  Env, World, Failure, Verdict, bad_request, conflict, internal_server_error, service_unavailable,
}
use movie_reservation_system.Reservations.{
  HoldSeatParams, is_http, is_counted, hold_seat, guarded_hold,
}
use movie_reservation_system.Reservations.Holding.{Held, Refused, hold_seat-Held, hold_seat-Refused}
use movie_reservation_system.Reservations.Exclusive.{OneActive, view, hold_seat-OneActive}

Verdict-cases : (v : Verdict) → (v ≡ Verdict.admit) ⊎ (v ≡ Verdict.refuse) ⊎ (v ≡ Verdict.give_up)
Verdict-cases Verdict.admit = inl refl
Verdict-cases Verdict.refuse = inr (inl refl)
Verdict-cases Verdict.give_up = inr (inr refl)

module _ ⦃env : Env⦄ where
  Refused-is_http :
      (p : HoldSeatParams) (w : World) (e : Failure) → Refused p w e → is_http e ≡ true
  Refused-is_http p w bad_request h = refl
  Refused-is_http p w conflict h = refl
  Refused-is_http p w service_unavailable h = refl
  Refused-is_http p w internal_server_error h = refl
  Refused-is_http p w _ h = absurd h

  -- What `ReservationBreaker.holdSeat` does, by the breaker's verdict: the call passes and is settled,
  -- or it is refused with 503 and not made, or it is made and the caller gets 503 all the same.
  abbrev pub Guarded :
      HoldSeatParams → World → Verdict → Result Failure Reservation × World → Type 0
  Guarded p w Verdict.admit out = out ≡ (
    (hold_seat p w).0,
    record ((hold_seat p w).1) {
      breaker = env.breaker.settle (is_counted (hold_seat p w).0) (hold_seat p w).1.breaker;
    },
  )
  Guarded p w Verdict.refuse out = out ≡ (err service_unavailable, w)
  Guarded p w Verdict.give_up out = out ≡ (
    err service_unavailable,
    record ((hold_seat p w).1) { breaker = env.breaker.settle true (hold_seat p w).1.breaker },
  )

  guarded_admit :
      (p : HoldSeatParams) (w : World) (out : Result Failure Reservation × World)
      → env.breaker.verdict w.breaker ≡ Verdict.admit
      → hold_seat p w ≡ out
      → guarded_hold p w
        ≡ (out.0, record (out.1) { breaker = env.breaker.settle (is_counted out.0) out.1.breaker })
  unfolding guarded_hold
  guarded_admit p w (ok r, w') a h = ground arith
  guarded_admit p w (err e, w') a h =
      ground (arith, Refused-is_http p w e (hold_seat-Refused p w e w' h).1)

  pub guarded_hold-Guarded :
      (p : HoldSeatParams) (w : World)
      → Guarded p w (env.breaker.verdict w.breaker) (guarded_hold p w)
  guarded_hold-Guarded p w = go (env.breaker.verdict w.breaker) refl
    where
      go : (v : Verdict) → env.breaker.verdict w.breaker ≡ v → Guarded p w v (guarded_hold p w)
      go Verdict.admit a = guarded_admit p w (hold_seat p w) a refl
      go Verdict.refuse a = unfold guarded_hold in ground arith
      go Verdict.give_up a = unfold guarded_hold in ground arith

  -- A refused or failed hold leaves all but the breaker as it was, and a successful one only adds the
  -- row: no event, no count of the guard and no other table changes.
  hold_seat-frame :
      (p : HoldSeatParams) (w : World)
      → (hold_seat p w).1 ≡ record w { reservations = (hold_seat p w).1.reservations }
  hold_seat-frame p w = go (hold_seat p w) refl
    where
      go :
          (out : Result Failure Reservation × World)
          → hold_seat p w ≡ out
          → out.1 ≡ record w { reservations = out.1.reservations }
      go (ok r, w') h = (hold_seat-Held p w r w' h).rest
      go (err e, w') h =
          let same = (hold_seat-Refused p w e w' h).0 in
          same ∙ ap (λ x. record w { reservations = x.reservations }) (sym same)

  module _ (p : HoldSeatParams) (w : World) where
    -- The three ways of `guarded_hold`, for a property of its outcome.
    guarded_cases :
        (P : Result Failure Reservation × World → Type 0)
        → ((b : env.breaker.State)
            → env.breaker.verdict w.breaker ≢ Verdict.give_up
            → P ((hold_seat p w).0, record ((hold_seat p w).1) { breaker = b }))
        → P (err service_unavailable, w)
        → ((b : env.breaker.State)
            → env.breaker.verdict w.breaker ≡ Verdict.give_up
            → P (err service_unavailable, record ((hold_seat p w).1) { breaker = b }))
        → P (guarded_hold p w)
    guarded_cases P pass refused late =
        go (env.breaker.verdict w.breaker) refl (guarded_hold-Guarded p w)
      where
        go :
            (v : Verdict)
            → env.breaker.verdict w.breaker ≡ v
            → Guarded p w v (guarded_hold p w)
            → P (guarded_hold p w)
        go Verdict.admit a g = subst P (sym g) (pass _ (λ b. cc (sym a ∙ b)))
        go Verdict.refuse a g = subst P (sym g) refused
        go Verdict.give_up a g = subst P (sym g) (late _ a)

    pub guarded_hold-frame : (guarded_hold p w).1 ≡ record w {
      reservations = (guarded_hold p w).1.reservations;
      breaker = (guarded_hold p w).1.breaker;
    }
    guarded_hold-frame =
        guarded_cases
          (λ out. out.1 ≡ record w { reservations = out.1.reservations; breaker = out.1.breaker })
          (λ b _. ap {A = World} (λ x. record x { breaker = b }) (hold_seat-frame p w)) refl
          (λ b _. ap {A = World} (λ x. record x { breaker = b }) (hold_seat-frame p w))

    pub guarded_hold-OneActive : OneActive (view w) → OneActive (view (guarded_hold p w).1)
    guarded_hold-OneActive one =
        guarded_cases (λ out. OneActive (view out.1)) (λ b _. hold_seat-OneActive p w one) one
          (λ b _. hold_seat-OneActive p w one)

    pub guarded_hold-Held :
        (r : Reservation) (w' : World)
        → guarded_hold p w ≡ (ok r, w')
        → (w'' : World) × Held p w r w'' × (w'.reservations ≡ w''.reservations)
    guarded_hold-Held r w' =
        guarded_cases
          (λ out.
            out ≡ (ok r, w')
            → (w'' : World) × Held p w r w'' × (w'.reservations ≡ w''.reservations))
          (λ b _ h. (
            (hold_seat p w).1,
            hold_seat-Held p w r (hold_seat p w).1 (ground arith),
            ground arith,
          ))
          (λ h. absurd (ground arith)) (λ b _ h. absurd (ground arith))

    -- An exception of the guarded hold comes with no new row, unless the breaker gave up waiting.
    pub guarded_hold_failed :
        (e : Failure) (w' : World)
        → guarded_hold p w ≡ (err e, w')
        → env.breaker.verdict w.breaker ≢ Verdict.give_up
        → w'.reservations ≡ w.reservations
    guarded_hold_failed e w' =
        guarded_cases
          (λ out.
            out ≡ (err e, w')
            → env.breaker.verdict w.breaker ≢ Verdict.give_up
            → w'.reservations ≡ w.reservations)
          (λ b _ h _.
            let same = (hold_seat-Refused p w e (hold_seat p w).1 (ground arith)).0 in
            ground (arith, h, same))
          (λ h _. ground arith) (λ b late h not_late. absurd (not_late late))
