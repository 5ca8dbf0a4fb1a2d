-- ===== src/Reservations/Slot.antt =====
-- A hold in a slot of the concurrency guard: `acquire` of common/guards/concurrency.guard.ts around
-- `holdSeat`, as reservations/reservations.service.ts calls them.
use movie_reservation_system.Base.{
  ℕ, suc, ◌-◌, ◌<◌, ◌≤◌, true, false, ◌≡◌, ◌≢◌, inl, inr, refl, ap, ◌∙◌, subst, arith, leb,
  Bool-cases,
}
use movie_reservation_system.Table.{Result, ok, err}
use movie_reservation_system.Schema.{Reservation}
use movie_reservation_system.World.{Env, World, Failure, Verdict, service_unavailable}
use movie_reservation_system.Reservations.{
  HoldSeatParams, concurrency_limit, acquire, release, guarded_hold,
}
use movie_reservation_system.Reservations.Service.{hold_within_limit}
use movie_reservation_system.Reservations.Exclusive.{OneActive, view}
use movie_reservation_system.Reservations.Guarded.{
  guarded_hold-frame, guarded_hold-OneActive, guarded_hold_failed,
}

module _ ⦃env : Env⦄ where
  abbrev pub busier : World → World
  busier w = record w { active = suc w.active }

  suc_sub_one : (n : ℕ) → suc n - 1 ≡ n
  suc_sub_one n = omega arith

  -- The world with the hold made, before the slot comes back.
  abbrev pub slot_of : HoldSeatParams → World → World
  slot_of p w = record w {
    reservations = (guarded_hold p (busier w)).1.reservations;
    breaker = (guarded_hold p (busier w)).1.breaker;
  }

  acquire_full :
      (w : World) → leb concurrency_limit w.active ≡ true → acquire w ≡ (err service_unavailable, w)
  unfolding acquire
  acquire_full w b = rw b

  acquire_free :
      (w : World) → leb concurrency_limit w.active ≡ false → acquire w ≡ (ok tt, busier w)
  unfolding acquire
  acquire_free w b = rw b

  -- The guard is full, or the hold is made with one more slot taken, which comes back.
  pub within_limit_cases :
      (p : HoldSeatParams) (w : World) (P : Result Failure Reservation × World → Type 0)
      → (concurrency_limit ≤ w.active → P (err service_unavailable, w))
      → (w.active < concurrency_limit
          → P ((guarded_hold p (busier w)).0, release (guarded_hold p (busier w)).1))
      → P (hold_within_limit p w)
  unfolding hold_within_limit
  within_limit_cases p w P full free = elim (Bool-cases (leb concurrency_limit w.active)) [
    | inl b ↦ subst P (ground (arith, acquire_full w b)) (full (ground (arith, b)))
    | inr b ↦ subst P (ground (arith, acquire_free w b)) (free (ground (arith, b)))
  ]

  pub within_limit-frame :
      (p : HoldSeatParams) (w : World)
      → (hold_within_limit p w).1 ≡ record w {
        reservations = (hold_within_limit p w).1.reservations;
        breaker = (hold_within_limit p w).1.breaker;
      }
  unfolding release
  within_limit-frame p w =
      within_limit_cases p w
        (λ out. out.1 ≡ record w { reservations = out.1.reservations; breaker = out.1.breaker })
        (λ _. refl)
        (λ _.
          ap {A = World} (λ x. record x { active = x.active - 1 }) (guarded_hold-frame p (busier w))
          ∙ ap {A = ℕ} (λ n. record (slot_of p w) { active = n }) (suc_sub_one w.active))

  pub within_limit-OneActive :
      (p : HoldSeatParams) (w : World)
      → OneActive (view w)
      → OneActive (view (hold_within_limit p w).1)
  unfolding release
  within_limit-OneActive p w one =
      within_limit_cases p w (λ out. OneActive (view out.1)) (λ _. one)
        (λ _. guarded_hold-OneActive p (busier w) one)

  pub within_limit_failed :
      (p : HoldSeatParams) (w : World) (e : Failure) (w' : World)
      → hold_within_limit p w ≡ (err e, w')
      → env.breaker.verdict w.breaker ≢ Verdict.give_up
      → w'.reservations ≡ w.reservations
  unfolding release
  within_limit_failed p w e w' =
      within_limit_cases p w
        (λ out.
          out ≡ (err e, w')
          → env.breaker.verdict w.breaker ≢ Verdict.give_up
          → w'.reservations ≡ w.reservations)
        (λ _ h _. ground arith)
        (λ _ h never.
          let kept =
            guarded_hold_failed p (busier w) e (guarded_hold p (busier w)).1 (ground arith) never in
          ground (arith, h, kept))
