-- ===== src/Reservations/Holding.antt =====
-- What `holdSeat` of reservations.repository.ts promises.
use movie_reservation_system.Base.{
  ℕ, true, false, some, none, List, [], ◌∷◌, ◌≡◌, ◌⊎◌, inl, inr, refl, sym, ◌∙◌, In, arith,
  Bool-cases, Option-cases,
}
use movie_reservation_system.Table.{
  Distinct, DbError, timed_out, row_missing, unavailable, Result, Result-cases, ok, err, put,
  unique_violation,
}
use movie_reservation_system.Schema.{Reservation, Seat, held, is_active, active_clash}
use movie_reservation_system.World.{
  Env, World, Failure, prisma, bad_request, conflict, internal_server_error, service_unavailable,
}
use movie_reservation_system.Reservations.{
  HoldSeatParams, takes_seat, is_seat_of_hall, new_hold, is_one, translate, hold_seat,
}

-- One row at most has a given key.
one_of_key :
    {Row : Type 0} (key : Row → ℕ) (k : ℕ) (rs : List Row)
    → Distinct key rs
    → ((r : Row) → In r rs → key r ≡ k)
    → (r : Row) → In r rs
    → is_one rs ≡ true
one_of_key key k [] d h r i = absurd i
one_of_key key k (x ∷ []) d h r i = refl
one_of_key key k (x ∷ y ∷ rs) d h r i = absurd (d.0.0 (h x (inl refl) ∙ sym (h y (inr (inl refl)))))

one-In : {Row : Type 0} (rs : List Row) → is_one rs ≡ true → (r : Row) × In r rs
one-In [] h = cc
one-In (x ∷ rs) h = (x, inl refl)

module _ ⦃env : Env⦄ where
  -- The seat stands in the hall.
  abbrev pub SeatInHall : HoldSeatParams → World → Type 0
  SeatInHall p w = (s : Seat) × (env.seat.get w.seats p.seat_id ≡ some s) × (s.hall_id ≡ p.hall_id)

  -- No active reservation takes the seat at the screening.
  abbrev pub SeatFree : HoldSeatParams → World → Type 0
  SeatFree p w =
      (k : ℕ) (r : Reservation)
      → env.reservation.get w.reservations k ≡ some r
      → ¬ (
          (r.screening_id ≡ p.screening_id) × (r.seat_id ≡ p.seat_id) × (is_active r.status ≡ true))

  pub SeatFree-takes_seat :
      (p : HoldSeatParams) (w : World)
      → SeatFree p w
      → (k : ℕ) (r : Reservation) → env.reservation.get w.reservations k ≡ some r
      → takes_seat p r ≡ false
  SeatFree-takes_seat p w free k r there = elim (Bool-cases (takes_seat p r)) [
    | inr other ↦ other
    | inl takes ↦
        absurd
          (free k r there (ground (arith, takes), ground (arith, takes), ground (arith, takes)))
  ]

  -- One of the statements of the transaction that can fail for another reason than its data has failed
  -- so: the lock on the seat's row, or the insertion of the hold.
  abbrev pub DatabaseError : HoldSeatParams → World → DbError → Type 0
  DatabaseError p w e =
      (env.seat.select_for_update (is_seat_of_hall p) w.seats ≡ err e)
      ⊎ (env.reservation.create (new_hold p) (λ k. refl) w.reservations ≡ err e)

  abbrev pub rows_of_seat : HoldSeatParams → World → List Seat
  rows_of_seat p w = env.seat.find_many (is_seat_of_hall p) w.seats

  locked-SeatInHall :
      (p : HoldSeatParams) (w : World) → is_one (rows_of_seat p w) ≡ true → SeatInHall p w
  locked-SeatInHall p w h =
      let (s, i) = one-In (rows_of_seat p w) h in
      let t = env.seat.find_many_sound (is_seat_of_hall p) w.seats s i in
      let e : s.id ≡ p.seat_id = ground (arith, t.1) in (s, rw (← e) (t.0), ground (arith, t.1))

  SeatInHall-locked :
      (p : HoldSeatParams) (w : World) → SeatInHall p w → is_one (rows_of_seat p w) ≡ true
  SeatInHall-locked p w (s, found, hall) =
      let e = env.seat.get-key w.seats p.seat_id s found in
      one_of_key (λ r. r.id) p.seat_id (rows_of_seat p w)
        (env.seat.find_many-Distinct (is_seat_of_hall p) w.seats)
        (λ r i.
          let t = env.seat.find_many_sound (is_seat_of_hall p) w.seats r i in ground (arith, t.1))
        s
        (env.seat.find_many_complete (is_seat_of_hall p) w.seats p.seat_id s found
          (ground (arith, e, hall)))

  free-SeatFree :
      (p : HoldSeatParams) (w : World)
      → env.reservation.find_first (takes_seat p) w.reservations ≡ none
      → SeatFree p w
  free-SeatFree p w h k r e (screening, seat, active) =
      let misses = env.reservation.find_first-none (takes_seat p) w.reservations k r h e in
      absurd (ground (arith, misses, screening, seat, active))

  -- What holds after a successful hold: nothing stood in the way, and one row came in.
  pub record Held (p : HoldSeatParams) (w : World) (r : Reservation) (w' : World) : Type 0 where
    pub in_hall : SeatInHall p w
    pub was_free : SeatFree p w
    pub row : r ≡ record {
      id = r.id;
      screening_id = p.screening_id;
      seat_id = p.seat_id;
      user_id = p.user_id;
      status = held;
      held_until = some p.held_until;
    }
    pub fresh : env.reservation.get w.reservations r.id ≡ none
    pub stored :
        (j : ℕ)
        → env.reservation.get w'.reservations j
          ≡ put r.id (some r) (env.reservation.get w.reservations) j
    pub rest : w' ≡ record w { reservations = w'.reservations }

  -- The ways through `holdSeat`, with what each one returns.
  data Way (p : HoldSeatParams) (w : World) : Result Failure Reservation × World → Type 0 where
    no_lock :
        (e : DbError) {out : Result Failure Reservation × World}
        → env.seat.select_for_update (is_seat_of_hall p) w.seats ≡ err e
        → out ≡ (err (translate (prisma e)), w)
        → Way p w out
    no_seat :
        {out : Result Failure Reservation × World}
        → is_one (rows_of_seat p w) ≡ false
        → out ≡ (err bad_request, w)
        → Way p w out
    taken :
        (r : Reservation) {out : Result Failure Reservation × World}
        → is_one (rows_of_seat p w) ≡ true
        → env.reservation.find_first (takes_seat p) w.reservations ≡ some r
        → out ≡ (err conflict, w)
        → Way p w out
    not_stored :
        (e : DbError) {out : Result Failure Reservation × World}
        → is_one (rows_of_seat p w) ≡ true
        → env.reservation.find_first (takes_seat p) w.reservations ≡ none
        → env.reservation.create (new_hold p) (λ k. refl) w.reservations ≡ err e
        → out ≡ (err (translate (prisma e)), w)
        → Way p w out
    stored :
        (r : Reservation) (s : env.reservation.State) {out : Result Failure Reservation × World}
        → is_one (rows_of_seat p w) ≡ true
        → env.reservation.find_first (takes_seat p) w.reservations ≡ none
        → env.reservation.create (new_hold p) (λ k. refl) w.reservations ≡ ok (r, s)
        → out ≡ (ok r, record w { reservations = s })
        → Way p w out

  hold_seat-Way : (p : HoldSeatParams) (w : World) → Way p w (hold_seat p w)
  unfolding hold_seat
  hold_seat-Way p w = elim (Result-cases (env.seat.select_for_update (is_seat_of_hall p) w.seats)) [
    | inr (e, l) ↦ no_lock e l (ground arith)
    | inl (rows, l) ↦
        let same = env.seat.select_for_update-ok (is_seat_of_hall p) w.seats rows l in
        elim (Bool-cases (is_one (rows_of_seat p w))) [
          | inr n ↦ no_seat n (ground arith)
          | inl n ↦ elim (Option-cases (env.reservation.find_first (takes_seat p) w.reservations)) [
            | inr (r, t) ↦ taken r n t (ground arith)
            | inl t ↦
                elim (Result-cases
                  (env.reservation.create (new_hold p) (λ k. refl) w.reservations)) [
                    | inl ((r, s), c) ↦ stored r s n t c (ground arith)
                    | inr (e, c) ↦ not_stored e n t c (ground arith)
                  ]
          ]
        ]
  ]

  -- A successful `holdSeat`: the seat stands in the screening's hall, no active reservation had it,
  -- and exactly one HELD row with the request's data and a fresh id came in; all else is as before.
  pub hold_seat-Held :
      (p : HoldSeatParams) (w : World) (r : Reservation) (w' : World)
      → hold_seat p w ≡ (ok r, w')
      → Held p w r w'
  hold_seat-Held p w r w' h = elim (hold_seat-Way p w) [
    | no_lock e l out ↦ absurd (ground (arith, h, out))
    | no_seat n out ↦ absurd (ground (arith, h, out))
    | taken x n t out ↦ absurd (ground (arith, h, out))
    | not_stored e n t c out ↦ absurd (ground (arith, h, out))
    | stored x s n t c out ↦
        let made = env.reservation.create-ok (new_hold p) (λ k. refl) w.reservations x s c in
        let same : x ≡ r = ground (arith, h, out) in
        let next : w' ≡ record w { reservations = s } = ground (arith, h, out) in
        rw (← same, next)
          (record {
            in_hall = locked-SeatInHall p w n;
            was_free = free-SeatFree p w t;
            row = made.0;
            fresh = made.1;
            stored = made.2;
            rest = refl;
          })
  ]

  abbrev pub SeatTaken : HoldSeatParams → World → Type 0
  SeatTaken p w =
      (k : ℕ) × (r : Reservation) × (env.reservation.get w.reservations k ≡ some r)
      × (r.screening_id ≡ p.screening_id)
      × (r.seat_id ≡ p.seat_id)
      × (is_active r.status ≡ true)

  -- Why `holdSeat` may refuse.
  abbrev pub Refused : HoldSeatParams → World → Failure → Type 0
  Refused p w bad_request = ¬ SeatInHall p w
  Refused p w conflict = SeatTaken p w
  Refused p w service_unavailable = DatabaseError p w timed_out
  Refused p w internal_server_error = DatabaseError p w row_missing ⊎ DatabaseError p w unavailable
  Refused p w _ = ⊥

  lock_error-Refused :
      (p : HoldSeatParams) (w : World) (e : DbError)
      → env.seat.select_for_update (is_seat_of_hall p) w.seats ≡ err e
      → Refused p w (translate (prisma e))
  lock_error-Refused p w unique_violation h =
      absurd (env.seat.select_for_update-err (is_seat_of_hall p) w.seats h)
  lock_error-Refused p w timed_out h = inl h
  lock_error-Refused p w row_missing h = inl (inl h)
  lock_error-Refused p w unavailable h = inr (inl h)

  write_error-Refused :
      (p : HoldSeatParams) (w : World) (e : DbError)
      → env.reservation.create (new_hold p) (λ k. refl) w.reservations ≡ err e
      → Refused p w (translate (prisma e))
  write_error-Refused p w unique_violation h =
      let (n, k, r, found, c) =
        env.reservation.create-clash (new_hold p) (λ k. refl) w.reservations h in
      (k, r, found, ground arith, ground arith, ground arith)
  write_error-Refused p w timed_out h = inr h
  write_error-Refused p w row_missing h = inl (inr h)
  write_error-Refused p w unavailable h = inr (inr h)

  -- When `holdSeat` throws, nothing has changed, and the exception tells the reason: 400 only if the
  -- seat is not in the hall, 409 only if an active reservation has it, 503 only if the lock or the
  -- insertion timed out, 500 only if one of them failed in another way; and no other is thrown.
  pub hold_seat-Refused :
      (p : HoldSeatParams) (w : World) (e : Failure) (w' : World)
      → hold_seat p w ≡ (err e, w')
      → (w' ≡ w) × Refused p w e
  hold_seat-Refused p w e w' h = elim (hold_seat-Way p w) [
    | no_lock d l out ↦
        let same : translate (prisma d) ≡ e = ground (arith, h, out) in
        (ground (arith, h, out), rw (← same) (lock_error-Refused p w d l))
    | no_seat n out ↦
        let same : bad_request ≡ e = ground (arith, h, out) in
        (ground (arith, h, out), rw (← same) (λ s. ground (arith, n, SeatInHall-locked p w s)))
    | taken x n t out ↦
        let same : conflict ≡ e = ground (arith, h, out) in
        let (found, takes) = env.reservation.find_first-some (takes_seat p) w.reservations x t in
        (
          ground (arith, h, out),
          rw (← same)
              (x.id, x, found, ground (arith, takes), ground (arith, takes), ground (arith, takes)),
        )
    | not_stored d n t c out ↦
        let same : translate (prisma d) ≡ e = ground (arith, h, out) in
        (ground (arith, h, out), rw (← same) (write_error-Refused p w d c))
    | stored x s n t c out ↦ absurd (ground (arith, h, out))
  ]

  free-no_clash :
      (p : HoldSeatParams) (w : World)
      → SeatFree p w
      → (n k : ℕ) (r : Reservation) → env.reservation.get w.reservations k ≡ some r
      → active_clash (new_hold p n) r ≡ false
  free-no_clash p w free n k r found = ground (arith, SeatFree-takes_seat p w free k r found)

  -- With the database at hand, a free seat of the hall is held: the request succeeds.
  pub hold_seat-available :
      (p : HoldSeatParams) (w : World)
      → env.seat.up w.seats ≡ true
      → env.reservation.up w.reservations ≡ true
      → SeatInHall p w
      → SeatFree p w
      → (r : Reservation) × (w' : World) × (hold_seat p w ≡ (ok r, w'))
  hold_seat-available p w seats_up up in_hall free =
      let (r, s, made, _) =
        env.reservation.create-up (new_hold p) (λ k. refl) w.reservations up
          (free-no_clash p w free) in
      (
        r,
        record w { reservations = s },
        elim (hold_seat-Way p w) [
          | no_lock e l out ↦ absurd (
              ground (arith, l, env.seat.select_for_update-up (is_seat_of_hall p) w.seats seats_up))
          | no_seat n out ↦ absurd (ground (arith, n, SeatInHall-locked p w in_hall))
          | taken x n t out ↦
              let (found, takes) =
                env.reservation.find_first-some (takes_seat p) w.reservations x t in
              absurd (ground (arith, takes, SeatFree-takes_seat p w free x.id x found))
          | not_stored e n t c out ↦ absurd (ground (arith, made, c))
          | stored x t n f c out ↦ ground (arith, made, c, out)
        ],
      )
