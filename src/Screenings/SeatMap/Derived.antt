-- ===== src/Screenings/SeatMap/Derived.antt =====
-- What `getSeatMap` shows: every seat of the hall once, with what the reservations say of it.
use movie_reservation_system.Base.{
  ℕ, ◌+◌, ◌≤◌, ◌<◌, Bool, true, false, Option, some, none, List, ◌≡◌, ◌⊎◌, inl, inr, refl, sym, ap,
  subst, ◌==◌, In, arith, Bool-cases, Option-cases,
}
use movie_reservation_system.Table.{Distinct, ok}
use movie_reservation_system.Schema.{
  Seat, Screening, Reservation, ReservationStatus, SeatStatus, available, is_active,
}
use movie_reservation_system.Redis.{seat_map}
use movie_reservation_system.World.{Env, World, SeatMapEntry, seats}
use movie_reservation_system.Screenings.{is_cancelled, find_detail}
use movie_reservation_system.Screenings.SeatMap.{
  order_by, seat_le, to_seat_status, status_by_seat, entry, as_seats, seat_map_ttl,
  find_seats_by_hall, is_active_of, find_active_reservations, build_seat_map, compute_seat_map,
  get_seat_map,
}
use movie_reservation_system.Screenings.Schedule.{find_detail-some}
use movie_reservation_system.Screenings.SeatMap.Rows.{
  order_by-In, order_by-Distinct, status_by_seat_cases, map-In, In-map, map-Distinct,
}

module _ ⦃env : Env⦄ where
  -- The status of an active reservation and that of its seat.
  abbrev pub Same : ReservationStatus → SeatStatus → Type 0
  Same r s =
      ((r ≡ ReservationStatus.held) × (s ≡ SeatStatus.held))
      ⊎ ((r ≡ ReservationStatus.confirmed) × (s ≡ SeatStatus.booked))

  to_seat_status-Same :
      (r : ReservationStatus) → is_active r ≡ true → Same r (to_seat_status (some r))
  to_seat_status-Same ReservationStatus.held h = inl (refl, refl)
  to_seat_status-Same ReservationStatus.confirmed h = inr (refl, refl)
  to_seat_status-Same ReservationStatus.cancelled h = cc

  -- An active reservation of the seat at the screening.
  abbrev pub Taken : ℕ → ℕ → World → Reservation → Type 0
  Taken id seat w r =
      (env.reservation.get w.reservations r.id ≡ some r)
      × (r.screening_id ≡ id)
      × (r.seat_id ≡ seat)
      × (is_active r.status ≡ true)

  -- The entry shows HELD or BOOKED where an active reservation of the seat is HELD or CONFIRMED, and
  -- AVAILABLE where no active reservation has the seat.
  abbrev pub Shows : ℕ → World → SeatMapEntry → Type 0
  Shows id w e =
      ((r : Reservation) × Taken id e.seat_id w r × Same r.status e.status)
      ⊎ (((r : Reservation) → ¬ Taken id e.seat_id w r) × (e.status ≡ available))

  -- The map lists the seats of the hall, each one once, with what the reservations say of it.
  pub record SeatMapOf (id hall_id : ℕ) (w : World) (es : List SeatMapEntry) : Type 0 where
    pub listed :
        (e : SeatMapEntry)
        → In e es
        → ((s : Seat) × (env.seat.get w.seats e.seat_id ≡ some s)
            × (s.hall_id ≡ hall_id)
            × (e.row ≡ s.row)
            × (e.number ≡ s.number))
          × Shows id w e
    pub all_seats :
        (k : ℕ) (s : Seat)
        → env.seat.get w.seats k ≡ some s
        → s.hall_id ≡ hall_id
        → (e : SeatMapEntry) × In e es × (e.seat_id ≡ k)
    pub once : Distinct (λ e. e.seat_id) es

  abbrev statuses : ℕ → World → ℕ → Option ReservationStatus
  statuses id w = status_by_seat (find_active_reservations id w) (λ k. none)

  entry-Shows : (id : ℕ) (s : Seat) (w : World) → Shows id w (entry (statuses id w) s)
  entry-Shows id s w =
      elim (status_by_seat_cases (find_active_reservations id w) (λ k. none) s.id) [
        | inl (r, i, e, h) ↦
            let t = env.reservation.find_many_sound (is_active_of id) w.reservations r i in
            inl (
              r,
              (t.0, ground (arith, t.1), e, ground (arith, t.1)),
              subst (Same r.status) (sym (ap to_seat_status h))
                  (to_seat_status-Same r.status (ground (arith, t.1))),
            )
        | inr (others, h) ↦ inr (
          λ r t.
              others r
                (env.reservation.find_many_complete (is_active_of id) w.reservations r.id r t.0
                  (ground (arith, t.1)))
                t.2,
          ap to_seat_status h,
        )
      ]

  build_seat_map-SeatMapOf :
      (id : ℕ) (screening : Screening) (w : World)
      → SeatMapOf id screening.hall_id w (build_seat_map id screening w)
  unfolding build_seat_map find_seats_by_hall
  build_seat_map-SeatMapOf id screening w = record {
    listed = λ e i.
        let (s, j, same) = In-map (entry (statuses id w)) e (order_by seat_le rows) i in
        let t = env.seat.find_many_sound here w.seats s ((order_by-In seat_le s rows).0 j) in
        (
          (
            s,
            ground (arith, same, t.0),
            ground (arith, t.1),
            ap (λ x. x.row) same,
            ap (λ x. x.number) same,
          ),
          subst (Shows id w) (sym same) (entry-Shows id s w),
        );
    all_seats = λ k s found hall.
        let i = env.seat.find_many_complete here w.seats k s found (ground (arith, hall)) in
        (
          entry (statuses id w) s,
          map-In (entry (statuses id w)) s (order_by seat_le rows)
              ((order_by-In seat_le s rows).1 i),
          env.seat.get-key w.seats k s found,
        );
    once =
        map-Distinct (entry (statuses id w)) (λ s. s.id) (λ e. e.seat_id) (λ s. refl)
          (order_by seat_le rows)
          (order_by-Distinct seat_le (λ s. s.id) rows (env.seat.find_many-Distinct here w.seats));
  }
    where
      here : Seat → Bool
      here s = s.hall_id == screening.hall_id

      rows : List Seat
      rows = env.seat.find_many here w.seats

  -- The seat map that `getSeatMap` returns after a miss is that of a screening that is not cancelled;
  -- and `getSeatMap`, asked again in the world that it left and within five minutes, answers with the
  -- same map from the cache.
  pub get_seat_map-SeatMapOf :
      (now id : ℕ) (es : List SeatMapEntry) (w w' : World)
      → as_seats (env.redis.value w.redis (seat_map id) now) ≡ none
      → get_seat_map now id w ≡ (ok es, w')
      → ((s : Screening) × (env.screening.get w.screenings id ≡ some s)
          × (is_cancelled s.status ≡ false)
          × SeatMapOf id s.hall_id w es)
        × ((later : ℕ)
            → now ≤ later
            → later < now + seat_map_ttl
            → get_seat_map later id w' ≡ (ok es, w'))
  unfolding get_seat_map compute_seat_map
  get_seat_map-SeatMapOf now id es w w' miss h = elim (Option-cases (find_detail id w)) [
    | inl a ↦ absurd (ground (arith, miss, a, h))
    | inr (d, a) ↦ elim (Bool-cases (is_cancelled d.screening.status)) [
      | inl b ↦ absurd (ground (arith, miss, a, b, h))
      | inr b ↦
          let built : build_seat_map id d.screening w ≡ es = ground (arith, miss, a, b, h) in
          let stored : env.redis.set (seat_map id) (seats es) seat_map_ttl now w.redis ≡ w'.redis =
            ground (arith, miss, a, b, h) in
          (
            (
              d.screening,
              (find_detail-some id w d a).0,
              b,
              subst (SeatMapOf id d.screening.hall_id w) built
                  (build_seat_map-SeatMapOf id d.screening w),
            ),
            λ later from until.
                let kept =
                  env.redis.set_lem (seat_map id) (seats es) seat_map_ttl now later w.redis from in
                ground (arith, kept, stored, until),
          )
    ]
  ]
