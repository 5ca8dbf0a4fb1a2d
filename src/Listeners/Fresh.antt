-- ===== src/Listeners/Fresh.antt =====
-- The seat map after a reservation: the service, the listener of the cache and the screenings together.
use movie_reservation_system.Base.{
  ℕ, ◌≤◌, some, none, true, List, [], ◌∷◌, ◌≡◌, inl, inr, sym, ap, subst, ◌∙◌, ◌==◌, In, arith,
  Bool-cases,
}
use movie_reservation_system.Table.{ok}
use movie_reservation_system.Schema.{Reservation, ReservationStatus, SeatStatus, is_active}
use movie_reservation_system.Redis.{seat_map}
use movie_reservation_system.World.{Env, World, SeatMapEntry, created}
use movie_reservation_system.Reservations.{new_hold}
use movie_reservation_system.Reservations.Service.{reserve, hold_params}
use movie_reservation_system.Reservations.Exclusive.{OneActive, view}
use movie_reservation_system.Reservations.Reserving.{reserve-Reserved, reserve-OneActive}
use movie_reservation_system.Screenings.SeatMap.{as_seats, get_seat_map}
use movie_reservation_system.Screenings.SeatMap.Derived.{get_seat_map-SeatMapOf}
use movie_reservation_system.Listeners.{invalidate_seat_map}

module _ ⦃env : Env⦄ where
  -- After a user has reserved a seat and the listener has handled the event, with Redis answering its
  -- deletion, a seat map that is asked for next, at whatever later time, shows the seat as HELD, also
  -- if an older map was in the cache.
  pub reserve-shown :
      (now later user_id id seat : ℕ) (r : Reservation) (es : List SeatMapEntry) (w w1 w2 : World)
      → now ≤ later
      → env.redis.answers w1.redis ≡ true
      → OneActive (view w)
      → reserve now user_id id seat w ≡ (ok r, w1)
      → get_seat_map later id (invalidate_seat_map now (created id (seat ∷ [])) w1) ≡ (ok es, w2)
      → (e : SeatMapEntry) × In e es × (e.seat_id ≡ seat) × (e.status ≡ SeatStatus.held)
  unfolding invalidate_seat_map
  reserve-shown now later user_id id seat r es w w1 w2 from up one booked h =
      let w' : World = invalidate_seat_map now (created id (seat ∷ [])) w1 in
      let d = reserve-Reserved now user_id id seat w r w1 booked in
      let miss : as_seats (env.redis.value w'.redis (seat_map id) later) ≡ none =
        ap as_seats (env.redis.del_lem (seat_map id) now later w1.redis from up) in
      let (s, found, open_, table) = (get_seat_map-SeatMapOf later id es w' w2 miss h).0 in
      let (x, row, hall) = d.held_it.in_hall in
      let same : s ≡ d.screening = ground (arith, found, d.found_it, d.screenings_kept) in
      let (e, i, is) =
        table.all_seats seat x (ground (arith, row, d.seats_kept))
          (hall ∙ ap (λ y. y.hall_id) (sym same)) in
      let mine : r ≡ new_hold (hold_params now user_id id seat d.screening) r.id = d.held_it.row in
      let held_row : view w' r.id ≡ some r = ground (arith, d.rows, d.held_it.stored r.id) in
      let at_screening : r.screening_id ≡ id = ap (λ y. y.screening_id) mine in
      let at_seat : r.seat_id ≡ e.seat_id = ap (λ y. y.seat_id) mine ∙ sym is in
      let is_held : r.status ≡ ReservationStatus.held = ap (λ y. y.status) mine in
      let alone : OneActive (view w1) =
        subst (λ o. OneActive (view o.1)) booked (reserve-OneActive now user_id id seat w one) in
      elim ((table.listed e i).1) [
        | inr (free, status) ↦
            absurd (free r (held_row, at_screening, at_seat, ap is_active is_held))
        | inl (t, taken, status) ↦ elim (Bool-cases (t.id == r.id)) [
          | inl q ↦
              let alike : t ≡ r = ground (arith, q, taken.0, held_row) in
              elim status [
                | inl (_, shown) ↦ (e, i, is, shown)
                | inr (booked_row, _) ↦ absurd (ground (arith, booked_row, alike, is_held))
              ]
          | inr q ↦
              let clash = alone t.id r.id t r (ground (arith, q)) taken.0 held_row in
              absurd
                (ground (arith, clash, taken.1, taken.2, taken.3, at_screening, at_seat, is_held))
        ]
      ]
