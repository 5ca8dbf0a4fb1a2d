-- ===== src/Reservations/Interleaving/Alone.antt =====
-- `holdSeat` of reservations/reservations.repository.ts without other clients, as steps.
use movie_reservation_system.Base.{ℕ, some, ◌≡◌, ==_refl, ap, refl, ◌∙◌, arith}
use movie_reservation_system.Table.{ok, put}
use movie_reservation_system.Schema.{Reservation}
use movie_reservation_system.Reservations.{HoldSeatParams, new_hold, hold_seat}
use movie_reservation_system.Reservations.Holding.{SeatFree-takes_seat, hold_seat-Held}
use movie_reservation_system.World.{Env, World}
use movie_reservation_system.Reservations.Exclusive.{view}
use movie_reservation_system.Reservations.Interleaving.{
  Phase, System, Reach, idle, locked, checked, inserted, set_phase, take_lock, check, insert,
  commit, start, move,
}

set_phase-at : (c : ℕ) (x : Phase) (s : System) → (set_phase c x s).phase c ≡ x
set_phase-at c x s = rw (==_refl c) refl

module _ ⦃env : Env⦄ where
  -- A hold that `hold_seat` returns is four steps of one client, when nobody else is at work.
  pub hold_seat-Reach :
      (p : HoldSeatParams) (w : World) (r : Reservation) (w' : World)
      → hold_seat p w ≡ (ok r, w')
      → (s : System) × Reach (env.seat.get w.seats) (view w) s × ((j : ℕ) → view w' j ≡ s.rows j)
  hold_seat-Reach p w r w' h =
      let held = hold_seat-Held p w r w' h in
      let (seat, there, hall) = held.in_hall in
      let key = env.seat.get-key w.seats p.seat_id seat there in
      let s0 : System = record { rows = view w; phase = λ c. idle } in
      let s1 = set_phase 0 (locked p) s0 in
      let s2 = set_phase 0 (checked p) s1 in
      let s3 = set_phase 0 (inserted p r.id) s2 in
      let one : Reach (env.seat.get w.seats) (view w) s1 = move 0 start (
        take_lock p seat refl (ap (env.seat.get w.seats) key ∙ there) (ground (arith, key, hall))
          (λ d e. absurd (ground (arith, e)))) in
      let two : Reach (env.seat.get w.seats) (view w) s2 =
        move 0 one
          (check p (set_phase-at 0 (locked p) s0) (SeatFree-takes_seat p w held.was_free)) in
      let three : Reach (env.seat.get w.seats) (view w) s3 =
        move 0 two (insert p r.id (set_phase-at 0 (checked p) s1) held.fresh) in
      (
        set_phase 0 idle (record s3 { rows = put r.id (some (new_hold p r.id)) (view w) }),
        move 0 three (commit p r.id (set_phase-at 0 (inserted p r.id) s2) held.fresh),
        λ j. held.stored j ∙ ap (λ x. put r.id (some x) (view w) j) held.row,
      )
