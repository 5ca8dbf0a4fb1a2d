-- ===== src/Tests/Holding.antt =====
-- Examples of holding a seat.
use movie_reservation_system.Base.{[], ◌∷◌, ℕ, ◌≡◌, refl, some, arith, []}
use movie_reservation_system.Table.{ok, err}
use movie_reservation_system.Schema.{Reservation}
use movie_reservation_system.World.{World, conflict}
use movie_reservation_system.World.Memory.{demo, in_memory}
use movie_reservation_system.Reservations.{hold_seat, new_hold}
use movie_reservation_system.Reservations.Holding.{
  Held, Refused, SeatInHall, SeatFree, hold_seat-Held, hold_seat-Refused, hold_seat-available,
}
use movie_reservation_system.Reservations.Exclusive.{OneActive, view, hold_seat-OneActive}
use movie_reservation_system.Reservations.Interleaving.{System}
use movie_reservation_system.Reservations.Interleaving.Invariant.{Reach-OneActive}
use movie_reservation_system.Reservations.Interleaving.Alone.{hold_seat-Reach}
use movie_reservation_system.Tests.Worlds.{cinema, request, hold_1}

hold_seat_taken : hold_seat ⦃env = demo⦄ (request 1) cinema ≡ (err conflict, cinema)
unfolding hold_seat in_memory
hold_seat_taken = refl

-- The world after user 6 has got seat 2.
abbrev held_2 : World ⦃env = demo⦄
held_2 = (hold_seat ⦃env = demo⦄ (request 2) cinema).1

hold_seat_free : hold_seat ⦃env = demo⦄ (request 2) cinema ≡ (ok (new_hold (request 2) 2), held_2)
unfolding hold_seat in_memory
hold_seat_free = refl

hold_seat-Held_example : Held ⦃env = demo⦄ (request 2) cinema (new_hold (request 2) 2) held_2
hold_seat-Held_example =
    hold_seat-Held ⦃env = demo⦄ (request 2) cinema (new_hold (request 2) 2) held_2 hold_seat_free

hold_seat-Refused_example : (cinema ≡ cinema) × Refused ⦃env = demo⦄ (request 1) cinema conflict
hold_seat-Refused_example =
    hold_seat-Refused ⦃env = demo⦄ (request 1) cinema conflict cinema hold_seat_taken

seat_2_in_hall : SeatInHall ⦃env = demo⦄ (request 2) cinema
unfolding in_memory
seat_2_in_hall = (record { id = 2; hall_id = 1; row = []; number = 50 ∷ [] }, refl, refl)

only_key : (k : ℕ) (r : Reservation) → view ⦃env = demo⦄ cinema k ≡ some r → (k ≡ 1) × (r ≡ hold_1)
unfolding in_memory
only_key k r h = (ground arith, ground arith)

pub cinema-OneActive : OneActive (view ⦃env = demo⦄ cinema)
cinema-OneActive i j r t ne hi hj = absurd (omega (arith, (only_key i r hi).0, (only_key j t hj).0))

seat_2_free : SeatFree ⦃env = demo⦄ (request 2) cinema
seat_2_free k r h (_, seat, _) = absurd (ground (arith, (only_key k r h).1, seat))

hold_seat-available_example :
    (r : Reservation) × (w : World ⦃env = demo⦄) × (hold_seat ⦃env = demo⦄ (request 2) cinema
      ≡ (ok r, w))
hold_seat-available_example =
    hold_seat-available ⦃env = demo⦄ (request 2) cinema refl refl seat_2_in_hall seat_2_free

hold_seat-OneActive_example : OneActive (view ⦃env = demo⦄ held_2)
hold_seat-OneActive_example = hold_seat-OneActive ⦃env = demo⦄ (request 2) cinema cinema-OneActive

abbrev after_hold : System
after_hold =
    (hold_seat-Reach ⦃env = demo⦄ (request 2) cinema (new_hold (request 2) 2) held_2
      hold_seat_free).0

Reach-OneActive_example : OneActive after_hold.rows
Reach-OneActive_example =
    Reach-OneActive (demo.seat.get cinema.seats) (view ⦃env = demo⦄ cinema) after_hold
      cinema-OneActive
      ((hold_seat-Reach ⦃env = demo⦄ (request 2) cinema (new_hold (request 2) 2) held_2
        hold_seat_free).1)
