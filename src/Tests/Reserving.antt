-- ===== src/Tests/Reserving.antt =====
-- Examples of `reserve` and of the sweep of expired holds.
use movie_reservation_system.Base.{
  true, some, none, arith, [], ◌∷◌, In, ℕ, ℕ, ◌≡◌, ◌≢◌, ◌⊎◌, refl, List, [], ◌∷◌, In,
}
use movie_reservation_system.Table.{ok, err, Result, put}
use movie_reservation_system.Schema.{Reservation, SeatStatus, published}
use movie_reservation_system.World.{SeatMapEntry, created, World, Failure, Verdict, conflict}
use movie_reservation_system.World.Memory.{demo, in_memory}
use movie_reservation_system.PaymentAbuse.{is_locked_out}
use movie_reservation_system.Reservations.{
  new_hold, group_by_screening, add_seat, acquire, guarded_hold, hold_seat, release,
}
use movie_reservation_system.Reservations.Service.{reserve, expire_holds, hold_params}
use movie_reservation_system.Reservations.Exclusive.{OneActive, view}
use movie_reservation_system.Reservations.Reserving.{
  Reserved, reserve-Reserved, reserve_failed, reserve-OneActive,
}
use movie_reservation_system.Reservations.Expiry.{
  keys, NoRepeat, seats_in, seats_of, group_by_screening-seats_of,
}
use movie_reservation_system.Reservations.Sweep.{Swept, expire_holds-Swept}
use movie_reservation_system.Screenings.{find_detail}
use movie_reservation_system.Screenings.SeatMap.{
  order_by, insert_by, status_by_seat, find_seats_by_hall, build_seat_map, compute_seat_map,
  get_seat_map,
}
use movie_reservation_system.Listeners.{invalidate_seat_map}
use movie_reservation_system.Listeners.Fresh.{reserve-shown}
use movie_reservation_system.Tests.Worlds.{cinema, screening_7, hold_1}
use movie_reservation_system.Tests.Holding.{cinema-OneActive}

-- User 6 reserves seat 2 of screening 7 at time 100000.
abbrev got : Result Failure Reservation × World ⦃env = demo⦄
got = reserve ⦃env = demo⦄ 100000 6 7 2 cinema

abbrev hold_2 : Reservation
hold_2 = new_hold (hold_params 100000 6 7 2 screening_7) 2

reserve_free : reserve ⦃env = demo⦄ 100000 6 7 2 cinema ≡ (ok hold_2, got.1)
unfolding reserve in_memory is_locked_out acquire guarded_hold hold_seat release
reserve_free = refl

reserve-Reserved_example : Reserved ⦃env = demo⦄ 100000 6 7 2 cinema hold_2 got.1
reserve-Reserved_example =
    reserve-Reserved ⦃env = demo⦄ 100000 6 7 2 cinema hold_2 got.1 reserve_free

reserve-OneActive_example : OneActive (view ⦃env = demo⦄ got.1)
reserve-OneActive_example = reserve-OneActive ⦃env = demo⦄ 100000 6 7 2 cinema cinema-OneActive

reserve_taken : reserve ⦃env = demo⦄ 100000 6 7 1 cinema ≡ (err conflict, cinema)
unfolding reserve in_memory is_locked_out acquire guarded_hold hold_seat release
reserve_taken = refl

reserve_failed_example :
    (cinema.events ≡ cinema.events)
    × (cinema.active ≡ cinema.active)
    × (Verdict.admit ≢ Verdict.give_up → cinema.reservations ≡ cinema.reservations)
reserve_failed_example =
    reserve_failed ⦃env = demo⦄ 100000 6 7 1 cinema conflict cinema reserve_taken

expire_holds-Swept_example :
    ((rows : List Reservation) × (w : World ⦃env = demo⦄) × (expire_holds ⦃env = demo⦄ 600001 cinema
        ≡ (ok tt, w))
      × Swept ⦃env = demo⦄ 600001 cinema rows w)
    ⊎ ((e : Failure) × (expire_holds ⦃env = demo⦄ 600001 cinema ≡ (err e, cinema)))
expire_holds-Swept_example = expire_holds-Swept ⦃env = demo⦄ 600001 cinema

abbrev rows : List Reservation
rows =
    hold_1 ∷ record hold_1 { id = 3; screening_id = 8 } ∷ record hold_1 { id = 4; seat_id = 2 } ∷ []

group_rows : group_by_screening rows [] ≡ (7, 1 ∷ 2 ∷ []) ∷ (8, 1 ∷ []) ∷ []
unfolding group_by_screening add_seat
group_rows = refl

group_by_screening-seats_of_example :
    NoRepeat (keys (group_by_screening rows []))
    × ((k : ℕ) (seats : List ℕ)
        → In (k, seats) (group_by_screening rows [])
        → seats ≡ seats_of k rows)
    × ((k : ℕ) → seats_in k (group_by_screening rows []) ≡ seats_of k rows)
group_by_screening-seats_of_example = group_by_screening-seats_of rows

-- The same where the hall and the movie are set down too.
abbrev with_hall : World ⦃env = demo⦄ → World ⦃env = demo⦄
with_hall w = record w {
  movies = record {
    bound = 4;
    at =
        put 3
          (some (record { id = 3; name = "M"; duration = 100; status = published; created_at = 0 }))
          (λ k. none);
    answers = true;
  };
  halls = record {
    bound = 2;
    at = put 1 (some (record { id = 1; name = "One"; capacity = 2 })) (λ k. none);
    answers = true;
  };
}

abbrev booked_2 : Result Failure Reservation × World ⦃env = demo⦄
booked_2 = reserve ⦃env = demo⦄ 100000 6 7 2 (with_hall cinema)

booked_2_ok : booked_2 ≡ (ok hold_2, booked_2.1)
unfolding reserve in_memory is_locked_out acquire guarded_hold hold_seat release
booked_2_ok = refl

booked_2_answers : demo.redis.answers booked_2.1.redis ≡ true
unfolding reserve in_memory is_locked_out acquire guarded_hold hold_seat release
booked_2_answers = refl

abbrev shown_map : Result Failure (List SeatMapEntry) × World ⦃env = demo⦄
shown_map =
    get_seat_map ⦃env = demo⦄ 200000 7
      (invalidate_seat_map ⦃env = demo⦄ 100000 (created 7 (2 ∷ [])) booked_2.1)

abbrev both_held : List SeatMapEntry
both_held =
    record { seat_id = 1; row = []; number = 49 ∷ []; status = SeatStatus.held }
    ∷ record { seat_id = 2; row = []; number = 50 ∷ []; status = SeatStatus.held }
    ∷ []

shown_map_ok : shown_map ≡ (ok both_held, shown_map.1)
unfolding get_seat_map compute_seat_map build_seat_map find_seats_by_hall order_by insert_by
    status_by_seat find_detail invalidate_seat_map reserve in_memory is_locked_out acquire
    guarded_hold hold_seat release native.Mathlib.Decide.ℕ_discrete
shown_map_ok = refl

reserve-shown_example :
    (e : SeatMapEntry) × In e both_held × (e.seat_id ≡ 2) × (e.status ≡ SeatStatus.held)
reserve-shown_example =
    reserve-shown ⦃env = demo⦄ 100000 200000 6 7 2 hold_2 both_held (with_hall cinema) booked_2.1
      shown_map.1 (omega arith) booked_2_answers cinema-OneActive booked_2_ok shown_map_ok
