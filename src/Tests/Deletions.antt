-- ===== src/Tests/Deletions.antt =====
-- Examples of deletions.
use movie_reservation_system.Base.{◌≡◌, refl, none, some, true}
use movie_reservation_system.Table.{ok, put, Result}
use movie_reservation_system.Schema.{Movie, Hall, published}
use movie_reservation_system.World.{World, Failure}
use movie_reservation_system.World.Memory.{demo, in_memory}
use movie_reservation_system.Screenings.SeatMap.{order_by, insert_by, find_seats_by_hall}
use movie_reservation_system.Halls.{find_hall_with_seats}
use movie_reservation_system.Deletions.{
  delete_hall, delete_hall_row, delete_seats, delete_screenings, delete_reservations,
  delete_payments, hall_has_reservations, delete_movie,
}
use movie_reservation_system.Deletions.Kept.{SameBookings, delete_movie-SameBookings}
use movie_reservation_system.Tests.Worlds.{paying, screening_7}

abbrev movie_3 : Movie
movie_3 = record { id = 3; name = "M"; duration = 100; status = published; created_at = 0 }

abbrev hall_1 : Hall
hall_1 = record { id = 1; name = "One"; capacity = 2 }

-- Screening 7 of movie 3, with a booking and its payment.
abbrev programme : World ⦃env = demo⦄
programme = record paying {
  movies = record { bound = 4; at = put 3 (some movie_3) (λ k. none); answers = true };
}

delete_movie-SameBookings_example :
    SameBookings ⦃env = demo⦄ (delete_movie ⦃env = demo⦄ 100 3 programme).1 programme
delete_movie-SameBookings_example = delete_movie-SameBookings ⦃env = demo⦄ 100 3 programme

-- `updateScreening` has moved screening 7 to hall 2; the booking is for a seat of hall 1.
abbrev moved : World ⦃env = demo⦄
moved = record programme {
  screenings = record {
    bound = 8;
    at = put 7 (some (record screening_7 { hall_id = 2 })) (λ k. none);
    answers = true;
  };
  halls = record { bound = 2; at = put 1 (some hall_1) (λ k. none); answers = true };
}

abbrev after : Result Failure Hall × World ⦃env = demo⦄
after = delete_hall ⦃env = demo⦄ 100 1 moved

-- The deletion of hall 1 takes the booking and its payment with it.
booking_lost :
    (after.0 ≡ ok hall_1)
    × (demo.reservation.get after.1.reservations 1 ≡ none)
    × (demo.payment.get after.1.payments 1 ≡ none)
unfolding delete_hall delete_hall_row delete_seats delete_screenings delete_reservations
    delete_payments hall_has_reservations find_hall_with_seats find_seats_by_hall order_by insert_by
    in_memory
booking_lost = (refl, refl, refl)
