-- ===== src/Deletions.antt =====
-- Deleting halls and movies: `deleteHall` of backend/src/screenings/halls.service.ts and `deleteMovie` and
-- `listAllForAdmin` of backend/src/movies/movies.service.ts, with the foreign keys of
-- backend/prisma/schema.prisma, all of which cascade.
pub mod Kept
use movie_reservation_system.Base.{ℕ, Bool, true, false, Option, none, some, List, [], ◌∷◌, ◌==◌}
use movie_reservation_system.Schema.{Reservation, Payment, Screening, Seat, Hall, Movie}
use movie_reservation_system.Redis.{hall_list}
use movie_reservation_system.World.{
  Env, World, Action, not_found, conflict, pure, ◌>>=◌, ◌>>◌, throw_if, or_throw, gets, transaction,
  on_halls, on_seats, on_screenings, on_reservations, on_payments, on_movies, on_redis,
}
use movie_reservation_system.PaymentAbuse.{is_some}
use movie_reservation_system.Screenings.{del_lists}
use movie_reservation_system.Screenings.SeatMap.{order_by}
use movie_reservation_system.Halls.{find_hall_with_seats}
use movie_reservation_system.Movies.{get_existing_movie, del_movie, newer}

-- `where: { screen: { hallId } }` and `where: { screen: { movieId } }`, on the screening of a row
abbrev pub is_in_hall : ℕ → Option Screening → Bool
is_in_hall hall_id none = false
is_in_hall hall_id (some s) = s.hall_id == hall_id

abbrev pub is_of_movie : ℕ → Option Screening → Bool
is_of_movie movie_id none = false
is_of_movie movie_id (some s) = s.movie_id == movie_id

module _ ⦃env : Env⦄ where
  -- `ON DELETE CASCADE` from a row to those that refer to it.
  unfoldable pub delete_payments : List Payment → Action (Unit {0})
  delete_payments [] = pure tt
  delete_payments (p ∷ ps) = do on_payments (env.payment.delete p.id); delete_payments ps

  unfoldable pub delete_reservations : List Reservation → Action (Unit {0})
  delete_reservations [] = pure tt
  delete_reservations (r ∷ rs) = do
    on_reservations (env.reservation.delete r.id)
    paid ← gets (λ w. env.payment.find_many (λ p. p.reservation_id == r.id) w.payments)
    delete_payments paid
    delete_reservations rs

  unfoldable pub delete_screenings : List Screening → Action (Unit {0})
  delete_screenings [] = pure tt
  delete_screenings (s ∷ ss) = do
    on_screenings (env.screening.delete s.id)
    rows ← gets (λ w. env.reservation.find_many (λ r. r.screening_id == s.id) w.reservations)
    delete_reservations rows
    delete_screenings ss

  unfoldable pub delete_seats : List Seat → Action (Unit {0})
  delete_seats [] = pure tt
  delete_seats (s ∷ ss) = do
    on_seats (env.seat.delete s.id)
    rows ← gets (λ w. env.reservation.find_many (λ r. r.seat_id == s.id) w.reservations)
    delete_reservations rows
    delete_seats ss

  -- `HallsRepository.hasReservations` and `MoviesRepository.hasReservations`
  unfoldable pub hall_has_reservations : ℕ → World → Bool
  hall_has_reservations hall_id w = is_some (
      env.reservation.find_first
        (λ r. is_in_hall hall_id (env.screening.get w.screenings r.screening_id)) w.reservations)

  unfoldable pub movie_has_reservations : ℕ → World → Bool
  movie_has_reservations movie_id w = is_some (
      env.reservation.find_first
        (λ r. is_of_movie movie_id (env.screening.get w.screenings r.screening_id)) w.reservations)

  -- `HallsRepository.deleteHall` and `MoviesRepository.delete`, each one statement
  unfoldable pub delete_hall_row : ℕ → Action Hall
  delete_hall_row id = transaction do
    hall ← on_halls (env.hall.delete id)
    seats ← gets (λ w. env.seat.find_many (λ s. s.hall_id == id) w.seats)
    delete_seats seats
    screenings ← gets (λ w. env.screening.find_many (λ s. s.hall_id == id) w.screenings)
    delete_screenings screenings
    pure hall

  unfoldable pub delete_movie_row : ℕ → Action Movie
  delete_movie_row id = transaction do
    movie ← on_movies (env.movie.delete id)
    screenings ← gets (λ w. env.screening.find_many (λ s. s.movie_id == id) w.screenings)
    delete_screenings screenings
    pure movie

  -- `HallsService.deleteHall`
  unfoldable pub delete_hall : ℕ → ℕ → Action Hall
  delete_hall now id = do
    found ← gets (find_hall_with_seats id)
    hall ← or_throw found not_found
    taken ← gets (hall_has_reservations id)
    throw_if taken conflict
    deleted ← delete_hall_row id
    on_redis (env.redis.del hall_list now)
    pure deleted

  -- `MoviesService.deleteMovie`
  unfoldable pub delete_movie : ℕ → ℕ → Action Movie
  delete_movie now id = do
    existing ← get_existing_movie id
    taken ← gets (movie_has_reservations id)
    throw_if taken conflict
    deleted ← delete_movie_row id
    del_movie now id
    del_lists now
    pure deleted

  -- `listAllForAdmin`
  unfoldable pub list_all_for_admin : World → List Movie
  unfolding order_by
  list_all_for_admin w = order_by newer (env.movie.find_many (λ m. true) w.movies)
