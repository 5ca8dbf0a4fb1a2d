-- ===== src/Tests/Screenings.antt =====
-- Examples of the schedule, the seat map and the halls.
use movie_reservation_system.Base.{
  ℕ, ◌+◌, ◌*◌, ◌<◌, ◌≤◌, ◌≡◌, refl, none, some, List, [], ◌∷◌, map, false, true, arith,
}
use movie_reservation_system.Table.{ok, err, Result, put}
use movie_reservation_system.Schema.{Screening, SeatStatus, published}
use movie_reservation_system.World.{World, Failure, SeatMapEntry, conflict}
use movie_reservation_system.World.Memory.{demo, in_memory}
use movie_reservation_system.Screenings.{
  is_cancelled, CreateScreening, UpdateScreening, find_detail, find_overlapping, assert_no_overlap,
  create_screening, update_screening,
}
use movie_reservation_system.Screenings.Schedule.{Apart, schedule}
use movie_reservation_system.Screenings.Apart.{create_screening-Apart, update_screening-Apart}
use movie_reservation_system.Screenings.SeatMap.{
  as_seats, seat_map_ttl, summary_of, build_seat_map, compute_seat_map, get_seat_map,
  find_seats_by_hall, order_by, insert_by, status_by_seat,
}
use movie_reservation_system.Screenings.SeatMap.Counts.{how_many, summary_of-how_many}
use movie_reservation_system.Screenings.SeatMap.Derived.{SeatMapOf, get_seat_map-SeatMapOf}
use movie_reservation_system.Halls.{grid, row_label, create_hall}
use movie_reservation_system.Halls.Labels.{read_label, read-row_label}
use movie_reservation_system.Halls.Grid.{position, count_up, grid-position}
use movie_reservation_system.Halls.Creation.{Outcome, create_hall-Outcome}
use movie_reservation_system.Redis.{seat_map}
use movie_reservation_system.Screenings.SeatMap.{as_future}
use movie_reservation_system.Screenings.Selection.{
  select_fields, compute_movie_screenings, get_movie_screenings, get_movie_screenings_offered,
}
use movie_reservation_system.Movies.{is_published}
use movie_reservation_system.Redis.{movie_screenings}
use movie_reservation_system.World.{FutureScreening}
use movie_reservation_system.Schema.{is_scheduled, Movie}
use movie_reservation_system.Base.{In, true}
use movie_reservation_system.Tests.Worlds.{cinema}

-- Movie 3 runs 100 minutes, and is shown in hall 1 at time 5000000.
abbrev theatre : World ⦃env = demo⦄
theatre = record cinema {
  movies = record {
    bound = 4;
    at =
        put 3
          (some (record { id = 3; name = "M"; duration = 100; status = published; created_at = 0 }))
          (λ k. none);
    answers = true;
  };
  halls = record {
    bound = 2;
    at = put 1 (some (record { id = 1; name = "One"; capacity = 2 })) (λ k. none);
    answers = true;
  };
}

only_screening : (k : ℕ) (s : Screening) → schedule ⦃env = demo⦄ theatre k ≡ some s → k ≡ 7
unfolding in_memory
only_screening k s h = ground arith

theatre-Apart : Apart ⦃env = demo⦄ theatre
theatre-Apart i j s t ne hi hj =
    absurd (omega (arith, only_screening i s hi, only_screening j t hj, ne))

-- A screening that begins 50 minutes into the other one, and one that begins when it ends.
abbrev show_at : ℕ → CreateScreening
show_at start = record { movie_id = 3; hall_id = 1; start_time = start; price = 10 }

create_during : (create_screening ⦃env = demo⦄ 100 (show_at 8000000) theatre).0 ≡ err conflict
unfolding create_screening assert_no_overlap find_overlapping in_memory
create_during = refl

create_screening-Apart_example :
    Apart ⦃env = demo⦄ (create_screening ⦃env = demo⦄ 100 (show_at 11000000) theatre).1
create_screening-Apart_example =
    create_screening-Apart ⦃env = demo⦄ 100 (show_at 11000000) theatre theatre-Apart

abbrev move_to : ℕ → UpdateScreening
move_to start = record { movie_id = none; hall_id = none; start_time = some start; price = none }

update_screening-Apart_example :
    Apart ⦃env = demo⦄ (update_screening ⦃env = demo⦄ 100 7 (move_to 8000000) theatre).1
update_screening-Apart_example =
    update_screening-Apart ⦃env = demo⦄ 100 7 (move_to 8000000) theatre theatre-Apart

abbrev map_7 : List SeatMapEntry
map_7 =
    record { seat_id = 1; row = []; number = 49 ∷ []; status = SeatStatus.held }
    ∷ record { seat_id = 2; row = []; number = 50 ∷ []; status = SeatStatus.available }
    ∷ []

abbrev mapped : Result Failure (List SeatMapEntry) × World ⦃env = demo⦄
mapped = get_seat_map ⦃env = demo⦄ 100 7 theatre

mapped_ok : mapped ≡ (ok map_7, mapped.1)
unfolding get_seat_map compute_seat_map build_seat_map find_seats_by_hall order_by insert_by
    status_by_seat find_detail in_memory
mapped_ok = refl

no_cached_map : as_seats (demo.redis.value theatre.redis (seat_map 7) 100) ≡ none
unfolding in_memory
no_cached_map = refl

get_seat_map-SeatMapOf_example :
    ((s : Screening) × (demo.screening.get theatre.screenings 7 ≡ some s)
      × (is_cancelled s.status ≡ false)
      × SeatMapOf ⦃env = demo⦄ 7 s.hall_id theatre map_7)
    × ((later : ℕ)
        → 100 ≤ later
        → later < 100 + seat_map_ttl
        → get_seat_map ⦃env = demo⦄ later 7 mapped.1 ≡ (ok map_7, mapped.1))
get_seat_map-SeatMapOf_example =
    get_seat_map-SeatMapOf ⦃env = demo⦄ 100 7 map_7 theatre mapped.1 no_cached_map mapped_ok

summary_of-how_many_example :
    let s = summary_of 7 map_7 in
    (s.held ≡ how_many SeatStatus.held map_7)
    × (s.booked ≡ how_many SeatStatus.booked map_7)
    × (s.available ≡ how_many SeatStatus.available map_7)
    × (s.reserved + s.available ≡ s.capacity)
summary_of-how_many_example = summary_of-how_many 7 map_7

-- Row 27 is AB.
label_27 : row_label 27 ≡ 65 ∷ 66 ∷ []
unfolding row_label
label_27 = refl

read-row_label_example : read_label 0 (row_label 27) ≡ 28
read-row_label_example = read-row_label 27

grid-position_example : map (position 3) (grid 1 0 2 3) ≡ count_up (0 * 3) (2 * 3)
grid-position_example = grid-position 1 0 2 3

create_hall-Outcome_example :
    Outcome ⦃env = demo⦄ "Two" 2 3 theatre (create_hall ⦃env = demo⦄ 100 "Two" 2 3 theatre)
create_hall-Outcome_example = create_hall-Outcome ⦃env = demo⦄ 100 "Two" 2 3 theatre

-- The movie of the theatre has screening 7 to come.
abbrev offers : Result Failure (List FutureScreening) × World ⦃env = demo⦄
offers = get_movie_screenings ⦃env = demo⦄ 100 3 theatre

abbrev offer_7 : FutureScreening
offer_7 = record {
  id = 7;
  start_time = 5000000;
  price = 12;
  hall = some (record { id = 1; name = "One"; capacity = 2 });
}

offers_ok : offers ≡ (ok (offer_7 ∷ []), offers.1)
unfolding get_movie_screenings compute_movie_screenings order_by insert_by in_memory
offers_ok = refl

no_cached_offers : as_future (demo.redis.value theatre.redis (movie_screenings 3) 100) ≡ none
unfolding in_memory
no_cached_offers = refl

get_movie_screenings_offered_example :
    ((m : Movie) × (demo.movie.get theatre.movies 3 ≡ some m) × (is_published m.status ≡ true))
    × ((x : FutureScreening)
        → In x (offer_7 ∷ [])
        → (s : Screening) × (demo.screening.get theatre.screenings x.id ≡ some s)
          × (s.movie_id ≡ 3)
          × (is_scheduled s.status ≡ true)
          × (100 < s.start_time)
          × (x ≡ select_fields ⦃env = demo⦄ theatre s))
get_movie_screenings_offered_example =
    get_movie_screenings_offered ⦃env = demo⦄ 100 3 (offer_7 ∷ []) theatre offers.1 no_cached_offers
      offers_ok
