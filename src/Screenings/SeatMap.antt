-- ===== src/Screenings/SeatMap.antt =====
-- The reads of backend/src/screenings/screenings.service.ts, which go through the cache of
-- backend/src/screenings/screenings.cache.ts. Reading and writing it never fail here: where Redis does,
-- the code goes on as after a miss.
pub mod Rows
pub mod Derived
pub mod Counts
use movie_reservation_system.Base.{
  ℕ, suc, ◌+◌, ◌-◌, Bool, true, false, not, ◌&&◌, Option, some, none, List, [], ◌∷◌, map, ◌==◌, ltb,
  leb, length, if◌then◌else◌,
}
use movie_reservation_system.Table.{put}
use movie_reservation_system.Schema.{
  Movie, MovieStatus, Hall, Seat, Screening, Reservation, ReservationStatus, SeatStatus,
  ScreenStatus, available, booked, held, published, scheduled, is_active, is_scheduled,
}
use movie_reservation_system.Redis.{seat_map, screening_detail, movie_screenings}
use movie_reservation_system.World.{
  Env, World, Action, Detail, FutureScreening, SeatMapEntry, Cached, seats, detail, future,
  not_found, pure, ◌>>=◌, ◌>>◌, or_throw, gets, on_redis,
}
use movie_reservation_system.Screenings.{is_cancelled, find_detail}

-- The times to live, in milliseconds
abbrev pub seat_map_ttl : ℕ
seat_map_ttl = 300000

abbrev pub screening_detail_ttl : ℕ
screening_detail_ttl = 60000

abbrev pub movie_screenings_ttl : ℕ
movie_screenings_ttl = 60000

-- `orderBy`
unfoldable pub insert_by : {A : Type 0} → (A → A → Bool) → A → List A → List A
insert_by le x [] = x ∷ []
insert_by le x (y ∷ ys) = if le x y then x ∷ y ∷ ys else y ∷ insert_by le x ys

unfoldable pub order_by : {A : Type 0} → (A → A → Bool) → List A → List A
unfolding insert_by
order_by le [] = []
order_by le (x ∷ xs) = insert_by le x (order_by le xs)

-- The order of the row labels, letter by letter.
abbrev pub row_lt : List ℕ → List ℕ → Bool
row_lt [] [] = false
row_lt [] (y ∷ ys) = true
row_lt (x ∷ xs) [] = false
row_lt (x ∷ xs) (y ∷ ys) = if x == y then row_lt xs ys else ltb x y

-- `[{ row: 'asc' }, { id: 'asc' }]`
abbrev pub seat_le : Seat → Seat → Bool
seat_le s t =
    if row_lt s.row t.row then true else if row_lt t.row s.row then false else leb s.id t.id

-- `toSeatStatus`
abbrev pub to_seat_status : Option ReservationStatus → SeatStatus
to_seat_status (some ReservationStatus.held) = held
to_seat_status (some ReservationStatus.confirmed) = booked
to_seat_status _ = available

-- `statusBySeat`: a later row overwrites an earlier one.
unfoldable pub status_by_seat :
    List Reservation → (ℕ → Option ReservationStatus) → ℕ → Option ReservationStatus
status_by_seat [] m = m
status_by_seat (r ∷ rs) m = status_by_seat rs (put r.seat_id (some r.status) m)

abbrev pub entry : (ℕ → Option ReservationStatus) → Seat → SeatMapEntry
entry status s = record {
  seat_id = s.id;
  row = s.row;
  number = s.number;
  status = to_seat_status (status s.id);
}

-- `ScreeningSummary`
pub record ScreeningSummary : Type 0 where
  pub screening_id : ℕ
  pub capacity : ℕ
  pub held : ℕ
  pub booked : ℕ
  pub available : ℕ
  pub reserved : ℕ

-- The loop over the seat map, with the two counters.
abbrev pub count_status : SeatStatus → ℕ × ℕ → ℕ × ℕ
count_status SeatStatus.held (h, b) = (suc h, b)
count_status SeatStatus.booked (h, b) = (h, suc b)
count_status SeatStatus.available (h, b) = (h, b)

unfoldable pub count_seats : List SeatMapEntry → ℕ × ℕ → ℕ × ℕ
count_seats [] c = c
count_seats (e ∷ es) c = count_seats es (count_status e.status c)

unfoldable pub summary_of : ℕ → List SeatMapEntry → ScreeningSummary
summary_of id es =
    let (h, b) = count_seats es (0, 0) in
    record {
      screening_id = id;
      capacity = length es;
      held = h;
      booked = b;
      available = length es - h - b;
      reserved = h + b;
    }

-- What the cache holds, if it is of the kind that the key stands for.
abbrev pub as_seats : Option Cached → Option (List SeatMapEntry)
as_seats (some (seats es)) = some es
as_seats _ = none

abbrev pub as_detail : Option Cached → Option Detail
as_detail (some (detail d)) = some d
as_detail _ = none

abbrev pub as_future : Option Cached → Option (List FutureScreening)
as_future (some (future fs)) = some fs
as_future _ = none

-- A screening that is not cancelled.
abbrev pub not_hidden : Option Detail → Option Detail
not_hidden none = none
not_hidden (some d) = if is_cancelled d.screening.status then none else some d

module _ ⦃env : Env⦄ where
  unfoldable pub find_seats_by_hall : ℕ → World → List Seat
  unfolding order_by
  find_seats_by_hall hall_id w =
      order_by seat_le (env.seat.find_many (λ s. s.hall_id == hall_id) w.seats)

  abbrev pub is_active_of : ℕ → Reservation → Bool
  is_active_of id r = r.screening_id == id && is_active r.status

  abbrev pub find_active_reservations : ℕ → World → List Reservation
  find_active_reservations id w = env.reservation.find_many (is_active_of id) w.reservations

  -- The seat map as the tables have it.
  unfoldable pub build_seat_map : ℕ → Screening → World → List SeatMapEntry
  unfolding find_seats_by_hall status_by_seat
  build_seat_map id s w =
      map (entry (status_by_seat (find_active_reservations id w) (λ k. none)))
        (find_seats_by_hall s.hall_id w)

  unfoldable pub compute_seat_map : ℕ → ℕ → Action (List SeatMapEntry)
  unfolding build_seat_map find_detail
  compute_seat_map now id = do
    found ← gets (find_detail id)
    d ← or_throw (not_hidden found) not_found
    es ← gets (build_seat_map id d.screening)
    on_redis (env.redis.set (seat_map id) (seats es) seat_map_ttl now)
    pure es

  unfoldable pub get_seat_map : ℕ → ℕ → Action (List SeatMapEntry)
  unfolding compute_seat_map
  get_seat_map now id = do
    cached ← gets (λ w. as_seats (env.redis.value w.redis (seat_map id) now))
    elim cached [ some es ↦ pure es | none ↦ compute_seat_map now id ]

  unfoldable pub get_screening_summary : ℕ → ℕ → Action ScreeningSummary
  unfolding get_seat_map summary_of
  get_screening_summary now id = do es ← get_seat_map now id; pure (summary_of id es)

  unfoldable pub compute_detail : ℕ → ℕ → Action Detail
  unfolding find_detail
  compute_detail now id = do
    found ← gets (find_detail id)
    d ← or_throw (not_hidden found) not_found
    on_redis (env.redis.set (screening_detail d.screening.id) (detail d) screening_detail_ttl now)
    pure d

  unfoldable pub get_screening_detail : ℕ → ℕ → Action Detail
  unfolding compute_detail
  get_screening_detail now id = do
    cached ← gets (λ w. as_detail (env.redis.value w.redis (screening_detail id) now))
    elim cached [ some d ↦ or_throw (not_hidden (some d)) not_found | none ↦ compute_detail now id ]
