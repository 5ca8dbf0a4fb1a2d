-- ===== src/Halls.antt =====
-- Halls: backend/src/screenings/halls.repository.ts and backend/src/screenings/halls.service.ts. A
-- character of a label or of a seat's number is its code, as in `String.fromCharCode`.
pub mod Labels
pub mod Grid
pub mod Creation
use Prim.Native.String.{String}
use movie_reservation_system.Base.{
  ℕ, zero, suc, ◌+◌, ◌-◌, ◌*◌, ◌/◌, ◌%◌, Bool, true, false, not, ◌&&◌, Option, some, none, List, [],
  ◌∷◌, ◌++◌, refl, ◌==◌, ltb, if◌then◌else◌,
}
use movie_reservation_system.Table.{Result, ok, err}
use movie_reservation_system.Schema.{Hall, Seat}
use movie_reservation_system.Redis.{hall_list}
use movie_reservation_system.World.{
  Env, World, Action, Cached, halls, not_found, conflict, pure, ◌>>=◌, ◌>>◌, throw_if, or_throw,
  gets, transaction, on_halls, on_seats, on_redis,
}
use movie_reservation_system.PaymentAbuse.{is_some}
use movie_reservation_system.Screenings.SeatMap.{order_by, find_seats_by_hall}

-- The `do … while` of `rowLabel`, on fuel: `n` is below it at the first call, and falls.
unfoldable pub label_loop : ℕ → ℕ → List ℕ → List ℕ
label_loop zero n label = label
label_loop (suc fuel) n label =
    let rest = label_loop fuel (n / 26 - 1) ((65 + n % 26) ∷ label) in
    if ltb n 26 then (65 + n % 26) ∷ label else rest

-- `rowLabel`
unfoldable pub row_label : ℕ → List ℕ
unfolding label_loop
row_label index = label_loop (suc index) index []

-- One element of `seats`, to which `createMany` gives an id.
pub record SeatInput : Type 0 where
  pub hall_id : ℕ
  pub row : List ℕ
  pub number : List ℕ

-- `String` of a number, on fuel: `n` is below it at the first call, and falls.
unfoldable pub digit_loop : ℕ → ℕ → List ℕ → List ℕ
digit_loop zero n text = text
digit_loop (suc fuel) n text =
    let rest = digit_loop fuel (n / 10) ((48 + n % 10) ∷ text) in
    if ltb n 10 then (48 + n % 10) ∷ text else rest

unfoldable pub decimal : ℕ → List ℕ
unfolding digit_loop
decimal n = digit_loop (suc n) n []

-- The inner loop, from seat `s` on.
unfoldable pub seat_row : ℕ → List ℕ → ℕ → ℕ → List SeatInput
unfolding decimal
seat_row hall_id row s zero = []
seat_row hall_id row s (suc n) =
    record { hall_id = hall_id; row = row; number = decimal s } ∷ seat_row hall_id row (suc s) n

-- The outer loop, from row `r` on.
unfoldable pub grid : ℕ → ℕ → ℕ → ℕ → List SeatInput
unfolding seat_row row_label
grid hall_id r zero seats_per_row = []
grid hall_id r (suc n) seats_per_row =
    seat_row hall_id (row_label r) 1 seats_per_row ++ grid hall_id (suc r) n seats_per_row

abbrev pub new_hall : String → ℕ → ℕ → Hall
new_hall name capacity id = record { id = id; name = name; capacity = capacity }

abbrev pub new_seat : SeatInput → ℕ → Seat
new_seat s id = record { id = id; hall_id = s.hall_id; row = s.row; number = s.number }

-- `HallWithSeats`
pub record HallWithSeats : Type 0 where
  pub hall : Hall
  pub seats : List Seat

-- The time to live of the list of halls
abbrev pub hall_list_ttl : ℕ
hall_list_ttl = 300000

abbrev pub as_halls : Option Cached → Option (List Hall)
as_halls (some (halls hs)) = some hs
as_halls _ = none

abbrev pub hall_le : Hall → Hall → Bool
hall_le a b = not (ltb b.id a.id)

module _ ⦃env : Env⦄ where
  -- `createMany`, one row after the other: a failure rolls the transaction back.
  unfoldable pub create_many : List SeatInput → Action (Unit {0})
  create_many [] = pure tt
  create_many (s ∷ ss) = do on_seats (env.seat.create (new_seat s) (λ k. refl)); create_many ss

  -- `findHallWithSeats`
  unfoldable pub find_hall_with_seats : ℕ → World → Option HallWithSeats
  unfolding find_seats_by_hall
  find_hall_with_seats id w = elim (env.hall.get w.halls id) [
    | none ↦ none
    | some h ↦ some (record { hall = h; seats = find_seats_by_hall id w })
  ]

  -- `createHallWithSeats`; the hall that it has just stored is there to be read.
  unfoldable pub create_hall_with_seats : String → ℕ → ℕ → Action HallWithSeats
  unfolding create_many find_hall_with_seats grid
  create_hall_with_seats name rows seats_per_row = transaction do
    hall ← on_halls (env.hall.create (new_hall name (rows * seats_per_row)) (λ k. refl))
    create_many (grid hall.id 0 rows seats_per_row)
    found ← gets (find_hall_with_seats hall.id)
    or_throw found not_found

  unfoldable pub create_hall : ℕ → String → ℕ → ℕ → Action HallWithSeats
  create_hall now name rows seats_per_row = do
    hall ← create_hall_with_seats name rows seats_per_row
    on_redis (env.redis.del hall_list now)
    pure hall

  unfoldable pub get_hall : ℕ → Action HallWithSeats
  get_hall id = do found ← gets (find_hall_with_seats id); or_throw found not_found

  -- `listHalls`
  unfoldable pub list_halls : ℕ → Action (List Hall)
  unfolding order_by
  list_halls now = do
    cached ← gets (λ w. as_halls (env.redis.value w.redis hall_list now))
    elim cached [
      | some hs ↦ pure hs
      | none ↦ do
        hs ← gets (λ w. order_by hall_le (env.hall.find_many (λ h. true) w.halls))
        on_redis (env.redis.set hall_list (halls hs) hall_list_ttl now)
        pure hs
    ]
