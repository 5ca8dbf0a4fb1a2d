-- ===== src/Tests/Worlds.antt =====
-- The worlds and requests of the examples.
use movie_reservation_system.Base.{ℕ, none, some, true, [], ◌∷◌}
use movie_reservation_system.Schema.{
  Reservation, Seat, Screening, Payment, held, scheduled, pending,
}
use movie_reservation_system.Table.Memory.{Memory}
use movie_reservation_system.Table.{put}
use movie_reservation_system.World.{World}
use movie_reservation_system.World.Memory.{demo, blank}
use movie_reservation_system.Reservations.{HoldSeatParams}

-- Seats 1 and 2 of hall 1.
abbrev pub hall_seats : Memory Seat
hall_seats = record {
  bound = 3;
  at =
      put 1 (some (record { id = 1; hall_id = 1; row = []; number = 49 ∷ [] }))
        (put 2 (some (record { id = 2; hall_id = 1; row = []; number = 50 ∷ [] })) (λ k. none));
  answers = true;
}

-- Screening 7 in hall 1, at time 5000000.
abbrev pub screening_7 : Screening
screening_7 = record {
  id = 7;
  hall_id = 1;
  movie_id = 3;
  start_time = 5000000;
  status = scheduled;
  price = 12;
}

-- User 5 holds seat 1 of screening 7.
abbrev pub hold_1 : Reservation
hold_1 = record {
  id = 1;
  screening_id = 7;
  seat_id = 1;
  user_id = 5;
  status = held;
  held_until = some 600000;
}

abbrev pub cinema : World ⦃env = demo⦄
cinema = record blank {
  seats = hall_seats;
  screenings = record { bound = 8; at = put 7 (some screening_7) (λ k. none); answers = true };
  reservations = record { bound = 2; at = put 1 (some hold_1) (λ k. none); answers = true };
}

abbrev pub request : ℕ → HoldSeatParams
request seat = record {
  user_id = 6;
  screening_id = 7;
  hall_id = 1;
  seat_id = seat;
  held_until = 700000;
}

-- Reservation 1 with a payment that is being checked out.
abbrev pub payment_1 : Payment
payment_1 = record {
  id = 1;
  reservation_id = 1;
  amount = 1200;
  currency = "usd";
  status = pending;
  stripe_payment_id = none;
  stripe_session_id = "cs_1";
  stripe_event_id = none;
  refund_id = none;
  refunded_at = none;
  disputed = none;
  dispute_reason = none;
  disputed_at = none;
  created_at = 0;
}

abbrev pub paying : World ⦃env = demo⦄
paying = record cinema {
  payments = record { bound = 2; at = put 1 (some payment_1) (λ k. none); answers = true };
}
