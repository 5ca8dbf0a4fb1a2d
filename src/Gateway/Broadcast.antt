-- ===== src/Gateway/Broadcast.antt =====
-- What the visitors of a screening are sent: backend/src/gateway/reservation-broadcast.listener.ts, and
-- the gauges of backend/src/reservations/listeners/reservation-metrics.listener.ts. Whether Socket.io
-- takes a message is an argument.
use movie_reservation_system.Base.{ℕ, suc, Bool, List, [], ◌∷◌, ◌++◌, if◌then◌else◌}
use movie_reservation_system.Table.{Result, ok, err}
use movie_reservation_system.Schema.{SeatStatus, held, available, booked}
use movie_reservation_system.World.{
  Env, World, Event, Failure, created, cancelled, confirmed, hold_expired,
}
use movie_reservation_system.Screenings.SeatMap.{ScreeningSummary, get_screening_summary}

-- The messages, each with its screening or its user.
pub data SocketMessage : Type 0 where
  seat_reserved seat_cancelled seat_booked : ℕ → List ℕ → SeatStatus → SocketMessage
  screening_summary : ℕ → ScreeningSummary → SocketMessage
  hold_expired_for : (user_id screening_id seat_id : ℕ) → SocketMessage

-- One emission in its `try`.
abbrev pub try_emit : (SocketMessage → Bool) → SocketMessage → List SocketMessage
try_emit takes m = if takes m then m ∷ [] else []

abbrev pub summary_message :
    (SocketMessage → Bool) → ℕ → Result Failure ScreeningSummary → List SocketMessage
summary_message takes id (ok s) = try_emit takes (screening_summary id s)
summary_message takes id (err e) = []

module _ ⦃env : Env⦄ where
  -- `broadcast`
  unfoldable pub broadcast :
      (SocketMessage → Bool) → ℕ → ℕ → SocketMessage → World → List SocketMessage × World
  broadcast takes now screening_id delta w =
      let r = get_screening_summary now screening_id w in
      (try_emit takes delta ++ summary_message takes screening_id r.0, r.1)

  -- `handleCreated`, `handleCancelled`, `handleConfirmed` and `handleHoldExpired`
  unfoldable pub handle_event :
      (SocketMessage → Bool) → ℕ → Event → World → List SocketMessage × World
  unfolding broadcast
  handle_event takes now (created id seats) w =
      broadcast takes now id (seat_reserved id seats held) w
  handle_event takes now (cancelled id seats) w =
      broadcast takes now id (seat_cancelled id seats available) w
  handle_event takes now (confirmed id seats) w =
      broadcast takes now id (seat_booked id seats booked) w
  handle_event takes now (hold_expired user_id screening_id seat_id) w =
      (try_emit takes (hold_expired_for user_id screening_id seat_id), w)

-- The counters of the reservations; the gauge shows `held_up` less `held_down`.
pub record ReservationMetrics : Type 0 where
  pub created_total : ℕ
  pub cancelled_total : ℕ
  pub confirmed_total : ℕ
  pub held_up : ℕ
  pub held_down : ℕ

-- `ReservationMetricsListener`
unfoldable pub count_event : Event → ReservationMetrics → ReservationMetrics
count_event (created id seats) m = record m {
  created_total = suc m.created_total;
  held_up = suc m.held_up;
}
count_event (cancelled id seats) m = record m {
  cancelled_total = suc m.cancelled_total;
  held_down = suc m.held_down;
}
count_event (confirmed id seats) m = record m {
  confirmed_total = suc m.confirmed_total;
  held_down = suc m.held_down;
}
count_event (hold_expired user_id screening_id seat_id) m = m
