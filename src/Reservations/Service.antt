-- ===== src/Reservations/Service.antt =====
-- backend/src/reservations/reservations.service.ts, except for `cancel`, which calls the payments
-- service (`Payments/Cancellation.antt`).
use movie_reservation_system.Base.{
  ℕ, ◌+◌, ◌*◌, Option, some, none, List, [], ◌∷◌, ◌==◌, leb, if◌then◌else◌,
}
use movie_reservation_system.PaymentAbuse.{is_locked_out}
use movie_reservation_system.Schema.{Reservation, ReservationStatus, Screening, is_scheduled}
use movie_reservation_system.World.{
  Env, World, Action, bad_request, forbidden, not_found, created, confirmed, cancelled,
  hold_expired, pure, ◌>>=◌, ◌>>◌, throw_if, or_throw, finally, gets, emit,
}
use movie_reservation_system.Reservations.{
  HoldSeatParams, group_by_screening, hold_minutes, confirm, set_status, release_expired_holds,
  guarded_hold, acquire, release,
}

-- `!screening || screening.status !== SCHEDULED`
abbrev pub scheduled_only : Option Screening → Option Screening
scheduled_only none = none
scheduled_only (some s) = if is_scheduled s.status then some s else none

-- `reservation.userId !== userId`
abbrev pub owned_by : ℕ → Option Reservation → Option Reservation
owned_by user_id none = none
owned_by user_id (some r) = if r.user_id == user_id then some r else none

abbrev pub hold_params : ℕ → ℕ → ℕ → ℕ → Screening → HoldSeatParams
hold_params now user_id screening_id seat_id s = record {
  user_id = user_id;
  screening_id = screening_id;
  hall_id = s.hall_id;
  seat_id = seat_id;
  held_until = now + hold_minutes * 60000;
}

module _ ⦃env : Env⦄ where
  -- The part of `reserve` between `acquire` and `release`.
  unfoldable pub hold_within_limit : HoldSeatParams → Action Reservation
  hold_within_limit p = do acquire; finally (guarded_hold p) release

  -- `reserve`: the time, the user, and the screening and the seat of the request
  unfoldable pub reserve : ℕ → ℕ → ℕ → ℕ → Action Reservation
  unfolding hold_within_limit
  reserve now user_id screening_id seat_id = do
    locked_out ← gets (is_locked_out user_id now)
    throw_if locked_out forbidden
    found ← gets (λ w. env.screening.get w.screenings screening_id)
    screening ← or_throw (scheduled_only found) not_found
    throw_if (leb screening.start_time now) bad_request
    reservation ← hold_within_limit (hold_params now user_id screening_id seat_id screening)
    emit (created screening_id (reservation.seat_id ∷ []))
    pure reservation

  unfoldable pub emit_cancelled : List (ℕ × List ℕ) → Action (Unit {0})
  emit_cancelled [] = pure tt
  emit_cancelled ((screening_id, seat_ids) ∷ m) = do
    emit (cancelled screening_id seat_ids)
    emit_cancelled m

  unfoldable pub emit_expired : List Reservation → Action (Unit {0})
  emit_expired [] = pure tt
  emit_expired (r ∷ rs) = do emit (hold_expired r.user_id r.screening_id r.seat_id); emit_expired rs

  -- With no row released, both loops are empty.
  unfoldable pub expire_holds : ℕ → Action (Unit {0})
  unfolding emit_cancelled emit_expired
  expire_holds now = do
    rows ← release_expired_holds now
    emit_cancelled (group_by_screening rows [])
    emit_expired rows

  unfoldable pub finalize_cancel : Reservation → Action Reservation
  finalize_cancel r = do
    row ← set_status r.id ReservationStatus.cancelled
    emit (cancelled r.screening_id (r.seat_id ∷ []))
    pure row

  unfoldable pub get_by_id : ℕ → Action Reservation
  get_by_id id = do
    found ← gets (λ w. env.reservation.get w.reservations id)
    or_throw found not_found

  unfoldable pub find_owned : ℕ → ℕ → Action Reservation
  unfolding get_by_id
  find_owned user_id id = do r ← get_by_id id; or_throw (owned_by user_id (some r)) not_found

  unfoldable pub confirm_payment : ℕ → Action Reservation
  confirm_payment id = do r ← confirm id; emit (confirmed r.screening_id (r.seat_id ∷ [])); pure r

  unfoldable pub list_mine : ℕ → World → List Reservation
  list_mine user_id w = env.reservation.find_many (λ r. r.user_id == user_id) w.reservations
