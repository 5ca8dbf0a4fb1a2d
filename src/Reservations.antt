-- ===== src/Reservations.antt =====
-- Holding a seat: backend/src/reservations/reservations.repository.ts and
-- reservation-breaker.service.ts, with the concurrency guard of
-- backend/src/common/guards/concurrency.guard.ts. Each method that reads the clock takes the time as
-- its first argument. The service's methods are in `Service`, and the proofs in the other children.
pub mod Service
pub mod Holding
pub mod Exclusive
pub mod Interleaving
pub mod Guarded
pub mod Slot
pub mod Reserving
pub mod Expiry
pub mod Sweep
use movie_reservation_system.Base.{
  ℕ, suc, ◌+◌, ◌-◌, ◌*◌, ◌<◌, Bool, true, false, not, ◌&&◌, ◌||◌, Option, some, none, List, [], ◌∷◌,
  ◌++◌, ◌≡◌, refl, ltb, leb, ◌==◌, if◌then◌else◌, length,
}
use movie_reservation_system.Table.{
  DbError, unique_violation, row_missing, timed_out, unavailable, Result, ok, err,
}
use movie_reservation_system.Redis.{payment_lockout}
use movie_reservation_system.Schema.{
  Reservation, ReservationStatus, Screening, Seat, held, confirmed, is_held, is_active,
  is_scheduled,
}
use movie_reservation_system.World.{
  Env, World, Action, Failure, bad_request, unauthorized, forbidden, not_found, conflict,
  too_many_requests, internal_server_error, service_unavailable, prisma, stripe_error, breaker_open,
  breaker_timeout, hash_error, mail_error, Verdict, Event, created, cancelled, hold_expired, pure,
  throw, ◌>>=◌, ◌>>◌, throw_if, or_throw, finally, catch, gets, modify, on_reservations, emit,
}

pub record HoldSeatParams : Type 0 where
  pub user_id : ℕ
  pub screening_id : ℕ
  pub hall_id : ℕ
  pub seat_id : ℕ
  pub held_until : ℕ

-- The rows that the existence check of `holdSeat` looks for.
abbrev pub takes_seat : HoldSeatParams → Reservation → Bool
takes_seat p r = r.screening_id == p.screening_id && r.seat_id == p.seat_id && is_active r.status

abbrev pub is_seat_of_hall : HoldSeatParams → Seat → Bool
is_seat_of_hall p s = s.id == p.seat_id && s.hall_id == p.hall_id

abbrev pub new_hold : HoldSeatParams → ℕ → Reservation
new_hold p id = record {
  id = id;
  screening_id = p.screening_id;
  seat_id = p.seat_id;
  user_id = p.user_id;
  status = held;
  held_until = some p.held_until;
}

-- `if (locked.length !== 1)`
abbrev pub is_one : {A : Type 0} → List A → Bool
is_one xs = length xs == 1

abbrev pub is_some : {A : Type 0} → Option A → Bool
is_some none = false
is_some (some a) = true

-- The `catch` of `holdSeat`.
abbrev pub translate : Failure → Failure
translate conflict = conflict
translate bad_request = bad_request
translate (prisma unique_violation) = conflict
translate (prisma timed_out) = service_unavailable
translate _ = internal_server_error

-- `err instanceof HttpException`
abbrev pub is_http : Failure → Bool
is_http (prisma e) = false
is_http stripe_error = false
is_http breaker_open = false
is_http breaker_timeout = false
is_http hash_error = false
is_http mail_error = false
is_http _ = true

-- `errorFilter`: an HTTP exception below 500 does not count against the breaker.
abbrev pub is_filtered : Failure → Bool
is_filtered internal_server_error = false
is_filtered service_unavailable = false
is_filtered e = is_http e

abbrev pub is_counted : {A : Type 0} → Result Failure A → Bool
is_counted (ok a) = false
is_counted (err e) = not (is_filtered e)

abbrev pub hold_minutes : ℕ
hold_minutes = 10

abbrev pub concurrency_limit : ℕ
concurrency_limit = 4

-- The `WHERE` of `releaseExpiredHolds`; no time is before a null.
abbrev pub is_past : ℕ → Option ℕ → Bool
is_past now none = false
is_past now (some until) = ltb until now

abbrev pub is_expired_hold : ℕ → Reservation → Bool
is_expired_hold now r = is_held r.status && is_past now r.held_until

-- The `data` of the other updates.
abbrev pub extended : ℕ → Reservation → Reservation
extended until r = record r { held_until = some until }

abbrev pub as_confirmed : Reservation → Reservation
as_confirmed r = record r { status = confirmed; held_until = none }

abbrev pub with_status : ReservationStatus → Reservation → Reservation
with_status s r = record r { status = s }

abbrev pub released : Reservation → Reservation
released r = record r { status = ReservationStatus.cancelled; held_until = none }

-- `byScreening`, a `Map` in the order of its insertions.
unfoldable pub add_seat : ℕ → ℕ → List (ℕ × List ℕ) → List (ℕ × List ℕ)
add_seat screening seat [] = (screening, seat ∷ []) ∷ []
add_seat screening seat ((k, seats) ∷ m) =
    if k == screening then (k, seats ++ (seat ∷ [])) ∷ m else (k, seats) ∷ add_seat screening seat m

unfoldable pub group_by_screening : List Reservation → List (ℕ × List ℕ) → List (ℕ × List ℕ)
group_by_screening [] m = m
group_by_screening (r ∷ rs) m = group_by_screening rs (add_seat r.screening_id r.seat_id m)

module _ ⦃env : Env⦄ where
  lock_seat : HoldSeatParams → Action (List Seat)
  lock_seat p w = elim (env.seat.select_for_update (is_seat_of_hall p) w.seats) [
    | ok rows ↦ (ok rows, w)
    | err e ↦ (err (prisma e), w)
  ]

  insert_hold : HoldSeatParams → Action Reservation
  insert_hold p = on_reservations (env.reservation.create (new_hold p) (λ k. refl))

  hold_seat_tx : HoldSeatParams → Action Reservation
  unfolding lock_seat insert_hold
  hold_seat_tx p = do
    locked ← lock_seat p
    throw_if (not (is_one locked)) bad_request
    taken ← gets (λ w. env.reservation.find_first (takes_seat p) w.reservations)
    throw_if (is_some taken) conflict
    insert_hold p

  -- `ReservationsRepository.holdSeat`
  unfoldable pub hold_seat : HoldSeatParams → Action Reservation
  unfolding hold_seat_tx
  hold_seat p = catch (hold_seat_tx p) (λ e. throw (translate e))

  -- `ReservationsRepository.extendHold`, `confirm`, `setStatus`
  unfoldable pub extend_hold : ℕ → ℕ → Action Reservation
  extend_hold id until = on_reservations (env.reservation.update id (extended until) (λ r. refl))

  unfoldable pub confirm : ℕ → Action Reservation
  confirm id = on_reservations (env.reservation.update id as_confirmed (λ r. refl))

  unfoldable pub set_status : ℕ → ReservationStatus → Action Reservation
  set_status id s = on_reservations (env.reservation.update id (with_status s) (λ r. refl))

  unfoldable pub release_expired_holds : ℕ → Action (List Reservation)
  release_expired_holds now =
      on_reservations (env.reservation.update_where (is_expired_hold now) released (λ r. refl))

  -- `breaker.fire`: the breaker of opossum around an action.
  fire : {A : Type 0} → Action A → Action A
  fire m w = elim (env.breaker.verdict w.breaker) [
    | Verdict.admit ↦
        let (r, w') = m w in
        (r, record w' { breaker = env.breaker.settle (is_counted r) w'.breaker })
    | Verdict.refuse ↦ (err breaker_open, w)
    | Verdict.give_up ↦
        let (r, w') = m w in
        (err breaker_timeout, record w' { breaker = env.breaker.settle true w'.breaker })
  ]

  -- `ReservationBreaker.holdSeat`
  unfoldable pub guarded_hold : HoldSeatParams → Action Reservation
  unfolding fire
  guarded_hold p =
      catch (fire (hold_seat p)) (λ e. throw (if is_http e then e else service_unavailable))

  -- `ConcurrencyGuard.acquire`, and the function that it returns
  unfoldable pub acquire : Action (Unit {0})
  acquire w =
      if leb concurrency_limit w.active
      then (err service_unavailable, w)
      else (ok tt, record w { active = suc w.active })

  unfoldable pub release : World → World
  release w = record w { active = w.active - 1 }
