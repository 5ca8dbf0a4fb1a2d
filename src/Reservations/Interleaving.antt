-- ===== src/Reservations/Interleaving.antt =====
-- Transactions of `holdSeat` that run at the same time: reservations/reservations.repository.ts,
-- lines 40 to 111, statement by statement. PostgreSQL runs them under READ COMMITTED: a statement sees
-- the rows that are committed, `FOR UPDATE` waits while another transaction has the seat's row locked,
-- and the lock goes with the transaction. The unique index is left out, so that the property rests on
-- the lock and the check alone.
pub mod Invariant
pub mod Alone
use movie_reservation_system.Base.{
  ℕ, true, false, Option, none, some, ◌≡◌, ◌≢◌, ==_refl, ◌⊎◌, ap, subst, inl, inr, refl, sym, ◌∙◌,
  ◌==◌, if◌then◌else◌, arith, Bool-cases,
}
use movie_reservation_system.Table.{ok, put}
use movie_reservation_system.Schema.{Reservation, Seat}
use movie_reservation_system.Reservations.{
  HoldSeatParams, takes_seat, is_seat_of_hall, new_hold, hold_seat,
}
use movie_reservation_system.Reservations.Holding.{hold_seat-Held}
use movie_reservation_system.World.{Env, World}
use movie_reservation_system.Reservations.Exclusive.{
  view, OneActive, Quiet, put-OneActive, insert-OneActive,
}

-- How far a client's transaction has come.
pub data Phase : Type 0 where
  idle : Phase
  locked checked : HoldSeatParams → Phase
  inserted : HoldSeatParams → ℕ → Phase

-- The committed rows, and the clients of the database.
pub record System : Type 0 where
  pub rows : ℕ → Option Reservation
  pub phase : ℕ → Phase

-- The seat whose row a client has locked.
abbrev pub lock_of : Phase → Option ℕ
lock_of idle = none
lock_of (locked p) = some p.seat_id
lock_of (checked p) = some p.seat_id
lock_of (inserted p k) = some p.seat_id

abbrev pub set_phase : ℕ → Phase → System → System
set_phase c x s = record s { phase = λ d. if c == d then x else s.phase d }

-- What client `c` does in one step. `seats` are the seats of the database.
pub data Move (seats : ℕ → Option Seat) (c : ℕ) (s : System) : System → Type 0 where
  -- `SELECT … FOR UPDATE`, once nobody has the row locked
  take_lock :
      (p : HoldSeatParams) (seat : Seat)
      → s.phase c ≡ idle
      → seats seat.id ≡ some seat
      → is_seat_of_hall p seat ≡ true
      → ((d : ℕ) → lock_of (s.phase d) ≢ some p.seat_id)
      → Move seats c s (set_phase c (locked p) s)
  -- `findFirst` finds nothing
  check :
      (p : HoldSeatParams)
      → s.phase c ≡ locked p
      → ((j : ℕ) (r : Reservation) → s.rows j ≡ some r → takes_seat p r ≡ false)
      → Move seats c s (set_phase c (checked p) s)
  -- `create`, under a number that the sequence has not given out
  insert :
      (p : HoldSeatParams) (k : ℕ)
      → s.phase c ≡ checked p
      → s.rows k ≡ none
      → Move seats c s (set_phase c (inserted p k) s)
  commit :
      (p : HoldSeatParams) (k : ℕ)
      → s.phase c ≡ inserted p k
      → s.rows k ≡ none
      → Move seats c s (set_phase c idle (record s { rows = put k (some (new_hold p k)) s.rows }))
  -- A conflict, a time-out or any other failure rolls back.
  abort : Move seats c s (set_phase c idle s)
  -- One statement of another method that keeps seat and screening and makes no reservation active
  -- that was not: an extension, a cancellation, a release, or the confirmation of an active one.
  rewrite :
      (k : ℕ) (old new : Reservation)
      → s.rows k ≡ some old
      → Quiet old new
      → Move seats c s (record s { rows = put k (some new) s.rows })

pub data Reach (seats : ℕ → Option Seat) (rows : ℕ → Option Reservation) : System → Type 0 where
  start : Reach seats rows (record { rows = rows; phase = λ c. idle })
  move : {s t : System} (c : ℕ) → Reach seats rows s → Move seats c s t → Reach seats rows t
