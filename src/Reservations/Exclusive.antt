-- ===== src/Reservations/Exclusive.antt =====
-- No double booking: at most one active reservation for each seat and screening. The invariant is
-- kept by the code's own checks; nothing here uses the unique index. Repository and service methods
-- of backend/src/reservations.
use movie_reservation_system.Base.{
  ℕ, Bool, true, false, Option, some, ◌≡◌, ◌≢◌, inl, inr, refl, ◌==◌, arith, Bool-cases,
  Option-cases,
}
use movie_reservation_system.Table.{Result, ok, err, put, put_where}
use movie_reservation_system.Schema.{Reservation, ReservationStatus, active_clash, is_active}
use movie_reservation_system.World.{Env, World, Failure, on_reservations}
use movie_reservation_system.World.Writes.{on_reservations_cases}
use movie_reservation_system.Reservations.{
  HoldSeatParams, takes_seat, new_hold, is_expired_hold, released, extended, as_confirmed,
  with_status, hold_seat, extend_hold, confirm, set_status, release_expired_holds,
}
use movie_reservation_system.Reservations.Holding.{
  SeatFree-takes_seat, hold_seat-Held, hold_seat-Refused,
}

abbrev pub OneActive : (ℕ → Option Reservation) → Type 0
OneActive g =
    (i j : ℕ) (r t : Reservation) → i ≢ j → g i ≡ some r → g j ≡ some t → active_clash r t ≡ false

-- The new row stands for the same seat, and is active only if the old one was.
abbrev pub Quiet : Reservation → Reservation → Type 0
Quiet old new =
    (new.seat_id ≡ old.seat_id)
    × (new.screening_id ≡ old.screening_id)
    × (is_active new.status ≡ true → is_active old.status ≡ true)

Quiet-clash :
    (old new t : Reservation)
    → Quiet old new
    → (active_clash old t ≡ false → active_clash new t ≡ false)
      × (active_clash t old ≡ false → active_clash t new ≡ false)
Quiet-clash old new t q = ground arith

pub put-OneActive :
    (g h : ℕ → Option Reservation) (k : ℕ) (old new : Reservation)
    → OneActive g
    → g k ≡ some old
    → Quiet old new
    → ((j : ℕ) → h j ≡ put k (some new) g j)
    → OneActive h
put-OneActive g h k old new one found q e i j r t ne hi hj =
    let left : (k ≡ i → r ≡ new) × (k ≢ i → g i ≡ some r) = ground (arith, e i) in
    let right : (k ≡ j → t ≡ new) × (k ≢ j → g j ≡ some t) = ground (arith, e j) in
    elim (Bool-cases (k == i)) [
      | inl a ↦
          let kj : k ≢ j = ground arith in
          let c = one k j old t kj found (right.1 kj) in
          rw (left.0 (ground arith)) ((Quiet-clash old new t q).0 c)
      | inr a ↦
          let ki : k ≢ i = ground arith in
          elim (Bool-cases (k == j)) [
            | inl b ↦
                let c = one i k r old (ground arith) (left.1 ki) found in
                rw (right.0 (ground arith)) ((Quiet-clash old new r q).1 c)
            | inr b ↦ one i j r t ne (left.1 ki) (right.1 (ground arith))
          ]
    ]

pub insert-OneActive :
    (p : HoldSeatParams) (g h : ℕ → Option Reservation) (k : ℕ)
    → OneActive g
    → ((j : ℕ) (r : Reservation) → g j ≡ some r → takes_seat p r ≡ false)
    → ((j : ℕ) → h j ≡ put k (some (new_hold p k)) g j)
    → OneActive h
insert-OneActive p g h k one free e i j r t ne hi hj = elim (Bool-cases (k == i)) [
  | inl a ↦ ground (arith, e i, e j, free j t)
  | inr a ↦ ground (arith, e i, e j, free i r, one i j r t)
]

put_where-OneActive :
    (p : Reservation → Bool) (f : Reservation → Reservation) (g h : ℕ → Option Reservation)
    → OneActive g
    → ((r : Reservation) → p r ≡ true → Quiet r (f r))
    → ((j : ℕ) → h j ≡ put_where p f (g j))
    → OneActive h
put_where-OneActive p f g h one q e i j r t ne hi hj = elim (Option-cases (g i)) [
  | inl a ↦ absurd (ground (arith, e i, a))
  | inr (x, a) ↦ elim (Option-cases (g j)) [
    | inl b ↦ absurd (ground (arith, e j, b))
    | inr (y, b) ↦ ground (arith, e i, e j, a, b, one i j x y ne a b, q x, q y)
  ]
]

module _ ⦃env : Env⦄ where
  abbrev pub view : World → ℕ → Option Reservation
  view w = env.reservation.get w.reservations

  -- `holdSeat` keeps the rule that a seat of a screening has at most one active reservation, whatever
  -- it returns or throws.
  pub hold_seat-OneActive :
      (p : HoldSeatParams) (w : World) → OneActive (view w) → OneActive (view (hold_seat p w).1)
  hold_seat-OneActive p w one = go (hold_seat p w) refl
    where
      go : (out : Result Failure Reservation × World) → hold_seat p w ≡ out → OneActive (view out.1)
      go (ok r, w') h =
          let d = hold_seat-Held p w r w' h in
          insert-OneActive p (view w) (view w') r.id one (SeatFree-takes_seat p w d.was_free)
            (λ j. rw (← d.row) (d.stored j))
      go (err e, w') h = rw ((hold_seat-Refused p w e w' h).0) one

  -- One `update` of a row by a quiet change.
  pub update-OneActive :
      (k : ℕ) (f : Reservation → Reservation) (keeps : (r : Reservation) → (f r).id ≡ r.id)
      (w : World)
      → OneActive (view w)
      → ((old : Reservation) → view w k ≡ some old → Quiet old (f old))
      → OneActive (view (on_reservations (env.reservation.update k f keeps) w).1)
  update-OneActive k f keeps w one quiet =
      on_reservations_cases (λ s. OneActive (env.reservation.get s))
        (env.reservation.update k f keeps) w one
        λ r s h.
          let (old, found, same, e) = env.reservation.update-ok k f keeps w.reservations r s h in
          let q : Quiet old r = rw same (quiet old found) in
          put-OneActive (view w) (env.reservation.get s) k old r one found q e

  pub extend_hold-OneActive :
      (id until : ℕ) (w : World) → OneActive (view w) → OneActive (view (extend_hold id until w).1)
  unfolding extend_hold
  extend_hold-OneActive id until w one =
      update-OneActive id (extended until) (λ r. refl) w one (λ old _. (refl, refl, λ a. a))

  never_active : (old : Reservation) → false ≡ true → is_active old.status ≡ true
  never_active old h = cc

  pub set_cancelled-OneActive :
      (id : ℕ) (w : World)
      → OneActive (view w)
      → OneActive (view (set_status id ReservationStatus.cancelled w).1)
  unfolding set_status
  set_cancelled-OneActive id w one =
      update-OneActive id (with_status ReservationStatus.cancelled) (λ r. refl) w one
        (λ old _. (refl, refl, never_active old))

  -- The caller has to see to it that the row is active.
  pub confirm-OneActive :
      (id : ℕ) (w : World)
      → OneActive (view w)
      → ((r : Reservation) → view w id ≡ some r → is_active r.status ≡ true)
      → OneActive (view (confirm id w).1)
  unfolding confirm
  confirm-OneActive id w one active =
      update-OneActive id as_confirmed (λ r. refl) w one
        (λ old found. (refl, refl, λ _. active old found))

  pub release_expired_holds-OneActive :
      (now : ℕ) (w : World) → OneActive (view w) → OneActive (view (release_expired_holds now w).1)
  unfolding release_expired_holds
  release_expired_holds-OneActive now w one =
      on_reservations_cases (λ s. OneActive (env.reservation.get s))
        (env.reservation.update_where (is_expired_hold now) released (λ r. refl)) w one
        λ rows s h.
          put_where-OneActive (is_expired_hold now) released (view w) (env.reservation.get s) one
            (λ r _. (refl, refl, never_active r))
            (env.reservation.update_where-ok (is_expired_hold now) released (λ r. refl)
              w.reservations rows s h).0
