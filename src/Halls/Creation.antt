-- ===== src/Halls/Creation.antt =====
-- What `createHall` of screenings/halls.service.ts leaves behind.
use Prim.Native.String.{String}
use movie_reservation_system.Base.{
  ℕ, zero, suc, ◌+◌, ◌<◌, Bool, ◌==◌, ==_refl, In-left, In-right, ◌*◌, some, List, [], ◌∷◌, ◌≡◌,
  inl, inr, refl, sym, ap, subst, In, arith,
}
use movie_reservation_system.Table.{Result, Result-cases, ok, err}
use movie_reservation_system.Schema.{Hall, Seat}
use movie_reservation_system.World.{Env, World, Failure, prisma}
use movie_reservation_system.Redis.{hall_list}
use movie_reservation_system.Screenings.SeatMap.{find_seats_by_hall, seat_le}
use movie_reservation_system.Screenings.SeatMap.Rows.{order_by-In}
use movie_reservation_system.Halls.Labels.{
  read_label, read_number, read-row_label, read_number-decimal,
}
use movie_reservation_system.Halls.{
  SeatInput, HallWithSeats, new_hall, new_seat, seat_row, grid, row_label, decimal, create_many,
  find_hall_with_seats, create_hall_with_seats, create_hall,
}

abbrev new_input : ℕ → ℕ → ℕ → SeatInput
new_input hall_id r n = record { hall_id = hall_id; row = row_label r; number = decimal (suc n) }

seat_row-In :
    (hall_id r s len n k : ℕ)
    → n < len
    → k ≡ s + n
    → In (new_input hall_id r k) (seat_row hall_id (row_label r) (suc s) len)
unfolding seat_row
seat_row-In hall_id r s zero n k h e = absurd (omega (arith, h))
seat_row-In hall_id r s (suc len) zero k h e =
    let same : k ≡ s = omega (arith, e) in inl (ap (new_input hall_id r) same)
seat_row-In hall_id r s (suc len) (suc n) k h e =
    inr (seat_row-In hall_id r (suc s) len n k (omega (arith, h)) (omega (arith, e)))

-- Every place of the grid is one of the inputs.
grid-In :
    (hall_id from rows per r n k : ℕ)
    → r < rows
    → n < per
    → k ≡ from + r
    → In (new_input hall_id k n) (grid hall_id from rows per)
unfolding grid
grid-In hall_id from zero per r n k h m e = absurd (omega (arith, h))
grid-In hall_id from (suc rows) per zero n k h m e =
    let same : from ≡ k = omega (arith, e) in
    In-left (new_input hall_id k n) (seat_row hall_id (row_label from) 1 per)
      (grid hall_id (suc from) rows per)
      (subst (λ x. In (new_input hall_id x n) (seat_row hall_id (row_label from) 1 per)) same
        (seat_row-In hall_id from 0 per n n m (omega arith)))
grid-In hall_id from (suc rows) per (suc r) n k h m e =
    In-right (new_input hall_id k n) (seat_row hall_id (row_label from) 1 per)
      (grid hall_id (suc from) rows per)
      (grid-In hall_id (suc from) rows per r n k (omega (arith, h)) m (omega (arith, e)))

module _ ⦃env : Env⦄ where
  -- A row of the table stands for the input.
  abbrev pub Stored : env.seat.State → SeatInput → Type 0
  Stored s x = (k : ℕ) × (env.seat.get s k ≡ some (new_seat x k))

  abbrev Keeps : env.seat.State → env.seat.State → Type 0
  Keeps s s' = (k : ℕ) (r : Seat) → env.seat.get s k ≡ some r → env.seat.get s' k ≡ some r

  abbrev Done : List SeatInput → World → Result Failure (Unit {0}) × World → Type 0
  Done xs w (err e, w') = Unit
  Done xs w (ok _, w') =
      (w' ≡ record w { seats = w'.seats })
      × Keeps w.seats w'.seats
      × ((x : SeatInput) → In x xs → Stored w'.seats x)

  create_many-Done : (xs : List SeatInput) (w : World) → Done xs w (create_many xs w)
  unfolding create_many
  create_many-Done [] w = (refl, λ k r h. h, λ x i. absurd i)
  create_many-Done (x ∷ xs) w =
      elim (Result-cases (env.seat.create (new_seat x) (λ k. refl) w.seats)) [
        | inr (e, a) ↦
            let out : create_many (x ∷ xs) w ≡ (err (prisma e), w) = ground (arith, a) in
            subst (Done (x ∷ xs) w) (sym out) tt
        | inl ((r, s), a) ↦
            let out : create_many (x ∷ xs) w ≡ create_many xs (record w { seats = s }) =
              ground (arith, a) in
            subst (Done (x ∷ xs) w) (sym out) (
              after r s a (create_many xs (record w { seats = s }))
                (create_many-Done xs (record w { seats = s })))
      ]
    where
      after :
          (r : Seat) (s : env.seat.State)
          → env.seat.create (new_seat x) (λ k. refl) w.seats ≡ ok (r, s)
          → (out : Result Failure (Unit {0}) × World) → Done xs (record w { seats = s }) out
          → Done (x ∷ xs) w out
      after r s a (err e, w') d = tt
      after r s a (ok _, w') (same, kept, stored) =
          let (is, fresh, table) = env.seat.create-ok (new_seat x) (λ k. refl) w.seats r s a in
          let first : env.seat.get s r.id ≡ some (new_seat x r.id) =
            ground (arith, table r.id, is) in
          (
            same,
            λ k t h. kept k t (ground (arith, table k, h, fresh)),
            λ y i. elim i [
              | inl e ↦ subst (Stored w'.seats) (sym e) (r.id, kept r.id (new_seat x r.id) first)
              | inr j ↦ stored y j
            ],
          )

  -- Every place of the grid has a seat of the new hall, which the answer shows; no seat is lost.
  pub record Created (name : String) (rows seats_per_row : ℕ) (w : World) (h : HallWithSeats)
      (w' : World) : Type 0 where
    pub row : env.hall.get w'.halls h.hall.id ≡ some h.hall
    pub capacity : h.hall.capacity ≡ rows * seats_per_row
    pub is_named : h.hall.name ≡ name
    pub each_seat :
        (r n : ℕ)
        → r < rows
        → n < seats_per_row
        → (s : Seat) × (env.seat.get w'.seats s.id ≡ some s)
          × (s.hall_id ≡ h.hall.id)
          × (read_label 0 s.row ≡ suc r)
          × (read_number 0 s.number ≡ suc n)
          × In s h.seats
    pub others :
        (k : ℕ) (s : Seat) → env.seat.get w.seats k ≡ some s → env.seat.get w'.seats k ≡ some s

  seat_there :
      (hall_id r n : ℕ) (w : World)
      → Stored w.seats (new_input hall_id r n)
      → (s : Seat) × (env.seat.get w.seats s.id ≡ some s)
        × (s.hall_id ≡ hall_id)
        × (read_label 0 s.row ≡ suc r)
        × (read_number 0 s.number ≡ suc n)
        × In s (find_seats_by_hall hall_id w)
  unfolding find_seats_by_hall
  seat_there hall_id r n w (k, there) =
      let s : Seat = new_seat (new_input hall_id r n) k in
      let here : Seat → Bool = λ x. x.hall_id == hall_id in
      (
        s,
        there,
        refl,
        read-row_label r,
        read_number-decimal (suc n),
        (order_by-In seat_le s (env.seat.find_many here w.seats)).1
            (env.seat.find_many_complete here w.seats k s there (==_refl hall_id)),
      )

  -- What a run of `createHall` can come to.
  abbrev pub Outcome : String → ℕ → ℕ → World → Result Failure HallWithSeats × World → Type 0
  Outcome name rows per w (ok h, w') = Created name rows per w h w'
  Outcome name rows per w (err e, w') = w' ≡ w

  -- A created hall is stored with its name and the capacity `rows * seatsPerRow`, and has a seat for
  -- each row and each number in it, by the labels that the seat bears; the answer shows these seats,
  -- and the seats of other halls stay. When the creation fails, nothing at all has changed.
  pub create_hall-Outcome :
      (now : ℕ) (name : String) (rows per : ℕ) (w : World)
      → Outcome name rows per w (create_hall now name rows per w)
  unfolding create_hall create_hall_with_seats find_hall_with_seats
  create_hall-Outcome now name rows per w =
      elim (Result-cases (env.hall.create (new_hall name (rows * per)) (λ k. refl) w.halls)) [
        | inr (e, a) ↦
            let out : create_hall now name rows per w ≡ (err (prisma e), w) = ground (arith, a) in
            subst (Outcome name rows per w) (sym out) refl
        | inl ((hall, s), a) ↦
            go hall s a (create_many (grid hall.id 0 rows per) (record w { halls = s })) refl
              (create_many-Done (grid hall.id 0 rows per) (record w { halls = s }))
      ]
    where
      go :
          (hall : Hall) (s : env.hall.State)
          → env.hall.create (new_hall name (rows * per)) (λ k. refl) w.halls ≡ ok (hall, s)
          → (out : Result Failure (Unit {0}) × World)
          → create_many (grid hall.id 0 rows per) (record w { halls = s }) ≡ out
          → Done (grid hall.id 0 rows per) (record w { halls = s }) out
          → Outcome name rows per w (create_hall now name rows per w)
      go hall s a (err e, w'') b d =
          let out : create_hall now name rows per w ≡ (err e, w) = ground (arith, a, b) in
          subst (Outcome name rows per w) (sym out) refl
      go hall s a (ok _, w'') b (same, kept, stored) =
          let (is, fresh, table) =
            env.hall.create-ok (new_hall name (rows * per)) (λ k. refl) w.halls hall s a in
          let found : env.hall.get w''.halls hall.id ≡ some hall =
            ground (arith, same, table hall.id) in
          let h : HallWithSeats = record { hall = hall; seats = find_seats_by_hall hall.id w'' } in
          let out : create_hall now name rows per w
              ≡ (ok h, record w'' { redis = env.redis.del hall_list now w''.redis }) =
            ground (arith, a, b, found) in
          subst (Outcome name rows per w) (sym out) (record {
            row = found;
            capacity = ap (λ x. x.capacity) is;
            is_named = ap (λ x. x.name) is;
            each_seat = λ r n below within. seat_there hall.id r n w'' (
                stored (new_input hall.id r n)
                  (grid-In hall.id 0 rows per r n r below within (omega arith)));
            others = λ k t there. kept k t there;
          })
