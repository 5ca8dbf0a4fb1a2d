-- ===== src/Halls/Grid.antt =====
-- The seats of a new hall: the two loops of `createHallWithSeats` in screenings/halls.repository.ts.
use movie_reservation_system.Base.{
  ℕ, zero, suc, ◌+◌, ◌-◌, ◌*◌, List, [], ◌∷◌, ◌++◌, map, ◌≡◌, refl, sym, ap, ◌∙◌, arith,
}
use movie_reservation_system.Halls.{SeatInput, seat_row, grid, row_label, decimal}
use movie_reservation_system.Halls.Labels.{
  read_label, read-row_label, read_number, read_number-decimal,
}

-- Where a seat stands, row by row, counted from 0.
abbrev pub position : ℕ → SeatInput → ℕ
position seats_per_row s = (read_label 0 s.row - 1) * seats_per_row + (read_number 0 s.number - 1)

abbrev pub count_up : ℕ → ℕ → List ℕ
count_up a zero = []
count_up a (suc n) = a ∷ count_up (suc a) n

count_up_same : (a b m n : ℕ) → a ≡ b → m ≡ n → count_up a m ≡ count_up b n
count_up_same a b m n p q = ap (λ k. count_up k m) p ∙ ap (λ k. count_up b k) q

count_up-append : (a m n : ℕ) → count_up a m ++ count_up (a + m) n ≡ count_up a (m + n)
count_up-append a zero n = count_up_same (a + 0) a n (0 + n) (omega arith) (omega arith)
count_up-append a (suc m) n =
    ap (λ l. a ∷ l)
      (ap (λ l. count_up (suc a) m ++ l)
          (count_up_same (a + suc m) (suc a + m) n n (omega arith) refl)
        ∙ count_up-append (suc a) m n)
    ∙ count_up_same a a (suc (m + n)) (suc m + n) refl (omega arith)

map-append : {A B : Type 0} (f : A → B) (xs ys : List A) → map f (xs ++ ys) ≡ map f xs ++ map f ys
map-append f [] ys = refl
map-append f (x ∷ xs) ys = ap (λ l. f x ∷ l) (map-append f xs ys)

one_less : (n : ℕ) → suc n - 1 ≡ n
one_less n = omega arith

seat_row-position :
    (hall_id r per s n : ℕ)
    → map (position per) (seat_row hall_id (row_label r) (suc s) n) ≡ count_up (r * per + s) n
unfolding seat_row
seat_row-position hall_id r per s zero = refl
seat_row-position hall_id r per s (suc n) =
    let here : position per
          (record { hall_id = hall_id; row = row_label r; number = decimal (suc s) })
        ≡ r * per + s =
      ap (λ k. (k - 1) * per + (read_number 0 (decimal (suc s)) - 1)) (read-row_label r)
      ∙ ap (λ k. k * per + (read_number 0 (decimal (suc s)) - 1)) (one_less r)
      ∙ ap (λ k. r * per + (k - 1)) (read_number-decimal (suc s))
      ∙ ap (λ k. r * per + k) (one_less s) in
    ap (λ k. k ∷ map (position per) (seat_row hall_id (row_label r) (suc (suc s)) n)) here
    ∙ ap (λ l. (r * per + s) ∷ l)
        (seat_row-position hall_id r per (suc s) n
          ∙ count_up_same (r * per + suc s) (suc (r * per + s)) n n (omega arith) refl)

-- The seats of a new hall stand at 0, 1, 2, ... and so on up to `rows * seatsPerRow`, in this order: each place
-- of the grid has one seat, with its own label and number.
pub grid-position :
    (hall_id r rows per : ℕ)
    → map (position per) (grid hall_id r rows per) ≡ count_up (r * per) (rows * per)
unfolding grid
grid-position hall_id r zero per = count_up_same (r * per) (r * per) 0 (0 * per) refl (omega arith)
grid-position hall_id r (suc n) per =
    map-append (position per) (seat_row hall_id (row_label r) 1 per) (grid hall_id (suc r) n per)
    ∙ ap (λ l. l ++ map (position per) (grid hall_id (suc r) n per))
        (seat_row-position hall_id r per 0 per
          ∙ count_up_same (r * per + 0) (r * per) per per (omega arith) refl)
    ∙ ap (λ l. count_up (r * per) per ++ l)
        (grid-position hall_id (suc r) n per
          ∙ count_up_same (suc r * per) (r * per + per) (n * per) (n * per) (sum r per) refl)
    ∙ count_up-append (r * per) per (n * per)
    ∙ count_up_same (r * per) (r * per) (per + n * per) (suc n * per) refl (sym (sum' n per))
  where
    sum : (a b : ℕ) → suc a * b ≡ a * b + b
    sum a b = omega arith

    sum' : (a b : ℕ) → suc a * b ≡ b + a * b
    sum' a b = omega arith
