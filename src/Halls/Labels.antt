-- ===== src/Halls/Labels.antt =====
-- The labels of the rows: `rowLabel` of screenings/halls.repository.ts.
use movie_reservation_system.Base.{
  ◌≤◌, ltb→lt, ℕ, zero, suc, ◌+◌, ◌-◌, ◌*◌, ◌/◌, ◌%◌, ◌<◌, false, List, [], ◌∷◌, ◌≡◌, ap, ◌∙◌, inl,
  inr, ltb, arith, Bool-cases,
}
use movie_reservation_system.Halls.{label_loop, row_label, digit_loop, decimal}

-- A label as a number: the letters A to Z are the digits 1 to 26.
abbrev pub read_label : ℕ → List ℕ → ℕ
read_label n [] = n
read_label n (c ∷ cs) = read_label (n * 26 + (c - 64)) cs

ltb-ge : (n : ℕ) → ltb n 26 ≡ false → 26 ≤ n
ltb-ge n h = ground (arith, h)

read-loop :
    (fuel n : ℕ) (label : List ℕ)
    → n < fuel
    → read_label 0 (label_loop fuel n label) ≡ read_label (suc n) label
unfolding label_loop
read-loop zero n label h = absurd (omega (arith, h))
read-loop (suc fuel) n label h = elim (Bool-cases (ltb n 26)) [
  | inl a ↦ rw a (ap (λ k. read_label k label) (omega (arith, ltb→lt n 26 a)))
  | inr a ↦
      let big : 26 ≤ n = omega (arith, ltb-ge n a) in
      rw a (
        read-loop fuel (n / 26 - 1) ((65 + n % 26) ∷ label) (omega (arith, h, big))
        ∙ ap (λ k. read_label k label) (omega (arith, big)))
]

-- Reading a label back gives the number of its row, counted from 1: no two rows have one label.
pub read-row_label : (n : ℕ) → read_label 0 (row_label n) ≡ suc n
unfolding row_label
read-row_label n = read-loop (suc n) n [] (omega arith)

-- A text of digits as a number.
abbrev pub read_number : ℕ → List ℕ → ℕ
read_number n [] = n
read_number n (c ∷ cs) = read_number (n * 10 + (c - 48)) cs

read_number-loop :
    (fuel n : ℕ) (text : List ℕ)
    → n < fuel
    → read_number 0 (digit_loop fuel n text) ≡ read_number n text
unfolding digit_loop
read_number-loop zero n text h = absurd (omega (arith, h))
read_number-loop (suc fuel) n text h = elim (Bool-cases (ltb n 10)) [
  | inl a ↦ rw a (ap (λ k. read_number k text) (omega (arith, ltb→lt n 10 a)))
  | inr a ↦
      let big : 10 ≤ n = ground (arith, a) in
      rw a (
        read_number-loop fuel (n / 10) ((48 + n % 10) ∷ text) (omega (arith, h, big))
        ∙ ap (λ k. read_number k text) (omega (arith, big)))
]

pub read_number-decimal : (n : ℕ) → read_number 0 (decimal n) ≡ n
unfolding decimal
read_number-decimal n = read_number-loop (suc n) n [] (omega arith)
