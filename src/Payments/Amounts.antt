-- ===== src/Payments/Amounts.antt =====
-- How much `refundReservation` of payments/payments.service.ts pays back.
use native.Mathlib.Nat.{mul-le-mul_left}
use movie_reservation_system.Base.{ℕ, ◌*◌, ◌≤◌, ◌<◌, arith}
use movie_reservation_system.Payments.Doubles.{to_double, to_double-le, math_round-le}
use movie_reservation_system.Payments.Refund.{refund_amount}

-- At a rate of at most 100 percent no more comes back than was paid, though the product and the
-- quotient are rounded; the amount is one that the `Int` column can hold.
pub refund_amount-le :
    (amount num den : ℕ)
    → amount < 2147483648
    → 0 < den
    → num ≤ den * 100
    → refund_amount amount (num, den) ≤ amount
unfolding refund_amount
refund_amount-le amount num den small pos h =
    let share = mul-le-mul_left amount h in
    let product =
      to_double-le (amount * num) den (amount * 100) pos (omega (arith, share))
        (omega (arith, small)) in
    let p = to_double (amount * num, den) in
    let quotient =
      to_double-le p.0 (p.1 * 100) amount (omega (arith, product.1)) (omega (arith, product.0))
        (omega (arith, small)) in
    let q = to_double (p.0, p.1 * 100) in math_round-le q.0 q.1 amount quotient.1 quotient.0
