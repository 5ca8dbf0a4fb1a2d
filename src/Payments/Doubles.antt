-- ===== src/Payments/Doubles.antt =====
-- The `number` of JavaScript, as far as `refundReservation` of payments/payments.service.ts computes
-- with it: doubles that are not negative, each as a fraction whose denominator is a power of 2. A
-- result above the largest double is not treated.
use native.Mathlib.Nat.{mul-le-mul_left, div-lt_iff_lt-mul, div-add-mod'}
use movie_reservation_system.Base.{
  ℕ, zero, suc, ◌+◌, ◌*◌, ◌/◌, ◌%◌, ◌≤◌, ◌<◌, ◌≡◌, ap, sym, ◌∙◌, ltb, if◌then◌else◌, arith,
  Bool-cases, inl, inr, ltb→lt, lt→ltb,
}

-- The natural number that is nearest to the fraction, and the even one of two.
unfoldable nearest_even : ℕ → ℕ → ℕ
nearest_even n d =
    if ltb (2 * (n % d)) d
    then n / d
    else if ltb d (2 * (n % d))
    then suc (n / d)
    else n / d + n / d % 2

-- A fraction below 2 ^ 53 is doubled until it is 2 ^ 52 at least, or until the exponent is the
-- smallest one.
unfoldable round_small : ℕ → ℕ → ℕ → ℕ → ℕ × ℕ
unfolding nearest_even
round_small zero n d k = (nearest_even n d, k)
round_small (suc fuel) n d k =
    let rest = round_small fuel (2 * n) d (2 * k) in
    if ltb n (4503599627370496 * d) then rest else (nearest_even n d, k)

-- One of 2 ^ 53 or more is halved until it is below; 971 times bring the largest double there.
unfoldable round_large : ℕ → ℕ → ℕ → ℕ → ℕ × ℕ
unfolding nearest_even
round_large zero n d k = (nearest_even n d * k, 1)
round_large (suc fuel) n d k =
    let rest = round_large fuel n (2 * d) (2 * k) in
    if ltb n (9007199254740992 * d) then (nearest_even n d * k, 1) else rest

-- The double nearest to a fraction.
unfoldable rounded : ℕ → ℕ → ℕ → ℕ → ℕ × ℕ
unfolding round_small round_large
rounded up down n d =
    if ltb n (9007199254740992 * d) then round_small up n d 1 else round_large down n d 1

unfoldable pub to_double : ℕ × ℕ → ℕ × ℕ
unfolding rounded
to_double (n, d) = rounded 1074 971 n d

-- `Math.round`: halves go up.
unfoldable pub math_round : ℕ × ℕ → ℕ
math_round (n, d) = (2 * n + d) / (2 * d)

nearest_even-le : (n d m : ℕ) → 0 < d → n ≤ m * d → nearest_even n d ≤ m
unfolding nearest_even
nearest_even-le n d m pos h =
    let q = n / d in
    let at_most : q < suc m =
      (div-lt_iff_lt-mul {k = d} {x = n} {y = suc m} pos).1 (omega (arith, h, pos)) in
    elim (Bool-cases (ltb q m)) [
      | inl a ↦
          let less = ltb→lt q m a in
          elim (Bool-cases (ltb (2 * (n % d)) d)) [
            | inl b ↦ rw b (omega (arith, less))
            | inr b ↦ elim (Bool-cases (ltb d (2 * (n % d)))) [
              | inl c ↦ rw b (rw c (omega (arith, less)))
              | inr c ↦ rw b (rw c (omega (arith, less)))
            ]
          ]
      | inr a ↦
          let full : q ≡ m = ground (arith, a, at_most) in
          let whole : n % d ≡ 0 =
            omega (arith, ap (λ x. x * d + n % d) (sym full) ∙ div-add-mod' n d, h) in
          rw (lt→ltb (2 * (n % d)) d (rw whole pos)) (omega (arith, at_most))
    ]

-- Rounding does not pass a natural number that is a double.
round_small-le :
    (fuel n d k b y : ℕ)
    → 0 < d
    → 0 < k
    → b ≡ y * k
    → n ≤ b * d
    → ((round_small fuel n d k).0 ≤ y * (round_small fuel n d k).1)
      × (0 < (round_small fuel n d k).1)
unfolding round_small
round_small-le zero n d k b y pos kpos e h = rw (← e) (nearest_even-le n d b pos h, kpos)
round_small-le (suc fuel) n d k b y pos kpos e h =
    elim (Bool-cases (ltb n (4503599627370496 * d))) [
      | inl a ↦ rw a (
          round_small-le fuel (2 * n) d (2 * k) (2 * b) y pos (omega (arith, kpos))
            (omega (arith, e)) (omega (arith, h)))
      | inr a ↦ rw a (rw (← e) (nearest_even-le n d b pos h, kpos))
    ]

rounded-le :
    (up down n d y : ℕ)
    → 0 < d
    → n ≤ y * d
    → y < 9007199254740992
    → ((rounded up down n d).0 ≤ y * (rounded up down n d).1) × (0 < (rounded up down n d).1)
unfolding rounded
rounded-le up down n d y pos h small = elim (Bool-cases (ltb n (9007199254740992 * d))) [
  | inl a ↦ rw a (round_small-le up n d 1 y y pos (omega arith) (omega arith) h)
  | inr a ↦ absurd (
      let room = mul-le-mul_left d small in
      let below : n < 9007199254740992 * d = omega (arith, h, room, pos) in
      ground (arith, a, lt→ltb n (9007199254740992 * d) below))
]

pub to_double-le :
    (n d y : ℕ)
    → 0 < d
    → n ≤ y * d
    → y < 9007199254740992
    → ((to_double (n, d)).0 ≤ y * (to_double (n, d)).1) × (0 < (to_double (n, d)).1)
unfolding to_double
to_double-le n d y pos h small = rounded-le 1074 971 n d y pos h small

pub math_round-le : (n d y : ℕ) → 0 < d → n ≤ y * d → math_round (n, d) ≤ y
unfolding math_round
math_round-le n d y pos h =
    let below : 2 * n + d < suc y * (2 * d) = omega (arith, h) in
    omega (arith, (div-lt_iff_lt-mul {k = 2 * d} {x = 2 * n + d} {y = suc y} (omega arith)).1 below)
