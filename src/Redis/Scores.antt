-- ===== src/Redis/Scores.antt =====
-- Counting in a sorted set: `ZADD` and `ZREMRANGEBYSCORE`.
use movie_reservation_system.Base.{ℕ, ◌≤◌, List, [], ◌∷◌, ◌≡◌, refl, length, In, inl, inr, arith}
use movie_reservation_system.Redis.{insert_score, above}

-- How many scores are above the limit.
abbrev pub count_above : ℕ → List ℕ → ℕ
count_above limit xs = length (above limit xs)

pub above-above :
    (low limit : ℕ) (xs : List ℕ) → low ≤ limit → above limit (above low xs) ≡ above limit xs
above-above low limit [] h = refl
above-above low limit (x ∷ xs) h = ground (arith, h, above-above low limit xs h)

pub count_above-insert_score :
    (limit x : ℕ) (xs : List ℕ) → count_above limit (insert_score x xs) ≡ count_above limit (x ∷ xs)
count_above-insert_score limit x [] = refl
count_above-insert_score limit x (y ∷ ys) = ground (arith, count_above-insert_score limit x ys)

pub count_above_none :
    (limit : ℕ) (xs : List ℕ) → ((x : ℕ) → In x xs → x ≤ limit) → count_above limit xs ≡ 0
count_above_none limit [] h = refl
count_above_none limit (x ∷ xs) h =
    ground (arith, h x (inl refl), count_above_none limit xs (λ y i. h y (inr i)))
