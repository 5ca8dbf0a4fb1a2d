-- ===== src/Reservations/Expiry.antt =====
-- `expireHolds` of reservations/reservations.service.ts: which rows it releases, and what it announces.
use movie_reservation_system.Base.{
  ℕ, List, [], ◌∷◌, ◌++◌, ◌≡◌, ◌≢◌, inl, inr, refl, ap, ◌∙◌, sym, arith, ◌==◌, Bool-cases,
  if◌then◌else◌, In,
}
use mathlib.Core.List.{append_assoc, append-nil}
use movie_reservation_system.Schema.{Reservation}
use movie_reservation_system.Reservations.{add_seat, group_by_screening}

-- The seats of a screening in a grouping.
pub seats_in : ℕ → List (ℕ × List ℕ) → List ℕ
seats_in k [] = []
seats_in k ((j, seats) ∷ m) = if j == k then seats ++ seats_in k m else seats_in k m

-- The specification: the seats of the released rows of one screening, in their order.
pub seats_of : ℕ → List Reservation → List ℕ
seats_of k [] = []
seats_of k (r ∷ rs) = if r.screening_id == k then r.seat_id ∷ seats_of k rs else seats_of k rs

pub keys : List (ℕ × List ℕ) → List ℕ
keys [] = []
keys ((k, seats) ∷ m) = k ∷ keys m

abbrev Absent : ℕ → List ℕ → Type 0
Absent k [] = Unit
Absent k (j ∷ js) = (j ≢ k) × Absent k js

abbrev pub NoRepeat : List ℕ → Type 0
NoRepeat [] = Unit
NoRepeat (k ∷ ks) = Absent k ks × NoRepeat ks

seats_in-Absent : (k : ℕ) (m : List (ℕ × List ℕ)) → Absent k (keys m) → seats_in k m ≡ []
unfolding seats_in keys
seats_in-Absent k [] h = refl
seats_in-Absent k ((j, seats) ∷ m) h = ground (arith, seats_in-Absent k m h.1)

add_seat-Absent :
    (k j seat : ℕ) (m : List (ℕ × List ℕ))
    → j ≢ k
    → Absent k (keys m)
    → Absent k (keys (add_seat j seat m))
unfolding keys add_seat
add_seat-Absent k j seat [] ne h = (ne, tt)
add_seat-Absent k j seat ((i, seats) ∷ m) ne h = ground (arith, add_seat-Absent k j seat m ne h.1)

add_seat-NoRepeat :
    (j seat : ℕ) (m : List (ℕ × List ℕ)) → NoRepeat (keys m) → NoRepeat (keys (add_seat j seat m))
unfolding keys add_seat
add_seat-NoRepeat j seat [] h = (tt, tt)
add_seat-NoRepeat j seat ((i, seats) ∷ m) h =
    ground (arith, add_seat-NoRepeat j seat m h.1, add_seat-Absent i j seat m)

seats_in-add_seat :
    (k j seat : ℕ) (m : List (ℕ × List ℕ))
    → NoRepeat (keys m)
    → seats_in k (add_seat j seat m)
      ≡ (if j == k then seats_in k m ++ (seat ∷ []) else seats_in k m)
unfolding keys seats_in add_seat
seats_in-add_seat k j seat [] h = ground arith
seats_in-add_seat k j seat ((i, seats) ∷ m) h = elim (Bool-cases (i == j)) [
  | inl a ↦
      let gone = seats_in-Absent j m in
      ground (
        arith,
        a,
        gone,
        append-nil (seats ++ (seat ∷ [])),
        append-nil seats,
        append_assoc seats (seats_in k m) (seat ∷ []),
      )
  | inr a ↦
      ground
        (arith, a, seats_in-add_seat k j seat m h.1, append_assoc seats (seats_in k m) (seat ∷ []))
]

group-NoRepeat :
    (rs : List Reservation) (m : List (ℕ × List ℕ))
    → NoRepeat (keys m)
    → NoRepeat (keys (group_by_screening rs m))
unfolding group_by_screening
group-NoRepeat [] m h = h
group-NoRepeat (r ∷ rs) m h =
    group-NoRepeat rs (add_seat r.screening_id r.seat_id m)
      (add_seat-NoRepeat r.screening_id r.seat_id m h)

seats_in-group :
    (k : ℕ) (rs : List Reservation) (m : List (ℕ × List ℕ))
    → NoRepeat (keys m)
    → seats_in k (group_by_screening rs m) ≡ seats_in k m ++ seats_of k rs
unfolding group_by_screening seats_of
seats_in-group k [] m h = sym (append-nil (seats_in k m))
seats_in-group k (r ∷ rs) m h = ground (
  arith,
  seats_in-group k rs (add_seat r.screening_id r.seat_id m)
      (add_seat-NoRepeat r.screening_id r.seat_id m h),
  seats_in-add_seat k r.screening_id r.seat_id m h,
  append_assoc (seats_in k m) (r.seat_id ∷ []) (seats_of k rs),
)

In-key-ne :
    (j k : ℕ) (seats : List ℕ) (m : List (ℕ × List ℕ)) → Absent j (keys m) → In (k, seats) m → j ≢ k
unfolding keys
In-key-ne j k seats [] h i = absurd i
In-key-ne j k seats ((i', xs) ∷ m) h (inl e) =
    let same : k ≡ i' = ap (λ x. x.0) e in λ jk. h.0 (sym (jk ∙ same))
In-key-ne j k seats ((i', xs) ∷ m) h (inr i) = In-key-ne j k seats m h.1 i

seats_in-In :
    (k : ℕ) (seats : List ℕ) (m : List (ℕ × List ℕ))
    → NoRepeat (keys m)
    → In (k, seats) m
    → seats ≡ seats_in k m
unfolding keys seats_in
seats_in-In k seats [] h i = absurd i
seats_in-In k seats ((j, xs) ∷ m) h (inl e) =
    let jk : j ≡ k = ap (λ x. x.0) (sym e) in
    let same : xs ≡ seats = ap (λ x. x.1) (sym e) in
    let gone = seats_in-Absent j m h.0 in ground (arith, jk, same, gone, append-nil xs)
seats_in-In k seats ((j, xs) ∷ m) h (inr i) =
    let ne : j ≢ k = In-key-ne j k seats m h.0 i in ground (arith, ne, seats_in-In k seats m h.1 i)

-- The groups that `expireHolds` announces: at most one for each screening; a group holds the seats of
-- that screening's released rows, all of them, in the order of the rows; and no row is left out of the
-- groups.
pub group_by_screening-seats_of :
    (rs : List Reservation)
    → NoRepeat (keys (group_by_screening rs []))
      × ((k : ℕ) (seats : List ℕ)
          → In (k, seats) (group_by_screening rs [])
          → seats ≡ seats_of k rs)
      × ((k : ℕ) → seats_in k (group_by_screening rs []) ≡ seats_of k rs)
unfolding keys seats_in
group_by_screening-seats_of rs = (
  group-NoRepeat rs [] tt,
  (λ k seats i.
      seats_in-In k seats (group_by_screening rs []) (group-NoRepeat rs [] tt) i
      ∙ seats_in-group k rs [] tt),
  λ k. seats_in-group k rs [] tt,
)
