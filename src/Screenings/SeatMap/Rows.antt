-- ===== src/Screenings/SeatMap/Rows.antt =====
-- Sorting, grouping and mapping of rows, as the seat map uses them.
use movie_reservation_system.Base.{
  ◌↔◌, ℕ, Bool, Option, some, List, [], ◌∷◌, map, ◌≡◌, ◌≢◌, ◌⊎◌, inl, inr, refl, sym, ap, ◌∙◌, ◌==◌,
  In, All, arith, Bool-cases,
}
use movie_reservation_system.Table.{Distinct, put}
use movie_reservation_system.Schema.{Reservation, ReservationStatus}
use movie_reservation_system.Screenings.SeatMap.{insert_by, order_by, status_by_seat}

-- Sorting keeps the members, and that no two have one key.
module _ {A : Type 0} (le : A → A → Bool) where
  insert_by-In : (x y : A) (xs : List A) → In y (insert_by le x xs) ↔ In y (x ∷ xs)
  unfolding insert_by
  insert_by-In x y [] = (λ h. h, λ h. h)
  insert_by-In x y (z ∷ zs) = elim (Bool-cases (le x z)) [
    | inl a ↦ rw a (λ h. h, λ h. h)
    | inr a ↦
        let rec = insert_by-In x y zs in
        rw a (
          λ h. elim h [
            | inl e ↦ inr (inl e)
            | inr i ↦ elim (rec.0 i) [ inl e ↦ inl e | inr j ↦ inr (inr j) ]
          ],
          λ h. elim h [
            | inl e ↦ inr (rec.1 (inl e))
            | inr (inl e) ↦ inl e
            | inr (inr j) ↦ inr (rec.1 (inr j))
          ],
        )
  ]

  pub order_by-In : (y : A) (xs : List A) → In y (order_by le xs) ↔ In y xs
  unfolding order_by
  order_by-In y [] = (λ h. h, λ h. h)
  order_by-In y (x ∷ xs) =
      let one = insert_by-In x y (order_by le xs) in
      let rec = order_by-In y xs in
      (
        λ h. elim (one.0 h) [ inl e ↦ inl e | inr i ↦ inr (rec.0 i) ],
        λ h. one.1 (elim h [ inl e ↦ inl e | inr i ↦ inr (rec.1 i) ]),
      )

  module _ (key : A → ℕ) where
    insert_by-All :
        (x z : A) (xs : List A)
        → key z ≢ key x
        → All (λ y. key z ≢ key y) xs
        → All (λ y. key z ≢ key y) (insert_by le x xs)
    unfolding insert_by
    insert_by-All x z [] ne h = (ne, h)
    insert_by-All x z (y ∷ ys) ne h = elim (Bool-cases (le x y)) [
      | inl a ↦ rw a (ne, h)
      | inr a ↦ rw a (h.0, insert_by-All x z ys ne h.1)
    ]

    insert_by-Distinct :
        (x : A) (xs : List A)
        → All (λ y. key x ≢ key y) xs
        → Distinct key xs
        → Distinct key (insert_by le x xs)
    unfolding insert_by
    insert_by-Distinct x [] a d = (a, d)
    insert_by-Distinct x (y ∷ ys) a d = elim (Bool-cases (le x y)) [
      | inl b ↦ rw b (a, d)
      | inr b ↦ rw b (insert_by-All x y ys (λ e. a.0 (sym e)) d.0, insert_by-Distinct x ys a.1 d.1)
    ]

    order_by-All :
        (z : A) (xs : List A)
        → All (λ y. key z ≢ key y) xs
        → All (λ y. key z ≢ key y) (order_by le xs)
    unfolding order_by
    order_by-All z [] h = h
    order_by-All z (x ∷ xs) h = insert_by-All x z (order_by le xs) h.0 (order_by-All z xs h.1)

    pub order_by-Distinct : (xs : List A) → Distinct key xs → Distinct key (order_by le xs)
    unfolding order_by
    order_by-Distinct [] d = d
    order_by-Distinct (x ∷ xs) d =
        insert_by-Distinct x (order_by le xs) (order_by-All x xs d.0) (order_by-Distinct xs d.1)

-- The entry of a seat comes from a reservation of it, or there is none.
pub status_by_seat_cases :
    (rs : List Reservation) (m : ℕ → Option ReservationStatus) (k : ℕ)
    → ((r : Reservation) × In r rs × (r.seat_id ≡ k) × (status_by_seat rs m k ≡ some r.status))
      ⊎ (((r : Reservation) → In r rs → r.seat_id ≢ k) × (status_by_seat rs m k ≡ m k))
unfolding status_by_seat
status_by_seat_cases [] m k = inr (λ r i. absurd i, refl)
status_by_seat_cases (x ∷ rs) m k =
    elim (status_by_seat_cases rs (put x.seat_id (some x.status) m) k) [
      | inl (r, i, e, h) ↦ inl (r, inr i, e, h)
      | inr (others, h) ↦ elim (Bool-cases (x.seat_id == k)) [
        | inl a ↦ inl (x, inl refl, ground (arith, a), ground (arith, a, h))
        | inr a ↦ inr (
          λ r i. elim i [ inl e ↦ λ q. absurd (ground (arith, a, e, q)) | inr j ↦ others r j ],
          ground (arith, a, h),
        )
      ]
    ]

pub map-In : {A B : Type 0} (f : A → B) (x : A) (xs : List A) → In x xs → In (f x) (map f xs)
map-In f x [] i = absurd i
map-In f x (y ∷ ys) (inl e) = inl (ap f e)
map-In f x (y ∷ ys) (inr i) = inr (map-In f x ys i)

pub In-map :
    {A B : Type 0} (f : A → B) (b : B) (xs : List A)
    → In b (map f xs)
    → (x : A) × In x xs × (b ≡ f x)
In-map f b [] i = absurd i
In-map f b (y ∷ ys) (inl e) = (y, inl refl, e)
In-map f b (y ∷ ys) (inr i) = let (x, j, e) = In-map f b ys i in (x, inr j, e)

pub map-Distinct :
    {A B : Type 0} (f : A → B) (key : A → ℕ) (key' : B → ℕ)
    → ((x : A) → key' (f x) ≡ key x)
    → (xs : List A) → Distinct key xs
    → Distinct key' (map f xs)
map-Distinct {A} f key key' same [] d = d
map-Distinct {A} f key key' same (x ∷ xs) d = (apart xs d.0, map-Distinct f key key' same xs d.1)
  where
    apart : (ys : List A) → All (λ y. key x ≢ key y) ys → All (λ y. key' (f x) ≢ key' y) (map f ys)
    apart [] h = h
    apart (y ∷ ys) h = (λ e. h.0 (sym (same x) ∙ e ∙ same y), apart ys h.1)
