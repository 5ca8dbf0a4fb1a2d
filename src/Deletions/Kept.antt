-- ===== src/Deletions/Kept.antt =====
-- What a deletion leaves alone: `deleteMovie` of movies/movies.service.ts and `deleteHall` of
-- screenings/halls.service.ts, whose statements cascade.
use movie_reservation_system.Base.{
  ℕ, true, false, some, List, [], ◌∷◌, ◌≡◌, refl, ap, ◌∙◌, ◌==◌, In, All, inl, inr, arith,
  Bool-cases, Option-cases,
}
use movie_reservation_system.Table.{Result-cases}
use movie_reservation_system.Schema.{Screening}
use movie_reservation_system.World.{Env, World}
use movie_reservation_system.Movies.{get_existing_movie}
use movie_reservation_system.Deletions.{
  is_of_movie, delete_reservations, delete_screenings, movie_has_reservations, delete_movie_row,
  delete_movie,
}

no_members : {A : Type 0} (xs : List A) → ((x : A) → In x xs → ⊥) → xs ≡ []
no_members [] h = refl
no_members (x ∷ xs) h = absurd (h x (inl refl))

All-In : {A : Type 0} {P : A → Type 0} (xs : List A) → ((x : A) → In x xs → P x) → All P xs
All-In [] h = tt
All-In (x ∷ xs) h = (h x (inl refl), All-In xs (λ y i. h y (inr i)))

module _ ⦃env : Env⦄ where
  -- The reservations and payments of the world are those of the other.
  abbrev pub SameBookings : World → World → Type 0
  SameBookings v w = (v.reservations ≡ w.reservations) × (v.payments ≡ w.payments)

  -- No reservation is for this screening.
  abbrev Unbooked : World → Screening → Type 0
  Unbooked w s = env.reservation.find_many (λ r. r.screening_id == s.id) w.reservations ≡ []

  delete_screenings-SameBookings :
      (ss : List Screening) (v w : World)
      → All (Unbooked w) ss
      → v.reservations ≡ w.reservations
      → v.payments ≡ w.payments
      → SameBookings (delete_screenings ss v).1 w
  unfolding delete_screenings delete_reservations
  delete_screenings-SameBookings [] v w un same paid = (same, paid)
  delete_screenings-SameBookings (s ∷ ss) v w un same paid =
      elim (Result-cases (env.screening.delete s.id v.screenings)) [
        | inr (e, a) ↦ ground (arith, a, same, paid)
        | inl ((x, t), a) ↦
            let v' : World = record v { screenings = t } in
            let none_left : env.reservation.find_many (λ r. r.screening_id == s.id) v.reservations
                ≡ [] =
              ap (env.reservation.find_many (λ r. r.screening_id == s.id)) same ∙ un.0 in
            let step : delete_screenings (s ∷ ss) v ≡ delete_screenings ss v' =
              ground (arith, a, none_left) in
            let rest = delete_screenings-SameBookings ss v' w un.1 same paid in
            (ap (λ x. x.1.reservations) step ∙ rest.0, ap (λ x. x.1.payments) step ∙ rest.1)
      ]

  -- A screening of the movie has no reservation if the check finds none.
  movie-Unbooked :
      (id : ℕ) (w : World) (s : Screening)
      → movie_has_reservations id w ≡ false
      → env.screening.get w.screenings s.id ≡ some s
      → (s.movie_id == id) ≡ true
      → Unbooked w s
  unfolding movie_has_reservations
  movie-Unbooked id w s free there of_movie =
      no_members (env.reservation.find_many (λ r. r.screening_id == s.id) w.reservations) (λ r i.
        let (row, fits) =
          env.reservation.find_many_sound (λ r. r.screening_id == s.id) w.reservations r i in
        elim (Option-cases (
          env.reservation.find_first
            (λ r. is_of_movie id (env.screening.get w.screenings r.screening_id)) w.reservations)) [
              | inr (x, a) ↦ absurd (ground (arith, a, free))
              | inl a ↦
                  let missed =
                    env.reservation.find_first-none
                      (λ r. is_of_movie id (env.screening.get w.screenings r.screening_id))
                      w.reservations r.id r a row in
                  let same : r.screening_id ≡ s.id = ground (arith, fits) in
                  let found = ap (env.screening.get w.screenings) same ∙ there in
                  absurd (ground (arith, missed, found, of_movie))
            ])

  delete_movie_row-SameBookings :
      (id : ℕ) (w : World)
      → movie_has_reservations id w ≡ false
      → SameBookings (delete_movie_row id w).1 w
  unfolding delete_movie_row
  delete_movie_row-SameBookings id w free = elim (Result-cases (env.movie.delete id w.movies)) [
    | inr (e, a) ↦ ground (arith, a)
    | inl ((m, t), a) ↦
        let v : World = record w { movies = t } in
        let ss = env.screening.find_many (λ s. s.movie_id == id) w.screenings in
        let un : All (Unbooked w) ss = All-In ss (λ s i.
          let (row, fits) =
            env.screening.find_many_sound (λ s. s.movie_id == id) w.screenings s i in
          movie-Unbooked id w s free row fits) in
        let kept = delete_screenings-SameBookings ss v w un refl refl in
        elim (Result-cases (delete_screenings ss v).0) [
          | inr (e, b) ↦ ground (arith, a, b)
          | inl (x, b) ↦ ground (arith, a, b, kept)
        ]
  ]

  -- Whatever `deleteMovie` returns or throws, and whatever cascades: every reservation and every
  -- payment is as before.
  pub delete_movie-SameBookings :
      (now id : ℕ) (w : World) → SameBookings (delete_movie now id w).1 w
  unfolding delete_movie get_existing_movie
  delete_movie-SameBookings now id w = elim (Option-cases (env.movie.get w.movies id)) [
    | inl a ↦ ground (arith, a)
    | inr (m, a) ↦ elim (Bool-cases (movie_has_reservations id w)) [
      | inl b ↦ ground (arith, a, b)
      | inr b ↦
          let kept = delete_movie_row-SameBookings id w b in
          elim (Result-cases (delete_movie_row id w).0) [
            | inl (x, c) ↦ ground (arith, a, b, c, kept)
            | inr (e, c) ↦ ground (arith, a, b, c, kept)
          ]
    ]
  ]
