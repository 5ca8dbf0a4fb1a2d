-- ===== src/Screenings/Apart.antt =====
-- What the writes of screenings/screenings.service.ts do to the schedule of the halls.
use movie_reservation_system.Base.{
  ℕ, false, Option, some, none, ◌≡◌, inl, inr, refl, sym, ◌∙◌, ap, subst, ◌==◌, ltb, length, arith,
  Bool-cases, Option-cases,
}
use movie_reservation_system.Table.{Result, Result-cases, ok, err}
use movie_reservation_system.Schema.{Screening, ScreenStatus}
use movie_reservation_system.World.{Env, World, Detail, Failure, not_found}
use movie_reservation_system.Screenings.{
  CreateScreening, UpdateScreening, or_else, is_cancelled, compute_end, new_screening, with_changes,
  with_screen_status, duration_of, find_overlapping, assert_no_overlap, find_detail, get_existing,
  has_reservations, create_screening, effective_duration, check_hall, update_screening,
  cancel_screening, delete_screening,
}
use movie_reservation_system.Screenings.Schedule.{
  schedule, Apart, Apart-same, write_checked, write_quiet, find_detail-some,
}

module _ ⦃env : Env⦄ where
  -- `createScreening` keeps the screenings of every hall apart, whatever it returns or throws.
  pub create_screening-Apart :
      (now : ℕ) (dto : CreateScreening) (w : World) → Apart w → Apart (create_screening now dto w).1
  unfolding create_screening assert_no_overlap
  create_screening-Apart now dto w apart =
      elim (Option-cases (env.movie.get w.movies dto.movie_id)) [
        | inl a ↦
            Apart-same w (create_screening now dto w).1 (ground (arith, a)) (ground (arith, a))
              apart
        | inr (m, a) ↦ elim (Option-cases (env.hall.get w.halls dto.hall_id)) [
          | inl b ↦
              Apart-same w (create_screening now dto w).1 (ground (arith, a, b))
                (ground (arith, a, b)) apart
          | inr (hall, b) ↦
              elim (Bool-cases (
                ltb 0 (
                  length (
                    find_overlapping dto.hall_id dto.start_time
                      (compute_end dto.start_time m.duration) none w)))) [
                        | inl c ↦
                            Apart-same w (create_screening now dto w).1 (ground (arith, a, b, c))
                              (ground (arith, a, b, c)) apart
                        | inr c ↦
                            elim (Result-cases
                              (env.screening.create (new_screening dto) (λ k. refl) w.screenings)) [
                                | inr (e, d) ↦
                                    Apart-same w (create_screening now dto w).1
                                      (ground (arith, a, b, c, d)) (ground (arith, a, b, c, d))
                                      apart
                                | inl ((r, s), d) ↦
                                    let (same, fresh, stored) =
                                      env.screening.create-ok (new_screening dto) (λ k. refl)
                                        w.screenings r s d in
                                    Apart-same (record w { screenings = s })
                                      (create_screening now dto w).1 (ground (arith, a, b, c, d))
                                      (ground (arith, a, b, c, d))
                                      (write_checked w s dto.start_time m.duration none r.id r apart
                                        (subst
                                          (λ h.
                                            ltb 0 (
                                              length (
                                                find_overlapping h dto.start_time
                                                  (compute_end dto.start_time m.duration) none w))
                                            ≡ false)
                                          (ground (arith, same)) c)
                                        (ground (arith, same)) (ground (arith, same, a))
                                        (λ j t ne found. refl) stored)
                              ]
                      ]
        ]
      ]

  -- The look-ups of an update change nothing, and find the duration of the movie that it leaves.
  duration_cases :
      (d : Detail) (o : Option ℕ) (w : World)
      → env.movie.get w.movies d.screening.movie_id ≡ some d.movie
      → (P : Result Failure ℕ × World → Type 0) → ((e : Failure) → P (err e, w))
      → ((n : ℕ) → duration_of w (or_else o d.screening.movie_id) ≡ n → P (ok n, w))
      → P (effective_duration d o w)
  unfolding effective_duration
  duration_cases d none w h P refused found_it = found_it d.movie.duration (ground (arith, h))
  duration_cases d (some k) w h P refused found_it = elim (Bool-cases (k == d.screening.movie_id)) [
    | inl a ↦
        let same : d.screening.movie_id ≡ k = ground (arith, a) in
        let known : env.movie.get w.movies k ≡ some d.movie =
          subst (λ x. env.movie.get w.movies x ≡ some d.movie) same h in
        subst P (ground (arith, a)) (found_it d.movie.duration (ground (arith, known)))
    | inr a ↦ elim (Option-cases (env.movie.get w.movies k)) [
      | inl b ↦ subst P (ground (arith, a, b)) (refused not_found)
      | inr (m, b) ↦ subst P (ground (arith, a, b)) (found_it m.duration (ground (arith, b)))
    ]
  ]

  check_hall_cases :
      (d : Detail) (o : Option ℕ) (w : World)
      → (P : Result Failure (Unit {0}) × World → Type 0) → ((e : Failure) → P (err e, w))
      → P (ok tt, w)
      → P (check_hall d o w)
  unfolding check_hall
  check_hall_cases d none w P refused found_it = found_it
  check_hall_cases d (some k) w P refused found_it = elim (Bool-cases (k == d.screening.hall_id)) [
    | inl a ↦ subst P (ground (arith, a)) found_it
    | inr a ↦ elim (Option-cases (env.hall.get w.halls k)) [
      | inl b ↦ subst P (ground (arith, a, b)) (refused not_found)
      | inr (x, b) ↦ subst P (ground (arith, a, b)) found_it
    ]
  ]

  -- `updateScreening` keeps the screenings of every hall apart, whatever it returns or throws.
  pub update_screening-Apart :
      (now id : ℕ) (dto : UpdateScreening) (w : World)
      → Apart w
      → Apart (update_screening now id dto w).1
  unfolding update_screening get_existing assert_no_overlap
  update_screening-Apart now id dto w apart = elim (Option-cases (find_detail id w)) [
    | inl a ↦ Apart-same w out.1 (ground (arith, a)) (ground (arith, a)) apart
    | inr (d, a) ↦
        let (found, movie) = find_detail-some id w d a in
        duration_cases d dto.movie_id w movie
          (λ x. effective_duration d dto.movie_id w ≡ x → Apart out.1)
          (λ e b. Apart-same w out.1 (ground (arith, a, b)) (ground (arith, a, b)) apart)
          (λ n lasts b.
            check_hall_cases d dto.hall_id w (λ x. check_hall d dto.hall_id w ≡ x → Apart out.1)
              (λ e c. Apart-same w out.1 (ground (arith, a, b, c)) (ground (arith, a, b, c)) apart)
              (λ c. checked d n a found lasts b c) refl)
          refl
  ]
    where
      out : Result Failure Screening × World
      out = update_screening now id dto w

      checked :
          (d : Detail) (n : ℕ)
          → find_detail id w ≡ some d
          → schedule w id ≡ some d.screening
          → duration_of w (or_else dto.movie_id d.screening.movie_id) ≡ n
          → effective_duration d dto.movie_id w ≡ (ok n, w)
          → check_hall d dto.hall_id w ≡ (ok tt, w)
          → Apart out.1
      checked d n a found lasts b c =
          let start = or_else dto.start_time d.screening.start_time in
          let hall = or_else dto.hall_id d.screening.hall_id in
          elim (Bool-cases
            (ltb 0 (length (find_overlapping hall start (compute_end start n) (some id) w)))) [
              | inl f ↦
                  Apart-same w out.1 (ground (arith, a, b, c, f)) (ground (arith, a, b, c, f)) apart
              | inr f ↦
                  elim (Result-cases
                    (env.screening.update id (with_changes dto) (λ s. refl) w.screenings)) [
                      | inr (e, g) ↦
                          Apart-same w out.1 (ground (arith, a, b, c, f, g))
                            (ground (arith, a, b, c, f, g)) apart
                      | inl ((r, s), g) ↦
                          let (old, was, same, stored) =
                            env.screening.update-ok id (with_changes dto) (λ x. refl) w.screenings r
                              s g in
                          let one : old ≡ d.screening = ground (arith, was, found) in
                          let is : r ≡ with_changes dto d.screening =
                            same ∙ ap (with_changes dto) one in
                          Apart-same (record w { screenings = s }) out.1
                            (ground (arith, a, b, c, f, g)) (ground (arith, a, b, c, f, g))
                            (write_checked w s start n (some id) id r apart
                              (subst
                                (λ x.
                                  ltb 0 (
                                    length
                                      (find_overlapping x start (compute_end start n) (some id) w))
                                  ≡ false)
                                (sym (ap (λ x. x.hall_id) is)) f)
                              (ap (λ x. x.start_time) is)
                              (ap (λ x. duration_of w x.movie_id) is ∙ lasts)
                              (λ j t ne hit. ground (arith, ne)) stored)
                    ]
            ]

  -- `cancelScreening` and `deleteScreening` keep the screenings of every hall apart.
  pub cancel_screening-Apart :
      (now id : ℕ) (w : World) → Apart w → Apart (cancel_screening now id w).1
  unfolding cancel_screening get_existing
  cancel_screening-Apart now id w apart = elim (Option-cases (find_detail id w)) [
    | inl a ↦ Apart-same w out.1 (ground (arith, a)) (ground (arith, a)) apart
    | inr (d, a) ↦ elim (Bool-cases (is_cancelled d.screening.status)) [
      | inl b ↦ Apart-same w out.1 (ground (arith, a, b)) (ground (arith, a, b)) apart
      | inr b ↦
          elim (Result-cases (
            env.screening.update id (with_screen_status ScreenStatus.cancelled) (λ s. refl)
              w.screenings)) [
                | inr (e, g) ↦
                    Apart-same w out.1 (ground (arith, a, b, g)) (ground (arith, a, b, g)) apart
                | inl ((r, s), g) ↦
                    let (old, was, same, stored) =
                      env.screening.update-ok id (with_screen_status ScreenStatus.cancelled)
                        (λ x. refl) w.screenings r s g in
                    Apart-same (record w { screenings = s }) out.1 (ground (arith, a, b, g))
                      (ground (arith, a, b, g))
                      (write_quiet w s id (some r) apart (λ n e. ground (arith, e, same)) stored)
              ]
    ]
  ]
    where
      out : Result Failure Screening × World
      out = cancel_screening now id w

  pub delete_screening-Apart :
      (now id : ℕ) (w : World) → Apart w → Apart (delete_screening now id w).1
  unfolding delete_screening get_existing
  delete_screening-Apart now id w apart = elim (Option-cases (find_detail id w)) [
    | inl a ↦ Apart-same w out.1 (ground (arith, a)) (ground (arith, a)) apart
    | inr (d, a) ↦ elim (Bool-cases (has_reservations id w)) [
      | inl b ↦ Apart-same w out.1 (ground (arith, a, b)) (ground (arith, a, b)) apart
      | inr b ↦ elim (Result-cases (env.screening.delete id w.screenings)) [
        | inr (e, g) ↦ Apart-same w out.1 (ground (arith, a, b, g)) (ground (arith, a, b, g)) apart
        | inl ((r, s), g) ↦
            Apart-same (record w { screenings = s }) out.1 (ground (arith, a, b, g))
              (ground (arith, a, b, g))
              (write_quiet w s id none apart (λ n e. absurd (ground (arith, e)))
                (env.screening.delete-ok id w.screenings r s g).1)
      ]
    ]
  ]
    where
      out : Result Failure Screening × World
      out = delete_screening now id w
