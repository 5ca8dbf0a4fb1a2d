-- ===== src/Screenings.antt =====
-- Screenings: backend/src/screenings/screenings.repository.ts and the writes of
-- backend/src/screenings/screenings.service.ts, with the invalidations of screenings.cache.ts and
-- of backend/src/movies/movies.cache.ts. The reads are in SeatMap.
pub mod Schedule
pub mod Apart
pub mod SeatMap
pub mod Selection
use movie_reservation_system.Base.{
  ℕ, ◌+◌, ◌*◌, Bool, true, false, not, ◌&&◌, Option, some, none, List, ◌==◌, ltb, length, keep,
  refl, if◌then◌else◌,
}
use movie_reservation_system.Schema.{
  Movie, Hall, Screening, Reservation, ScreenStatus, scheduled, cancelled,
}
use movie_reservation_system.Redis.{
  seat_map, screening_detail, movie_screenings, now_showing, coming_soon,
}
use movie_reservation_system.World.{
  Env, World, Action, Detail, not_found, bad_request, conflict, pure, ◌>>=◌, ◌>>◌, throw_if,
  or_throw, gets, on_screenings, on_redis,
}
use movie_reservation_system.PaymentAbuse.{is_some}

-- `CreateScreeningDto`, with the time already read
pub record CreateScreening : Type 0 where
  pub movie_id : ℕ
  pub hall_id : ℕ
  pub start_time : ℕ
  pub price : ℕ

-- `UpdateScreeningDto`
pub record UpdateScreening : Type 0 where
  pub movie_id : Option ℕ
  pub hall_id : Option ℕ
  pub start_time : Option ℕ
  pub price : Option ℕ

-- `a ?? b`
abbrev pub or_else : {A : Type 0} → Option A → A → A
or_else none b = b
or_else (some a) b = a

abbrev pub is_cancelled : ScreenStatus → Bool
is_cancelled cancelled = true
is_cancelled _ = false

-- `computeEnd`
abbrev pub compute_end : ℕ → ℕ → ℕ
compute_end start duration = start + duration * 60000

abbrev pub new_screening : CreateScreening → ℕ → Screening
new_screening dto id = record {
  id = id;
  hall_id = dto.hall_id;
  movie_id = dto.movie_id;
  start_time = dto.start_time;
  status = scheduled;
  price = dto.price;
}

-- The `data` of an update: the fields that the request names.
abbrev pub with_changes : UpdateScreening → Screening → Screening
with_changes dto s = record s {
  hall_id = or_else dto.hall_id s.hall_id;
  movie_id = or_else dto.movie_id s.movie_id;
  start_time = or_else dto.start_time s.start_time;
  price = or_else dto.price s.price;
}

abbrev pub with_screen_status : ScreenStatus → Screening → Screening
with_screen_status status s = record s { status = status }

-- The `where` of `findOverlapping`; `excludeId` may be missing.
abbrev pub is_excluded : Option ℕ → ℕ → Bool
is_excluded none id = false
is_excluded (some x) id = id == x

abbrev pub is_candidate : ℕ → Option ℕ → Screening → Bool
is_candidate hall_id exclude s =
    s.hall_id == hall_id && not (is_cancelled s.status) && not (is_excluded exclude s.id)

module _ ⦃env : Env⦄ where
  -- `include: { movie: … }`; the foreign key sees to it that the movie exists.
  abbrev pub duration_of : World → ℕ → ℕ
  duration_of w movie_id = elim (env.movie.get w.movies movie_id) [ none ↦ 0 | some m ↦ m.duration ]

  -- The half-open intervals overlap.
  abbrev pub meets : World → ℕ → ℕ → Screening → Bool
  meets w start end s =
      ltb s.start_time end && ltb start (compute_end s.start_time (duration_of w s.movie_id))

  unfoldable pub find_overlapping : ℕ → ℕ → ℕ → Option ℕ → World → List Screening
  find_overlapping hall_id start end exclude w =
      keep (meets w start end) (env.screening.find_many (is_candidate hall_id exclude) w.screenings)

  unfoldable pub assert_no_overlap : ℕ → ℕ → ℕ → Option ℕ → Action (Unit {0})
  unfolding find_overlapping
  assert_no_overlap hall_id start end exclude = do
    overlapping ← gets (find_overlapping hall_id start end exclude)
    throw_if (ltb 0 (length overlapping)) conflict

  -- `findById`, with the movie and the hall
  unfoldable pub find_detail : ℕ → World → Option Detail
  find_detail id w = elim (env.screening.get w.screenings id) [
    | none ↦ none
    | some s ↦ elim (env.movie.get w.movies s.movie_id) [
      | none ↦ none
      | some m ↦ elim (env.hall.get w.halls s.hall_id) [
        | none ↦ none
        | some h ↦ some (record { screening = s; movie = m; hall = h })
      ]
    ]
  ]

  unfoldable pub get_existing : ℕ → Action Detail
  unfolding find_detail
  get_existing id = do found ← gets (find_detail id); or_throw found not_found

  abbrev pub has_reservations : ℕ → World → Bool
  has_reservations id w =
      is_some (env.reservation.find_first (λ r. r.screening_id == id) w.reservations)

  -- `MoviesCache.delLists`
  abbrev pub del_lists : ℕ → Action (Unit {0})
  del_lists now = on_redis (λ s. env.redis.del coming_soon now (env.redis.del now_showing now s))

  -- The three keys of a screening, and the browse lists.
  abbrev pub invalidate : ℕ → ℕ → ℕ → Action (Unit {0})
  invalidate now id movie_id = do
    del_lists now
    on_redis (env.redis.del (seat_map id) now)
    on_redis (env.redis.del (screening_detail id) now)
    on_redis (env.redis.del (movie_screenings movie_id) now)

  abbrev pub find_movie : ℕ → Action Movie
  find_movie id = do found ← gets (λ w. env.movie.get w.movies id); or_throw found not_found

  abbrev pub find_hall : ℕ → Action Hall
  find_hall id = do found ← gets (λ w. env.hall.get w.halls id); or_throw found not_found

  unfoldable pub create_screening : ℕ → CreateScreening → Action Screening
  create_screening now dto = do
    movie ← find_movie dto.movie_id
    hall ← find_hall dto.hall_id
    assert_no_overlap dto.hall_id dto.start_time (compute_end dto.start_time movie.duration) none
    screening ← on_screenings (env.screening.create (new_screening dto) (λ k. refl))
    del_lists now
    on_redis (env.redis.del (movie_screenings dto.movie_id) now)
    pure screening

  -- The duration of the movie that the update leaves, looked up only if the movie changes.
  unfoldable pub effective_duration : Detail → Option ℕ → Action ℕ
  effective_duration existing none = pure existing.movie.duration
  effective_duration existing (some id) =
      if id == existing.screening.movie_id
      then pure existing.movie.duration
      else (do movie ← find_movie id; pure movie.duration)

  -- A new hall has to exist.
  unfoldable pub check_hall : Detail → Option ℕ → Action (Unit {0})
  check_hall existing none = pure tt
  check_hall existing (some id) =
      if id == existing.screening.hall_id then pure tt else (do hall ← find_hall id; pure tt)

  unfoldable pub update_screening : ℕ → ℕ → UpdateScreening → Action Screening
  update_screening now id dto = do
    existing ← get_existing id
    let start = or_else dto.start_time existing.screening.start_time
    duration ← effective_duration existing dto.movie_id
    check_hall existing dto.hall_id
    assert_no_overlap (or_else dto.hall_id existing.screening.hall_id) start
        (compute_end start duration) (some id)
    updated ← on_screenings (env.screening.update id (with_changes dto) (λ s. refl))
    invalidate now id existing.screening.movie_id
    pure updated

  unfoldable pub cancel_screening : ℕ → ℕ → Action Screening
  cancel_screening now id = do
    existing ← get_existing id
    throw_if (is_cancelled existing.screening.status) bad_request
    row ←
        on_screenings
          (env.screening.update id (with_screen_status ScreenStatus.cancelled) (λ s. refl))
    invalidate now id existing.screening.movie_id
    pure row

  unfoldable pub delete_screening : ℕ → ℕ → Action Screening
  delete_screening now id = do
    existing ← get_existing id
    taken ← gets (has_reservations id)
    throw_if taken conflict
    deleted ← on_screenings (env.screening.delete id)
    invalidate now id existing.screening.movie_id
    pure deleted
