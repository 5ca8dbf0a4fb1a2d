-- ===== src/Screenings/Selection.antt =====
-- `getMovieScreenings` of backend/src/screenings/screenings.service.ts: the screenings of a movie that can still
-- be booked.
use movie_reservation_system.Base.{
  ℕ, ◌<◌, Bool, true, ◌&&◌, some, none, List, map, ◌==◌, ltb, leb, ◌≡◌, inl, inr, sym, subst, In,
  arith, Option-cases,
}
use movie_reservation_system.Table.{ok}
use movie_reservation_system.Schema.{Screening, Movie, is_scheduled}
use movie_reservation_system.Redis.{movie_screenings}
use movie_reservation_system.World.{
  Env, World, Action, FutureScreening, future, not_found, pure, ◌>>=◌, ◌>>◌, or_throw, gets,
  on_redis,
}
use movie_reservation_system.Screenings.SeatMap.{order_by, as_future, movie_screenings_ttl}
use movie_reservation_system.Screenings.SeatMap.Rows.{order_by-In, In-map}
use movie_reservation_system.Movies.{find_published_by_id, is_published}

-- `orderBy: { startTime: 'asc' }`
abbrev pub earlier : Screening → Screening → Bool
earlier a b = leb a.start_time b.start_time

-- The `where` of `findFutureScheduledByMovie`
abbrev pub is_future_of : ℕ → ℕ → Screening → Bool
is_future_of movie_id now s =
    s.movie_id == movie_id && is_scheduled s.status && ltb now s.start_time

module _ ⦃env : Env⦄ where
  -- The `select_fields`, with the hall, which the foreign key sees to.
  abbrev pub select_fields : World → Screening → FutureScreening
  select_fields w s = record {
    id = s.id;
    start_time = s.start_time;
    price = s.price;
    hall = env.hall.get w.halls s.hall_id;
  }

  abbrev pub find_future_scheduled_by_movie : ℕ → ℕ → World → List FutureScreening
  find_future_scheduled_by_movie movie_id now w =
      map (select_fields w)
        (order_by earlier (env.screening.find_many (is_future_of movie_id now) w.screenings))

  unfoldable pub compute_movie_screenings : ℕ → ℕ → Action (List FutureScreening)
  compute_movie_screenings now movie_id = do
    found ← gets (find_published_by_id movie_id)
    or_throw found not_found
    list ← gets (find_future_scheduled_by_movie movie_id now)
    on_redis (env.redis.set (movie_screenings movie_id) (future list) movie_screenings_ttl now)
    pure list

  -- `getMovieScreenings`
  unfoldable pub get_movie_screenings : ℕ → ℕ → Action (List FutureScreening)
  unfolding compute_movie_screenings
  get_movie_screenings now movie_id = do
    cached ← gets (λ w. as_future (env.redis.value w.redis (movie_screenings movie_id) now))
    elim cached [ some list ↦ pure list | none ↦ compute_movie_screenings now movie_id ]

  -- After a miss, each screening that is offered is a scheduled one of the published movie that has not
  -- begun.
  pub get_movie_screenings_offered :
      (now movie_id : ℕ) (list : List FutureScreening) (w w' : World)
      → as_future (env.redis.value w.redis (movie_screenings movie_id) now) ≡ none
      → get_movie_screenings now movie_id w ≡ (ok list, w')
      → ((m : Movie) × (env.movie.get w.movies movie_id ≡ some m) × (is_published m.status ≡ true))
        × ((x : FutureScreening)
            → In x list
            → (s : Screening) × (env.screening.get w.screenings x.id ≡ some s)
              × (s.movie_id ≡ movie_id)
              × (is_scheduled s.status ≡ true)
              × (now < s.start_time)
              × (x ≡ select_fields w s))
  unfolding get_movie_screenings
  get_movie_screenings_offered now movie_id list w w' miss h =
      elim (Option-cases (find_published_by_id movie_id w)) [
        | inl a ↦ absurd (ground (arith, miss, a, h))
        | inr (m, a) ↦
            let (row, fits) =
              env.movie.find_first-some (λ x. x.id == movie_id && is_published x.status) w.movies m
                a in
            let same : find_future_scheduled_by_movie movie_id now w ≡ list =
              ground (arith, miss, a, h) in
            (
              (m, ground (arith, row, fits), ground (arith, fits)),
              λ x i.
                  let rows = env.screening.find_many (is_future_of movie_id now) w.screenings in
                  let (s, j, e) =
                    In-map (select_fields w) x (order_by earlier rows)
                      (subst (In x) (sym same) i) in
                  let t =
                    env.screening.find_many_sound (is_future_of movie_id now) w.screenings s
                      ((order_by-In earlier s rows).0 j) in
                  (
                    s,
                    ground (arith, e, t.0),
                    ground (arith, t.1),
                    ground (arith, t.1),
                    ground (arith, t.1),
                    e,
                  ),
            )
      ]
