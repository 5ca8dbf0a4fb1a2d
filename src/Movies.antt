-- ===== src/Movies.antt =====
-- Movies: backend/src/movies/movies.repository.ts, movies.cache.ts and movies.service.ts. Of a movie's
-- columns those are kept that an operation reads.
pub mod Visible
pub mod Browse
use Prim.Native.String.{String}
use movie_reservation_system.Base.{
  ℕ, Bool, true, false, not, ◌&&◌, Option, some, none, List, [], ◌∷◌, ◌==◌, ltb, leb, refl, keep,
  if◌then◌else◌,
}
use movie_reservation_system.Schema.{Movie, MovieStatus, Screening, draft, published, is_scheduled}
use movie_reservation_system.Redis.{movie, now_showing, coming_soon}
use movie_reservation_system.World.{
  Env, World, Action, Cached, one_movie, movies, not_found, bad_request, conflict, pure, ◌>>=◌,
  ◌>>◌, throw_if, or_throw, gets, on_movies, on_redis,
}
use movie_reservation_system.PaymentAbuse.{is_some}
use movie_reservation_system.Screenings.{or_else, del_lists}
use movie_reservation_system.Screenings.SeatMap.{order_by}

abbrev pub movie_ttl : ℕ
movie_ttl = 3600000

abbrev pub list_ttl : ℕ
list_ttl = 60000

abbrev pub is_published : MovieStatus → Bool
is_published published = true
is_published draft = false

-- `CreateMovieDto`, and the `status` and `createdAt` of the schema
abbrev pub new_movie : ℕ → String → ℕ → ℕ → Movie
new_movie now name duration id = record {
  id = id;
  name = name;
  duration = duration;
  status = draft;
  created_at = now;
}

-- `UpdateMovieDto`
pub record UpdateMovie : Type 0 where
  pub name : Option String
  pub duration : Option ℕ

abbrev pub edited : UpdateMovie → Movie → Movie
edited dto m = record m {
  name = or_else dto.name m.name;
  duration = or_else dto.duration m.duration;
}

abbrev pub with_movie_status : MovieStatus → Movie → Movie
with_movie_status s m = record m { status = s }

-- `BrowseLists`
pub record BrowseLists : Type 0 where
  pub showing : List Movie
  pub soon : List Movie

abbrev pub as_movie : Option Cached → Option Movie
as_movie (some (one_movie m)) = some m
as_movie _ = none

-- Both lists, or nothing.
abbrev pub as_lists : Option Cached → Option Cached → Option BrowseLists
as_lists (some (movies a)) (some (movies b)) = some (record { showing = a; soon = b })
as_lists _ _ = none

-- `createdAt: 'desc'`
abbrev pub newer : Movie → Movie → Bool
newer a b = leb b.created_at a.created_at

module _ ⦃env : Env⦄ where
  -- The screens that `findPublishedForBrowse` includes: one scheduled screening in the future.
  abbrev pub has_future : ℕ → World → Movie → Bool
  has_future now w m = is_some (
      env.screening.find_first
        (λ s. s.movie_id == m.id && is_scheduled s.status && ltb now s.start_time) w.screenings)

  abbrev pub find_published : World → List Movie
  find_published w = order_by newer (env.movie.find_many (λ m. is_published m.status) w.movies)

  abbrev pub find_published_by_id : ℕ → World → Option Movie
  find_published_by_id id w =
      env.movie.find_first (λ m. m.id == id && is_published m.status) w.movies

  -- `delMovie`, which swallows a failure of the deletion
  abbrev pub del_movie : ℕ → ℕ → Action (Unit {0})
  del_movie now id = on_redis (env.redis.del (movie id) now)

  unfoldable pub create_movie : ℕ → String → ℕ → Action Movie
  create_movie now name duration =
      on_movies (env.movie.create (new_movie now name duration) (λ k. refl))

  unfoldable pub get_existing_movie : ℕ → Action Movie
  get_existing_movie id = do found ← gets (λ w. env.movie.get w.movies id); or_throw found not_found

  unfoldable pub update_movie : ℕ → ℕ → UpdateMovie → Action Movie
  unfolding get_existing_movie
  update_movie now id dto = do
    get_existing_movie id
    m ← on_movies (env.movie.update id (edited dto) (λ x. refl))
    del_movie now id
    pure m

  unfoldable pub publish : ℕ → ℕ → Action Movie
  unfolding get_existing_movie
  publish now id = do
    m ← get_existing_movie id
    throw_if (is_published m.status) bad_request
    row ← on_movies (env.movie.update id (with_movie_status published) (λ x. refl))
    del_lists now
    pure row

  unfoldable pub unpublish : ℕ → ℕ → Action Movie
  unfolding get_existing_movie
  unpublish now id = do
    m ← get_existing_movie id
    throw_if (not (is_published m.status)) bad_request
    row ← on_movies (env.movie.update id (with_movie_status draft) (λ x. refl))
    del_movie now id
    del_lists now
    pure row

  unfoldable pub get_published_movie : ℕ → ℕ → Action Movie
  get_published_movie now id = do
    cached ← gets (λ w. as_movie (env.redis.value w.redis (movie id) now))
    elim cached [
      | some m ↦ pure m
      | none ↦ do
        found ← gets (find_published_by_id id)
        m ← or_throw found not_found
        on_redis (env.redis.set (movie m.id) (one_movie m) movie_ttl now)
        pure m
    ]

  -- The split of the published movies.
  abbrev pub split : ℕ → World → BrowseLists
  split now w = record {
    showing = keep (has_future now w) (find_published w);
    soon = keep (λ m. not (has_future now w m)) (find_published w);
  }

  unfoldable pub browse_movies : ℕ → Action BrowseLists
  browse_movies now = do
    cached ← gets (λ w.
        as_lists (env.redis.value w.redis now_showing now)
          (env.redis.value w.redis coming_soon now))
    elim cached [
      | some lists ↦ pure lists
      | none ↦ do
        lists ← gets (split now)
        on_redis (λ s.
            env.redis.set coming_soon (movies lists.soon) list_ttl now
              (env.redis.set now_showing (movies lists.showing) list_ttl now s))
        pure lists
    ]
