-- ===== src/Tests/Movies.antt =====
-- Examples of the movies.
use movie_reservation_system.Base.{
  ◌⊎◌, false, ℕ, ◌+◌, ◌≤◌, ◌<◌, ◌≡◌, refl, none, some, [], ◌∷◌, true, arith,
}
use movie_reservation_system.Table.{ok, err, Result, put}
use movie_reservation_system.Schema.{Movie, published, draft}
use movie_reservation_system.World.{World, Failure, not_found}
use movie_reservation_system.World.Memory.{demo, in_memory}
use movie_reservation_system.Redis.{movie, now_showing, coming_soon}
use movie_reservation_system.Screenings.SeatMap.{order_by, insert_by}
use movie_reservation_system.Movies.{
  BrowseLists, as_movie, as_lists, list_ttl, get_existing_movie, unpublish, get_published_movie,
  browse_movies, with_movie_status,
}
use movie_reservation_system.Movies.Visible.{unpublish-get_published_movie}
use movie_reservation_system.Movies.Browse.{Lists, browse_movies-Lists}
use movie_reservation_system.Tests.Worlds.{cinema}

abbrev movie_3 : Movie
movie_3 = record { id = 3; name = "M"; duration = 100; status = published; created_at = 0 }

-- Movie 3 has a screening to come, movie 4 none.
abbrev programme : World ⦃env = demo⦄
programme = record cinema {
  movies = record {
    bound = 5;
    at = put 3 (some movie_3) (put 4 (some (record movie_3 { id = 4 })) (λ k. none));
    answers = true;
  };
}

-- Movie 3 is looked at, which caches it, and then taken back.
abbrev looked_at : World ⦃env = demo⦄
looked_at = (get_published_movie ⦃env = demo⦄ 100 3 programme).1

abbrev taken_back : Result Failure Movie × World ⦃env = demo⦄
taken_back = unpublish ⦃env = demo⦄ 200 3 looked_at

taken_back_ok : taken_back ≡ (ok (with_movie_status draft movie_3), taken_back.1)
unfolding unpublish get_existing_movie get_published_movie in_memory
taken_back_ok = refl

unpublish-get_published_movie_example :
    (get_published_movie ⦃env = demo⦄ 300 3 taken_back.1 ≡ (err not_found, taken_back.1))
    ⊎ ((looked_at.redis.answers ≡ false)
        × (copy : Movie) × (as_movie (demo.redis.value looked_at.redis (movie 3) 300) ≡ some copy)
        × (get_published_movie ⦃env = demo⦄ 300 3 taken_back.1 ≡ (ok copy, taken_back.1)))
unpublish-get_published_movie_example =
    unpublish-get_published_movie ⦃env = demo⦄ 200 300 3 (with_movie_status draft movie_3) looked_at
      taken_back.1 (omega arith) taken_back_ok

abbrev browsed : Result Failure BrowseLists × World ⦃env = demo⦄
browsed = browse_movies ⦃env = demo⦄ 100 programme

abbrev two_lists : BrowseLists
two_lists = record { showing = movie_3 ∷ []; soon = record movie_3 { id = 4 } ∷ [] }

browsed_ok : browsed ≡ (ok two_lists, browsed.1)
unfolding browse_movies order_by insert_by in_memory
browsed_ok = refl

no_cached_lists :
    as_lists
      (demo.redis.value programme.redis now_showing 100)
      (demo.redis.value programme.redis coming_soon 100)
    ≡ none
unfolding in_memory
no_cached_lists = refl

browse_movies-Lists_example :
    Lists ⦃env = demo⦄ 100 programme two_lists
    × ((later : ℕ)
        → 100 ≤ later
        → later < 100 + list_ttl
        → browse_movies ⦃env = demo⦄ later browsed.1 ≡ (ok two_lists, browsed.1))
browse_movies-Lists_example =
    browse_movies-Lists ⦃env = demo⦄ 100 two_lists programme browsed.1 no_cached_lists browsed_ok
