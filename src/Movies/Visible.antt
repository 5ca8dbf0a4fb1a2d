-- ===== src/Movies/Visible.antt =====
-- What the public sees after an administrator has hidden a movie or a screening: the caches do not
-- bring it back.
use movie_reservation_system.Base.{
  ℕ, ◌≤◌, ◌&&◌, ◌⊎◌, some, false, none, ◌≡◌, ◌≢◌, inl, inr, refl, ap, ◌∙◌, ◌==◌, arith, Bool-cases,
  Option-cases,
}
use movie_reservation_system.Table.{Result-cases, ok, err}
use movie_reservation_system.Schema.{Movie, draft}
use movie_reservation_system.Redis.{movie, now_showing, coming_soon}
use movie_reservation_system.World.{Env, World, not_found}
use movie_reservation_system.Movies.{
  is_published, with_movie_status, find_published_by_id, get_existing_movie, unpublish,
  get_published_movie, as_movie,
}

movie-now_showing : (id : ℕ) → now_showing ≢ movie id
movie-now_showing id h = absurd (ground (arith, h))

movie-coming_soon : (id : ℕ) → coming_soon ≢ movie id
movie-coming_soon id h = absurd (ground (arith, h))

module _ ⦃env : Env⦄ where
  -- After a movie was unpublished, the look-up that follows, at whatever later time, does not find it,
  -- though a copy was in the cache. It still shows the copy that the cache held, for as long as the
  -- cache would have held it, only if Redis failed, whose error the deletion swallows.
  pub unpublish-get_published_movie :
      (now later id : ℕ) (m : Movie) (w w' : World)
      → now ≤ later
      → unpublish now id w ≡ (ok m, w')
      → (get_published_movie later id w' ≡ (err not_found, w'))
        ⊎ ((env.redis.answers w.redis ≡ false)
            × (copy : Movie) × (as_movie (env.redis.value w.redis (movie id) later) ≡ some copy)
            × (get_published_movie later id w' ≡ (ok copy, w')))
  unfolding unpublish get_published_movie get_existing_movie
  unpublish-get_published_movie now later id m w w' from h =
      elim (Option-cases (env.movie.get w.movies id)) [
        | inl a ↦ absurd (ground (arith, a, h))
        | inr (x, a) ↦ elim (Bool-cases (is_published x.status)) [
          | inr b ↦ absurd (ground (arith, a, b, h))
          | inl b ↦
              elim (Result-cases
                (env.movie.update id (with_movie_status draft) (λ y. refl) w.movies)) [
                  | inr (e, c) ↦ absurd (ground (arith, a, b, c, h))
                  | inl ((r, s), c) ↦
                      let (old, _, new, stored) =
                        env.movie.update-ok id (with_movie_status draft) (λ y. refl) w.movies r s
                          c in
                      let table : w'.movies ≡ s = ground (arith, a, b, c, h) in
                      let cache : w'.redis
                          ≡ env.redis.del coming_soon now (
                              env.redis.del now_showing now
                                (env.redis.del (movie id) now w.redis)) =
                        ground (arith, a, b, c, h) in
                      let left : env.redis.value w'.redis (movie id) later
                          ≡ env.redis.value (env.redis.del (movie id) now w.redis) (movie id)
                              later =
                        ap (λ x. env.redis.value x (movie id) later) cache
                        ∙ env.redis.del-others coming_soon (movie id) now later
                            (env.redis.del now_showing now (env.redis.del (movie id) now w.redis))
                            (movie-coming_soon id)
                        ∙ env.redis.del-others now_showing (movie id) now later
                            (env.redis.del (movie id) now w.redis) (movie-now_showing id) in
                      let none_left : find_published_by_id id w' ≡ none =
                        elim (Option-cases (find_published_by_id id w')) [
                          | inl d ↦ d
                          | inr (y, d) ↦
                              let (row, fits) =
                                env.movie.find_first-some (λ z. z.id == id && is_published z.status)
                                  w'.movies y d in
                              absurd (ground (arith, row, fits, table, stored y.id, new))
                        ] in
                      elim (Bool-cases (env.redis.answers w.redis)) [
                        | inl up ↦
                            let gone = env.redis.del_lem (movie id) now later w.redis from up in
                            inl (ground (arith, left, gone, none_left))
                        | inr down ↦ elim (env.redis.del_failed (movie id) now later w.redis from) [
                          | inl gone ↦ inl (ground (arith, left, gone, none_left))
                          | inr same ↦
                              elim (Option-cases
                                (as_movie (env.redis.value w.redis (movie id) later))) [
                                  | inl miss ↦ inl (ground (arith, left, same, miss, none_left))
                                  | inr (copy, hit) ↦
                                      inr (down, copy, hit, ground (arith, left, same, hit))
                                ]
                        ]
                      ]
                ]
        ]
      ]
