-- ===== src/Movies/Browse.antt =====
-- The browse lists: `browseMovies` of movies/movies.service.ts.
use movie_reservation_system.Base.{
  ℕ, ◌≤◌, ◌<◌, ◌+◌, Bool, true, not, some, none, List, [], ◌∷◌, ◌≡◌, ◌↔◌, inl, inr, sym, ap, ◌∙◌,
  In, keep, arith, Bool-cases, Option-cases, refl, subst, ◌==◌, ◌&&◌, ltb,
}
use movie_reservation_system.Table.{ok}
use movie_reservation_system.Schema.{Movie, Screening, ScreenStatus, is_scheduled}
use movie_reservation_system.Redis.{now_showing, coming_soon}
use movie_reservation_system.World.{Env, World, movies}
use movie_reservation_system.Screenings.SeatMap.Rows.{order_by-In}
use movie_reservation_system.Movies.{
  BrowseLists, is_published, newer, as_lists, has_future, find_published, split, list_ttl,
  browse_movies,
}

keep-In :
    {A : Type 0} (p : A → Bool) (x : A) (xs : List A) → In x (keep p xs) ↔ (In x xs × (p x ≡ true))
keep-In p x [] = (λ i. absurd i, λ h. h.0)
keep-In p x (y ∷ ys) =
    let rec = keep-In p x ys in
    elim (Bool-cases (p y)) [
      | inl a ↦ rw a (
        λ i. elim i [ inl e ↦ (inl e, rw e a) | inr j ↦ (inr (rec.0 j).0, (rec.0 j).1) ],
        λ h. elim h.0 [ inl e ↦ inl e | inr j ↦ inr (rec.1 (j, h.1)) ],
      )
      | inr a ↦ rw a (
        λ i. (inr (rec.0 i).0, (rec.0 i).1),
        λ h. elim h.0 [ inl e ↦ absurd (ground (arith, a, h.1, ap p e)) | inr j ↦ rec.1 (j, h.1) ],
      )
    ]

is_scheduled_lem : (s : ScreenStatus) → is_scheduled s ≡ true → s ≡ ScreenStatus.scheduled
is_scheduled_lem ScreenStatus.scheduled h = refl
is_scheduled_lem ScreenStatus.completed h = cc
is_scheduled_lem ScreenStatus.cancelled h = cc

module _ ⦃env : Env⦄ where
  -- The movie is published.
  abbrev pub Published : World → Movie → Type 0
  Published w m = (env.movie.get w.movies m.id ≡ some m) × (is_published m.status ≡ true)

  -- A scheduled screening of the movie begins after `now`.
  abbrev pub ToCome : ℕ → World → Movie → Type 0
  ToCome now w m =
      (s : Screening) × (env.screening.get w.screenings s.id ≡ some s)
      × (s.movie_id ≡ m.id)
      × (s.status ≡ ScreenStatus.scheduled)
      × (now < s.start_time)

  -- The filter of the browse query.
  abbrev here : ℕ → Movie → Screening → Bool
  here now m s = s.movie_id == m.id && is_scheduled s.status && ltb now s.start_time

  has_future-ToCome : (now : ℕ) (w : World) (m : Movie) → has_future now w m ≡ true → ToCome now w m
  has_future-ToCome now w m h =
      elim (Option-cases (env.screening.find_first (here now m) w.screenings)) [
        | inl a ↦ absurd (ground (arith, a, h))
        | inr (s, a) ↦
            let (there, fits) = env.screening.find_first-some (here now m) w.screenings s a in
            (
              s,
              there,
              ground (arith, fits),
              is_scheduled_lem s.status (ground (arith, fits)),
              ground (arith, fits),
            )
      ]

  ToCome-has_future : (now : ℕ) (w : World) (m : Movie) → ToCome now w m → has_future now w m ≡ true
  ToCome-has_future now w m (s, there, same, open_, later) =
      elim (Option-cases (env.screening.find_first (here now m) w.screenings)) [
        | inr (x, a) ↦ ground (arith, a)
        | inl a ↦
            let none_fits =
              env.screening.find_first-none (here now m) w.screenings s.id s a there in
            absurd (ground (arith, none_fits, same, open_, later))
      ]

  -- The movies of the one list have a scheduled screening to come, those of the other have none, and
  -- together they are all published movies.
  abbrev pub Lists : ℕ → World → BrowseLists → Type 0
  Lists now w lists =
      (m : Movie)
      → (In m lists.showing ↔ (Published w m × ToCome now w m))
        × (In m lists.soon ↔ (Published w m × ¬ ToCome now w m))

  find_published-In : (w : World) (m : Movie) → In m (find_published w) ↔ Published w m
  find_published-In w m =
      let rows = env.movie.find_many (λ x. is_published x.status) w.movies in
      (
        λ i.
            env.movie.find_many_sound (λ x. is_published x.status) w.movies m
              ((order_by-In newer m rows).0 i),
        λ h.
            (order_by-In newer m rows).1
              (env.movie.find_many_complete (λ x. is_published x.status) w.movies m.id m h.0 h.1),
      )

  split-Lists : (now : ℕ) (w : World) → Lists now w (split now w)
  split-Lists now w m =
      let a = keep-In (has_future now w) m (find_published w) in
      let b = keep-In (λ x. not (has_future now w x)) m (find_published w) in
      let p = find_published-In w m in
      (
        (
          λ i. (p.0 (a.0 i).0, has_future-ToCome now w m (a.0 i).1),
          λ h. a.1 (p.1 h.0, ToCome-has_future now w m h.1),
        ),
        (
          λ i.
              let t = b.0 i in
              (p.0 t.0, λ c. absurd (ground (arith, t.1, ToCome-has_future now w m c))),
          λ h. b.1 (
            p.1 h.0,
            elim (Bool-cases (has_future now w m)) [
              | inl c ↦ absurd (h.1 (has_future-ToCome now w m c))
              | inr c ↦ rw c refl
            ],
          ),
        ),
      )

  -- After a miss `browseMovies` shows each published movie in one of the two lists, by whether it has a
  -- scheduled screening to come; for a minute the cache answers with the same lists.
  pub browse_movies-Lists :
      (now : ℕ) (lists : BrowseLists) (w w' : World)
      → as_lists (env.redis.value w.redis now_showing now) (env.redis.value w.redis coming_soon now)
        ≡ none
      → browse_movies now w ≡ (ok lists, w')
      → Lists now w lists
        × ((later : ℕ)
            → now ≤ later
            → later < now + list_ttl
            → browse_movies later w' ≡ (ok lists, w'))
  unfolding browse_movies
  browse_movies-Lists now lists w w' miss h =
      let stored : World = record w {
        redis =
            env.redis.set coming_soon (movies (split now w).soon) list_ttl now
              (env.redis.set now_showing (movies (split now w).showing) list_ttl now w.redis);
      } in
      let run : browse_movies now w ≡ (ok (split now w), stored) = ground (arith, miss) in
      let same : split now w ≡ lists = ground (arith, miss, h) in
      let first : env.redis.State =
        env.redis.set now_showing (movies lists.showing) list_ttl now w.redis in
      let cache : w'.redis ≡ env.redis.set coming_soon (movies lists.soon) list_ttl now first =
        ap (λ o. o.1.redis) (sym h)
        ∙ ap (λ o. o.1.redis) run
        ∙ ap
            (λ l.
              env.redis.set coming_soon (movies l.soon) list_ttl now
                (env.redis.set now_showing (movies l.showing) list_ttl now w.redis))
            same in
      (
        subst (Lists now w) same (split-Lists now w),
        λ later from until.
            let soon_kept =
              env.redis.set_lem coming_soon (movies lists.soon) list_ttl now later first from in
            let other =
              env.redis.set-others coming_soon now_showing (movies lists.soon) list_ttl now later
                first (λ e. absurd (ground (arith, e))) in
            let showing_kept =
              env.redis.set_lem now_showing (movies lists.showing) list_ttl now later w.redis
                from in
            ground (arith, cache, soon_kept, other, showing_kept, until),
      )
