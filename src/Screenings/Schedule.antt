-- ===== src/Screenings/Schedule.antt =====
-- The schedule of a hall: the writes of screenings/screenings.service.ts never let two screenings
-- overlap.
use movie_reservation_system.Base.{
  ℕ, Bool, true, false, not, ◌&&◌, Option, some, none, List, [], ◌∷◌, ◌≡◌, ◌≢◌, inl, inr, sym,
  subst, ◌==◌, ltb, length, keep, In, arith, Bool-cases, Option-cases,
}
use movie_reservation_system.Table.{put}
use movie_reservation_system.Schema.{Screening}
use movie_reservation_system.World.{Env, World, Detail}
use movie_reservation_system.Screenings.{
  is_cancelled, compute_end, is_excluded, is_candidate, duration_of, meets, find_overlapping,
  find_detail,
}

-- Two screenings stand in one hall, neither is cancelled, and their times have a moment in common.
abbrev pub overlap : (ℕ → ℕ) → Screening → Screening → Bool
overlap duration s t =
    s.hall_id == t.hall_id
    && not (is_cancelled s.status)
    && not (is_cancelled t.status)
    && ltb s.start_time (compute_end t.start_time (duration t.movie_id))
    && ltb t.start_time (compute_end s.start_time (duration s.movie_id))

abbrev pub NoOverlap : (ℕ → ℕ) → (ℕ → Option Screening) → Type 0
NoOverlap duration g =
    (i j : ℕ) (s t : Screening) → i ≢ j → g i ≡ some s → g j ≡ some t → overlap duration s t ≡ false

overlap_sym :
    (duration : ℕ → ℕ) (s t : Screening)
    → overlap duration s t ≡ false
    → overlap duration t s ≡ false
overlap_sym duration s t h = ground (arith, h)

-- One row is written, and it overlaps with no other one.
put-NoOverlap :
    (duration : ℕ → ℕ) (g h : ℕ → Option Screening) (k : ℕ) (new : Option Screening)
    → NoOverlap duration g
    → ((n : Screening)
        → new ≡ some n
        → (j : ℕ) (t : Screening) → k ≢ j
        → g j ≡ some t
        → overlap duration n t ≡ false)
    → ((j : ℕ) → h j ≡ put k new g j)
    → NoOverlap duration h
put-NoOverlap duration g h k new none_meet fits e i j s t ne hi hj = elim (Bool-cases (k == i)) [
  | inl a ↦
      let ni : new ≡ some s = ground (arith, e i, a, hi) in
      let gj : g j ≡ some t = ground (arith, e j, a, hj, ne) in
      fits s ni j t (ground (arith, a, ne)) gj
  | inr a ↦
      let gi : g i ≡ some s = ground (arith, e i, a, hi) in
      elim (Bool-cases (k == j)) [
        | inl b ↦
            let nj : new ≡ some t = ground (arith, e j, b, hj) in
            overlap_sym duration t s (fits t nj i s (ground (arith, a)) gi)
        | inr b ↦ none_meet i j s t ne gi (ground (arith, e j, b, hj))
      ]
]

keep_none :
    {A : Type 0} (p : A → Bool) (xs : List A)
    → ltb 0 (length (keep p xs)) ≡ false
    → (x : A) → In x xs
    → p x ≡ false
keep_none p [] h x i = absurd i
keep_none p (y ∷ xs) h x (inl e) = rw e (ground (arith, h))
keep_none p (y ∷ xs) h x (inr i) = elim (Bool-cases (p y)) [
  | inl a ↦ absurd (ground (arith, h, a))
  | inr a ↦ keep_none p xs (ground (arith, h, a)) x i
]

module _ ⦃env : Env⦄ where
  abbrev pub schedule : World → ℕ → Option Screening
  schedule w = env.screening.get w.screenings

  -- In every hall the screenings that are not cancelled are apart.
  abbrev pub Apart : World → Type 0
  Apart w = NoOverlap (duration_of w) (schedule w)

  -- What the check finds out about a new or with_changes row.
  fits_checked :
      (w : World) (start duration : ℕ) (exclude : Option ℕ) (n : Screening)
      → ltb 0 (length (find_overlapping n.hall_id start (compute_end start duration) exclude w))
        ≡ false
      → n.start_time ≡ start
      → duration_of w n.movie_id ≡ duration
      → (j : ℕ) (t : Screening) → is_excluded exclude j ≡ false
      → schedule w j ≡ some t
      → overlap (duration_of w) n t ≡ false
  unfolding find_overlapping
  fits_checked w start duration exclude n free begins lasts j t other found =
      let key = env.screening.get-key w.screenings j t found in
      elim (Bool-cases (is_candidate n.hall_id exclude t)) [
        | inr a ↦ ground (arith, a, key, other)
        | inl a ↦
            let i =
              env.screening.find_many_complete (is_candidate n.hall_id exclude) w.screenings j t
                found a in
            let m = keep_none (meets w start (compute_end start duration)) _ free t i in
            ground (arith, m, begins, lasts)
      ]

  pub Apart-same :
      (w w' : World) → w'.screenings ≡ w.screenings → w'.movies ≡ w.movies → Apart w → Apart w'
  Apart-same w w' a b h =
      subst (λ s. NoOverlap (duration_of w') (env.screening.get s)) (sym a)
        (subst
          (λ m.
            NoOverlap (λ k. elim (env.movie.get m k) [ none ↦ 0 | some x ↦ x.duration ])
              (schedule w))
          (sym b) h)

  -- A row that has passed the check is written.
  pub write_checked :
      (w : World) (s : env.screening.State) (start duration : ℕ) (exclude : Option ℕ) (k : ℕ)
      (n : Screening)
      → Apart w
      → ltb 0 (length (find_overlapping n.hall_id start (compute_end start duration) exclude w))
        ≡ false
      → n.start_time ≡ start
      → duration_of w n.movie_id ≡ duration
      → ((j : ℕ) (t : Screening) → k ≢ j → schedule w j ≡ some t → is_excluded exclude j ≡ false)
      → ((j : ℕ) → env.screening.get s j ≡ put k (some n) (schedule w) j)
      → Apart (record w { screenings = s })
  write_checked w s start duration exclude k n apart free begins lasts others stored =
      put-NoOverlap (duration_of w) (schedule w) (env.screening.get s) k (some n) apart
        (λ m e j t ne found.
          let f =
            fits_checked w start duration exclude n free begins lasts j t (others j t ne found)
              found in
          let same : n ≡ m = ground (arith, e) in
          subst (λ x. overlap (duration_of w) x t ≡ false) same f)
        stored

  -- A row is written that overlaps with nothing, or is gone.
  pub write_quiet :
      (w : World) (s : env.screening.State) (k : ℕ) (new : Option Screening)
      → Apart w
      → ((n : Screening) → new ≡ some n → is_cancelled n.status ≡ true)
      → ((j : ℕ) → env.screening.get s j ≡ put k new (schedule w) j)
      → Apart (record w { screenings = s })
  write_quiet w s k new apart quiet stored =
      put-NoOverlap (duration_of w) (schedule w) (env.screening.get s) k new apart
        (λ n e j t ne found. ground (arith, quiet n e)) stored

  pub find_detail-some :
      (id : ℕ) (w : World) (d : Detail)
      → find_detail id w ≡ some d
      → (schedule w id ≡ some d.screening)
        × (env.movie.get w.movies d.screening.movie_id ≡ some d.movie)
  unfolding find_detail
  find_detail-some id w d h = elim (Option-cases (env.screening.get w.screenings id)) [
    | inl a ↦ absurd (ground (arith, a, h))
    | inr (s, a) ↦ elim (Option-cases (env.movie.get w.movies s.movie_id)) [
      | inl b ↦ absurd (ground (arith, a, b, h))
      | inr (m, b) ↦ elim (Option-cases (env.hall.get w.halls s.hall_id)) [
        | inl c ↦ absurd (ground (arith, a, b, c, h))
        | inr (x, c) ↦
            let e : record { screening = s; movie = m; hall = x } ≡ d =
              ground (arith, a, b, c, h) in
            (ground (arith, a, e), ground (arith, b, e))
      ]
    ]
  ]
