-- ===== src/RateLimiter/Window.antt =====
-- The rate limiter counts the requests that it admitted in the window.
use movie_reservation_system.Base.{
  ℕ, suc, ◌+◌, ◌-◌, ◌≤◌, ◌<◌, Bool, true, false, List, [], ◌∷◌, ◌≡◌, ap, ◌∙◌, sym, ltb, length, In,
  inl, inr, arith, Bool-cases,
}
use movie_reservation_system.Redis.{Key, insert_score, above}
use movie_reservation_system.Redis.Scores.{
  count_above, above-above, count_above-insert_score, count_above_none,
}
use movie_reservation_system.World.{Env}
use movie_reservation_system.RateLimiter.{RateLimiterConfig, rate_limiter}

-- The times of the admitted requests, after a decision.
abbrev pub admit : Bool → ℕ → List ℕ → List ℕ
admit true now log = now ∷ log
admit false now log = log

module _ ⦃env : Env⦄ where
  open env.redis use {zadd, pexpire, zremrangebyscore, scores}

  -- From `now` on the server's sorted set counts the same requests in every window as the list of the
  -- admitted ones, none of which is later than `now`.
  abbrev pub Tracks : Key → ℕ → env.redis.State → ℕ → List ℕ → Type 0
  Tracks key window s now log =
      ((t limit : ℕ)
        → now ≤ t
        → t - window ≤ limit
        → count_above limit (scores s key t) ≡ count_above limit log)
      × ((x : ℕ) → In x log → x ≤ now)

  module _ (key : Key) (window last now : ℕ) (s : env.redis.State) (log : List ℕ) (pos : 0 < window)
      (tracks : Tracks key window s last log) (later : last ≤ now) where
    abbrev trimmed : env.redis.State
    trimmed = zremrangebyscore key (now - window) now s

    trimmed-count :
        (t limit : ℕ)
        → now ≤ t
        → now - window ≤ limit
        → count_above limit (scores trimmed key t) ≡ count_above limit (scores s key t)
    trimmed-count t limit h le =
        ap (count_above limit) (env.redis.zremrangebyscore_lem key (now - window) now t s h)
        ∙ ap length (above-above (now - window) limit (scores s key t) le)

    trimmed-Tracks : Tracks key window trimmed now log
    trimmed-Tracks = (
      λ t limit h le.
          trimmed-count t limit h (omega (arith, h, le))
          ∙ tracks.0 t limit (omega (arith, h, later)) le,
      λ x i. omega (arith, tracks.1 x i, later),
    )

    added-Tracks :
        Tracks key window (pexpire key window now (zadd key now now trimmed)) now (now ∷ log)
    added-Tracks = (
      λ t limit h le. elim (Bool-cases (ltb t (now + window))) [
        | inl a ↦
            let one : scores (pexpire key window now (zadd key now now trimmed)) key t
                ≡ insert_score now (scores trimmed key now) =
              ground (
                arith,
                a,
                env.redis.pexpire_lem key window now t (zadd key now now trimmed) h,
                env.redis.zadd_lem key now now trimmed,
              ) in
            let kept = trimmed-Tracks.0 now limit (omega arith) (omega (arith, h, le)) in
            ap (count_above limit) one
            ∙ count_above-insert_score limit now (scores trimmed key now)
            ∙ ground (arith, kept)
        | inr a ↦
            let one : scores (pexpire key window now (zadd key now now trimmed)) key t ≡ [] =
              ground
                (arith, a, env.redis.pexpire_lem key window now t (zadd key now now trimmed) h) in
            let past : now + window ≤ t = ground (arith, a) in
            ap (count_above limit) one
            ∙ sym (
                count_above_none limit (now ∷ log) (λ x i. elim i [
                  | inl e ↦ omega (arith, e, past, le)
                  | inr j ↦ omega (arith, trimmed-Tracks.1 x j, past, le)
                ]))
      ],
      λ x i. elim i [ inl e ↦ omega (arith, e) | inr j ↦ trimmed-Tracks.1 x j ],
    )

  -- A request is admitted exactly if fewer than `maxRequests` were admitted in the window before it; it
  -- is then told how many more would be; and the set goes on counting the admitted requests, of which
  -- no window has more than `maxRequests`.
  pub rate_limiter-Tracks :
      (key : Key) (config : RateLimiterConfig) (last now : ℕ) (s : env.redis.State) (log : List ℕ)
      → 0 < config.window_size
      → config.window_size ≤ now
      → last ≤ now
      → Tracks key config.window_size s last log
      → let (result, s') = rate_limiter key config now s in
        let before = count_above (now - config.window_size) log in
        let log' = admit result.allowed now log in
        (result.allowed ≡ ltb before config.max_requests)
        × (result.allowed ≡ true → result.remaining + suc before ≡ config.max_requests)
        × Tracks key config.window_size s' now log'
        × (before ≤ config.max_requests
            → count_above (now - config.window_size) log' ≤ config.max_requests)
  unfolding rate_limiter
  rate_limiter-Tracks key config last now s log pos big later tracks =
      let kept = trimmed-Tracks key config.window_size last now s log pos tracks later in
      let added = added-Tracks key config.window_size last now s log pos tracks later in
      let cut : scores (trimmed key config.window_size last now s log pos tracks later) key now
          ≡ above (now - config.window_size) (scores s key now) =
        env.redis.zremrangebyscore_lem key (now - config.window_size) now now s (omega arith) in
      let same : length
            (scores (trimmed key config.window_size last now s log pos tracks later) key now)
          ≡ count_above (now - config.window_size) log =
        ap length cut ∙ tracks.0 now (now - config.window_size) later (omega arith) in
      elim (Bool-cases (
        ltb
          (length (scores (trimmed key config.window_size last now s log pos tracks later) key now))
          config.max_requests)) [
            | inl a ↦ rw a (
              ground (arith, a, same),
              λ _. ground (arith, a, same),
              added,
              λ h. ground (arith, a, same, h, pos, big),
            )
            | inr a ↦ rw a (ground (arith, a, same), λ h. absurd (ground (arith, h)), kept, λ h. h)
          ]
