-- ===== src/PaymentAbuse/Lockout.antt =====
-- The lock-out after failed payments: `recordFailure` and `isLockedOut` of redis/payment-abuse.service.ts.
use movie_reservation_system.Base.{
  ℕ, suc, ◌+◌, ◌-◌, ◌≤◌, ◌<◌, true, ◌≡◌, ◌≢◌, ap, ◌∙◌, sym, leb, length, arith, Bool-cases, inl,
  inr, ◌||◌,
}
use movie_reservation_system.Redis.{Key, insert_score, above, payment_failures, payment_lockout}
use movie_reservation_system.Redis.Scores.{count_above, above-above, count_above-insert_score}
use movie_reservation_system.World.{Env, World, flag}
use movie_reservation_system.PaymentAbuse.{
  window_ms, lockout_ms, failure_threshold, add_failure, record_failure, is_locked_out,
}

module _ ⦃env : Env⦄ where
  open env.redis use {zadd, pexpire, zremrangebyscore, scores, value, set}

  -- The failures of the user that are set down, later than `limit`.
  abbrev pub failures_after : ℕ → ℕ → ℕ → env.redis.State → ℕ
  failures_after user_id limit t s = count_above limit (scores s (payment_failures user_id) t)

  failures_apart : (a b : ℕ) → payment_failures a ≢ payment_lockout b
  failures_apart a b h = absurd (ground (arith, h))

  module _ (user_id now t limit : ℕ) (s : env.redis.State) (from : now ≤ t)
      (until : t < now + window_ms) (wide : now - window_ms ≤ limit) where
    abbrev key : Key
    key = payment_failures user_id

    -- One more failure counts for a day.
    add_failure-count :
        limit < now
        → failures_after user_id limit t (add_failure user_id now s)
          ≡ suc (failures_after user_id limit now s)
    unfolding add_failure
    add_failure-count low =
        let one =
          env.redis.zremrangebyscore_lem key (now - window_ms) now t
            (pexpire key window_ms now (zadd key now now s)) from in
        let two : scores (pexpire key window_ms now (zadd key now now s)) key t
            ≡ insert_score now (scores s key now) =
          ground (
            arith,
            until,
            env.redis.pexpire_lem key window_ms now t (zadd key now now s) from,
            env.redis.zadd_lem key now now s,
          ) in
        ap (count_above limit) one
        ∙ ap length (
            above-above (now - window_ms) limit
              (scores (pexpire key window_ms now (zadd key now now s)) key t) wide)
        ∙ ap (count_above limit) two
        ∙ count_above-insert_score limit now (scores s key now)
        ∙ ground (arith, low)

  added_length :
      (user_id now : ℕ) (s : env.redis.State)
      → 0 < now
      → length (scores (add_failure user_id now s) (payment_failures user_id) now)
        ≡ suc (failures_after user_id (now - window_ms) now s)
  unfolding add_failure
  added_length user_id now s pos =
      let trimmed =
        env.redis.zremrangebyscore_lem (payment_failures user_id) (now - window_ms) now now
          (pexpire (payment_failures user_id) window_ms now
            (zadd (payment_failures user_id) now now s))
          (omega arith) in
      let xs =
        scores
          (pexpire (payment_failures user_id) window_ms now
            (zadd (payment_failures user_id) now now s))
          (payment_failures user_id) now in
      ap length (
        trimmed
        ∙ sym (above-above (now - window_ms) (now - window_ms) xs (omega arith))
        ∙ ap (above (now - window_ms)) (sym trimmed))
      ∙ unfold_back
    where
      unfold_back :
          count_above
            (now - window_ms)
            (scores (add_failure user_id now s) (payment_failures user_id) now)
          ≡ suc (failures_after user_id (now - window_ms) now s)
      unfold_back =
          add_failure-count user_id now now (now - window_ms) s (omega arith) (omega arith)
            (omega arith) (omega (arith, pos))

  record_failure-count :
      (user_id now t limit : ℕ) (w : World)
      → now ≤ t
      → t < now + window_ms
      → now - window_ms ≤ limit
      → limit < now
      → failures_after user_id limit t (record_failure user_id now w).redis
        ≡ suc (failures_after user_id limit now w.redis)
  unfolding record_failure
  record_failure-count user_id now t limit w from until wide low =
      let s : env.redis.State = add_failure user_id now w.redis in
      let grown = add_failure-count user_id now t limit w.redis from until wide low in
      elim (Bool-cases (leb failure_threshold (length (scores s (payment_failures user_id) now)))) [
        | inr a ↦ rw a grown
        | inl a ↦
            let same =
              env.redis.set-scores (payment_lockout user_id) (payment_failures user_id) flag
                lockout_ms now t s (λ h. failures_apart user_id user_id (sym h)) in
            rw a (ap (count_above limit) same ∙ grown)
      ]

  add_failure-value :
      (user_id now t : ℕ) (s : env.redis.State)
      → value (add_failure user_id now s) (payment_lockout user_id) t
        ≡ value s (payment_lockout user_id) t
  unfolding add_failure
  add_failure-value user_id now t s =
      let k : Key = payment_failures user_id in
      let j : Key = payment_lockout user_id in
      env.redis.zremrangebyscore-value k j (now - window_ms) now t
        (pexpire k window_ms now (zadd k now now s))
      ∙ env.redis.pexpire-value k j window_ms now t (zadd k now now s)
          (failures_apart user_id user_id)
      ∙ env.redis.zadd-value k j now now t s

  -- After a failed payment, and for half an hour, the user is locked out exactly if it was the third
  -- failure of the last day or later, or an earlier lock is still on.
  pub record_failure-is_locked_out :
      (user_id now t : ℕ) (w : World)
      → 0 < now
      → now ≤ t
      → t < now + lockout_ms
      → is_locked_out user_id t (record_failure user_id now w) ≡ (
          leb failure_threshold (suc (failures_after user_id (now - window_ms) now w.redis))
          || is_locked_out user_id t w)
  unfolding record_failure is_locked_out
  record_failure-is_locked_out user_id now t w pos from until =
      let s : env.redis.State = add_failure user_id now w.redis in
      let count = added_length user_id now w.redis pos in
      elim (Bool-cases (leb failure_threshold (length (scores s (payment_failures user_id) now)))) [
        | inl a ↦
            let lock = env.redis.set_lem (payment_lockout user_id) flag lockout_ms now t s from in
            rw a (ground (arith, a, count, lock, until))
        | inr a ↦ rw a (ground (arith, a, count, add_failure-value user_id now t w.redis))
      ]

  -- Three failed payments within a day lock the user out for half an hour after the third.
  pub record_failure_thrice :
      (user_id t1 t2 t3 t : ℕ) (w : World)
      → window_ms ≤ t1
      → t1 ≤ t2
      → t2 ≤ t3
      → t3 < t1 + window_ms
      → t3 ≤ t
      → t < t3 + lockout_ms
      → is_locked_out user_id t
          (record_failure user_id t3 (record_failure user_id t2 (record_failure user_id t1 w)))
        ≡ true
  record_failure_thrice user_id t1 t2 t3 t w big a b day from until =
      let limit : ℕ = t3 - window_ms in
      let one : World = record_failure user_id t1 w in
      let two : World = record_failure user_id t2 one in
      let n1 =
        record_failure-count user_id t1 t2 limit w a (omega arith) (omega arith) (omega arith) in
      let n2 =
        record_failure-count user_id t2 t3 limit one b (omega arith) (omega arith) (omega arith) in
      let locked = record_failure-is_locked_out user_id t3 t two (omega arith) from until in
      ground (arith, n1, n2, locked)
