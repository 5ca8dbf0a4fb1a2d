-- ===== src/Redis.antt =====
-- The Redis server behind redis/redis.cache.ts, as far as the services use it: sorted sets (with
-- their expiry) and plain values with a time to live. It is a service, so it is a parameter: its
-- commands on an abstract state, with what they are documented to do. Every command takes the
-- server's time in milliseconds. `scores s k t` lists the scores of the sorted set at `k`, smallest
-- first, as a client would read them at time `t` if nothing else happened; `value s k t` is the
-- string at `k` read so.
pub mod Memory
pub mod Scores
pub mod Sessions
use movie_reservation_system.Base.{
  ℕ, ◌+◌, ◌≤◌, Bool, true, false, not, Option, none, some, List, [], ◌∷◌, ◌≡◌, ◌≢◌, ◌⊎◌, ltb, leb,
  if◌then◌else◌, keep,
}

-- The keys that the code builds by string templates; one constructor for each template.
pub data Key : Type 0 where
  payment_failures payment_lockout : ℕ → Key
  user_rate_limit : ℕ → ℕ → Key
  anonymous_rate_limit : ℕ → Key
  ip_rate_limit : ℕ → ℕ → Key
  seat_map screening_detail movie_screenings : ℕ → Key
  movie : ℕ → Key
  hall_list now_showing coming_soon : Key

-- A score in its place.
abbrev pub insert_score : ℕ → List ℕ → List ℕ
insert_score x [] = x ∷ []
insert_score x (y ∷ ys) = if leb x y then x ∷ y ∷ ys else y ∷ insert_score x ys

-- What `ZREMRANGEBYSCORE key 0 limit` leaves.
abbrev pub above : ℕ → List ℕ → List ℕ
above limit = keep (λ x. ltb limit x)

pub record Redis (Value : Type 0) : Type 1 where
  pub State : Type 0
  pub scores : State → Key → ℕ → List ℕ
  pub value : State → Key → ℕ → Option Value
  -- `ZADD key score member` with a member that is not in the set, such as a fresh UUID
  pub zadd : Key → ℕ → ℕ → State → State
  pub zremrangebyscore : Key → ℕ → ℕ → State → State
  pub pexpire : Key → ℕ → ℕ → State → State
  -- `SET key value PX ttl`
  pub set : Key → Value → ℕ → ℕ → State → State
  -- `DEL key`, as the caches call it, which swallow its failure; `answers` says that it succeeds.
  pub del : Key → ℕ → State → State
  pub answers : State → Bool
  pub zadd_lem :
      (k : Key) (x now : ℕ) (s : State)
      → scores (zadd k x now s) k now ≡ insert_score x (scores s k now)
  pub zremrangebyscore_lem :
      (k : Key) (limit now t : ℕ) (s : State)
      → now ≤ t
      → scores (zremrangebyscore k limit now s) k t ≡ above limit (scores s k t)
  -- An expired set is gone.
  pub pexpire_lem :
      (k : Key) (ttl now t : ℕ) (s : State)
      → now ≤ t
      → scores (pexpire k ttl now s) k t ≡ (if ltb t (now + ttl) then scores s k now else [])
  pub set_lem :
      (k : Key) (v : Value) (ttl now t : ℕ) (s : State)
      → now ≤ t
      → value (set k v ttl now s) k t ≡ (if ltb t (now + ttl) then some v else none)
  pub del_lem :
      (k : Key) (now t : ℕ) (s : State)
      → now ≤ t
      → answers s ≡ true
      → value (del k now s) k t ≡ none
  -- A call that fails has deleted the key or left it.
  pub del_failed :
      (k : Key) (now t : ℕ) (s : State)
      → now ≤ t
      → (value (del k now s) k t ≡ none) ⊎ (value (del k now s) k t ≡ value s k t)
  -- A command changes nothing but its own key, and a sorted set is no string.
  pub zadd-others :
      (k j : Key) (x now t : ℕ) (s : State) → k ≢ j → scores (zadd k x now s) j t ≡ scores s j t
  pub zremrangebyscore-others :
      (k j : Key) (limit now t : ℕ) (s : State)
      → k ≢ j
      → scores (zremrangebyscore k limit now s) j t ≡ scores s j t
  pub pexpire-others :
      (k j : Key) (ttl now t : ℕ) (s : State)
      → k ≢ j
      → scores (pexpire k ttl now s) j t ≡ scores s j t
  pub zadd-value : (k j : Key) (x now t : ℕ) (s : State) → value (zadd k x now s) j t ≡ value s j t
  pub zremrangebyscore-value :
      (k j : Key) (limit now t : ℕ) (s : State)
      → value (zremrangebyscore k limit now s) j t ≡ value s j t
  -- The key to expire holds a sorted set.
  pub pexpire-value :
      (k j : Key) (ttl now t : ℕ) (s : State)
      → k ≢ j
      → value (pexpire k ttl now s) j t ≡ value s j t
  pub set-others :
      (k j : Key) (v : Value) (ttl now t : ℕ) (s : State)
      → k ≢ j
      → value (set k v ttl now s) j t ≡ value s j t
  pub set-scores :
      (k j : Key) (v : Value) (ttl now t : ℕ) (s : State)
      → k ≢ j
      → scores (set k v ttl now s) j t ≡ scores s j t
  pub del-others :
      (k j : Key) (now t : ℕ) (s : State) → k ≢ j → value (del k now s) j t ≡ value s j t
