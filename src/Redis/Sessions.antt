-- ===== src/Redis/Sessions.antt =====
-- The keys of the Redis server behind redis/redis.cache.ts that belong to authentication: counters
-- and texts with a time to live, and the sets of session ids, which have none. No other service
-- touches them, so they have a state of their own. The commands are a parameter, with what they are
-- documented to do: `read s k t` is what a client finds at `k` at time `t` if nothing else happens,
-- and `members s u` the set of the sessions of user `u`. Times are in milliseconds.
pub mod Memory
pub mod Instance
use Prim.Native.String.{String}
use native.Mathlib.Decide.{ℕ_discrete}
use text.Mathlib.Text.{◌==◌ as str_eq}
use text.Mathlib.TextEquality.{eq_iff}
use movie_reservation_system.Base.{
  ℕ, suc, ◌+◌, ◌≤◌, Option, none, some, List, ◌≡◌, ◌≢◌, ltb, if◌then◌else◌, In, inl, inr, arith,
  Bool-cases,
}

-- The keys that the code builds by string templates; one constructor for each template.
pub data AuthKey : Type 0 where
  otp otp_attempts otp_cooldown : String → AuthKey
  pending_email access_version : ℕ → AuthKey
  refresh : ℕ → String → AuthKey

unfoldable pub String-discrete : Discrete String
String-discrete s t = elim (Bool-cases (str_eq s t)) [
  | inl e ↦ yes ((eq_iff s t).0 e)
  | inr n ↦ no (λ p. ground (arith, n, (eq_iff s t).1 p))
]

unfoldable pub AuthKey-discrete : Discrete AuthKey
unfolding String-discrete
AuthKey-discrete = hlevel (ℕ_discrete, String-discrete)

-- What is stored under a key: a text, or the number that `INCR` has left.
pub data Entry : Type 0 where
  word : String → Entry
  count : ℕ → Entry

-- `Number` of an entry that `INCR` made, and 0 where there is none.
abbrev pub tally : Option Entry → ℕ
tally none = 0
tally (some (word s)) = 0
tally (some (count n)) = n

-- `GET` of a key that holds a text.
abbrev pub as_text : Option Entry → Option String
as_text none = none
as_text (some (word s)) = some s
as_text (some (count n)) = none

-- What `INCR` makes of a counter; a text is an error, and stays.
abbrev pub bump : Option Entry → Option Entry
bump none = none
bump (some (word s)) = some (word s)
bump (some (count n)) = some (count (suc n))

-- An entry after `INCR`: a counter that is absent starts anew, with no time to live.
abbrev pub after_incr : Option Entry → Option Entry → Option Entry
after_incr none later = some (count 1)
after_incr (some e) later = bump later

pub record Sessions : Type 1 where
  pub State : Type 0
  pub read : State → AuthKey → ℕ → Option Entry
  pub members : State → ℕ → List String
  -- `SET key value EX ttl`, `DEL key`, `INCR key`, `EXPIRE key ttl`; `ttl` in milliseconds
  pub set : AuthKey → Entry → ℕ → ℕ → State → State
  pub del : AuthKey → ℕ → State → State
  pub incr : AuthKey → ℕ → State → State
  pub expire : AuthKey → ℕ → ℕ → State → State
  -- `SADD`, `SREM` and `DEL` on `refresh_sessions:<user>`
  pub sadd : ℕ → String → State → State
  pub srem : ℕ → String → State → State
  pub del_set : ℕ → State → State
  pub set_lem :
      (k : AuthKey) (v : Entry) (ttl now t : ℕ) (s : State)
      → now ≤ t
      → read (set k v ttl now s) k t ≡ (if ltb t (now + ttl) then some v else none)
  pub del_lem : (k : AuthKey) (now t : ℕ) (s : State) → now ≤ t → read (del k now s) k t ≡ none
  pub incr_lem :
      (k : AuthKey) (now t : ℕ) (s : State)
      → now ≤ t
      → read (incr k now s) k t ≡ after_incr (read s k now) (read s k t)
  pub expire_lem :
      (k : AuthKey) (ttl now t : ℕ) (s : State)
      → now ≤ t
      → read (expire k ttl now s) k t ≡ (if ltb t (now + ttl) then read s k now else none)
  -- What has expired stays so.
  pub read_later :
      (k : AuthKey) (now t : ℕ) (s : State) → now ≤ t → read s k now ≡ none → read s k t ≡ none
  pub sadd_new : (u : ℕ) (j : String) (s : State) → In j (members (sadd u j s) u)
  pub sadd_kept :
      (u : ℕ) (i j : String) (s : State) → In i (members s u) → In i (members (sadd u j s) u)
  pub srem_kept :
      (u : ℕ) (i j : String) (s : State)
      → j ≢ i
      → In i (members s u)
      → In i (members (srem u j s) u)
  pub sadd-others :
      (u v : ℕ) (j : String) (s : State) → v ≢ u → members (sadd v j s) u ≡ members s u
  pub srem-others :
      (u v : ℕ) (j : String) (s : State) → v ≢ u → members (srem v j s) u ≡ members s u
  pub del_set-others : (u v : ℕ) (s : State) → v ≢ u → members (del_set v s) u ≡ members s u
  -- A command changes nothing but its own key.
  pub set-others :
      (k j : AuthKey) (v : Entry) (ttl now t : ℕ) (s : State)
      → k ≢ j
      → read (set k v ttl now s) j t ≡ read s j t
  pub del-others :
      (k j : AuthKey) (now t : ℕ) (s : State) → k ≢ j → read (del k now s) j t ≡ read s j t
  pub incr-others :
      (k j : AuthKey) (now t : ℕ) (s : State) → k ≢ j → read (incr k now s) j t ≡ read s j t
  pub expire-others :
      (k j : AuthKey) (ttl now t : ℕ) (s : State)
      → k ≢ j
      → read (expire k ttl now s) j t ≡ read s j t
  pub sadd-read :
      (u : ℕ) (i : String) (k : AuthKey) (t : ℕ) (s : State) → read (sadd u i s) k t ≡ read s k t
  pub srem-read :
      (u : ℕ) (i : String) (k : AuthKey) (t : ℕ) (s : State) → read (srem u i s) k t ≡ read s k t
  pub del_set-read : (u : ℕ) (k : AuthKey) (t : ℕ) (s : State) → read (del_set u s) k t ≡ read s k t
  pub set-members :
      (k : AuthKey) (v : Entry) (ttl now u : ℕ) (s : State)
      → members (set k v ttl now s) u ≡ members s u
  pub del-members : (k : AuthKey) (now u : ℕ) (s : State) → members (del k now s) u ≡ members s u
  pub incr-members : (k : AuthKey) (now u : ℕ) (s : State) → members (incr k now s) u ≡ members s u
  pub expire-members :
      (k : AuthKey) (ttl now u : ℕ) (s : State) → members (expire k ttl now s) u ≡ members s u
