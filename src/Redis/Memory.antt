-- ===== src/Redis/Memory.antt =====
-- A Redis server in memory: the value that shows that the assumptions on `Redis` can be met.
use mathlib.Core.Logic.{ite, if_pos, if_neg}
use native.Mathlib.Decide.{ℕ_discrete}
use movie_reservation_system.Base.{
  ℕ, ◌+◌, ◌≤◌, Bool, true, ◌⊎◌, inl, inr, Bool-cases, Option, none, some, List, [], ◌≡◌, ◌≢◌, refl,
  ap, ◌∙◌, ltb, if◌then◌else◌, arith,
}
use movie_reservation_system.Redis.{Redis, Key, insert_score, above}

-- A sorted set with its expiry time; `none` for one that stays.
pub record Scores : Type 0 where
  pub items : List ℕ
  pub until : Option ℕ

pub record Memory (Value : Type 0) : Type 0 where
  pub sets : Key → Scores
  pub texts : Key → Option (Value × ℕ)
  pub answers : Bool

unfoldable pub Key-discrete : Discrete Key
Key-discrete = hlevel ℕ_discrete

unfoldable pub visible : ℕ → Option ℕ → List ℕ → List ℕ
visible t none xs = xs
visible t (some e) xs = if ltb t e then xs else []

unfoldable pub at_time : {Value : Type 0} → ℕ → Option (Value × ℕ) → Option Value
at_time t none = none
at_time t (some (v, e)) = if ltb t e then some v else none

-- A set that has expired is replaced by a new one, with no expiry.
unfoldable pub renewed : ℕ → Scores → Scores
renewed now x = elim x.until [
  | none ↦ x
  | some e ↦ if ltb now e then x else record { items = []; until = none }
]

set_at_self : {A : Type 0} (k : Key) (x y : A) → ite (Key-discrete k k) x y ≡ x
set_at_self k x y = if_pos (Key-discrete k k) refl x y

visible-renewed : (now : ℕ) (x : Scores) → (renewed now x).items ≡ visible now x.until x.items
unfolding renewed visible
visible-renewed now x = ground arith

keep_visible :
    (limit t : ℕ) (o : Option ℕ) (xs : List ℕ)
    → visible t o (above limit xs) ≡ above limit (visible t o xs)
unfolding visible
keep_visible limit t none xs = refl
keep_visible limit t (some e) xs = ground arith

module _ {Value : Type 0} where
  unfoldable pub scores : Memory Value → Key → ℕ → List ℕ
  unfolding visible
  scores s k t = visible t (s.sets k).until (s.sets k).items

  unfoldable pub value : Memory Value → Key → ℕ → Option Value
  unfolding at_time
  value s k t = at_time t (s.texts k)

  abbrev pub with_set : Key → Scores → Memory Value → Memory Value
  with_set k x s = record s { sets = λ j. ite (Key-discrete k j) x (s.sets j) }

  abbrev pub with_text : Key → Option (Value × ℕ) → Memory Value → Memory Value
  with_text k x s = record s { texts = λ j. ite (Key-discrete k j) x (s.texts j) }

  unfoldable pub zadd : Key → ℕ → ℕ → Memory Value → Memory Value
  unfolding renewed
  zadd k x now s =
      let old = renewed now (s.sets k) in
      with_set k (record { items = insert_score x old.items; until = old.until }) s

  unfoldable pub zremrangebyscore : Key → ℕ → ℕ → Memory Value → Memory Value
  zremrangebyscore k limit now s =
      with_set k (record { items = above limit (s.sets k).items; until = (s.sets k).until }) s

  unfoldable pub pexpire : Key → ℕ → ℕ → Memory Value → Memory Value
  unfolding renewed
  pexpire k ttl now s =
      with_set k (record { items = (renewed now (s.sets k)).items; until = some (now + ttl) }) s

  unfoldable pub set : Key → Value → ℕ → ℕ → Memory Value → Memory Value
  set k v ttl now s = with_text k (some (v, now + ttl)) s

  unfoldable pub del : Key → ℕ → Memory Value → Memory Value
  del k now s = if s.answers then with_text k none s else s

  scores-with_set :
      (k : Key) (x : Scores) (t : ℕ) (s : Memory Value)
      → scores (with_set k x s) k t ≡ visible t x.until x.items
  unfolding scores
  scores-with_set k x t s = ap (λ z. visible t z.until z.items) (set_at_self k x (s.sets k))

  scores-with_set_other :
      (k j : Key) (x : Scores) (t : ℕ) (s : Memory Value)
      → k ≢ j
      → scores (with_set k x s) j t ≡ scores s j t
  unfolding scores
  scores-with_set_other k j x t s h =
      ap (λ z. visible t z.until z.items) (if_neg (Key-discrete k j) h x (s.sets j))

  pub zadd_lem :
      (k : Key) (x now : ℕ) (s : Memory Value)
      → scores (zadd k x now s) k now ≡ insert_score x (scores s k now)
  unfolding scores zadd visible
  zadd_lem k x now s = scores-with_set k _ now s ∙ ground arith

  pub zremrangebyscore_lem :
      (k : Key) (limit now t : ℕ) (s : Memory Value)
      → now ≤ t
      → scores (zremrangebyscore k limit now s) k t ≡ above limit (scores s k t)
  unfolding scores zremrangebyscore
  zremrangebyscore_lem k limit now t s h =
      scores-with_set k _ t s ∙ keep_visible limit t (s.sets k).until (s.sets k).items

  pub pexpire_lem :
      (k : Key) (ttl now t : ℕ) (s : Memory Value)
      → now ≤ t
      → scores (pexpire k ttl now s) k t ≡ (if ltb t (now + ttl) then scores s k now else [])
  unfolding scores pexpire visible
  pexpire_lem k ttl now t s h =
      scores-with_set k _ t s ∙ ground (arith, visible-renewed now (s.sets k))

  pub set_lem :
      (k : Key) (v : Value) (ttl now t : ℕ) (s : Memory Value)
      → now ≤ t
      → value (set k v ttl now s) k t ≡ (if ltb t (now + ttl) then some v else none)
  unfolding value set
  set_lem k v ttl now t s h = rw set_at_self

  pub del_lem :
      (k : Key) (now t : ℕ) (s : Memory Value)
      → now ≤ t
      → s.answers ≡ true
      → value (del k now s) k t ≡ none
  unfolding value del
  del_lem k now t s h up = rw up (rw set_at_self refl)

  pub del_failed :
      (k : Key) (now t : ℕ) (s : Memory Value)
      → now ≤ t
      → (value (del k now s) k t ≡ none) ⊎ (value (del k now s) k t ≡ value s k t)
  unfolding del
  del_failed k now t s h = elim (Bool-cases s.answers) [
    | inl up ↦ inl (del_lem k now t s h up)
    | inr down ↦ inr (rw down refl)
  ]

  pub zadd-others :
      (k j : Key) (x now t : ℕ) (s : Memory Value)
      → k ≢ j
      → scores (zadd k x now s) j t ≡ scores s j t
  unfolding scores zadd
  zadd-others k j x now t s h = scores-with_set_other k j _ t s h

  pub zremrangebyscore-others :
      (k j : Key) (limit now t : ℕ) (s : Memory Value)
      → k ≢ j
      → scores (zremrangebyscore k limit now s) j t ≡ scores s j t
  unfolding scores zremrangebyscore
  zremrangebyscore-others k j limit now t s h = scores-with_set_other k j _ t s h

  pub pexpire-others :
      (k j : Key) (ttl now t : ℕ) (s : Memory Value)
      → k ≢ j
      → scores (pexpire k ttl now s) j t ≡ scores s j t
  unfolding scores pexpire
  pexpire-others k j ttl now t s h = scores-with_set_other k j _ t s h

  pub set-others :
      (k j : Key) (v : Value) (ttl now t : ℕ) (s : Memory Value)
      → k ≢ j
      → value (set k v ttl now s) j t ≡ value s j t
  unfolding value set
  set-others k j v ttl now t s h = rw (if_neg (Key-discrete k j) h)

  pub del-others :
      (k j : Key) (now t : ℕ) (s : Memory Value) → k ≢ j → value (del k now s) j t ≡ value s j t
  unfolding value del
  del-others k j now t s h = elim (Bool-cases s.answers) [
    | inl up ↦ rw up (rw (if_neg (Key-discrete k j) h) refl)
    | inr down ↦ rw down refl
  ]

  pub zadd-value :
      (k j : Key) (x now t : ℕ) (s : Memory Value) → value (zadd k x now s) j t ≡ value s j t
  unfolding value zadd
  zadd-value k j x now t s = refl

  pub zremrangebyscore-value :
      (k j : Key) (limit now t : ℕ) (s : Memory Value)
      → value (zremrangebyscore k limit now s) j t ≡ value s j t
  unfolding value zremrangebyscore
  zremrangebyscore-value k j limit now t s = refl

  pub pexpire-value :
      (k j : Key) (ttl now t : ℕ) (s : Memory Value) → value (pexpire k ttl now s) j t ≡ value s j t
  unfolding value pexpire
  pexpire-value k j ttl now t s = refl

  pub set-scores :
      (k j : Key) (v : Value) (ttl now t : ℕ) (s : Memory Value)
      → scores (set k v ttl now s) j t ≡ scores s j t
  unfolding scores set
  set-scores k j v ttl now t s = refl

abbrev pub memory : (Value : Type 0) → Redis Value
memory Value = record {
  State = Memory Value;
  scores = scores;
  value = value;
  zadd = zadd;
  zremrangebyscore = zremrangebyscore;
  pexpire = pexpire;
  set = set;
  del = del;
  answers = λ s. s.answers;
  zadd_lem = zadd_lem;
  zremrangebyscore_lem = zremrangebyscore_lem;
  pexpire_lem = pexpire_lem;
  set_lem = set_lem;
  del_lem = del_lem;
  del_failed = del_failed;
  zadd-others = zadd-others;
  zremrangebyscore-others = zremrangebyscore-others;
  pexpire-others = pexpire-others;
  zadd-value = zadd-value;
  zremrangebyscore-value = zremrangebyscore-value;
  pexpire-value = λ k j ttl now t s h. pexpire-value k j ttl now t s;
  set-others = set-others;
  set-scores = λ k j v ttl now t s h. set-scores k j v ttl now t s;
  del-others = del-others;
}
