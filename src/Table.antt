-- ===== src/Table.antt =====
-- The Prisma delegate of one model (`prisma.reservation`, `prisma.payment`, …) and PostgreSQL
-- behind it. They are not part of the repository, so their operations are a parameter: a record of
-- operations on an abstract state, with what they are documented to do. What the code can observe
-- of a table is `get`, the row that a primary key names. A write can fail for reasons of its own
-- (`timed_out`, `unavailable`), and then changes nothing. Reads do not fail.
pub mod Memory
use movie_reservation_system.Base.{
  ℕ, Bool, true, false, Option, none, some, List, [], ◌∷◌, ◌≡◌, ◌≢◌, ◌==◌, ◌⊎◌, inl, inr, refl,
  if◌then◌else◌, In, All,
}

-- Prisma's error codes, as far as the code tells them apart: P2025, P2002, a
-- `PrismaClientUnknownRequestError` whose message speaks of a time-out, and all others.
pub data DbError : Type 0 where
  row_missing unique_violation timed_out unavailable : DbError

pub data Result (E A : Type 0) : Type 0 where
  ok : A → Result E A
  err : E → Result E A

pub Result-cases :
    {E A : Type 0} (r : Result E A) → ((a : A) × (r ≡ ok a)) ⊎ ((e : E) × (r ≡ err e))
Result-cases (ok a) = inl (a, refl)
Result-cases (err e) = inr (e, refl)

-- The contents after a write to one key.
abbrev pub put : {Row : Type 0} → ℕ → Option Row → (ℕ → Option Row) → ℕ → Option Row
put k r g j = if k == j then r else g j

-- The contents after an `UPDATE … SET f WHERE p`.
abbrev pub put_where : {Row : Type 0} → (Row → Bool) → (Row → Row) → Option Row → Option Row
put_where p f none = none
put_where p f (some r) = some (if p r then f r else r)

-- No two rows of a result have the same key.
abbrev pub Distinct : {Row : Type 0} → (Row → ℕ) → List Row → Type 0
Distinct key [] = Unit
Distinct key (r ∷ rs) = All (λ x. key r ≢ key x) rs × Distinct key rs

-- `clash r s` says that a unique index forbids the rows `r` and `s` side by side.
pub record Table (Row : Type 0) (key : Row → ℕ) (clash : Row → Row → Bool) : Type 1 where
  pub State : Type 0
  pub get : State → ℕ → Option Row
  -- The database answers.
  pub up : State → Bool
  -- `findUnique` by the primary key is `get`; `findFirst`, `findMany` by any other condition.
  pub find_first : (Row → Bool) → State → Option Row
  pub find_many : (Row → Bool) → State → List Row
  pub select_for_update : (Row → Bool) → State → Result DbError (List Row)
  pub create : (f : ℕ → Row) → ((k : ℕ) → key (f k) ≡ k) → State → Result DbError (Row × State)
  pub update :
      ℕ → (f : Row → Row) → ((r : Row) → key (f r) ≡ key r) → State → Result DbError (Row × State)
  pub update_where :
      (Row → Bool)
      → (f : Row → Row) → ((r : Row) → key (f r) ≡ key r)
      → State
      → Result DbError (List Row × State)
  pub delete : ℕ → State → Result DbError (Row × State)
  -- A row stands under its primary key.
  pub get-key : (s : State) (k : ℕ) (r : Row) → get s k ≡ some r → key r ≡ k
  pub find_first-some :
      (p : Row → Bool) (s : State) (r : Row)
      → find_first p s ≡ some r
      → (get s (key r) ≡ some r) × (p r ≡ true)
  pub find_first-none :
      (p : Row → Bool) (s : State) (k : ℕ) (r : Row)
      → find_first p s ≡ none
      → get s k ≡ some r
      → p r ≡ false
  pub find_many_sound :
      (p : Row → Bool) (s : State) (r : Row)
      → In r (find_many p s)
      → (get s (key r) ≡ some r) × (p r ≡ true)
  pub find_many_complete :
      (p : Row → Bool) (s : State) (k : ℕ) (r : Row)
      → get s k ≡ some r
      → p r ≡ true
      → In r (find_many p s)
  pub find_many-Distinct : (p : Row → Bool) (s : State) → Distinct key (find_many p s)
  -- `SELECT … FOR UPDATE` waits for the rows' locks, which can fail, and yields the rows.
  pub select_for_update-ok :
      (p : Row → Bool) (s : State) (rs : List Row)
      → select_for_update p s ≡ ok rs
      → rs ≡ find_many p s
  -- A read violates no unique index.
  pub select_for_update-err :
      (p : Row → Bool) (s : State) → select_for_update p s ≢ err unique_violation
  pub select_for_update-up :
      (p : Row → Bool) (s : State) → up s ≡ true → select_for_update p s ≡ ok (find_many p s)
  -- A new row gets an unused key.
  pub create-ok :
      (f : ℕ → Row) (h : (k : ℕ) → key (f k) ≡ k) (s : State) (r : Row) (s' : State)
      → create f h s ≡ ok (r, s')
      → (r ≡ f (key r))
        × (get s (key r) ≡ none)
        × ((j : ℕ) → get s' j ≡ put (key r) (some r) (get s) j)
  -- P2002 is reported only where a row is in the way.
  pub create-clash :
      (f : ℕ → Row) (h : (k : ℕ) → key (f k) ≡ k) (s : State)
      → create f h s ≡ err unique_violation
      → (n k : ℕ) × (r : Row) × (get s k ≡ some r) × (clash (f n) r ≡ true)
  pub create-up :
      (f : ℕ → Row) (h : (k : ℕ) → key (f k) ≡ k) (s : State)
      → up s ≡ true
      → ((n k : ℕ) (r : Row) → get s k ≡ some r → clash (f n) r ≡ false)
      → (r : Row) × (s' : State) × (create f h s ≡ ok (r, s')) × (up s' ≡ true)
  pub update-ok :
      (k : ℕ) (f : Row → Row) (h : (r : Row) → key (f r) ≡ key r) (s : State) (r : Row) (s' : State)
      → update k f h s ≡ ok (r, s')
      → (old : Row) × (get s k ≡ some old)
        × (r ≡ f old)
        × ((j : ℕ) → get s' j ≡ put k (some r) (get s) j)
  pub update-up :
      (k : ℕ) (f : Row → Row) (h : (r : Row) → key (f r) ≡ key r) (s : State) (old : Row)
      → up s ≡ true
      → get s k ≡ some old
      → ((j : ℕ) (r : Row) → k ≢ j → get s j ≡ some r → clash (f old) r ≡ false)
      → (r : Row) × (s' : State) × (update k f h s ≡ ok (r, s')) × (up s' ≡ true)
  -- The returned rows are the changed ones.
  pub update_where-ok :
      (p : Row → Bool) (f : Row → Row) (h : (r : Row) → key (f r) ≡ key r) (s : State)
      (rs : List Row) (s' : State)
      → update_where p f h s ≡ ok (rs, s')
      → ((j : ℕ) → get s' j ≡ put_where p f (get s j))
        × ((r : Row)
            → In r rs
            → (old : Row) × (get s (key r) ≡ some old) × (p old ≡ true) × (r ≡ f old))
        × ((k : ℕ) (old : Row) → get s k ≡ some old → p old ≡ true → In (f old) rs)
        × Distinct key rs
  pub update_where-up :
      (p : Row → Bool) (f : Row → Row) (h : (r : Row) → key (f r) ≡ key r) (s : State)
      → up s ≡ true
      → ((i j : ℕ) (r t : Row)
          → i ≢ j
          → get s i ≡ some r
          → get s j ≡ some t
          → clash (f r) t ≡ false)
      → ((i j : ℕ) (r t : Row)
          → i ≢ j
          → get s i ≡ some r
          → get s j ≡ some t
          → clash (f r) (f t) ≡ false)
      → (rs : List Row) × (s' : State) × (update_where p f h s ≡ ok (rs, s')) × (up s' ≡ true)
  pub delete-ok :
      (k : ℕ) (s : State) (r : Row) (s' : State)
      → delete k s ≡ ok (r, s')
      → (get s k ≡ some r) × ((j : ℕ) → get s' j ≡ put k none (get s) j)
  pub delete-up :
      (k : ℕ) (s : State) (r : Row)
      → up s ≡ true
      → get s k ≡ some r
      → (s' : State) × (delete k s ≡ ok (r, s')) × (up s' ≡ true)
