-- ===== src/Table/Memory.antt =====
-- A table in memory: the value that shows that the assumptions on `Table` can be met, for any unique
-- index. The keys in use lie below `bound`.
pub mod Changed
pub mod Instance
use movie_reservation_system.Base.{
  ℕ, zero, suc, Bool, true, false, ◌&&◌, not, Option, none, some, List, [], ◌∷◌, ◌≡◌, ◌≢◌, ◌<◌,
  refl, inl, inr, ◌==◌, ltb, if◌then◌else◌, In, All, arith, Bool-cases, Option-cases,
}
use movie_reservation_system.Table.{
  Table, DbError, row_missing, unique_violation, unavailable, Result, ok, err, put, put_where,
  Distinct,
}

pub record Memory (Row : Type 0) : Type 0 where
  pub bound : ℕ
  pub at : ℕ → Option Row
  pub answers : Bool

module _ {Row : Type 0} (key : Row → ℕ) where
  -- A row that is not under its own key does not count.
  unfoldable pub checked : ℕ → Option Row → Option Row
  checked k none = none
  checked k (some r) = if key r == k then some r else none

  unfoldable pub get : Memory Row → ℕ → Option Row
  unfolding checked
  get s k = if ltb k s.bound then checked k (s.at k) else none

  -- The rows under the keys below `n` for which `p` holds.
  unfoldable pub select : (ℕ → Option Row) → (Row → Bool) → ℕ → List Row
  select g p zero = []
  select g p (suc n) = elim (g n) [
    | none ↦ select g p n
    | some r ↦ if p r then r ∷ select g p n else select g p n
  ]

  unfoldable pub first : List Row → Option Row
  first [] = none
  first (r ∷ rs) = some r

  pub get-key : (s : Memory Row) (k : ℕ) (r : Row) → get s k ≡ some r → key r ≡ k
  unfolding get
  get-key s k r h = ground arith

  get-bound : (s : Memory Row) (k : ℕ) (r : Row) → get s k ≡ some r → k < s.bound
  unfolding get
  get-bound s k r h = ground arith

  below_suc : (n : ℕ) (rs : List Row) → All (λ r. key r < n) rs → All (λ r. key r < suc n) rs
  below_suc n [] h = tt
  below_suc n (r ∷ rs) h = (omega arith, below_suc n rs h.1)

  above_ne :
      (x : Row) (n : ℕ) (rs : List Row)
      → key x ≡ n
      → All (λ r. key r < n) rs
      → All (λ r. key x ≢ key r) rs
  above_ne x n [] e h = tt
  above_ne x n (r ∷ rs) e h = (omega arith, above_ne x n rs e h.1)

  select_sound :
      (s : Memory Row) (p : Row → Bool) (n : ℕ) (r : Row)
      → In r (select (get s) p n)
      → (get s (key r) ≡ some r) × (p r ≡ true)
  unfolding select
  select_sound s p zero r h = absurd h
  select_sound s p (suc n) r h = elim (Option-cases (get s n)) [
    | inl e ↦ select_sound s p n r (rw (e, select) at h)
    | inr (x, e) ↦ ground (arith, e, get-key s n x e, select_sound s p n r)
  ]

  select_complete :
      (g : ℕ → Option Row) (p : Row → Bool) (n k : ℕ) (r : Row)
      → g k ≡ some r
      → p r ≡ true
      → k < n
      → In r (select g p n)
  unfolding select
  select_complete g p zero k r e t h = elim h [ ]
  select_complete g p (suc n) k r e t h = elim (Bool-cases (k == n)) [
    | inl same ↦ ground (arith, e)
    | inr other ↦ ground (arith, select_complete g p n k r e t)
  ]

  unfoldable pub find_many : (Row → Bool) → Memory Row → List Row
  find_many p s = select (get s) p s.bound

  unfoldable pub find_first : (Row → Bool) → Memory Row → Option Row
  find_first p s = first (find_many p s)

  select-below :
      (s : Memory Row) (p : Row → Bool) (n : ℕ) → All (λ r. key r < n) (select (get s) p n)
  unfolding select
  select-below s p zero = tt
  select-below s p (suc n) = elim (Option-cases (get s n)) [
    | inl e ↦ rw (e, select) (below_suc n (select (get s) p n) (select-below s p n))
    | inr (x, e) ↦
        let rest = below_suc n (select (get s) p n) (select-below s p n) in
        ground (arith, e, get-key s n x e, rest)
  ]

  select-Distinct : (s : Memory Row) (p : Row → Bool) (n : ℕ) → Distinct key (select (get s) p n)
  unfolding select
  select-Distinct s p zero = tt
  select-Distinct s p (suc n) = elim (Option-cases (get s n)) [
    | inl e ↦ rw (e, select) (select-Distinct s p n)
    | inr (x, e) ↦
        let rest = above_ne x n (select (get s) p n) (get-key s n x e) (select-below s p n) in
        ground (arith, e, rest, select-Distinct s p n)
  ]

  unfoldable pub select_for_update : (Row → Bool) → Memory Row → Result DbError (List Row)
  select_for_update p s = if s.answers then ok (find_many p s) else err unavailable

  pub select_for_update-ok :
      (p : Row → Bool) (s : Memory Row) (rs : List Row)
      → select_for_update p s ≡ ok rs
      → rs ≡ find_many p s
  unfolding select_for_update
  select_for_update-ok p s rs h = ground arith

  pub select_for_update-err :
      (p : Row → Bool) (s : Memory Row) → select_for_update p s ≢ err unique_violation
  unfolding select_for_update
  select_for_update-err p s h = ground arith

  pub select_for_update-up :
      (p : Row → Bool) (s : Memory Row)
      → s.answers ≡ true
      → select_for_update p s ≡ ok (find_many p s)
  unfolding select_for_update
  select_for_update-up p s h = ground arith

  pub find_many-Distinct : (p : Row → Bool) (s : Memory Row) → Distinct key (find_many p s)
  unfolding find_many
  find_many-Distinct p s = select-Distinct s p s.bound

  pub find_many_sound :
      (p : Row → Bool) (s : Memory Row) (r : Row)
      → In r (find_many p s)
      → (get s (key r) ≡ some r) × (p r ≡ true)
  unfolding find_many
  find_many_sound p s r h = select_sound s p s.bound r h

  pub find_many_complete :
      (p : Row → Bool) (s : Memory Row) (k : ℕ) (r : Row)
      → get s k ≡ some r
      → p r ≡ true
      → In r (find_many p s)
  unfolding find_many
  find_many_complete p s k r e t = select_complete (get s) p s.bound k r e t (get-bound s k r e)

  first-In : (rs : List Row) (r : Row) → first rs ≡ some r → In r rs
  unfolding first
  first-In [] r h = cc
  first-In (x ∷ rs) r h = ground arith

  first-none : (rs : List Row) (r : Row) → first rs ≡ none → In r rs → ⊥
  unfolding first
  first-none [] r h i = i
  first-none (x ∷ rs) r h i = cc

  pub find_first-some :
      (p : Row → Bool) (s : Memory Row) (r : Row)
      → find_first p s ≡ some r
      → (get s (key r) ≡ some r) × (p r ≡ true)
  unfolding find_first
  find_first-some p s r h = find_many_sound p s r (first-In (find_many p s) r h)

  pub find_first-none :
      (p : Row → Bool) (s : Memory Row) (k : ℕ) (r : Row)
      → find_first p s ≡ none
      → get s k ≡ some r
      → p r ≡ false
  unfolding find_first
  find_first-none p s k r h e = elim (Bool-cases (p r)) [
    | inl t ↦ absurd (first-none (find_many p s) r h (find_many_complete p s k r e t))
    | inr f ↦ f
  ]

  module _ (clash : Row → Row → Bool) where
    -- A row other than the one under `k` that a unique index puts in the way of `r`.
    unfoldable pub blocked : ℕ → Row → Memory Row → Option Row
    blocked k r s = find_first (λ x. not (key x == k) && clash r x) s

    unfoldable pub inserted : Row → Option Row → Memory Row → Result DbError (Row × Memory Row)
    inserted r (some _) s = err unique_violation
    inserted r none s = ok (r, record s { bound = suc s.bound; at = put s.bound (some r) s.at })

    unfoldable pub create :
        (f : ℕ → Row) → ((k : ℕ) → key (f k) ≡ k) → Memory Row → Result DbError (Row × Memory Row)
    unfolding inserted
    create f h s =
        if s.answers
        then inserted (f s.bound) (blocked s.bound (f s.bound) s) s
        else err unavailable

    unfoldable pub replaced : ℕ → Row → Option Row → Memory Row → Result DbError (Row × Memory Row)
    replaced k r (some _) s = err unique_violation
    replaced k r none s = ok (r, record s { at = put k (some r) s.at })

    unfoldable pub rewritten :
        ℕ → (Row → Row) → Option Row → Memory Row → Result DbError (Row × Memory Row)
    unfolding replaced
    rewritten k f none s = err row_missing
    rewritten k f (some r) s = replaced k (f r) (blocked k (f r) s) s

    unfoldable pub update :
        ℕ
        → (f : Row → Row) → ((r : Row) → key (f r) ≡ key r)
        → Memory Row
        → Result DbError (Row × Memory Row)
    unfolding rewritten
    update k f h s = if s.answers then rewritten k f (get s k) s else err unavailable

  unfoldable pub changed : (Row → Row) → List Row → List Row
  changed f [] = []
  changed f (r ∷ rs) = f r ∷ changed f rs

  unfoldable pub update_where :
      (Row → Bool)
      → (f : Row → Row) → ((r : Row) → key (f r) ≡ key r)
      → Memory Row
      → Result DbError (List Row × Memory Row)
  unfolding changed
  update_where p f h s =
      if s.answers
      then ok (changed f (find_many p s), record s { at = λ k. put_where p f (s.at k) })
      else err unavailable

  unfoldable pub removed : ℕ → Option Row → Memory Row → Result DbError (Row × Memory Row)
  removed k none s = err row_missing
  removed k (some r) s = ok (r, record s { at = put k none s.at })

  unfoldable pub delete : ℕ → Memory Row → Result DbError (Row × Memory Row)
  unfolding removed
  delete k s = if s.answers then removed k (get s k) s else err unavailable
