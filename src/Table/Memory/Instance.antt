-- ===== src/Table/Memory/Instance.antt =====
-- The table in memory does what `Table` asks of a database.
use movie_reservation_system.Base.{
  ℕ, suc, Bool, true, false, Option, none, some, ◌≡◌, ◌∙◌, ◌≢◌, inl, inr, arith, Option-cases,
}
use movie_reservation_system.Table.{Table, unique_violation, ok, err, put}
use movie_reservation_system.Table.Memory
use movie_reservation_system.Table.Memory.{Memory}
use movie_reservation_system.Table.Memory.Changed.{update_where-ok, update_where-up}

module _ {Row : Type 0} (key : Row → ℕ) where
  abbrev at_key : Memory Row → ℕ → Option Row
  at_key = Memory.get key

  get-update :
      (s : Memory Row) (k : ℕ) (old r : Row)
      → at_key s k ≡ some old
      → key r ≡ k
      → (j : ℕ) → at_key (record s { at = put k (some r) s.at }) j ≡ put k (some r) (at_key s) j
  unfolding Memory.get
  get-update s k old r e h j = ground arith

  get-insert :
      (s : Memory Row) (r : Row)
      → key r ≡ s.bound
      → (j : ℕ)
      → at_key (record s { bound = suc s.bound; at = put s.bound (some r) s.at }) j
        ≡ put s.bound (some r) (at_key s) j
  unfolding Memory.get
  get-insert s r h j = ground arith

  get-remove :
      (s : Memory Row) (k j : ℕ)
      → at_key (record s { at = put k none s.at }) j ≡ put k none (at_key s) j
  unfolding Memory.get
  get-remove s k j = ground arith

  get_at_bound : (s : Memory Row) → at_key s s.bound ≡ none
  unfolding Memory.get
  get_at_bound s = ground arith

  module _ (clash : Row → Row → Bool) where
    pub create-ok :
        (f : ℕ → Row) (h : (k : ℕ) → key (f k) ≡ k) (s : Memory Row) (r : Row) (s' : Memory Row)
        → Memory.create key clash f h s ≡ ok (r, s')
        → (r ≡ f (key r))
          × (at_key s (key r) ≡ none)
          × ((j : ℕ) → at_key s' j ≡ put (key r) (some r) (at_key s) j)
    unfolding Memory.create
    create-ok f h s r s' e = elim (Option-cases (Memory.blocked key clash s.bound (f s.bound) s)) [
      | inl free ↦ (
        ground (arith, free, e, h s.bound),
        ground (arith, free, e, h s.bound, get_at_bound s),
        λ j. ground (arith, free, e, h s.bound, get-insert s (f s.bound) (h s.bound) j),
      )
      | inr (x, taken) ↦ absurd (ground (arith, taken, e))
    ]

    blocked-clash :
        (k : ℕ) (r x : Row) (s : Memory Row)
        → Memory.blocked key clash k r s ≡ some x
        → (at_key s (key x) ≡ some x) × (clash r x ≡ true)
    unfolding Memory.blocked
    blocked-clash k r x s e = ground (arith, Memory.find_first-some key _ s x e)

    free_of_clashes :
        (k : ℕ) (r : Row) (s : Memory Row)
        → ((j : ℕ) (x : Row) → k ≢ j → at_key s j ≡ some x → clash r x ≡ false)
        → Memory.blocked key clash k r s ≡ none
    unfolding Memory.blocked
    free_of_clashes k r s h = elim (Option-cases (Memory.blocked key clash k r s)) [
      | inl e ↦ e
      | inr (x, e) ↦
          let t = Memory.find_first-some key _ s x e in absurd (ground (arith, t, h (key x) x))
    ]

    pub create-clash :
        (f : ℕ → Row) (h : (k : ℕ) → key (f k) ≡ k) (s : Memory Row)
        → Memory.create key clash f h s ≡ err unique_violation
        → (n k : ℕ) × (r : Row) × (at_key s k ≡ some r) × (clash (f n) r ≡ true)
    unfolding Memory.create
    create-clash f h s e = elim (Option-cases (Memory.blocked key clash s.bound (f s.bound) s)) [
      | inl free ↦ absurd (ground (arith, free, e))
      | inr (x, taken) ↦
          let t = blocked-clash s.bound (f s.bound) x s taken in (s.bound, key x, x, t.0, t.1)
    ]

    pub create-up :
        (f : ℕ → Row) (h : (k : ℕ) → key (f k) ≡ k) (s : Memory Row)
        → s.answers ≡ true
        → ((n k : ℕ) (r : Row) → at_key s k ≡ some r → clash (f n) r ≡ false)
        → (r : Row) × (s' : Memory Row) × (Memory.create key clash f h s ≡ ok (r, s'))
          × (s'.answers ≡ true)
    unfolding Memory.create
    create-up f h s up c = (
      f s.bound,
      record s { bound = suc s.bound; at = put s.bound (some (f s.bound)) s.at },
      let open_key = free_of_clashes s.bound (f s.bound) s (λ j x _ e. c s.bound j x e) in
          ground (arith, open_key, up),
      up,
    )

    pub update-ok :
        (k : ℕ) (f : Row → Row) (h : (r : Row) → key (f r) ≡ key r) (s : Memory Row) (r : Row)
        (s' : Memory Row)
        → Memory.update key clash k f h s ≡ ok (r, s')
        → (old : Row) × (at_key s k ≡ some old)
          × (r ≡ f old)
          × ((j : ℕ) → at_key s' j ≡ put k (some r) (at_key s) j)
    unfolding Memory.update
    update-ok k f h s r s' e = elim (Option-cases (at_key s k)) [
      | inl missing ↦ absurd (ground (arith, missing, e))
      | inr (old, found) ↦
          let same = Memory.get-key key s k old found in
          (
            old,
            found,
            ground (arith, found, e),
            λ j.
                ground
                  (arith, found, e, h old, same, get-update s k old (f old) found (h old ∙ same) j),
          )
    ]

    pub update-up :
        (k : ℕ) (f : Row → Row) (h : (r : Row) → key (f r) ≡ key r) (s : Memory Row) (old : Row)
        → s.answers ≡ true
        → at_key s k ≡ some old
        → ((j : ℕ) (r : Row) → k ≢ j → at_key s j ≡ some r → clash (f old) r ≡ false)
        → (r : Row) × (s' : Memory Row) × (Memory.update key clash k f h s ≡ ok (r, s'))
          × (s'.answers ≡ true)
    unfolding Memory.update
    update-up k f h s old up found c = (
      f old,
      record s { at = put k (some (f old)) s.at },
      let open_key = free_of_clashes k (f old) s c in ground (arith, open_key, found, up),
      up,
    )

  pub delete-ok :
      (k : ℕ) (s : Memory Row) (r : Row) (s' : Memory Row)
      → Memory.delete key k s ≡ ok (r, s')
      → (at_key s k ≡ some r) × ((j : ℕ) → at_key s' j ≡ put k none (at_key s) j)
  unfolding Memory.delete
  delete-ok k s r s' e = elim (Option-cases (at_key s k)) [
    | inl missing ↦ absurd (ground (arith, missing, e))
    | inr (old, found) ↦ (ground (arith, found, e), λ j. ground (arith, found, e, get-remove s k j))
  ]

  pub delete-up :
      (k : ℕ) (s : Memory Row) (r : Row)
      → s.answers ≡ true
      → at_key s k ≡ some r
      → (s' : Memory Row) × (Memory.delete key k s ≡ ok (r, s')) × (s'.answers ≡ true)
  unfolding Memory.delete
  delete-up k s r up found = (record s { at = put k none s.at }, ground (arith, found, up), up)

  -- The table in memory, under the unique index `clash`.
  abbrev pub memory : (clash : Row → Row → Bool) → Table Row key clash
  memory clash = record {
    State = Memory Row;
    get = Memory.get key;
    up = λ s. s.answers;
    find_first = Memory.find_first key;
    find_many = Memory.find_many key;
    create = Memory.create key clash;
    update = Memory.update key clash;
    update_where = Memory.update_where key;
    delete = Memory.delete key;
    get-key = Memory.get-key key;
    find_first-some = Memory.find_first-some key;
    find_first-none = Memory.find_first-none key;
    find_many_sound = Memory.find_many_sound key;
    find_many_complete = Memory.find_many_complete key;
    create-ok = create-ok clash;
    create-clash = create-clash clash;
    create-up = create-up clash;
    update-ok = update-ok clash;
    update-up = update-up clash;
    update_where-ok = update_where-ok key;
    update_where-up = λ p f h s up _ _. update_where-up key p f h s up;
    find_many-Distinct = Memory.find_many-Distinct key;
    select_for_update = Memory.select_for_update key;
    select_for_update-ok = Memory.select_for_update-ok key;
    select_for_update-err = Memory.select_for_update-err key;
    select_for_update-up = Memory.select_for_update-up key;
    delete-ok = delete-ok;
    delete-up = delete-up;
  }
