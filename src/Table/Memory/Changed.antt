-- ===== src/Table/Memory/Changed.antt =====
-- `updateMany` of the table in memory: it changes each row that passes the test, and returns them all.
use movie_reservation_system.Base.{
  ℕ, Bool, true, Option, none, some, List, [], ◌∷◌, ◌≡◌, ◌≢◌, refl, inl, inr, In, All, arith, ap,
}
use movie_reservation_system.Table.{ok, put_where, Distinct}
use movie_reservation_system.Table.Memory
use movie_reservation_system.Table.Memory.{Memory}

module _ {Row : Type 0} (key : Row → ℕ) where
  abbrev at_key : Memory Row → ℕ → Option Row
  at_key = Memory.get key

  get_put_where :
      (p : Row → Bool) (f : Row → Row) (s : Memory Row) (o : Option Row) (j : ℕ)
      → ((r : Row) → key (f r) ≡ key r)
      → Memory.checked key j (put_where p f o) ≡ put_where p f (Memory.checked key j o)
  unfolding Memory.checked
  get_put_where p f s none j h = refl
  get_put_where p f s (some r) j h = ground (arith, h r)

  get-update_where :
      (p : Row → Bool) (f : Row → Row) (s : Memory Row)
      → ((r : Row) → key (f r) ≡ key r)
      → (j : ℕ)
      → at_key (record s { at = λ k. put_where p f (s.at k) }) j ≡ put_where p f (at_key s j)
  unfolding Memory.get
  get-update_where p f s h j = ground (arith, get_put_where p f s (s.at j) j h)

  changed_sound :
      (f : Row → Row) (rs : List Row) (r : Row)
      → In r (Memory.changed key f rs)
      → (old : Row) × In old rs × (r ≡ f old)
  unfolding Memory.changed
  changed_sound f [] r h = absurd h
  changed_sound f (x ∷ rs) r h = elim h [
    | inl e ↦ (x, inl refl, e)
    | inr i ↦ let (old, m, e) = changed_sound f rs r i in (old, inr m, e)
  ]

  changed_complete :
      (f : Row → Row) (rs : List Row) (old : Row) → In old rs → In (f old) (Memory.changed key f rs)
  unfolding Memory.changed
  changed_complete f [] old h = absurd h
  changed_complete f (x ∷ rs) old h = elim h [
    | inl e ↦ inl (ap f e)
    | inr i ↦ inr (changed_complete f rs old i)
  ]

  changed_ne :
      (f : Row → Row) (k : ℕ) (rs : List Row)
      → ((r : Row) → key (f r) ≡ key r)
      → All (λ r. k ≢ key r) rs
      → All (λ r. k ≢ key r) (Memory.changed key f rs)
  unfolding Memory.changed
  changed_ne f k [] h d = tt
  changed_ne f k (r ∷ rs) h d = (rw (h r) (d.0), changed_ne f k rs h d.1)

  changed-Distinct :
      (f : Row → Row) (rs : List Row)
      → ((r : Row) → key (f r) ≡ key r)
      → Distinct key rs
      → Distinct key (Memory.changed key f rs)
  unfolding Memory.changed
  changed-Distinct f [] h d = tt
  changed-Distinct f (r ∷ rs) h d =
      (rw (h r) (changed_ne f (key r) rs h d.0), changed-Distinct f rs h d.1)

  pub update_where-ok :
      (p : Row → Bool) (f : Row → Row) (h : (r : Row) → key (f r) ≡ key r) (s : Memory Row)
      (rs : List Row) (s' : Memory Row)
      → Memory.update_where key p f h s ≡ ok (rs, s')
      → ((j : ℕ) → at_key s' j ≡ put_where p f (at_key s j))
        × ((r : Row)
            → In r rs
            → (old : Row) × (at_key s (key r) ≡ some old) × (p old ≡ true) × (r ≡ f old))
        × ((k : ℕ) (old : Row) → at_key s k ≡ some old → p old ≡ true → In (f old) rs)
        × Distinct key rs
  unfolding Memory.update_where
  update_where-ok p f h s rs s' e =
      let list : rs ≡ Memory.changed key f (Memory.find_many key p s) = ground arith in
      (
        (λ j. ground (arith, e, get-update_where p f s h j)),
        (λ r i.
            let (old, m, same) = changed_sound f (Memory.find_many key p s) r (rw list at i) in
            let t = Memory.find_many_sound key p s old m in
            (old, rw (same, h old) (t.0), t.1, same)),
        (λ k old found t. rw list (
            changed_complete f (Memory.find_many key p s) old
              (Memory.find_many_complete key p s k old found t))),
        rw list
            (changed-Distinct f (Memory.find_many key p s) h (Memory.find_many-Distinct key p s)),
      )

  pub update_where-up :
      (p : Row → Bool) (f : Row → Row) (h : (r : Row) → key (f r) ≡ key r) (s : Memory Row)
      → s.answers ≡ true
      → (rs : List Row) × (s' : Memory Row) × (Memory.update_where key p f h s ≡ ok (rs, s'))
        × (s'.answers ≡ true)
  unfolding Memory.update_where
  update_where-up p f h s up = (
    Memory.changed key f (Memory.find_many key p s),
    record s { at = λ k. put_where p f (s.at k) },
    ground arith,
    up,
  )
