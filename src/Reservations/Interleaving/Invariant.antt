-- ===== src/Reservations/Interleaving/Invariant.antt =====
-- No double booking, whatever the order of the statements of reservations/reservations.repository.ts.
use movie_reservation_system.Base.{
  ℕ, false, Option, some, ◌≡◌, ◌≢◌, ◌⊎◌, ap, subst, inl, inr, refl, sym, ◌∙◌, ◌==◌, arith,
  Bool-cases,
}
use movie_reservation_system.Table.{put}
use movie_reservation_system.Schema.{Reservation, Seat}
use movie_reservation_system.Reservations.{HoldSeatParams, takes_seat, new_hold}
use movie_reservation_system.Reservations.Exclusive.{
  OneActive, Quiet, put-OneActive, insert-OneActive,
}
use movie_reservation_system.Reservations.Interleaving.{
  Phase, System, Move, Reach, idle, locked, checked, inserted, lock_of, set_phase, take_lock, check,
  insert, commit, abort, rewrite, start, move,
}

-- The check of the client holds still.
abbrev Free : (ℕ → Option Reservation) → HoldSeatParams → Type 0
Free rows p = (j : ℕ) (r : Reservation) → rows j ≡ some r → takes_seat p r ≡ false

abbrev Sound : (ℕ → Option Reservation) → Phase → Type 0
Sound rows idle = Unit
Sound rows (locked p) = Unit
Sound rows (checked p) = Free rows p
Sound rows (inserted p k) = Free rows p

record Inv (s : System) : Type 0 where
  one : OneActive s.rows
  locks : (c d : ℕ) (x : ℕ) → c ≢ d → lock_of (s.phase c) ≡ some x → lock_of (s.phase d) ≢ some x
  sound : (c : ℕ) → Sound s.rows (s.phase c)

-- Rows that take no more seats than before.
Sound-kept :
    (g h : ℕ → Option Reservation) (x : Phase)
    → ((p : HoldSeatParams) → lock_of x ≡ some p.seat_id → Free g p → Free h p)
    → Sound g x
    → Sound h x
Sound-kept g h idle f a = tt
Sound-kept g h (locked p) f a = tt
Sound-kept g h (checked p) f a = f p refl a
Sound-kept g h (inserted p k) f a = f p refl a

rewrite-Free :
    (g : ℕ → Option Reservation) (k : ℕ) (old new : Reservation) (p : HoldSeatParams)
    → g k ≡ some old
    → Quiet old new
    → Free g p
    → Free (put k (some new) g) p
rewrite-Free g k old new p found q free j r h = elim (Bool-cases (k == j)) [
  | inl a ↦ ground (arith, a, h, free k old found, q)
  | inr a ↦ free j r (ground (arith, a, h))
]

commit-Free :
    (g : ℕ → Option Reservation) (k : ℕ) (p q : HoldSeatParams)
    → p.seat_id ≢ q.seat_id
    → Free g q
    → Free (put k (some (new_hold p k)) g) q
commit-Free g k p q n free j r h = elim (Bool-cases (k == j)) [
  | inl a ↦ ground (arith, a, h, n)
  | inr a ↦ free j r (ground (arith, a, h))
]

-- The lock of a client after one client's step.
lock_of-set_phase :
    (c d : ℕ) (x : Phase) (s : System)
    → ((c ≡ d) × (lock_of ((set_phase c x s).phase d) ≡ lock_of x))
      ⊎ ((c ≢ d) × (lock_of ((set_phase c x s).phase d) ≡ lock_of (s.phase d)))
lock_of-set_phase c d x s = elim (Bool-cases (c == d)) [
  | inl e ↦ inl (ground (arith, e), rw e refl)
  | inr e ↦ inr (ground (arith, e), rw e refl)
]

-- A client's next phase keeps the rest of the invariant if it locks nothing new, or a free seat.
set_phase-Inv :
    (c : ℕ) (x : Phase) (s : System)
    → ((seat d : ℕ) → c ≢ d → lock_of x ≡ some seat → lock_of (s.phase d) ≢ some seat)
    → Sound s.rows x
    → Inv s
    → Inv (set_phase c x s)
set_phase-Inv c x s apart fits i = record {
  one = i.one;
  locks = λ a b y n h k. elim (lock_of-set_phase c a x s) [
    | inl (e, p) ↦ elim (lock_of-set_phase c b x s) [
      | inl (f, q) ↦ n (sym e ∙ f)
      | inr (f, q) ↦ apart y b f (sym p ∙ h) (sym q ∙ k)
    ]
    | inr (e, p) ↦ elim (lock_of-set_phase c b x s) [
      | inl (f, q) ↦ apart y a e (sym q ∙ k) (sym p ∙ h)
      | inr (f, q) ↦ i.locks a b y n (sym p ∙ h) (sym q ∙ k)
    ]
  ];
  sound = λ d. elim (Bool-cases (c == d)) [ inl e ↦ rw e fits | inr e ↦ rw e (i.sound d) ];
}

-- A client that goes on under its lock.
same_lock-Inv :
    (c : ℕ) (x : Phase) (s : System)
    → lock_of x ≡ lock_of (s.phase c)
    → Sound s.rows x
    → Inv s
    → Inv (set_phase c x s)
same_lock-Inv c x s same fits i =
    set_phase-Inv c x s (λ seat d n h. i.locks c d seat n (sym same ∙ h)) fits i

-- A client that has ended has no lock.
idle-Inv : (c : ℕ) (s : System) → Inv s → Inv (set_phase c idle s)
idle-Inv c s i = set_phase-Inv c idle s (λ seat d n h. absurd (ground (arith, h))) tt i

-- The row of a commit takes a seat that nobody else has locked.
commit-Inv :
    (c k : ℕ) (p : HoldSeatParams) (s : System)
    → s.phase c ≡ inserted p k
    → Inv s
    → Inv (set_phase c idle (record s { rows = put k (some (new_hold p k)) s.rows }))
commit-Inv c k p s at i =
    let free : Free s.rows p = subst (Sound s.rows) at (i.sound c) in
    let done = idle-Inv c s i in
    record {
      one = insert-OneActive p s.rows (put k (some (new_hold p k)) s.rows) k i.one free (λ j. refl);
      locks = done.locks;
      sound = λ d.
          Sound-kept s.rows (put k (some (new_hold p k)) s.rows) ((set_phase c idle s).phase d)
            (λ q h. commit-Free s.rows k p q (λ same. elim (lock_of-set_phase c d idle s) [
              | inl (_, e) ↦ absurd (ground (arith, e, h))
              | inr (n, e) ↦ i.locks c d q.seat_id n (ap lock_of at ∙ ap some same) (sym e ∙ h)
            ]))
            (done.sound d);
    }

rewrite-Inv :
    (k : ℕ) (old new : Reservation) (s : System)
    → s.rows k ≡ some old
    → Quiet old new
    → Inv s
    → Inv (record s { rows = put k (some new) s.rows })
rewrite-Inv k old new s found q i = record {
  one = put-OneActive s.rows (put k (some new) s.rows) k old new i.one found q (λ j. refl);
  locks = i.locks;
  sound = λ d.
      Sound-kept s.rows (put k (some new) s.rows) (s.phase d)
        (λ p h. rewrite-Free s.rows k old new p found q) (i.sound d);
}

Move-Inv : (seats : ℕ → Option Seat) (c : ℕ) {s t : System} → Move seats c s t → Inv s → Inv t
Move-Inv seats c {s} (take_lock p seat at there hall free) i =
    set_phase-Inv c (locked p) s (λ x d n h k. free d (k ∙ sym h)) tt i
Move-Inv seats c {s} (check p at free) i =
    same_lock-Inv c (checked p) s (sym (ap lock_of at)) free i
Move-Inv seats c {s} (insert p k at unused) i =
    same_lock-Inv c (inserted p k) s (sym (ap lock_of at)) (subst (Sound s.rows) at (i.sound c)) i
Move-Inv seats c {s} (commit p k at unused) i = commit-Inv c k p s at i
Move-Inv seats c {s} abort i = idle-Inv c s i
Move-Inv seats c {s} (rewrite k old new found q) i = rewrite-Inv k old new s found q i

Reach-Inv :
    (seats : ℕ → Option Seat) (rows : ℕ → Option Reservation) {s : System}
    → Reach seats rows s
    → OneActive rows
    → Inv s
Reach-Inv seats rows start one = record {
  one = one;
  locks = λ c d x n h. absurd (ground (arith, h));
  sound = λ c. tt;
}
Reach-Inv seats rows (move c r m) one = Move-Inv seats c m (Reach-Inv seats rows r one)

-- However the transactions of any number of clients interleave, with each other and with statements
-- that make no reservation active: in every state that is reached, no two committed reservations of
-- one seat and screening are active, if none were at the start. The lock and the check do it, without
-- the unique index.
pub Reach-OneActive :
    (seats : ℕ → Option Seat) (rows : ℕ → Option Reservation) (s : System)
    → OneActive rows
    → Reach seats rows s
    → OneActive s.rows
Reach-OneActive seats rows s one r = (Reach-Inv seats rows r one).one
