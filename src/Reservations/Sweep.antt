-- ===== src/Reservations/Sweep.antt =====
-- The effect of `expireHolds` and of the other methods of reservations/reservations.service.ts on the
-- table and on the events.
use mathlib.Core.List.{append_assoc, append-nil}
use movie_reservation_system.Base.{
  ℕ, true, some, List, [], ◌∷◌, ◌++◌, map, ◌≡◌, refl, ap, ◌∙◌, sym, arith, In, none, ◌<◌,
  Bool-cases, Option-cases, lt→ltb, inl, inr, ◌⊎◌,
}
use movie_reservation_system.Table.{Result-cases, ok, err, Distinct}
use movie_reservation_system.Schema.{Reservation, ReservationStatus}
use movie_reservation_system.World.{Env, World, Failure, Event, cancelled, hold_expired, prisma}
use movie_reservation_system.Reservations.{
  group_by_screening, is_expired_hold, released, release_expired_holds,
}
use movie_reservation_system.Reservations.Service.{emit_cancelled, emit_expired, expire_holds}
use movie_reservation_system.Reservations.Exclusive.{view}
use movie_reservation_system.Reservations.Expiry.{
  NoRepeat, keys, seats_of, seats_in, group_by_screening-seats_of,
}

-- The events of a sweep: the seats of a screening, and a hold whose time is past.
abbrev pub cancelled_event : ℕ × List ℕ → Event
cancelled_event (screening_id, seats) = cancelled screening_id seats

abbrev pub expired_event : Reservation → Event
expired_event r = hold_expired r.user_id r.screening_id r.seat_id

-- The row holds a seat, and its time is past.
abbrev pub Overdue : ℕ → Reservation → Type 0
Overdue now r =
    (r.status ≡ ReservationStatus.held) × (until : ℕ) × (r.held_until ≡ some until) × (until < now)

-- The same row, cancelled, with no time.
abbrev pub free_again : Reservation → Reservation
free_again r = record {
  id = r.id;
  screening_id = r.screening_id;
  seat_id = r.seat_id;
  user_id = r.user_id;
  status = ReservationStatus.cancelled;
  held_until = none;
}

ReservationStatus_cases :
    (s : ReservationStatus)
    → (s ≡ ReservationStatus.held)
      ⊎ (s ≡ ReservationStatus.confirmed)
      ⊎ (s ≡ ReservationStatus.cancelled)
ReservationStatus_cases ReservationStatus.held = inl refl
ReservationStatus_cases ReservationStatus.confirmed = inr (inl refl)
ReservationStatus_cases ReservationStatus.cancelled = inr (inr refl)

Overdue-is_expired_hold : (now : ℕ) (r : Reservation) → Overdue now r → is_expired_hold now r ≡ true
Overdue-is_expired_hold now r (h, until, e, past) = rw h (rw e (lt→ltb until now past))

is_expired_hold-Overdue : (now : ℕ) (r : Reservation) → is_expired_hold now r ≡ true → Overdue now r
is_expired_hold-Overdue now r h = elim (Option-cases r.held_until) [
  | inl a ↦ absurd (ground (arith, a, h))
  | inr (until, a) ↦ elim (ReservationStatus_cases r.status) [
    | inl s ↦ (s, until, a, ground (arith, a, s, h))
    | inr (inl s) ↦ absurd (ground (arith, s, h))
    | inr (inr s) ↦ absurd (ground (arith, s, h))
  ]
]

module _ ⦃env : Env⦄ where
  emit_cancelled_lem :
      (m : List (ℕ × List ℕ)) (w : World)
      → emit_cancelled m w ≡ (ok tt, record w { events = w.events ++ map cancelled_event m })
  unfolding emit_cancelled
  emit_cancelled_lem [] w =
      ap {A = List Event} (λ x. (ok tt, record w { events = x })) (sym (append-nil w.events))
  emit_cancelled_lem ((k, seats) ∷ m) w =
      emit_cancelled_lem m (record w { events = w.events ++ (cancelled k seats ∷ []) })
      ∙ ap {A = List Event} (λ x. (ok tt, record w { events = x }))
          (append_assoc w.events (cancelled k seats ∷ []) (map cancelled_event m))

  emit_expired_lem :
      (rs : List Reservation) (w : World)
      → emit_expired rs w ≡ (ok tt, record w { events = w.events ++ map expired_event rs })
  unfolding emit_expired
  emit_expired_lem [] w =
      ap {A = List Event} (λ x. (ok tt, record w { events = x })) (sym (append-nil w.events))
  emit_expired_lem (r ∷ rs) w =
      emit_expired_lem rs (record w { events = w.events ++ (expired_event r ∷ []) })
      ∙ ap {A = List Event} (λ x. (ok tt, record w { events = x }))
          (append_assoc w.events (expired_event r ∷ []) (map expired_event rs))

  -- A sweep at `now` that released `rows`.
  pub record Swept (now : ℕ) (w : World) (rows : List Reservation) (w' : World) : Type 0 where
    pub swept :
        (j : ℕ) (old : Reservation)
        → view w j ≡ some old
        → Overdue now old
        → (view w' j ≡ some (free_again old)) × In (free_again old) rows
    pub kept :
        (j : ℕ) (old : Reservation) → view w j ≡ some old → ¬ Overdue now old → view w' j ≡ some old
    pub no_new : (j : ℕ) → view w j ≡ none → view w' j ≡ none
    pub only_overdue :
        (r : Reservation)
        → In r rows
        → (old : Reservation) × (view w r.id ≡ some old) × Overdue now old × (r ≡ free_again old)
    pub once : Distinct (λ r. r.id) rows
    pub groups : List (ℕ × List ℕ)
    pub told : w'.events ≡ w.events ++ (map cancelled_event groups ++ map expired_event rows)
    pub each_once : NoRepeat (keys groups)
    pub whole : (k : ℕ) (seats : List ℕ) → In (k, seats) groups → seats ≡ seats_of k rows
    pub none_missing : (k : ℕ) → seats_in k groups ≡ seats_of k rows
    pub rest : w' ≡ record w { reservations = w'.reservations; events = w'.events }

  -- `expireHolds` cancels exactly the HELD rows whose time is past, each one once, leaves every other
  -- row alone, and announces exactly these rows: one event for each screening with all its seats, and
  -- one for each row; or the one UPDATE failed and nothing happened.
  pub expire_holds-Swept :
      (now : ℕ) (w : World)
      → ((rows : List Reservation) × (w' : World) × (expire_holds now w ≡ (ok tt, w'))
          × Swept now w rows w')
        ⊎ ((e : Failure) × (expire_holds now w ≡ (err e, w)))
  unfolding expire_holds release_expired_holds
  expire_holds-Swept now w =
      elim (Result-cases
        (env.reservation.update_where (is_expired_hold now) released (λ r. refl) w.reservations)) [
          | inr (e, h) ↦ inr (prisma e, ground (arith, h))
          | inl ((rows, s), h) ↦
              let (table, only, all, once) =
                env.reservation.update_where-ok (is_expired_hold now) released (λ r. refl)
                  w.reservations rows s h in
              let groups = group_by_screening rows [] in
              let grouped = group_by_screening-seats_of rows in
              let w1 : World = record w { reservations = s } in
              let w2 : World = record w1 { events = w.events ++ map cancelled_event groups } in
              let a = emit_cancelled_lem groups w1 in
              let b = emit_expired_lem rows w2 in
              inl (
                rows,
                record w2 { events = w2.events ++ map expired_event rows },
                ground (arith, h, a, b),
                record {
                  swept = λ j old there late.
                      let t = Overdue-is_expired_hold now old late in
                      (ground (arith, table j, there, t), all j old there t);
                  kept = λ j old there in_time. elim (Bool-cases (is_expired_hold now old)) [
                    | inl t ↦ absurd (in_time (is_expired_hold-Overdue now old t))
                    | inr t ↦ ground (arith, table j, there, t)
                  ];
                  no_new = λ j there. ground (arith, table j, there);
                  only_overdue = λ r i.
                      let (old, there, t, same) = only r i in
                      (old, there, is_expired_hold-Overdue now old t, same);
                  once = once;
                  groups = groups;
                  each_once = grouped.0;
                  whole = grouped.1;
                  none_missing = grouped.2;
                  told =
                      append_assoc w.events (map cancelled_event groups) (map expired_event rows);
                  rest = refl;
                },
              )
        ]
