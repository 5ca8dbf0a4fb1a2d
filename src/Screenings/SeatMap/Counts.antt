-- ===== src/Screenings/SeatMap/Counts.antt =====
-- The counts of `getScreeningSummary`.
use movie_reservation_system.Base.{
  ◌⊎◌, inl, inr, ℕ, suc, ◌+◌, Bool, true, false, List, [], ◌∷◌, ◌≡◌, refl, keep, length, arith,
}
use movie_reservation_system.Schema.{SeatStatus}
use movie_reservation_system.World.{SeatMapEntry}
use movie_reservation_system.Screenings.SeatMap.{count_seats, summary_of}

abbrev pub has_status : SeatStatus → SeatMapEntry → Bool
has_status SeatStatus.held e = elim e.status [ SeatStatus.held ↦ true | _ ↦ false ]
has_status SeatStatus.booked e = elim e.status [ SeatStatus.booked ↦ true | _ ↦ false ]
has_status SeatStatus.available e = elim e.status [ SeatStatus.available ↦ true | _ ↦ false ]

-- How many seats of the map have the status.
abbrev pub how_many : SeatStatus → List SeatMapEntry → ℕ
how_many s es = length (keep (has_status s) es)

SeatStatus-cases :
    (s : SeatStatus) → (s ≡ SeatStatus.held) ⊎ (s ≡ SeatStatus.booked) ⊎ (s ≡ SeatStatus.available)
SeatStatus-cases SeatStatus.held = inl refl
SeatStatus-cases SeatStatus.booked = inr (inl refl)
SeatStatus-cases SeatStatus.available = inr (inr refl)

count_seats-how_many :
    (es : List SeatMapEntry) (h b : ℕ)
    → count_seats es (h, b) ≡ (h + how_many SeatStatus.held es, b + how_many SeatStatus.booked es)
unfolding count_seats
count_seats-how_many [] h b = ground arith
count_seats-how_many (e ∷ es) h b = elim (SeatStatus-cases e.status) [
  | inl q ↦ ground (arith, q, count_seats-how_many es (suc h) b)
  | inr (inl q) ↦ ground (arith, q, count_seats-how_many es h (suc b))
  | inr (inr q) ↦ ground (arith, q, count_seats-how_many es h b)
]

how_many_total :
    (es : List SeatMapEntry)
    → how_many SeatStatus.held es + how_many SeatStatus.booked es + how_many SeatStatus.available es
      ≡ length es
how_many_total [] = refl
how_many_total (e ∷ es) = elim (SeatStatus-cases e.status) [
  | inl q ↦ ground (arith, q, how_many_total es)
  | inr (inl q) ↦ ground (arith, q, how_many_total es)
  | inr (inr q) ↦ ground (arith, q, how_many_total es)
]

-- The summary of a seat map counts the seats of each status; they add up to the capacity.
pub summary_of-how_many :
    (id : ℕ) (es : List SeatMapEntry)
    → let s = summary_of id es in
      (s.held ≡ how_many SeatStatus.held es)
      × (s.booked ≡ how_many SeatStatus.booked es)
      × (s.available ≡ how_many SeatStatus.available es)
      × (s.reserved + s.available ≡ s.capacity)
unfolding summary_of
summary_of-how_many id es =
    let c = count_seats-how_many es 0 0 in
    let n = how_many_total es in
    (ground (arith, c), ground (arith, c), ground (arith, c, n), ground (arith, c, n))
