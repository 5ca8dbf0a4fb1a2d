-- ===== src/Schema.antt =====
-- The database schema: backend/prisma/schema.prisma and the unique indexes of
-- backend/prisma/migrations. A `DateTime` is the number of milliseconds since the epoch. The
-- bookkeeping columns `createdAt` and `updatedAt` are kept where a query reads them.
use movie_reservation_system.Base.{
  [], ◌∷◌, ℕ, Bool, true, false, ◌&&◌, ◌||◌, Option, some, List, ◌==◌,
}
use Prim.Native.String.{String}
use text.Mathlib.Text.{◌==◌ as str_eq}

pub data ReservationStatus : Type 0 where
  held confirmed cancelled : ReservationStatus

pub data SeatStatus : Type 0 where
  available held booked : SeatStatus

pub data ScreenStatus : Type 0 where
  scheduled completed cancelled : ScreenStatus

pub data PaymentStatus : Type 0 where
  pending in_progress succeeded declined timed_out failed refunded : PaymentStatus

pub data MovieStatus : Type 0 where
  draft published : MovieStatus

pub data UserRole : Type 0 where
  admin user : UserRole

pub record User : Type 0 where
  pub id : ℕ
  pub name : String
  pub email : String
  pub password : Option String
  pub email_verified : Bool
  pub google_id : Option String
  pub role : UserRole

pub record Movie : Type 0 where
  pub id : ℕ
  pub name : String
  pub duration : ℕ
  pub status : MovieStatus
  pub created_at : ℕ

pub record Hall : Type 0 where
  pub id : ℕ
  pub name : String
  pub capacity : ℕ

pub record Seat : Type 0 where
  pub id : ℕ
  pub hall_id : ℕ
  pub row : List ℕ
  pub number : List ℕ

pub record Screening : Type 0 where
  pub id : ℕ
  pub hall_id : ℕ
  pub movie_id : ℕ
  pub start_time : ℕ
  pub status : ScreenStatus
  pub price : ℕ

pub record Reservation : Type 0 where
  pub id : ℕ
  pub screening_id : ℕ
  pub seat_id : ℕ
  pub user_id : ℕ
  pub status : ReservationStatus
  pub held_until : Option ℕ

pub record Payment : Type 0 where
  pub id : ℕ
  pub reservation_id : ℕ
  pub amount : ℕ
  pub currency : String
  pub status : PaymentStatus
  pub stripe_payment_id : Option String
  pub stripe_session_id : String
  pub stripe_event_id : Option String
  pub refund_id : Option String
  pub refunded_at : Option ℕ
  pub disputed : Option Bool
  pub dispute_reason : Option String
  pub disputed_at : Option ℕ
  pub created_at : ℕ

-- `refundPercent`, a `Float` that is not negative, is the fraction `percent_num / percent_den`.
pub record RefundPolicy : Type 0 where
  pub id : ℕ
  pub hours_from : ℕ
  pub hours_to : ℕ
  pub percent_num : ℕ
  pub percent_den : ℕ

-- The tests `===` on the enumerations.
abbrev pub is_held : ReservationStatus → Bool
is_held ReservationStatus.held = true
is_held _ = false

abbrev pub is_confirmed : ReservationStatus → Bool
is_confirmed ReservationStatus.confirmed = true
is_confirmed _ = false

abbrev pub is_scheduled : ScreenStatus → Bool
is_scheduled ScreenStatus.scheduled = true
is_scheduled _ = false

abbrev pub is_refunded : PaymentStatus → Bool
is_refunded PaymentStatus.refunded = true
is_refunded _ = false

abbrev pub is_timed_out : PaymentStatus → Bool
is_timed_out PaymentStatus.timed_out = true
is_timed_out _ = false

-- `status IN ('HELD', 'CONFIRMED')`
abbrev pub is_active : ReservationStatus → Bool
is_active s = is_held s || is_confirmed s

-- The partial index `reservation_active_seat_screening_key`: one active reservation for each seat
-- and screening.
abbrev pub active_clash : Reservation → Reservation → Bool
active_clash r s =
    r.seat_id == s.seat_id
    && r.screening_id == s.screening_id
    && is_active r.status
    && is_active s.status

-- `@@unique([hallId, row, number])`
abbrev pub same_letters : List ℕ → List ℕ → Bool
same_letters [] [] = true
same_letters (x ∷ xs) (y ∷ ys) = x == y && same_letters xs ys
same_letters _ _ = false

abbrev pub seat_clash : Seat → Seat → Bool
seat_clash s t =
    s.hall_id == t.hall_id && same_letters s.row t.row && same_letters s.number t.number

-- A unique column that may be null: nulls never collide.
abbrev pub same_text : Option String → Option String → Bool
same_text (some a) (some b) = str_eq a b
same_text _ _ = false

-- The unique columns of `user`.
abbrev pub user_clash : User → User → Bool
user_clash u v = str_eq u.email v.email || same_text u.google_id v.google_id

-- The unique columns of `payment`.
abbrev pub payment_clash : Payment → Payment → Bool
payment_clash p q =
    p.reservation_id == q.reservation_id
    || same_text p.stripe_payment_id q.stripe_payment_id
    || same_text p.stripe_event_id q.stripe_event_id

abbrev pub policy_clash : RefundPolicy → RefundPolicy → Bool
policy_clash p q = p.hours_from == q.hours_from && p.hours_to == q.hours_to

abbrev pub no_clash : {Row : Type 0} → Row → Row → Bool
no_clash r s = false
