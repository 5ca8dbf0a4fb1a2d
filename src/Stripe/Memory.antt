-- ===== src/Stripe/Memory.antt =====
-- A Stripe account in memory: the value that shows that the assumptions on `Stripe` can be met. It
-- knows one checkout session, and a raw body stands for the event that it names.
use Prim.Native.String.{String}
use text.Mathlib.Text.{◌==◌ as str_eq}
use movie_reservation_system.Base.{
  ℕ, ◌+◌, not, Bool, true, Option, some, none, ◌≡◌, ◌≢◌, ◌⊎◌, refl, if◌then◌else◌, arith,
}
use movie_reservation_system.Table.{Result, ok, err, put}
use movie_reservation_system.Stripe.{
  Session, EventObject, StripeEvent, StripeError, api_error, Stripe, checkout_completed,
  checkout_expired, checkout_async_failed, dispute_created, other_type,
}

pub record Account : Type 0 where
  pub answers : Bool
  pub paid_back : ℕ → Option ℕ
  pub forgotten : Bool

abbrev pub session : ℕ → Session
session p = record {
  id = "cs_1";
  url = "https://checkout";
  paid = true;
  payment_intent = some "pi_1";
  payment_id = p;
}

unfoldable pub create_session : ℕ → ℕ → ℕ → Account → Result StripeError Session × Account
create_session a p e s = (if s.answers then ok (session p) else err api_error, s)

unfoldable pub retrieve_session : String → Account → Result StripeError Session × Account
retrieve_session i s = (if s.answers then ok (session 1) else err api_error, s)

unfoldable pub pay_back : ℕ → ℕ → Option ℕ → Account → Account
pay_back a k none s = record s { paid_back = put k (some a) s.paid_back }
pay_back a k (some b) s =
    if s.forgotten then record s { paid_back = put k (some (b + a)) s.paid_back } else s

unfoldable pub create_refund : String → ℕ → ℕ → Account → Result StripeError String × Account
unfolding pay_back
create_refund i a k s =
    if s.answers then (ok "re_1", pay_back a k (s.paid_back k) s) else (err api_error, s)

unfoldable pub construct_event : String → String → Option StripeEvent
construct_event body signature =
    if str_eq signature "forged" then none else some (record { id = body; object = object })
  where
    object : EventObject
    object =
        if str_eq body "evt_expired"
        then checkout_expired (session 1)
        else if str_eq body "evt_failed"
        then checkout_async_failed (session 1)
        else if str_eq body "evt_dispute"
        then dispute_created "pi_1" "fraudulent"
        else if str_eq body "evt_other"
        then other_type
        else checkout_completed (session 1)

pub create_session-refunded :
    (a p e k : ℕ) (s : Account) → (create_session a p e s).1.paid_back k ≡ s.paid_back k
unfolding create_session
create_session-refunded a p e k s = refl

pub retrieve_session-refunded :
    (i : String) (k : ℕ) (s : Account) → (retrieve_session i s).1.paid_back k ≡ s.paid_back k
unfolding retrieve_session
retrieve_session-refunded i k s = refl

pub create_refund-again :
    (i : String) (a b k : ℕ) (s : Account)
    → s.paid_back k ≡ some b
    → not s.forgotten ≡ true
    → (create_refund i a k s).1.paid_back k ≡ some b
unfolding create_refund
create_refund-again i a b k s h known = ground arith

pub create_refund-new :
    (i : String) (a k : ℕ) (s : Account)
    → s.paid_back k ≡ none
    → ((create_refund i a k s).1.paid_back k ≡ some a)
      ⊎ (((create_refund i a k s).1.paid_back k ≡ none)
          × ((id : String) → (create_refund i a k s).0 ≢ ok id))
unfolding create_refund
create_refund-new i a k s h = ground arith

pub create_refund-others :
    (i : String) (a k j : ℕ) (s : Account)
    → k ≢ j
    → (create_refund i a k s).1.paid_back j ≡ s.paid_back j
unfolding create_refund
create_refund-others i a k j s h = ground arith

abbrev pub memory : Stripe
memory = record {
  State = Account;
  refunded = λ s. s.paid_back;
  remembers = λ s k. not s.forgotten;
  create_session = create_session;
  retrieve_session = retrieve_session;
  create_refund = create_refund;
  construct_event = construct_event;
  create_session-refunded = create_session-refunded;
  retrieve_session-refunded = retrieve_session-refunded;
  create_refund-again = create_refund-again;
  create_refund-new = create_refund-new;
  create_refund-others = create_refund-others;
}
