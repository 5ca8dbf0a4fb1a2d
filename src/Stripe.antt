-- ===== src/Stripe.antt =====
-- The Stripe API and the Stripe SDK, as far as payments/payments.service.ts calls them. They are
-- not part of the repository, so they are a parameter. A call can fail, and can have taken effect at
-- Stripe all the same; `refunded s key` is the amount that Stripe has paid back under an idempotency
-- key.
pub mod Memory
use Prim.Native.String.{String}
use movie_reservation_system.Base.{ℕ, Bool, Option, some, none, true, ◌≡◌, ◌≢◌, ◌⊎◌}
use movie_reservation_system.Table.{Result, ok}

-- `Stripe.Checkout.Session`; `paid` says that `payment_status` is 'paid', and `payment_id` is the
-- number of `metadata.paymentId`, which every session of this service carries.
pub record Session : Type 0 where
  pub id : String
  pub url : String
  pub paid : Bool
  pub payment_intent : Option String
  pub payment_id : ℕ

-- `Stripe.Event`, by its type.
pub data EventObject : Type 0 where
  checkout_completed checkout_async_failed checkout_expired : Session → EventObject
  dispute_created : (payment_intent reason : String) → EventObject
  other_type : EventObject

pub record StripeEvent : Type 0 where
  pub id : String
  pub object : EventObject

pub data StripeError : Type 0 where
  api_error : StripeError

pub record Stripe : Type 1 where
  pub State : Type 0
  pub refunded : State → ℕ → Option ℕ
  -- `checkout.sessions.create`: the amount, `metadata.paymentId` and `expires_at`
  pub create_session : ℕ → ℕ → ℕ → State → Result StripeError Session × State
  pub retrieve_session : String → State → Result StripeError Session × State
  -- `refunds.create`: the payment intent, the amount and the idempotency key of a payment
  pub create_refund : String → ℕ → ℕ → State → Result StripeError String × State
  -- `webhooks.constructEvent`: the raw body and the signature
  pub construct_event : String → String → Option StripeEvent
  pub create_session-refunded :
      (a p e k : ℕ) (s : State) → refunded (create_session a p e s).1 k ≡ refunded s k
  pub retrieve_session-refunded :
      (i : String) (k : ℕ) (s : State) → refunded (retrieve_session i s).1 k ≡ refunded s k
  -- Stripe still remembers the idempotency key when the next call arrives. It may forget a key after
  -- 24 hours.
  pub remembers : State → ℕ → Bool
  -- The first call under a key pays the amount back, and a later one changes nothing while the key is
  -- remembered.
  pub create_refund-again :
      (i : String) (a b k : ℕ) (s : State)
      → refunded s k ≡ some b
      → remembers s k ≡ true
      → refunded (create_refund i a k s).1 k ≡ some b
  pub create_refund-new :
      (i : String) (a k : ℕ) (s : State)
      → refunded s k ≡ none
      → (refunded (create_refund i a k s).1 k ≡ some a)
        ⊎ ((refunded (create_refund i a k s).1 k ≡ none)
            × ((id : String) → (create_refund i a k s).0 ≢ ok id))
  pub create_refund-others :
      (i : String) (a k j : ℕ) (s : State)
      → k ≢ j
      → refunded (create_refund i a k s).1 j ≡ refunded s j
