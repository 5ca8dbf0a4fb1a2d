-- ===== src/Listeners.antt =====
-- What happens on the events of a reservation and by the clock:
-- backend/src/reservations/listeners/reservation-cache.listener.ts and backend/src/cron/hold-expiry.cron.ts.
pub mod Fresh
use movie_reservation_system.Base.{ℕ, List}
use movie_reservation_system.Table.{ok, err}
use movie_reservation_system.Redis.{seat_map}
use movie_reservation_system.World.{
  Env, World, Action, Event, created, cancelled, hold_expiry, pure, ◌>>◌, ◌>>=◌, catch,
  record_audit,
}
use movie_reservation_system.Reservations.Service.{expire_holds}
use movie_reservation_system.Payments.Reconcile.{reconcile_timed_out_payments}

module _ ⦃env : Env⦄ where
  -- `invalidateSeatMap`, which listens to the events of creation and cancellation. The deletion may
  -- fail, which `delSeatMap` swallows.
  unfoldable pub invalidate_seat_map : ℕ → Event → World → World
  invalidate_seat_map now (created id seats) w = record w {
    redis = env.redis.del (seat_map id) now w.redis;
  }
  invalidate_seat_map now (cancelled id seats) w = record w {
    redis = env.redis.del (seat_map id) now w.redis;
  }
  invalidate_seat_map now _ w = w

  -- The two jobs, which only log what goes wrong.
  unfoldable pub handle_expire_holds : ℕ → Action (Unit {0})
  handle_expire_holds now = catch (expire_holds now >> record_audit hold_expiry) (λ e. pure tt)

  unfoldable pub handle_reconcile_payments : ℕ → Action (Unit {0})
  handle_reconcile_payments now = catch (reconcile_timed_out_payments now) (λ e. pure tt)
