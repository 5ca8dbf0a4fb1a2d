-- ===== src/World/Memory.antt =====
-- A world in memory: the tables, the Redis server, the Stripe account and the breaker of the other
-- `Memory` modules together, for tests and examples.
use movie_reservation_system.Base.{ℕ, none, true, false, [], arith}
use movie_reservation_system.Table.Memory as TableMemory
use movie_reservation_system.Table.Memory.{Memory}
use movie_reservation_system.Table.Memory.Instance.{memory}
use movie_reservation_system.Redis.Memory as RedisMemory
use movie_reservation_system.Redis.Sessions.Memory as SessionsMemory
use movie_reservation_system.Redis.Sessions.Instance as SessionsInstance
use movie_reservation_system.Redis.Sessions.{AuthKey-discrete, String-discrete}
use movie_reservation_system.Secrets.Memory as SecretsMemory
use movie_reservation_system.Stripe.Memory as StripeMemory
use movie_reservation_system.Schema.{
  seat_clash, active_clash, payment_clash, policy_clash, no_clash, user_clash,
}
use movie_reservation_system.World.{Env, AuthEnv, World, Breaker, Verdict}

-- The state of this breaker is its verdict, and it never changes.
abbrev pub steady : Breaker
steady = record { State = Verdict; verdict = λ v. v; settle = λ counted v. v }

-- The values of the tests.
abbrev pub settings : AuthEnv
settings = record {
  otp_ttl_seconds = 600;
  otp_max_attempts = 5;
  otp_resend_cooldown_seconds = 60;
  jwt_access_expires_in = 900;
  jwt_refresh_expires_in = 604800;
  otp_ttl_seconds-positive = omega arith;
  otp_max_attempts-positive = omega arith;
}

abbrev pub demo : Env
demo = record {
  reservation = memory (λ r. r.id) active_clash;
  payment = memory (λ r. r.id) payment_clash;
  screening = memory (λ r. r.id) no_clash;
  seat = memory (λ r. r.id) seat_clash;
  policy = memory (λ r. r.id) policy_clash;
  movie = memory (λ r. r.id) no_clash;
  hall = memory (λ r. r.id) no_clash;
  user = memory (λ r. r.id) user_clash;
  redis = RedisMemory.memory _;
  sessions = SessionsInstance.memory;
  secrets = SecretsMemory.memory;
  mailer = SecretsMemory.post;
  auth_env = settings;
  stripe = StripeMemory.memory;
  breaker = steady;
}

abbrev pub no_rows : {Row : Type 0} → Memory Row
no_rows = record { bound = 0; at = λ k. none; answers = true }

-- A world with empty tables.
abbrev pub blank : World ⦃env = demo⦄
blank = record {
  reservations = no_rows;
  payments = no_rows;
  screenings = no_rows;
  seats = no_rows;
  policies = no_rows;
  movies = no_rows;
  halls = no_rows;
  users = no_rows;
  redis = record {
    sets = λ k. record { items = []; until = none };
    texts = λ k. none;
    answers = true;
  };
  sessions = record { entries = λ k. none; sets = λ u. [] };
  stripe = record { answers = true; paid_back = λ k. none; forgotten = false };
  breaker = Verdict.admit;
  active = 0;
  events = [];
  metrics = record {
    succeeded = 0;
    failed = 0;
    declined = 0;
    timed_out = 0;
    refunded = 0;
    lockouts = 0;
  };
  audit = [];
  mails = [];
  access_cookie = none;
  refresh_cookie = none;
}

-- To unfold this is to unfold the operations of the world in memory.
unfoldable pub in_memory : ℕ
unfolding TableMemory.select_for_update TableMemory.find_first TableMemory.create TableMemory.update
    TableMemory.update_where TableMemory.delete TableMemory.get TableMemory.find_many
    TableMemory.select TableMemory.first TableMemory.checked TableMemory.changed TableMemory.removed
    TableMemory.blocked TableMemory.inserted TableMemory.replaced TableMemory.rewritten
    RedisMemory.scores RedisMemory.value RedisMemory.zadd RedisMemory.zremrangebyscore
    RedisMemory.pexpire RedisMemory.set RedisMemory.del RedisMemory.visible RedisMemory.at_time
    RedisMemory.renewed RedisMemory.Key-discrete StripeMemory.create_session
    StripeMemory.retrieve_session StripeMemory.create_refund StripeMemory.pay_back
    StripeMemory.construct_event SessionsMemory.read SessionsMemory.set SessionsMemory.del
    SessionsMemory.incr SessionsMemory.expire SessionsMemory.sadd SessionsMemory.srem
    SessionsMemory.del_set SessionsMemory.alive SessionsMemory.bumped SessionsMemory.limited
    AuthKey-discrete String-discrete SecretsMemory.argon2_hash SecretsMemory.argon2_verify
    SecretsMemory.bcrypt_hash SecretsMemory.bcrypt_compare SecretsMemory.same_secret
    SecretsMemory.jwt_sign SecretsMemory.jwt_verify
in_memory = 0
