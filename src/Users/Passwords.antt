-- ===== src/Users/Passwords.antt =====
-- The passwords of registered users: auth/auth.service.ts hashes them with argon2, and
-- users/users.service.ts compares them with bcrypt.
use Prim.Native.String.{String}
use movie_reservation_system.Base.{ℕ, some, ◌≡◌, refl, arith}
use movie_reservation_system.Table.{err}
use movie_reservation_system.Schema.{User}
use movie_reservation_system.World.{Env, World, unauthorized}
use movie_reservation_system.Accounts.{find_by_id}
use movie_reservation_system.Users.{check_current, change_password, request_email_change}

module _ ⦃env : Env⦄ where
  open env.secrets use {argon2_hash}

  check_current-argon2_hash :
      (salt user_id : ℕ) (current password : String) (u : User) (w : World)
      → env.user.get w.users user_id ≡ some u
      → u.password ≡ some (argon2_hash password salt)
      → check_current user_id current w ≡ (err unauthorized, w)
  unfolding check_current find_by_id
  check_current-argon2_hash salt user_id current password u w row hash =
      rw row (rw hash (rw (env.secrets.bcrypt_compare-argon2_hash current password salt) refl))

  -- A user whose stored hash is one that `register` makes can change neither the password nor the
  -- e-mail address: whatever is sent as the current password, the right one included, both methods
  -- answer 401 and change nothing.
  pub changes_refused :
      (now salt salt' user_id : ℕ) (jti code current next email password : String) (u : User)
      (w : World)
      → env.user.get w.users user_id ≡ some u
      → u.password ≡ some (argon2_hash password salt)
      → (change_password now salt' jti user_id current next w ≡ (err unauthorized, w))
        × (request_email_change now code user_id email current w ≡ (err unauthorized, w))
  unfolding change_password request_email_change
  changes_refused now salt salt' user_id jti code current next email password u w row hash =
      let refused = check_current-argon2_hash salt user_id current password u w row hash in
      (ground (arith, refused), ground (arith, refused))
