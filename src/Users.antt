-- ===== src/Users.antt =====
-- Settings of an account: backend/src/users/users.service.ts and users.repository.ts. The number of
-- seconds `Number(process.env.OTP_TTL_SECONDS)` is the one that auth/auth-env.config.ts has checked.
pub mod Passwords
use Prim.Native.String.{String}
use movie_reservation_system.Base.{ℕ, ◌*◌, not, Option, none, some, refl, if◌then◌else◌}
use movie_reservation_system.Redis.Sessions.{pending_email, word, as_text}
use movie_reservation_system.Schema.{User}
use movie_reservation_system.Secrets.{AuthUser}
use movie_reservation_system.World.{
  Env, World, Action, unauthorized, conflict, bad_request, pure, throw, ◌>>=◌, ◌>>◌, throw_if,
  or_throw, gets, modify, on_users, on_sessions, record_audit, password_changed,
  email_change_requested,
}
use movie_reservation_system.Reservations.{is_some}
use movie_reservation_system.Otp.{issue, verify}
use movie_reservation_system.Tokens.{
  increment_access_version, revoke_all_sessions, issue_auth_cookies,
}
use movie_reservation_system.Accounts.{
  find_by_id, find_by_email, with_password, send_otp_email, get_auth_user, Message, code_sent,
}

abbrev pub with_name : String → User → User
with_name name u = record u { name = name }

abbrev pub with_email : String → User → User
with_email email u = record u { email = email }

abbrev pub with_hash : String → User → User
with_hash hash u = record u { password = some hash }

module _ ⦃env : Env⦄ where
  open env.sessions use {read, set, del}
  open env.secrets use {bcrypt_hash, bcrypt_compare}
  open env.auth_env use {otp_ttl_seconds}

  -- `UsersRepository.updateName`, `updateEmail`, `updatePassword`
  unfoldable pub update_name_row : ℕ → String → Action User
  update_name_row id name = on_users (env.user.update id (with_name name) (λ r. refl))

  unfoldable pub update_email_row : ℕ → String → Action User
  update_email_row id email = on_users (env.user.update id (with_email email) (λ r. refl))

  unfoldable pub update_password_row : ℕ → String → Action User
  update_password_row id hash = on_users (env.user.update id (with_hash hash) (λ r. refl))

  -- `UsersService.updateName`
  unfoldable pub update_name : ℕ → String → Action AuthUser
  unfolding update_name_row
  update_name user_id name = do changed ← update_name_row user_id name; get_auth_user user_id

  -- The check of the current password that two methods begin with.
  unfoldable pub check_current : ℕ → String → Action (Unit {0})
  unfolding find_by_id
  check_current user_id current_password = do
    found ← gets (λ w. with_password (find_by_id user_id w))
    u ← or_throw found unauthorized
    throw_if (not (bcrypt_compare current_password u.1)) unauthorized

  -- `UsersService.requestEmailChange`
  unfoldable pub request_email_change : ℕ → String → ℕ → String → String → Action Message
  request_email_change now code user_id new_email current_password = do
    check_current user_id current_password
    existing ← gets (find_by_email new_email)
    throw_if (is_some existing) conflict
    on_sessions (set (pending_email user_id) (word new_email) (otp_ttl_seconds * 1000) now)
    sent ← issue now code new_email
    send_otp_email new_email sent
    record_audit (email_change_requested user_id new_email)
    pure code_sent

  -- `UsersService.getPendingEmailChange`
  unfoldable pub get_pending_email_change : ℕ → ℕ → World → Option String
  get_pending_email_change now user_id w = as_text (read w.sessions (pending_email user_id) now)

  -- `UsersService.confirmEmailChange`
  unfoldable pub confirm_email_change : ℕ → ℕ → String → Action AuthUser
  unfolding get_pending_email_change update_email_row
  confirm_email_change now user_id code = do
    found ← gets (get_pending_email_change now user_id)
    pending ← or_throw found bad_request
    fits ← verify now pending code
    throw_if (not fits) bad_request
    changed ← update_email_row user_id pending
    on_sessions (del (pending_email user_id) now)
    get_auth_user user_id

  -- `UsersService.changePassword`
  unfoldable pub change_password : ℕ → ℕ → String → ℕ → String → String → Action (Unit {0})
  change_password now salt jti user_id current_password new_password = do
    check_current user_id current_password
    changed ← update_password_row user_id (bcrypt_hash new_password salt)
    modify (increment_access_version now user_id)
    modify (revoke_all_sessions now user_id)
    u ← get_auth_user user_id
    modify (issue_auth_cookies now jti u)
    record_audit (password_changed user_id)
