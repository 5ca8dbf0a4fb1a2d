-- ===== src/Accounts.antt =====
-- Accounts: backend/src/auth/auth.repository.ts and auth.service.ts, and the audit and mail that they
-- ask for. Salts and codes are arguments. The messages that the methods return are kept where they
-- differ.
pub mod Handlers
pub mod Registration
pub mod Google
pub mod Sessions
use Prim.Native.String.{String}
use text.Mathlib.Text.{◌==◌ as str_eq}
use movie_reservation_system.Base.{
  ℕ, Bool, true, false, not, ◌==◌, Option, none, some, ◌∷◌, [], ◌++◌, refl, if◌then◌else◌,
}
use movie_reservation_system.Table.{Result, ok, err, unique_violation}
use movie_reservation_system.Schema.{User, UserRole, same_text, user}
use movie_reservation_system.Secrets.{AuthUser}
use movie_reservation_system.World.{
  Env, World, Action, Failure, bad_request, unauthorized, forbidden, conflict, prisma, hash_error,
  mail_error, pure, throw, ◌>>=◌, ◌>>◌, throw_if, or_throw, catch, gets, on_users, record_audit,
  user_registered, google_created, google_linked, login_google_success, login_failed,
}
use movie_reservation_system.Otp.{issue, verify}

-- The answers of `register` and `resendOtp`.
pub data Message : Type 0 where
  if_eligible code_sent : Message

abbrev pub has_email : String → User → Bool
has_email email u = str_eq u.email email

abbrev pub has_google_id : String → User → Bool
has_google_id google_id u = same_text u.google_id (some google_id)

-- auth/dto/register.dto.ts
pub record RegisterDto : Type 0 where
  pub name : String
  pub email : String
  pub password : String

-- auth/util/google.profile.util.ts, `GoogleProfile`
pub record GoogleProfile : Type 0 where
  pub email : String
  pub name : String
  pub google_id : String

-- The columns that have a default are those of the schema.
abbrev pub new_user : RegisterDto → String → ℕ → User
new_user dto hash id = record {
  id = id;
  name = dto.name;
  email = dto.email;
  password = some hash;
  email_verified = false;
  google_id = none;
  role = user;
}

abbrev pub new_google_user : GoogleProfile → ℕ → User
new_google_user p id = record {
  id = id;
  name = p.name;
  email = p.email;
  password = none;
  email_verified = true;
  google_id = some p.google_id;
  role = user;
}

abbrev pub with_google_id : String → User → User
with_google_id google_id u = record u { google_id = some google_id }

abbrev pub verified : User → User
verified u = record u { email_verified = true }

-- `{ id: user.id, email: user.email, role: user.role, name: user.name }`
abbrev pub auth_user : User → AuthUser
auth_user u = record { id = u.id; name = u.name; email = u.email; role = u.role }

-- `!user || user.emailVerified` of `resendOtp`
abbrev pub to_verify : Option User → Option User
to_verify none = none
to_verify (some u) = if u.email_verified then none else some u

-- `user && user.password`, with the password; no hash is the empty text.
abbrev pub with_password : Option User → Option (User × String)
with_password none = none
with_password (some u) = elim u.password [ none ↦ none | some h ↦ some (u, h) ]

-- `err.code === 'P2002'`
abbrev pub is_duplicate : Failure → Bool
is_duplicate (prisma unique_violation) = true
is_duplicate _ = false

module _ ⦃env : Env⦄ where
  open env.secrets use {argon2_hash, argon2_verify}

  -- `MailerService.sendOtpEmail`
  unfoldable pub send_otp_email : String → String → Action (Unit {0})
  send_otp_email to code w =
      if env.mailer.accepts to code
      then (ok tt, record w { mails = w.mails ++ ((to, code) ∷ []) })
      else (err mail_error, w)

  -- `AuthRepository.findByEmail`, `findById`, `findByGoogleId`
  unfoldable pub find_by_email : String → World → Option User
  find_by_email email w = env.user.find_first (has_email email) w.users

  unfoldable pub find_by_id : ℕ → World → Option User
  find_by_id id w = env.user.get w.users id

  unfoldable pub find_by_google_id : String → World → Option User
  find_by_google_id google_id w = env.user.find_first (has_google_id google_id) w.users

  -- `createUser`, `createGoogleUser`, `setGoogleId`, `markEmailVerified`
  unfoldable pub create_user : RegisterDto → String → Action User
  create_user dto hash = on_users (env.user.create (new_user dto hash) (λ k. refl))

  unfoldable pub create_google_user : GoogleProfile → Action User
  create_google_user p = on_users (env.user.create (new_google_user p) (λ k. refl))

  unfoldable pub set_google_id : ℕ → String → Action User
  set_google_id user_id google_id =
      on_users (env.user.update user_id (with_google_id google_id) (λ r. refl))

  unfoldable pub mark_email_verified : ℕ → Action User
  mark_email_verified id = on_users (env.user.update id verified (λ r. refl))

  -- From the hash of the password on.
  unfoldable pub register_new : ℕ → ℕ → String → RegisterDto → Action Message
  register_new now salt code dto = do
    created ← create_user dto (argon2_hash dto.password salt)
    sent ← issue now code created.email
    send_otp_email created.email sent
    record_audit (user_registered created.id)
    pure if_eligible

  -- `AuthService.register`
  unfoldable pub register : ℕ → ℕ → String → RegisterDto → Action Message
  register now salt code dto =
      catch
        (do
          existing ← gets (find_by_email dto.email)
          elim existing [ some u ↦ pure if_eligible | none ↦ register_new now salt code dto ])
        (λ e. if is_duplicate e then pure if_eligible else throw e)

  -- `AuthService.verifyOtp`
  unfoldable pub verify_otp : ℕ → String → String → Action User
  verify_otp now email code = do
    found ← gets (find_by_email email)
    u ← or_throw found bad_request
    throw_if u.email_verified bad_request
    fits ← verify now email code
    throw_if (not fits) bad_request
    mark_email_verified u.id

  -- From `argon2.verify` of `validateUser` on.
  unfoldable pub check_password : String → User → String → Action AuthUser
  check_password password u hash = elim (argon2_verify hash password) [
    | err e ↦ throw hash_error
    | ok matches ↦
        if not matches
        then (record_audit (login_failed u.id) >> throw unauthorized)
        else (throw_if (not u.email_verified) forbidden >> pure (auth_user u))
  ]

  -- `AuthService.validateUser`, which `LocalStrategy.validate` passes on
  unfoldable pub validate_user : String → String → Action AuthUser
  validate_user email password = do
    found ← gets (λ w. with_password (find_by_email email w))
    u ← or_throw found unauthorized
    check_password password u.0 u.1

  -- `AuthService.getAuthUser`
  unfoldable pub get_auth_user : ℕ → Action AuthUser
  get_auth_user id = do
    found ← gets (find_by_id id)
    u ← or_throw found unauthorized
    pure (auth_user u)

  -- `AuthService.resolveGoogleUser`, from the look-up by e-mail on
  unfoldable pub resolve_new : GoogleProfile → Action AuthUser
  resolve_new p = do
    by_email ← gets (find_by_email p.email)
    elim by_email [
      | some u ↦ throw conflict
      | none ↦
          create_google_user p >>= λ u. record_audit (google_created u.id) >> pure (auth_user u)
    ]

  -- `AuthService.resolveGoogleUser`
  unfoldable pub resolve_google_user : GoogleProfile → Action AuthUser
  resolve_google_user p = do
    by_google ← gets (find_by_google_id p.google_id)
    elim by_google [
      | some u ↦ record_audit (login_google_success u.id) >> pure (auth_user u)
      | none ↦ resolve_new p
    ]

  -- `AuthService.linkGoogle`
  unfoldable pub link_google : ℕ → String → Action User
  link_google user_id google_id = do
    owner ← gets (find_by_google_id google_id)
    elim owner [
      | some u ↦ if u.id == user_id then pure u else throw conflict
      | none ↦
          set_google_id user_id google_id >>= λ u. record_audit (google_linked user_id) >> pure u
    ]

  -- `AuthService.resendOtp`
  unfoldable pub resend_otp : ℕ → String → String → Action Message
  resend_otp now code email = do
    found ← gets (λ w. to_verify (find_by_email email w))
    elim found [
      | none ↦ pure if_eligible
      | some u ↦ issue now code u.email >>= λ sent. send_otp_email u.email sent >> pure code_sent
    ]
