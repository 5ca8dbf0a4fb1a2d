-- ===== src/Accounts/Handlers.antt =====
-- The handlers of backend/src/auth/auth.controller.ts behind their guards, the profile check of
-- auth/util/google.profile.util.ts, the options of auth/guards/google-link-auth.guard.ts and the role
-- check of common/guards/roles.guard.ts. A redirection is named by its query.
use Prim.Native.String.{String}
use text.Mathlib.Text.{◌==◌ as str_eq}
use movie_reservation_system.Base.{
  ℕ, Bool, true, false, Option, none, some, List, [], ◌∷◌, ◌||◌, not, if◌then◌else◌,
}
use movie_reservation_system.Schema.{UserRole, admin, user}
use movie_reservation_system.Secrets.{AuthUser}
use movie_reservation_system.World.{
  Env, Action, Failure, unauthorized, forbidden, conflict, pure, throw, ◌>>=◌, ◌>>◌, throw_if,
  catch, modify, record_audit, login_success, token_refreshed, user_logout,
}
use movie_reservation_system.Tokens.{
  RefreshUser, issue_auth_cookies, rotate_auth_cookies, revoke_all_sessions, clear_auth_cookies,
  verify_link_state, sign_link_state,
}
use movie_reservation_system.Accounts.{
  GoogleProfile, auth_user, verify_otp, get_auth_user, resolve_google_user, link_google,
}

pub data Redirect : Type 0 where
  google_callback account_exists linked_google google_already_linked : Redirect

-- A profile of Google, as far as it is read: the addresses, the display name and the id.
pub record Profile : Type 0 where
  pub emails : List String
  pub display_name : String
  pub id : String

-- `profile.emails?.[0]?.value`, if it is not empty
abbrev pub first_email : List String → Option String
first_email [] = none
first_email (e ∷ es) = if str_eq e "" then none else some e

-- `err instanceof ConflictException`
abbrev pub is_conflict : Failure → Bool
is_conflict conflict = true
is_conflict _ = false

-- `requiredRoles.includes(user.role)`
abbrev pub same_role : UserRole → UserRole → Bool
same_role admin admin = true
same_role user user = true
same_role _ _ = false

abbrev pub includes_role : List UserRole → UserRole → Bool
includes_role [] r = false
includes_role (x ∷ xs) r = same_role x r || includes_role xs r

abbrev pub has_role : List UserRole → Option AuthUser → Bool
has_role roles none = false
has_role roles (some u) = includes_role roles u.role

module _ ⦃env : Env⦄ where
  -- The `validate` of google.profile.util.ts
  unfoldable pub validate_profile : Profile → Action GoogleProfile
  validate_profile p = elim (first_email p.emails) [
    | none ↦ throw unauthorized
    | some e ↦ pure (record { email = e; name = p.display_name; google_id = p.id })
  ]

  -- `RolesGuard.canActivate`
  unfoldable pub check_roles : List UserRole → Option AuthUser → Action Bool
  check_roles [] u = pure true
  check_roles (r ∷ rs) u = throw_if (not (has_role (r ∷ rs) u)) forbidden >> pure true

  -- `GoogleLinkAuthGuard.getAuthenticateOptions`
  unfoldable pub link_options : ℕ → Option AuthUser → Option env.secrets.Token
  unfolding sign_link_state
  link_options now none = none
  link_options now (some u) = some (sign_link_state now u.id)

  -- `verifyOtp`
  unfoldable pub handle_verify_otp : ℕ → String → String → String → Action AuthUser
  handle_verify_otp now jti email code = do
    u ← verify_otp now email code
    modify (issue_auth_cookies now jti (auth_user u))
    pure (auth_user u)

  -- `login`, with the user that the guard has found
  unfoldable pub handle_login : ℕ → String → AuthUser → Action AuthUser
  handle_login now jti u = do
    modify (issue_auth_cookies now jti u)
    record_audit (login_success u.id)
    pure u

  -- `refresh`
  unfoldable pub handle_refresh : ℕ → String → RefreshUser → Action (Unit {0})
  handle_refresh now jti u = do
    fresh ← get_auth_user u.id
    rotate_auth_cookies now jti u fresh
    record_audit (token_refreshed u.id)

  -- `logout`
  unfoldable pub handle_logout : ℕ → AuthUser → Action (Unit {0})
  handle_logout now u = do
    modify (revoke_all_sessions now u.id)
    modify clear_auth_cookies
    record_audit (user_logout u.id)

  -- `googleCallback`
  unfoldable pub google_callback_handler : ℕ → String → GoogleProfile → Action Redirect
  google_callback_handler now jti p =
      catch
        (do u ← resolve_google_user p; modify (issue_auth_cookies now jti u); pure google_callback)
        (λ e. if is_conflict e then pure account_exists else throw e)

  -- `linkGoogleCallback`
  unfoldable pub link_google_callback :
      ℕ → Option env.secrets.Token → GoogleProfile → Action Redirect
  link_google_callback now state p = do
    id ← verify_link_state now state
    catch (do u ← link_google id p.google_id; pure linked_google)
        (λ e. if is_conflict e then pure google_already_linked else throw e)
