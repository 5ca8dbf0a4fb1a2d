-- ===== src/Tests/Accounts.antt =====
-- Examples of accounts, tokens and one-time passwords.
use Prim.Native.String.{String}
use text.Mathlib.TextEquality.{eq_iff}
use movie_reservation_system.Base.{
  ℕ, ◌≤◌, ◌≡◌, ◌≢◌, refl, none, some, List, [], ◌∷◌, ◌++◌, true, arith, inl, inr, length, keep,
}
use movie_reservation_system.Table.{ok, err, Result, put}
use movie_reservation_system.Schema.{User, user}
use movie_reservation_system.Secrets.{AuthUser}
use movie_reservation_system.Secrets.Memory as SecretsMemory
use movie_reservation_system.World.{World, Failure, unauthorized, login_failed}
use movie_reservation_system.World.Memory.{demo, blank, in_memory}
use movie_reservation_system.Redis.Sessions.{otp_cooldown}
use movie_reservation_system.Otp.{issue}
use movie_reservation_system.Otp.Guesses.{is_compared, is_accepted, verify_all, verify_all-issue}
use movie_reservation_system.Tokens.{
  RefreshUser, issue_auth_cookies, rotate_auth_cookies, del_found,
}
use movie_reservation_system.Tokens.Steps.{login, start, wait, step, Undivided}
use movie_reservation_system.Tokens.Recorded.{Recorded}
use movie_reservation_system.Tokens.Revocation.{revoke_all_sessions-rotate}
use movie_reservation_system.Accounts.{
  RegisterDto, GoogleProfile, new_google_user, auth_user, register, resolve_google_user,
  find_by_email, find_by_google_id, if_eligible, verify_otp, validate_user, resolve_new,
  create_google_user,
}
use movie_reservation_system.Accounts.Registration.{register-verify_otp-validate_user}
use movie_reservation_system.Accounts.Google.{SignedIn, resolve_google_user-SignedIn}
use movie_reservation_system.Accounts.Handlers.{handle_refresh}
use movie_reservation_system.Accounts.Sessions.{handle_refresh-issue, handle_refresh_once}
use movie_reservation_system.Users.{change_password, request_email_change}
use movie_reservation_system.Users.Passwords.{changes_refused}

abbrev mailed : Result Failure String × World ⦃env = demo⦄
mailed = issue ⦃env = demo⦄ 0 "123456" "a@b.c" blank

mailed_ok : mailed ≡ (ok "123456", mailed.1)
unfolding issue in_memory
mailed_ok = refl

abbrev guesses : List (ℕ × String)
guesses = (10, "000000") ∷ (20, "000001") ∷ (30, "123456") ∷ []

verify_all-issue_example :
    (length (keep is_compared (verify_all ⦃env = demo⦄ "a@b.c" guesses mailed.1)) ≤ 5)
    × (length (keep is_accepted (verify_all ⦃env = demo⦄ "a@b.c" guesses mailed.1)) ≤ 1)
verify_all-issue_example =
    verify_all-issue ⦃env = demo⦄ 0 "123456" "a@b.c" guesses blank mailed.1 mailed_ok
      (omega arith, (omega arith, (omega arith, tt)))

abbrev ann : AuthUser
ann = record { id = 1; name = "Ann"; email = "a@b.c"; role = user }

abbrev session : String → RefreshUser
session jti = record { id = 1; jti = jti }

abbrev logged_in : World ⦃env = demo⦄
logged_in = issue_auth_cookies ⦃env = demo⦄ 0 "one" ann blank

two_one : ◌≢◌ {A = String} "two" "one"
two_one p = absurd (ground (arith, (eq_iff "two" "one").1 p))

one_three : ◌≢◌ {A = String} "one" "three"
one_three p = absurd (ground (arith, (eq_iff "one" "three").1 p))

blank-Recorded : Recorded ⦃env = demo⦄ 0 1 (blank.sessions)
unfolding in_memory
blank-Recorded j t h = inl refl

-- Another login, between the reading of the session ids and their deletion.
abbrev meanwhile : World ⦃env = demo⦄
meanwhile = issue_auth_cookies ⦃env = demo⦄ 10 "three" ann logged_in

abbrev logged_out : World ⦃env = demo⦄
logged_out = del_found ⦃env = demo⦄ 10 1 (demo.sessions.members logged_in.sessions 1) meanwhile

revoke_all_sessions-rotate_example :
    rotate_auth_cookies ⦃env = demo⦄ 50 "two" (session "one") ann logged_out
    ≡ (err unauthorized, logged_out)
unfolding Undivided
revoke_all_sessions-rotate_example =
    revoke_all_sessions-rotate ⦃env = demo⦄ 0 0 10 50 1 "one" "two" ann blank logged_in meanwhile
      logged_out ("one" ∷ []) ("three" ∷ []) [] blank-Recorded (step (login "one" ann refl) start)
      (tt, tt) (step (login "three" ann refl) (wait (omega arith) start)) (wait (omega arith) start)
      (λ i. elim i [ inl p ↦ one_three p | inr i ↦ i ]) (λ i. i)

-- A user who has registered with the password "secret".
abbrev old_user : User
old_user = record {
  id = 1;
  name = "Ann";
  email = "a@b.c";
  password = some (SecretsMemory.argon2_hash "secret" 7);
  email_verified = true;
  google_id = none;
  role = user;
}

abbrev one_user : World ⦃env = demo⦄
one_user = record blank {
  users = record { bound = 2; at = put 1 (some old_user) (λ k. none); answers = true };
}

old_user_there : demo.user.get one_user.users 1 ≡ some old_user
unfolding in_memory
old_user_there = refl

-- Ann logs in, and refreshes with the token of that session.
abbrev refreshed : Result Failure (Unit {0}) × World ⦃env = demo⦄
refreshed =
    handle_refresh ⦃env = demo⦄ 100 "two" (session "one")
      (issue_auth_cookies ⦃env = demo⦄ 0 "one" ann one_user)

refreshed_ok : refreshed ≡ (ok tt, refreshed.1)
refreshed_ok =
    handle_refresh-issue ⦃env = demo⦄ 0 100 "one" "two" old_user one_user old_user_there
      (omega arith) (omega arith)

-- Another login, while the used token waits.
abbrev logged_in_again : World ⦃env = demo⦄
logged_in_again = issue_auth_cookies ⦃env = demo⦄ 200 "three" ann refreshed.1

handle_refresh_once_example :
    handle_refresh ⦃env = demo⦄ 200 "four" (session "one") logged_in_again
    ≡ (err unauthorized, logged_in_again)
handle_refresh_once_example =
    handle_refresh_once ⦃env = demo⦄ 100 200 "two" "four" (session "one")
      (issue_auth_cookies ⦃env = demo⦄ 0 "one" ann one_user) refreshed.1 logged_in_again
      ("three" ∷ []) refreshed_ok two_one (step (login "three" ann refl) (wait (omega arith) start))
      (λ i. elim i [ inl p ↦ one_three p | inr i ↦ i ])

changes_refused_example :
    (change_password ⦃env = demo⦄ 0 8 "jti" 1 "secret" "better" one_user
      ≡ (err unauthorized, one_user))
    × (request_email_change ⦃env = demo⦄ 0 "123456" 1 "new@b.c" "secret" one_user
        ≡ (err unauthorized, one_user))
changes_refused_example =
    changes_refused ⦃env = demo⦄ 0 7 8 1 "jti" "123456" "secret" "better" "new@b.c" "secret"
      old_user one_user old_user_there refl

abbrev form : RegisterDto
form = record { name = "Bob"; email = "b@b.c"; password = "secret" }

nobody : find_by_email ⦃env = demo⦄ "b@b.c" one_user ≡ none
unfolding find_by_email in_memory
nobody = refl

quiet : demo.sessions.read one_user.sessions (otp_cooldown "b@b.c") 0 ≡ none
unfolding in_memory
quiet = refl

register-verify_otp-validate_user_example :
    (u : User) × (v x : World ⦃env = demo⦄) × (register ⦃env = demo⦄ 0 7 "123456" form one_user
      ≡ (ok if_eligible, v))
    × (v.mails ≡ ("b@b.c", "123456") ∷ [])
    × (verify_otp ⦃env = demo⦄ 1000 "b@b.c" "123456" v ≡ (ok u, x))
    × (u.name ≡ "Bob")
    × (u.email ≡ "b@b.c")
    × (validate_user ⦃env = demo⦄ "b@b.c" "guess" x
        ≡ (err unauthorized, record x { audit = x.audit ++ (login_failed u.id ∷ []) }))
register-verify_otp-validate_user_example =
    register-verify_otp-validate_user ⦃env = demo⦄ 0 1000 7 "123456" "guess" form one_user refl
      nobody quiet refl (omega arith) (omega arith)

abbrev profile : GoogleProfile
profile = record { email = "b@b.c"; name = "Bob"; google_id = "g-1" }

abbrev signed_in : Result Failure AuthUser × World ⦃env = demo⦄
signed_in = resolve_google_user ⦃env = demo⦄ profile one_user

signed_in_ok : signed_in ≡ (ok (auth_user (new_google_user profile 2)), signed_in.1)
unfolding resolve_google_user resolve_new create_google_user find_by_google_id find_by_email
    in_memory
signed_in_ok = refl

resolve_google_user-SignedIn_example :
    SignedIn ⦃env = demo⦄ profile one_user (auth_user (new_google_user profile 2)) signed_in.1
resolve_google_user-SignedIn_example =
    resolve_google_user-SignedIn ⦃env = demo⦄ profile one_user
      (auth_user (new_google_user profile 2)) signed_in.1 signed_in_ok
