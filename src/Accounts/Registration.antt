-- ===== src/Accounts/Registration.antt =====
-- From the registration to the first login: `register`, `verifyOtp` and `validateUser` of
-- auth/auth.service.ts with the one-time passwords of auth/otp.service.ts.
use Prim.Native.String.{String}
use text.Mathlib.Text.{◌==◌ as str_eq}
use text.Mathlib.TextEquality.{eq_iff}
use native.Mathlib.Decide.{ℕ_discrete}
use movie_reservation_system.Base.{
  ℕ, ◌+◌, ◌*◌, ◌≤◌, ◌<◌, true, false, ==_refl, ==_ne, none, some, ◌≡◌, ◌≢◌, refl, ap, ◌∙◌, sym,
  if◌then◌else◌, arith, lt→ltb, Bool-cases, Option-cases, inl, inr, ◌∷◌, [], ◌++◌,
}
use movie_reservation_system.Table.{ok, err}
use movie_reservation_system.Redis.Sessions.{otp, otp_attempts, otp_cooldown, word}
use movie_reservation_system.Schema.{User, user_clash}
use movie_reservation_system.World.{Env, World, unauthorized, user_registered, login_failed}
use movie_reservation_system.Otp.{store_code}
use movie_reservation_system.Otp.Rounds.{
  store_code-otp, store_code-attempts, verify_fits, used_up, issue_lem,
}
use movie_reservation_system.Accounts.{
  RegisterDto, new_user, verified, auth_user, has_email, find_by_email, create_user,
  mark_email_verified, register, register_new, verify_otp, validate_user, check_password,
  send_otp_email, if_eligible,
}

str_eq_sym : (a b : String) → str_eq a b ≡ false → str_eq b a ≡ false
str_eq_sym a b h = elim (Bool-cases (str_eq b a)) [
  | inr n ↦ n
  | inl e ↦ absurd (ground (arith, h, (eq_iff a b).1 (sym ((eq_iff b a).0 e))))
]

module _ ⦃env : Env⦄ where
  open env.secrets use {argon2_hash}
  open env.auth_env use {otp_ttl_seconds}
  open env.sessions use {read}

  -- The row is there, and no other has its address.
  record Owns (email : String) (r : User) (s : env.user.State) : Type 0 where
    row : env.user.get s r.id ≡ some r
    mail : r.email ≡ email
    others : (j : ℕ) (x : User) → r.id ≢ j → env.user.get s j ≡ some x → has_email email x ≡ false

  Owns-find_by_email :
      (email : String) (r : User) (w : World)
      → Owns email r w.users
      → find_by_email email w ≡ some r
  unfolding find_by_email
  Owns-find_by_email email r w o =
      elim (Option-cases (env.user.find_first (has_email email) w.users)) [
        | inl a ↦ absurd (
            ground (
              arith,
              env.user.find_first-none (has_email email) w.users r.id r a o.row,
              (eq_iff r.email email).1 o.mail,
            ))
        | inr (x, a) ↦
            let (there, fits) = env.user.find_first-some (has_email email) w.users x a in
            elim (ℕ_discrete r.id x.id) [
              | yes p ↦
                  let same : some x ≡ some r =
                    sym there ∙ ap (env.user.get w.users) (sym p) ∙ o.row in
                  a ∙ same
              | no n ↦ absurd (ground (arith, fits, o.others x.id x n there))
            ]
      ]

  -- A new row whose address nobody had.
  create_user-Owns :
      (dto : RegisterDto) (hash : String) (w : World)
      → env.user.up w.users ≡ true
      → find_by_email dto.email w ≡ none
      → (r : User) × (s : env.user.State) × (create_user dto hash w
          ≡ (ok r, record w { users = s }))
        × (r ≡ new_user dto hash r.id)
        × Owns dto.email r s
        × (env.user.up s ≡ true)
  unfolding create_user find_by_email
  create_user-Owns dto hash w up free =
      let absent : (k : ℕ) (x : User)
          → env.user.get w.users k ≡ some x
          → has_email dto.email x ≡ false =
        λ k x h. env.user.find_first-none (has_email dto.email) w.users k x free h in
      let (r, s, made, up') =
        env.user.create-up (new_user dto hash) (λ k. refl) w.users up
          (λ n k x h. rw (str_eq_sym x.email dto.email (absent k x h)) refl) in
      let (shape, new, stored) =
        env.user.create-ok (new_user dto hash) (λ k. refl) w.users r s made in
      (
        r,
        s,
        ground (arith, made),
        shape,
        record {
          row = stored r.id ∙ rw (==_refl r.id) refl;
          mail = ap (λ x. x.email) shape;
          others = λ j x n h. absent j x (sym (stored j ∙ rw (==_ne r.id j n) refl) ∙ h);
        },
        up',
      )

  mark_email_verified-Owns :
      (email : String) (r : User) (w : World)
      → env.user.up w.users ≡ true
      → r.google_id ≡ none
      → Owns email r w.users
      → (s : env.user.State) × (mark_email_verified r.id w
          ≡ (ok (verified r), record w { users = s }))
        × Owns email (verified r) s
  unfolding mark_email_verified
  mark_email_verified-Owns email r w up no_google o =
      let apart : (j : ℕ) (x : User)
          → r.id ≢ j
          → env.user.get w.users j ≡ some x
          → user_clash (verified r) x ≡ false =
        λ j x n h.
          rw o.mail (rw (str_eq_sym x.email email (o.others j x n h)) (rw no_google refl)) in
      let (x, s, made, _) = env.user.update-up r.id verified (λ y. refl) w.users r up o.row apart in
      let (old, was, new, stored) = env.user.update-ok r.id verified (λ y. refl) w.users x s made in
      let same : x ≡ verified r = ground (arith, was, new, o.row) in
      (
        s,
        ground (arith, made, same),
        record {
          row = stored r.id ∙ rw (==_refl r.id) (ap some same);
          mail = o.mail;
          others = λ j y n h. o.others j y n (sym (stored j ∙ rw (==_ne r.id j n) refl) ∙ h);
        },
      )

  -- The world after a registration that wrote `s`.
  abbrev registered_world : ℕ → String → User → env.user.State → World → World
  registered_world now code r s w = record w {
    users = s;
    sessions = store_code now code r.email w.sessions;
    mails = w.mails ++ ((r.email, code) ∷ []);
    audit = w.audit ++ (user_registered r.id ∷ []);
  }

  register_lem :
      (now salt : ℕ) (code : String) (dto : RegisterDto) (w : World) (r : User) (s : env.user.State)
      → find_by_email dto.email w ≡ none
      → create_user dto (argon2_hash dto.password salt) w ≡ (ok r, record w { users = s })
      → read w.sessions (otp_cooldown r.email) now ≡ none
      → env.mailer.accepts r.email code ≡ true
      → register now salt code dto w ≡ (ok if_eligible, registered_world now code r s w)
  unfolding register register_new send_otp_email
  register_lem now salt code dto w r s free made quiet taken =
      let issued = issue_lem now code r.email (record w { users = s }) quiet in
      ground (arith, free, made, issued, taken)

  verify_otp_lem :
      (now : ℕ) (code email : String) (r : User) (w : World)
      → env.user.up w.users ≡ true
      → r.google_id ≡ none
      → r.email_verified ≡ false
      → Owns email r w.users
      → read w.sessions (otp email) now ≡ some (word code)
      → read w.sessions (otp_attempts email) now ≡ none
      → (v : World) × (verify_otp now email code w ≡ (ok (verified r), v))
        × Owns email (verified r) v.users
  unfolding verify_otp
  verify_otp_lem now code email r w up no_google new o there first =
      let fits = verify_fits now email code w there first in
      let (s, marked, o') = mark_email_verified-Owns email r (used_up now email w) up no_google o in
      (
        record (used_up now email w) { users = s },
        ground (arith, Owns-find_by_email email r w o, new, fits, marked),
        o',
      )

  validate_user_lem :
      (salt : ℕ) (email password typed : String) (u : User) (w : World)
      → Owns email u w.users
      → u.password ≡ some (argon2_hash password salt)
      → u.email_verified ≡ true
      → validate_user email typed w ≡ (
          if str_eq password typed
          then (ok (auth_user u), w)
          else (err unauthorized, record w { audit = w.audit ++ (login_failed u.id ∷ []) }))
  unfolding validate_user check_password
  validate_user_lem salt email password typed u w o hash done =
      let found = Owns-find_by_email email u w o in
      let verdict = env.secrets.argon2_lem password typed salt in
      elim (Bool-cases (str_eq password typed)) [
        | inl a ↦ ground (arith, found, hash, verdict, a, done)
        | inr a ↦ ground (arith, found, hash, verdict, a, done)
      ]

  -- A new user can register, confirm the address and log in: if nobody has the address, no code was
  -- sent to it lately, and the database and the mail service answer, then `register` mails the code;
  -- whoever sends that code back within its lifetime has the account verified, which bears the
  -- registered name and address; and then exactly the registered password logs in, as this user. Any
  -- other gets 401 and leaves a line in the audit log.
  pub register-verify_otp-validate_user :
      (now t salt : ℕ) (code typed : String) (dto : RegisterDto) (w : World)
      → env.user.up w.users ≡ true
      → find_by_email dto.email w ≡ none
      → read w.sessions (otp_cooldown dto.email) now ≡ none
      → env.mailer.accepts dto.email code ≡ true
      → now ≤ t
      → t < now + otp_ttl_seconds * 1000
      → (u : User) × (v x : World) × (register now salt code dto w ≡ (ok if_eligible, v))
        × (v.mails ≡ w.mails ++ ((dto.email, code) ∷ []))
        × (verify_otp t dto.email code v ≡ (ok u, x))
        × (u.name ≡ dto.name)
        × (u.email ≡ dto.email)
        × (validate_user dto.email typed x ≡ (
            if str_eq dto.password typed
            then (ok (auth_user u), x)
            else (err unauthorized, record x { audit = x.audit ++ (login_failed u.id ∷ []) })))
  register-verify_otp-validate_user now t salt code typed dto w up free quiet taken from until =
      let (r, s, made, shape, o, up') =
        create_user-Owns dto (argon2_hash dto.password salt) w up free in
      let quiet' = ap (λ e. read w.sessions (otp_cooldown e) now) o.mail ∙ quiet in
      let taken' = ap (λ e. env.mailer.accepts e code) o.mail ∙ taken in
      let there : read (store_code now code r.email w.sessions) (otp dto.email) t
          ≡ some (word code) =
        ap (λ e. read (store_code now code e w.sessions) (otp dto.email) t) o.mail
        ∙ store_code-otp now t code dto.email w.sessions from
        ∙ ap (λ b. if b then some (word code) else none) (lt→ltb t _ until) in
      let first : read (store_code now code r.email w.sessions) (otp_attempts dto.email) t ≡ none =
        ap (λ e. read (store_code now code e w.sessions) (otp_attempts dto.email) t) o.mail
        ∙ store_code-attempts now t code dto.email w.sessions from in
      let v = registered_world now code r s w in
      let (x, checked, o') =
        verify_otp_lem t code dto.email r v up' (ap (λ y. y.google_id) shape)
          (ap (λ y. y.email_verified) shape) o there first in
      (
        verified r,
        v,
        x,
        register_lem now salt code dto w r s free made quiet' taken',
        ap (λ e. w.mails ++ ((e, code) ∷ [])) o.mail,
        checked,
        ap (λ y. y.name) shape,
        o.mail,
        validate_user_lem salt dto.email dto.password typed (verified r) x o'
            (ap (λ y. y.password) shape) refl,
      )
