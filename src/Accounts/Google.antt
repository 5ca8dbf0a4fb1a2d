-- ===== src/Accounts/Google.antt =====
-- Signing in with Google: `resolveGoogleUser` and `linkGoogle` of auth/auth.service.ts.
use Prim.Native.String.{String}
use text.Mathlib.TextEquality.{eq_iff}
use movie_reservation_system.Base.{
  ℕ, true, ==_refl, none, some, ◌≡◌, ◌⊎◌, refl, ap, ◌∙◌, arith, Option-cases, inl, inr,
}
use movie_reservation_system.Table.{ok, put, Result-cases}
use movie_reservation_system.Schema.{User}
use movie_reservation_system.Secrets.{AuthUser}
use movie_reservation_system.World.{Env, World}
use movie_reservation_system.Accounts.{
  GoogleProfile, new_google_user, auth_user, has_google_id, find_by_email, find_by_google_id,
  create_google_user, resolve_new, resolve_google_user,
}

has_google_id-some :
    (google_id : String) (u : User)
    → has_google_id google_id u ≡ true
    → u.google_id ≡ some google_id
has_google_id-some google_id u h = elim (Option-cases u.google_id) [
  | inl a ↦ absurd (ground (arith, a, h))
  | inr (x, a) ↦ a ∙ ap some ((eq_iff x google_id).0 (ground (arith, a, h)))
]

module _ ⦃env : Env⦄ where
  -- Whom a sign-in has let in as `a`: the owner of the Google id, who was there, or a new user, whose
  -- address nobody had.
  pub record SignedIn (p : GoogleProfile) (w : World) (a : AuthUser) (w' : World) : Type 0 where
    pub user : User
    pub row : env.user.get w'.users user.id ≡ some user
    pub owner : user.google_id ≡ some p.google_id
    pub named : a ≡ auth_user user
    pub known :
        (w'.users ≡ w.users)
        ⊎ ((find_by_email p.email w ≡ none)
            × (user ≡ new_google_user p user.id)
            × (env.user.get w.users user.id ≡ none)
            × ((j : ℕ)
                → env.user.get w'.users j ≡ put user.id (some user) (env.user.get w.users) j))

  resolve_new-SignedIn :
      (p : GoogleProfile) (w : World) (a : AuthUser) (w' : World)
      → resolve_new p w ≡ (ok a, w')
      → SignedIn p w a w'
  unfolding resolve_new create_google_user
  resolve_new-SignedIn p w a w' h = elim (Option-cases (find_by_email p.email w)) [
    | inr (u, b) ↦ absurd (ground (arith, b, h))
    | inl b ↦ elim (Result-cases (env.user.create (new_google_user p) (λ k. refl) w.users)) [
      | inr (e, c) ↦ absurd (ground (arith, b, c, h))
      | inl ((r, s), c) ↦
          let (shape, fresh, stored) =
            env.user.create-ok (new_google_user p) (λ k. refl) w.users r s c in
          let table : w'.users ≡ s = ground (arith, b, c, h) in
          let written : (j : ℕ)
              → env.user.get w'.users j ≡ put r.id (some r) (env.user.get w.users) j =
            λ j. ap (λ x. env.user.get x j) table ∙ stored j in
          record {
            user = r;
            row = written r.id ∙ rw (==_refl r.id) refl;
            owner = ap (λ x. x.google_id) shape;
            named = ground (arith, b, c, h);
            known = inr (b, shape, fresh, written);
          }
    ]
  ]

  -- Whoever signs in with Google becomes the user who has this Google id, and nobody else: either the
  -- user had it before and no account has changed, or nobody had the address and a new account has
  -- been made. An account is never given to a Google user for its e-mail address.
  pub resolve_google_user-SignedIn :
      (p : GoogleProfile) (w : World) (a : AuthUser) (w' : World)
      → resolve_google_user p w ≡ (ok a, w')
      → SignedIn p w a w'
  unfolding resolve_google_user find_by_google_id
  resolve_google_user-SignedIn p w a w' h =
      elim (Option-cases (env.user.find_first (has_google_id p.google_id) w.users)) [
        | inl b ↦ resolve_new-SignedIn p w a w' (ground (arith, b, h))
        | inr (u, b) ↦
            let (there, fits) = env.user.find_first-some (has_google_id p.google_id) w.users u b in
            let same : w'.users ≡ w.users = ground (arith, b, h) in
            record {
              user = u;
              row = ap (λ x. env.user.get x u.id) same ∙ there;
              owner = has_google_id-some p.google_id u fits;
              named = ground (arith, b, h);
              known = inl same;
            }
      ]
