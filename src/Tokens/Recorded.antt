-- ===== src/Tokens/Recorded.antt =====
-- The set of a user's sessions is complete: a login and the rotation script of auth/token.service.ts keep
-- it so.
use Prim.Native.String.{String}
use native.Mathlib.Decide.{ℕ_discrete}
use movie_reservation_system.Base.{
  ℕ, ◌≤◌, none, ◌≡◌, ◌≢◌, ◌⊎◌, ap, ◌∙◌, sym, In, inl, inr, arith, subst,
}
use movie_reservation_system.Redis.Sessions.{refresh, AuthKey-discrete}
use movie_reservation_system.World.{Env}
use movie_reservation_system.Tokens.{RefreshUser, store_session, rotate_script}

module _ ⦃env : Env⦄ where
  open env.sessions use {read, members, set, del, incr, expire, sadd, srem, del_set}

  -- Every live session of the user stands in the user's set.
  abbrev pub Recorded : ℕ → ℕ → env.sessions.State → Type 0
  Recorded now u s =
      (j : String) (t : ℕ) → now ≤ t → (read s (refresh u j) t ≡ none) ⊎ In j (members s u)

  sadd_keeps :
      (u v : ℕ) (i j : String) (s : env.sessions.State)
      → In i (members s u)
      → In i (members (sadd v j s) u)
  sadd_keeps u v i j s m = elim (ℕ_discrete v u) [
    | yes p ↦ subst (λ x. In i (members (sadd x j s) u)) (sym p) (env.sessions.sadd_kept u i j s m)
    | no n ↦ subst (In i) (sym (env.sessions.sadd-others u v j s n)) m
  ]

  sadd_named :
      (u v : ℕ) (i j : String) (s : env.sessions.State)
      → i ≡ j
      → v ≡ u
      → In j (members (sadd v i s) u)
  sadd_named u v i j s p q =
      subst (λ x. In j (members (sadd v x s) u)) (sym p)
        (subst (λ x. In j (members (sadd x j s) u)) (sym q) (env.sessions.sadd_new u j s))

  srem_keeps :
      (u v : ℕ) (i j : String) (s : env.sessions.State)
      → j ≢ i
      → In i (members s u)
      → In i (members (srem v j s) u)
  srem_keeps u v i j s d m = elim (ℕ_discrete v u) [
    | yes p ↦
        subst (λ x. In i (members (srem x j s) u)) (sym p) (env.sessions.srem_kept u i j s d m)
    | no n ↦ subst (In i) (sym (env.sessions.srem-others u v j s n)) m
  ]

  pub store_session-Recorded :
      (now u v : ℕ) (i : String) (s : env.sessions.State)
      → Recorded now u s
      → Recorded now u (store_session now v i s)
  unfolding store_session
  store_session-Recorded now u v i s r j t h = elim (AuthKey-discrete (refresh v i) (refresh u j)) [
    | yes p ↦
        let same : (i ≡ j) × (v ≡ u) = ground (arith, p) in inr (sadd_named u v i j _ same.0 same.1)
    | no n ↦ elim (r j t h) [
      | inl gone ↦ inl (
          env.sessions.sadd-read v i (refresh u j) t _
          ∙ env.sessions.set-others (refresh v i) (refresh u j) _ _ now t s n
          ∙ gone)
      | inr m ↦ inr (
          sadd_keeps u v j i _
            (subst (In j) (sym (env.sessions.set-members (refresh v i) _ _ now u s)) m))
    ]
  ]

  -- The writes of the rotation script are those of a new session after the old one was taken out.
  pub rotate_script-Recorded :
      (now u : ℕ) (p : RefreshUser) (v : ℕ) (i : String) (s : env.sessions.State)
      → p.id ≡ v
      → Recorded now u s
      → Recorded now u (rotate_script now p v i s)
  unfolding rotate_script
  rotate_script-Recorded now u p v i s own r j t h =
      elim (AuthKey-discrete (refresh v i) (refresh u j)) [
        | yes q ↦
            let same : (i ≡ j) × (v ≡ u) = ground (arith, q) in
            inr (sadd_named u v i j _ same.0 same.1)
        | no n ↦
            let reads : read (rotate_script now p v i s) (refresh u j) t
                ≡ read (del (refresh p.id p.jti) now s) (refresh u j) t =
              env.sessions.sadd-read v i (refresh u j) t _
              ∙ env.sessions.srem-read v p.jti (refresh u j) t _
              ∙ env.sessions.set-others (refresh v i) (refresh u j) _ _ now t _ n in
            elim (AuthKey-discrete (refresh p.id p.jti) (refresh u j)) [
              | yes q ↦ inl (
                  reads
                  ∙ ap (λ k. read (del k now s) (refresh u j) t) q
                  ∙ env.sessions.del_lem (refresh u j) now t s h)
              | no q ↦ elim (r j t h) [
                | inl gone ↦ inl (
                    reads
                    ∙ env.sessions.del-others (refresh p.id p.jti) (refresh u j) now t s q
                    ∙ gone)
                | inr m ↦ elim (ℕ_discrete v u) [
                  | yes e ↦ inr (
                      sadd_keeps u v j i _ (
                        srem_keeps u v j p.jti _
                          (λ x. q (ap (λ y. refresh p.id y) x ∙ ap (λ y. refresh y j) (own ∙ e)))
                          (subst (In j)
                            (sym (
                              env.sessions.set-members (refresh v i) _ _ now u _
                              ∙ env.sessions.del-members (refresh p.id p.jti) now u s))
                            m)))
                  | no e ↦ inr (
                      sadd_keeps u v j i _ (
                        subst (In j)
                          (sym (
                            env.sessions.srem-others u v p.jti _ e
                            ∙ env.sessions.set-members (refresh v i) _ _ now u _
                            ∙ env.sessions.del-members (refresh p.id p.jti) now u s))
                          m))
                ]
              ]
            ]
      ]
