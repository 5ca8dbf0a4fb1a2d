-- ===== src/Gateway/Registry.antt =====
-- The registry `userSockets` of gateway/screening.gateway.ts, through connections, disconnections and
-- joins.
use Prim.Native.String.{String}
use movie_reservation_system.Base.{
  ℕ, Bool, true, false, not, ◌&&◌, ◌||◌, Option, none, some, List, [], ◌∷◌, ◌++◌, ◌≡◌, refl, ◌==◌,
  ap, ◌∙◌, sym, arith, Bool-cases, inl, inr,
}
use movie_reservation_system.Table.{Result, ok, err}
use movie_reservation_system.World.{Env, World, Failure}
use movie_reservation_system.Gateway.{
  Gateway, has, add, remove, or_empty, without, is_foreign, put_socket, register_socket,
  register_user, forget_socket, handle_connection, handle_disconnect, handle_join, emit_to_user,
  handshake_user, join_room, read_room, JoinResult, joined, refused,
}

has-append : (c x : ℕ) (xs : List ℕ) → has c (xs ++ (x ∷ [])) ≡ (has c xs || c == x)
has-append c x [] = ground arith
has-append c x (y ∷ ys) = ground (arith, has-append c x ys)

has-add : (c x : ℕ) (xs : List ℕ) → has c (add x xs) ≡ (c == x || has c xs)
has-add c x xs = elim (Bool-cases (has x xs)) [
  | inl a ↦ rw a (elim (Bool-cases (c == x)) [ inl e ↦ ground (arith, e, a) | inr e ↦ rw e refl ])
  | inr a ↦ rw a (ground (arith, has-append c x xs))
]

has-remove : (c x : ℕ) (xs : List ℕ) → has c (remove x xs) ≡ (not (x == c) && has c xs)
has-remove c x [] = ground arith
has-remove c x (y ∷ ys) = ground (arith, has-remove c x ys)

or_empty-without : (x : ℕ) (o : Option (List ℕ)) → or_empty (without x o) ≡ remove x (or_empty o)
or_empty-without x none = refl
or_empty-without x (some xs) = ground arith

-- The user of a socket is this one.
abbrev pub is_user : ℕ → Option ℕ → Bool
is_user u none = false
is_user u (some v) = v == u

-- A gateway, and the sockets that are open.
pub record System : Type 0 where
  pub gateway : Gateway
  pub open_sockets : ℕ → Bool

module _ ⦃env : Env⦄ where
  open env.secrets use {Token}

  pub data Step (s : System) : System → Type 0 where
    -- A new socket; one of a foreign origin is closed at once.
    connect :
        (now client : ℕ) (origin allowed : Option String) (token : Option Token)
        → s.gateway.user_of client ≡ none
        → s.open_sockets client ≡ false
        → Step s (record {
          gateway = handle_connection now origin allowed token client s.gateway;
          open_sockets = put_socket client (not (is_foreign origin allowed)) s.open_sockets;
        })
    disconnect :
        (client : ℕ)
        → Step s (record {
          gateway = handle_disconnect client s.gateway;
          open_sockets = put_socket client false s.open_sockets;
        })
    join :
        (now client screening_id : ℕ) (w : World)
        → Step s (record s { gateway = (handle_join now client screening_id w s.gateway).2 })

  pub data Reach : System → Type 0 where
    start :
        (g : Gateway)
        → ((u : ℕ) → g.user_sockets u ≡ none)
        → Reach (record { gateway = g; open_sockets = λ c. false })
    next : {s t : System} → Reach s → Step s t → Reach t

  -- The registry names exactly the open sockets of each user.
  abbrev Registered : System → Type 0
  Registered s =
      (u c : ℕ)
      → has c (or_empty (s.gateway.user_sockets u))
        ≡ (s.open_sockets c && is_user u (s.gateway.user_of c))

  connect-Registered :
      (s : System) (v : Option ℕ) (x : ℕ)
      → s.gateway.user_of x ≡ none
      → s.open_sockets x ≡ false
      → Registered s
      → Registered (record {
        gateway = register_user v x s.gateway;
        open_sockets = put_socket x true s.open_sockets;
      })
  unfolding register_socket
  connect-Registered s none x new closed r u c = ground (arith, r u c, new, closed)
  connect-Registered s (some v) x new closed r u c =
      ground (arith, r u c, new, closed, has-add c x (or_empty (s.gateway.user_sockets v)))

  forget-Registered :
      (s : System) (v : Option ℕ) (x : ℕ)
      → s.gateway.user_of x ≡ v
      → Registered s
      → Registered (record {
        gateway = forget_socket x v s.gateway;
        open_sockets = put_socket x false s.open_sockets;
      })
  forget-Registered s none x at r u c = ground (arith, r u c, at)
  forget-Registered s (some v) x at r u c =
      let gone =
        ap (has c) (or_empty-without x (s.gateway.user_sockets v))
        ∙ has-remove c x (or_empty (s.gateway.user_sockets v)) in
      ground (arith, r u c, at, gone)

  join_room-kept :
      (client screening_id : ℕ) (x : Result Failure JoinResult) (g : Gateway)
      → ((join_room client screening_id x g).user_sockets ≡ g.user_sockets)
        × ((join_room client screening_id x g).user_of ≡ g.user_of)
  join_room-kept client screening_id (ok (joined seats summary)) g = (refl, refl)
  join_room-kept client screening_id (ok refused) g = (refl, refl)
  join_room-kept client screening_id (err e) g = (refl, refl)

  handle_join-kept :
      (now client screening_id u : ℕ) (w : World) (g : Gateway)
      → ((handle_join now client screening_id w g).2.user_sockets u ≡ g.user_sockets u)
        × ((c : ℕ) → (handle_join now client screening_id w g).2.user_of c ≡ g.user_of c)
  unfolding handle_join
  handle_join-kept now client screening_id u w g =
      let kept = join_room-kept client screening_id (read_room now screening_id w).0 g in
      elim (Bool-cases (screening_id == 0)) [
        | inl a ↦ rw a (refl, λ c. refl)
        | inr a ↦ rw a (ap (λ f. f u) kept.0, λ c. ap (λ f. f c) kept.1)
      ]

  handle_connection-Registered :
      (s : System) (now x : ℕ) (origin allowed : Option String) (token : Option Token)
      → s.gateway.user_of x ≡ none
      → s.open_sockets x ≡ false
      → Registered s
      → Registered (record {
        gateway = handle_connection now origin allowed token x s.gateway;
        open_sockets = put_socket x (not (is_foreign origin allowed)) s.open_sockets;
      })
  unfolding handle_connection
  handle_connection-Registered s now x origin allowed token new closed r =
      elim (Bool-cases (is_foreign origin allowed)) [
        | inl a ↦ λ u c. ground (arith, a, r u c, closed)
        | inr a ↦ λ u c.
            ground (arith, a, connect-Registered s (handshake_user now token) x new closed r u c)
      ]

  handle_disconnect-Registered :
      (s : System) (x : ℕ)
      → Registered s
      → Registered (record {
        gateway = handle_disconnect x s.gateway;
        open_sockets = put_socket x false s.open_sockets;
      })
  unfolding handle_disconnect
  handle_disconnect-Registered s x r = forget-Registered s (s.gateway.user_of x) x refl r

  Step-Registered : {s t : System} → Step s t → Registered s → Registered t
  Step-Registered {s} (connect now x origin allowed token new closed) r =
      handle_connection-Registered s now x origin allowed token new closed r
  Step-Registered {s} (disconnect x) r = handle_disconnect-Registered s x r
  Step-Registered {s} (join now client screening_id w) r = λ u c.
      let same = handle_join-kept now client screening_id u w s.gateway in
      ap (λ o. has c (or_empty o)) same.0
      ∙ r u c
      ∙ ap (λ o. s.open_sockets c && is_user u o) (sym (same.1 c))

  Reach-Registered : {s : System} → Reach s → Registered s
  Reach-Registered (start g h) = λ u c. ap (λ o. has c (or_empty o)) (h u)
  Reach-Registered (next r step) = Step-Registered step (Reach-Registered r)

  -- In every state that connections, disconnections and joins lead to, from an empty registry on: a
  -- message for a user goes to a socket exactly if it is open and its handshake named the user.
  pub Reach-emit_to_user :
      (s : System) (u c : ℕ)
      → Reach s
      → has c (emit_to_user u s.gateway) ≡ (s.open_sockets c && is_user u (s.gateway.user_of c))
  unfolding emit_to_user
  Reach-emit_to_user s u c r = Reach-Registered r u c
