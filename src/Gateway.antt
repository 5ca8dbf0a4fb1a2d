-- ===== src/Gateway.antt =====
-- The WebSocket gateway: backend/src/gateway/screening.gateway.ts. A socket is a number, and
-- `client.data.userId` a field of the gateway under it. The regular expression that takes the cookie
-- `access_token` out of the header is not modelled: its result is an argument. The gauge of the
-- connections is kept as the numbers of its increments and decrements.
pub mod Registry
pub mod Broadcast
use Prim.Native.String.{String}
use text.Mathlib.Text.{◌==◌ as str_eq}
use movie_reservation_system.Base.{
  ℕ, suc, Bool, true, false, not, Option, none, some, List, [], ◌∷◌, ◌++◌, ◌≡◌, ◌==◌, if◌then◌else◌,
  keep,
}
use movie_reservation_system.Table.{Result, ok, err}
use movie_reservation_system.Secrets.{Claims, access, access_secret}
use movie_reservation_system.World.{
  Env, World, Action, Failure, SeatMapEntry, not_found, pure, throw, ◌>>=◌, catch,
}
use movie_reservation_system.Screenings.SeatMap.{
  ScreeningSummary, get_seat_map, get_screening_summary,
}

pub record Gateway : Type 0 where
  -- `userSockets`, a `Map` from users to sets of sockets
  pub user_sockets : ℕ → Option (List ℕ)
  -- `client.data.userId`
  pub user_of : ℕ → Option ℕ
  -- the sockets that joined the room of a screening
  pub rooms : ℕ → List ℕ
  pub connections_up : ℕ
  pub connections_down : ℕ
  pub joins : ℕ

-- `Set.add` and `Set.delete`
abbrev pub has : ℕ → List ℕ → Bool
has x [] = false
has x (y ∷ ys) = if x == y then true else has x ys

abbrev pub add : ℕ → List ℕ → List ℕ
add x xs = if has x xs then xs else xs ++ (x ∷ [])

abbrev pub remove : ℕ → List ℕ → List ℕ
remove x = keep (λ y. not (x == y))

-- `this.userSockets.get(…) ?? new Set()`
abbrev pub or_empty : Option (List ℕ) → List ℕ
or_empty none = []
or_empty (some xs) = xs

-- `origin && allowedOrigin && origin !== allowedOrigin`
abbrev pub is_foreign : Option String → Option String → Bool
is_foreign (some origin) (some allowed) =
    if str_eq origin ""
    then false
    else if str_eq allowed ""
    then false
    else not (str_eq origin allowed)
is_foreign _ _ = false

abbrev pub put_socket : {A : Type 0} → ℕ → A → (ℕ → A) → ℕ → A
put_socket k x f j = if k == j then x else f j

-- The registration of a socket under its user.
unfoldable pub register_socket : ℕ → ℕ → Gateway → Gateway
register_socket user_id client g = record g {
  user_of = put_socket client (some user_id) g.user_of;
  user_sockets =
      put_socket user_id (some (add client (or_empty (g.user_sockets user_id)))) g.user_sockets;
}

-- A socket without a user stays anonymous.
abbrev pub register_user : Option ℕ → ℕ → Gateway → Gateway
register_user none client g = g
register_user (some user_id) client g = register_socket user_id client g

-- The entry of a user after one of the user's sockets is gone: `none` if it was the last.
abbrev pub without : ℕ → Option (List ℕ) → Option (List ℕ)
without client none = none
without client (some xs) = elim (remove client xs) [ [] ↦ none | y ∷ ys ↦ some (y ∷ ys) ]

abbrev pub forget_socket : ℕ → Option ℕ → Gateway → Gateway
forget_socket client none g = g
forget_socket client (some user_id) g = record g {
  user_sockets = put_socket user_id (without client (g.user_sockets user_id)) g.user_sockets;
}

-- `handleDisconnect`
unfoldable pub handle_disconnect : ℕ → Gateway → Gateway
handle_disconnect client g =
    let g' = forget_socket client (g.user_of client) g in
    record g' { connections_down = suc g'.connections_down }

-- `emitToRoom` and `emitToUser`: the sockets that a message goes to; Socket.io skips those of a room
-- that have closed.
unfoldable pub emit_to_room : ℕ → Gateway → List ℕ
emit_to_room screening_id g = g.rooms screening_id

unfoldable pub emit_to_user : ℕ → Gateway → List ℕ
emit_to_user user_id g = or_empty (g.user_sockets user_id)

-- The `sub` of an access token.
abbrev pub access_user : Option Claims → Option ℕ
access_user (some (access payload)) = some payload.sub
access_user _ = none

-- `{ ok: true, … }` or `{ ok: false, … }`
pub data JoinResult : Type 0 where
  joined : List SeatMapEntry → ScreeningSummary → JoinResult
  refused : JoinResult

-- `err instanceof NotFoundException`
abbrev pub is_not_found : Failure → Bool
is_not_found not_found = true
is_not_found _ = false

module _ ⦃env : Env⦄ where
  open env.secrets use {Token, jwt_verify}

  -- The user of the handshake: a token that is invalid or expired counts as none.
  abbrev pub handshake_user : ℕ → Option Token → Option ℕ
  handshake_user now none = none
  handshake_user now (some token) = access_user (jwt_verify access_secret now token)

  -- `handleConnection`
  unfoldable pub handle_connection :
      ℕ → Option String → Option String → Option Token → ℕ → Gateway → Gateway
  unfolding register_socket
  handle_connection now origin allowed token client g =
      if is_foreign origin allowed
      then g
      else (let g' = register_user (handshake_user now token) client g in
          record g' { connections_up = suc g'.connections_up })

  -- The reads of `handleJoin`; both go through the cache of the seat map.
  unfoldable pub read_room : ℕ → ℕ → Action JoinResult
  read_room now screening_id =
      catch
        (do
          seats ← get_seat_map now screening_id
          summary ← get_screening_summary now screening_id
          pure (joined seats summary))
        (λ e. if is_not_found e then pure refused else throw e)

  -- The socket joins the room once both reads are done.
  abbrev pub join_room : ℕ → ℕ → Result Failure JoinResult → Gateway → Gateway
  join_room client screening_id (ok (joined seats summary)) g = record g {
    rooms = put_socket screening_id (add client (g.rooms screening_id)) g.rooms;
    joins = suc g.joins;
  }
  join_room client screening_id _ g = g

  -- `handleJoin`; an id that is no positive integer is 0 here.
  unfoldable pub handle_join :
      ℕ → ℕ → ℕ → World → Gateway → Result Failure JoinResult × World × Gateway
  unfolding read_room
  handle_join now client screening_id w g =
      if screening_id == 0
      then (ok refused, w, g)
      else (let r = read_room now screening_id w in (r.0, r.1, join_room client screening_id r.0 g))
