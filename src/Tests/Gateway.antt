-- ===== src/Tests/Gateway.antt =====
-- Examples of the gateway.
use movie_reservation_system.Base.{◌≡◌, refl, none, some, [], true, false, ◌&&◌}
use movie_reservation_system.Schema.{user}
use movie_reservation_system.Secrets.{access, access_secret}
use movie_reservation_system.World.Memory.{demo, in_memory}
use movie_reservation_system.Gateway.{
  Gateway, has, handle_connection, handle_disconnect, emit_to_user, put_socket,
}
use movie_reservation_system.Gateway.Registry.{
  System, Reach, start, next, connect, disconnect, Reach-emit_to_user, is_user,
}

abbrev quiet_gateway : Gateway
quiet_gateway = record {
  user_sockets = λ u. none;
  user_of = λ c. none;
  rooms = λ id. [];
  connections_up = 0;
  connections_down = 0;
  joins = 0;
}

-- The access token of user 1, signed now.
abbrev token_1 : demo.secrets.Token
token_1 =
    demo.secrets.jwt_sign access_secret
      (access (record { sub = 1; name = "Ann"; email = "a@b.c"; role = user; ver = 0 })) 900 0

-- User 1 opens socket 8, and somebody opens and closes socket 9.
abbrev connected : System
connected = record {
  gateway = handle_disconnect 9 (
      handle_connection ⦃env = demo⦄ 0 none none none 9
        (handle_connection ⦃env = demo⦄ 0 none none (some token_1) 8 quiet_gateway));
  open_sockets = put_socket 9 false (put_socket 9 true (put_socket 8 true (λ c. false)));
}

connected-Reach : Reach ⦃env = demo⦄ connected
unfolding handle_connection in_memory
connected-Reach =
    next
      (next
        (next (start quiet_gateway (λ u. refl)) (connect 0 8 none none (some token_1) refl refl))
        (connect 0 9 none none none refl refl))
      (disconnect 9)

Reach-emit_to_user_example :
    has 8 (emit_to_user 1 connected.gateway)
    ≡ (connected.open_sockets 8 && is_user 1 (connected.gateway.user_of 8))
Reach-emit_to_user_example = Reach-emit_to_user ⦃env = demo⦄ connected 1 8 connected-Reach

-- The message reaches socket 8.
reaches_8 : has 8 (emit_to_user 1 connected.gateway) ≡ true
unfolding emit_to_user handle_connection handle_disconnect in_memory
reaches_8 = refl
