-- ===== src/Gateway/Socket/Steps.antt =====
-- Each event of packages/gamebase-client/src/gateway-socket.ts keeps the connection sound, and so do
-- all of them.
use tslib.Common.{
  ℕ, ◌<◌, ◌≡◌, refl, ap, Bool, true, false, none, some, List, [], ◌∷◌, arith, if_cases,
  if◌then◌else◌,
}
use tslib.Gateway.CloseCodes.{reconnect}
use tslib.Gateway.Socket.{
  SocketState, SocketOptions, Env, GatewayClientState, idle, connecting, connected, reconnecting,
  closed, hello, frame, protocol_error, promised, refused, put, settle, close, is_some, is_socket,
  open_socket, opening_state, mark_ready,
}
use tslib.Gateway.Socket.Invariant.{
  IsCalm, IsSteady, IsSound, closed-IsSound, close-closes, close-IsSteady,
}
use tslib.Gateway.Socket.Soundness.{current, handle_close-IsSound, timer-IsSteady}
use tslib.Gateway.Socket.Events.{
  Message, malformed, typed, Event, connects, closes, sends, hello_expires, reconnect_expires,
  socket_opens, socket_sends, socket_closes, awaits_hello, handle_typed, handle_message,
  hello_timeout, reconnect_timeout, open_throws, opens, connect_in, send_to, step, run,
}
use tslib.Gateway.Socket.Opening.{
  ready-IsSound, emit-IsSound, opening_state-cases, opening-IsSound, open_socket-IsSound,
  local_close-IsSound, handle_open-IsSound, hello_timer-IsSound, live-timer,
}

module _ (options : SocketOptions) (env : Env) (calm : Bool)
    (silent : calm ≡ true → IsCalm env) where
  typed-IsSound :
      (is_hello : Bool) (id : ℕ) (s : SocketState)
      → IsSound calm options.max_handshake_failures s
      → s.socket ≡ some id
      → IsSound calm options.max_handshake_failures (handle_typed options env is_hello s)
  unfolding handle_typed
  typed-IsSound is_hello id s h e =
      if_cases (IsSound calm options.max_handshake_failures) (awaits_hello options env s)
        (λ w.
          if_cases (IsSound calm options.max_handshake_failures) is_hello
            (λ y.
              emit-IsSound options env calm silent hello
                (mark_ready options env (record s { hello_timer = false }))
                (ready-IsSound options env calm silent (record s { hello_timer = false })
                  (hello_timer-IsSound options env calm silent false s h) (ap is_some e)
                  (live-timer options env calm silent id s h e)))
            (λ n. emit-IsSound options env calm silent protocol_error s h))
        (λ w. emit-IsSound options env calm silent frame s h)

  handle_message-IsSound :
      (id : ℕ) (message : Message) (s : SocketState)
      → IsSound calm options.max_handshake_failures s
      → IsSound calm options.max_handshake_failures (handle_message options env id message s)
  unfolding handle_message
  handle_message-IsSound id malformed s h =
      if_cases (IsSound calm options.max_handshake_failures) (is_socket s.socket id)
        (λ e. emit-IsSound options env calm silent protocol_error s h) (λ e. h)
  handle_message-IsSound id (typed is_hello) s h =
      if_cases (IsSound calm options.max_handshake_failures) (is_socket s.socket id)
        (λ e. typed-IsSound is_hello id s h (current options env calm silent s.socket id e))
        (λ e. h)

  hello_timeout-IsSound :
      (s : SocketState)
      → IsSound calm options.max_handshake_failures s
      → IsSound calm options.max_handshake_failures (hello_timeout options env s)
  unfolding hello_timeout
  hello_timeout-IsSound s h =
      if_cases (IsSound calm options.max_handshake_failures) s.hello_timer
        (λ e.
          local_close-IsSound options env calm silent
            (record { kind = reconnect; reason = "hello timeout" })
            (record s { hello_timer = false })
            (hello_timer-IsSound options env calm silent false s h))
        (λ e. h)

  reconnecting-facts :
      (s : SocketState)
      → IsSound calm options.max_handshake_failures s
      → s.reconnect_timer ≡ true
      → s.closed_by_user ≡ false
      → (s.socket ≡ none) × (s.handshake_failures < options.max_handshake_failures)
  reconnecting-facts s h t c = ground arith

  reconnect_timeout-IsSound :
      (s : SocketState)
      → IsSound calm options.max_handshake_failures s
      → IsSound calm options.max_handshake_failures (reconnect_timeout options env s)
  unfolding reconnect_timeout
  reconnect_timeout-IsSound s h =
      if_cases (IsSound calm options.max_handshake_failures) s.reconnect_timer
        (λ t.
          open_socket-IsSound options env calm silent (record s { reconnect_timer = false })
            (timer-IsSteady options env calm silent false s h.steady)
            (λ c. let (n, f) = reconnecting-facts s h t c in (n, refl, f)))
        (λ t. h)

  promised-IsSteady :
      (s : SocketState)
      → IsSound calm options.max_handshake_failures s
      → s.state ≡ idle
      → IsSteady calm options.max_handshake_failures
          (record s { pending = true; state = opening_state s.state; trace = promised ∷ s.trace })
  promised-IsSteady s h e = ground (arith, h, opening_state-cases options env calm silent s.state)

  idle-facts :
      (s : SocketState)
      → IsSound calm options.max_handshake_failures s
      → s.state ≡ idle
      → (s.closed_by_user ≡ false)
        × ((s.socket ≡ none) × (s.reconnect_timer ≡ false))
        × (s.handshake_failures < options.max_handshake_failures)
  idle-facts s h e = ground (arith, h)

  refused-IsSound :
      (s : SocketState)
      → IsSound calm options.max_handshake_failures s
      → IsSound calm options.max_handshake_failures (put refused s)
  unfolding put
  refused-IsSound s h = ground arith

  -- The promise of `connect` that `open` broke off is rejected.
  caught-IsSound :
      (b : Bool) (s : SocketState)
      → IsSound calm options.max_handshake_failures s
      → IsSound calm options.max_handshake_failures (if b then settle false s else s)
  unfolding settle
  caught-IsSound true s h = ground arith
  caught-IsSound false s h = h

  connect_in-IsSound :
      (state : GatewayClientState) (s : SocketState)
      → s.state ≡ state
      → IsSound calm options.max_handshake_failures s
      → IsSound calm options.max_handshake_failures (connect_in options env state s)
  unfolding connect_in opens open_socket put
  connect_in-IsSound idle s e h =
      let (c, n, f) = idle-facts s h e in
      let s1 = put promised (record s { pending = true }) in
      caught-IsSound (open_throws options env s1) (open_socket options env s1) (
        if_cases (IsSound calm options.max_handshake_failures) s.closed_by_user
          (λ x. absurd (ground (arith, x, c)))
          (λ x.
            opening-IsSound options env calm silent
              (record s {
                pending = true;
                state = opening_state s.state;
                trace = promised ∷ s.trace;
              })
              (promised-IsSteady s h e) c n f
              (opening_state-cases options env calm silent s.state)))
  connect_in-IsSound connecting s e h = refused-IsSound s h
  connect_in-IsSound connected s e h = refused-IsSound s h
  connect_in-IsSound reconnecting s e h = refused-IsSound s h
  connect_in-IsSound closed s e h = refused-IsSound s h

  send-IsSound :
      (s : SocketState)
      → IsSound calm options.max_handshake_failures s
      → IsSound calm options.max_handshake_failures (send_to options env s.socket s)
  unfolding send_to put
  send-IsSound s h = ground arith

  pub step-IsSound :
      (e : Event) (s : SocketState)
      → IsSound calm options.max_handshake_failures s
      → IsSound calm options.max_handshake_failures (step options env e s)
  unfolding step
  step-IsSound connects s h = connect_in-IsSound s.state s refl h
  step-IsSound closes s h =
      closed-IsSound (close options env s) (close-closes options env s)
        (close-IsSteady options env calm silent s h.steady)
  step-IsSound sends s h = send-IsSound s h
  step-IsSound hello_expires s h = hello_timeout-IsSound s h
  step-IsSound reconnect_expires s h = reconnect_timeout-IsSound s h
  step-IsSound (socket_opens id is_bearer) s h =
      handle_open-IsSound options env calm silent id is_bearer s h
  step-IsSound (socket_sends id message) s h = handle_message-IsSound id message s h
  step-IsSound (socket_closes id code) s h =
      handle_close-IsSound options env calm silent id code s h

  pub run-IsSound :
      (es : List Event) (s : SocketState)
      → IsSound calm options.max_handshake_failures s
      → IsSound calm options.max_handshake_failures (run options env es s)
  unfolding run
  run-IsSound [] s h = h
  run-IsSound (e ∷ es) s h = run-IsSound es (step options env e s) (step-IsSound e s h)
