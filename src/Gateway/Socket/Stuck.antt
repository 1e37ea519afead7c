-- ===== src/Gateway/Socket/Stuck.antt =====
-- packages/gamebase-client/src/gateway-socket.ts, `scheduleReconnect`, when a handler of
-- `disconnected` throws.
use tslib.Common.{
  ℕ, ◌≡◌, refl, Bool, true, false, Option, none, some, List, [], ◌∷◌, arith, if_cases,
  if◌then◌else◌, All,
}
use tslib.Gateway.Socket.{
  SocketState, SocketOptions, Env, GatewayClientState, idle, connecting, connected, reconnecting,
  closed, disconnected, refused, put, emit, emit_then, unless_fails, is_socket, schedule,
  handle_open, handle_close,
}
use tslib.Gateway.Socket.Events.{
  Event, connects, closes, sends, hello_expires, reconnect_expires, socket_opens, socket_sends,
  socket_closes, malformed, typed, step, run, connect_in, send_to, handle_message, hello_timeout,
  reconnect_timeout,
}

-- A connection that is to reconnect, and has neither a socket nor a timer that would make one.
pub record IsStuck (s : SocketState) : Type 0 where
  pub state_is : s.state ≡ reconnecting
  pub open_still : s.closed_by_user ≡ false
  pub no_socket : s.socket ≡ none
  pub no_timer : s.reconnect_timer ≡ false
  pub no_hello : s.hello_timer ≡ false

-- Everything that may happen but `close`.
abbrev pub is_close : Event → Bool
is_close closes = true
is_close e = false

module _ (options : SocketOptions) (env : Env) where
  schedule-IsStuck :
      (code attempts delay : ℕ) (s : SocketState)
      → env.reacts (disconnected code true) ≡ false
      → env.fails (disconnected code true) ≡ true
      → s.closed_by_user ≡ false
      → s.socket ≡ none
      → s.reconnect_timer ≡ false
      → s.hello_timer ≡ false
      → IsStuck (schedule options env code (some delay, attempts) s)
  unfolding schedule emit_then unless_fails emit put
  schedule-IsStuck code attempts delay s r f c n t h =
      rw (r, f)
        (record { state_is = refl; open_still = c; no_socket = n; no_timer = t; no_hello = h })

  -- What comes from a socket is dropped.
  dropped :
      (id : ℕ) (s t : SocketState) → IsStuck s → IsStuck (if is_socket s.socket id then t else s)
  dropped id s t h =
      if_cases IsStuck (is_socket s.socket id) (λ e. absurd (ground (arith, h.no_socket, e)))
        (λ e. h)

  refused-IsStuck : (s : SocketState) → IsStuck s → IsStuck (put refused s)
  unfolding put
  refused-IsStuck s h = ground arith

  connect_in-IsStuck :
      (state : GatewayClientState) (s : SocketState)
      → s.state ≡ state
      → IsStuck s
      → IsStuck (connect_in options env state s)
  unfolding connect_in
  connect_in-IsStuck idle s e h = absurd (ground (arith, e, h.state_is))
  connect_in-IsStuck connecting s e h = refused-IsStuck s h
  connect_in-IsStuck connected s e h = refused-IsStuck s h
  connect_in-IsStuck reconnecting s e h = refused-IsStuck s h
  connect_in-IsStuck closed s e h = refused-IsStuck s h

  send_to-IsStuck :
      (socket : Option ℕ) (s : SocketState)
      → socket ≡ none
      → IsStuck s
      → IsStuck (send_to options env socket s)
  unfolding send_to
  send_to-IsStuck none s e h = refused-IsStuck s h
  send_to-IsStuck (some id) s e h = absurd (ground (arith, e))

  timers-IsStuck :
      (s : SocketState)
      → IsStuck s
      → IsStuck (hello_timeout options env s) × IsStuck (reconnect_timeout options env s)
  unfolding hello_timeout reconnect_timeout
  timers-IsStuck s h = (
    if_cases IsStuck s.hello_timer (λ e. absurd (ground (arith, h.no_hello, e))) (λ e. h),
    if_cases IsStuck s.reconnect_timer (λ e. absurd (ground (arith, h.no_timer, e))) (λ e. h),
  )

  step-IsStuck :
      (e : Event) (s : SocketState)
      → is_close e ≡ false
      → IsStuck s
      → IsStuck (step options env e s)
  unfolding step handle_open handle_message handle_close
  step-IsStuck connects s n h = connect_in-IsStuck s.state s refl h
  step-IsStuck closes s n h = absurd (ground (arith, n))
  step-IsStuck sends s n h = send_to-IsStuck s.socket s h.no_socket h
  step-IsStuck hello_expires s n h = (timers-IsStuck s h).0
  step-IsStuck reconnect_expires s n h = (timers-IsStuck s h).1
  step-IsStuck (socket_opens id is_bearer) s n h = dropped id s _ h
  step-IsStuck (socket_sends id malformed) s n h = dropped id s _ h
  step-IsStuck (socket_sends id (typed is_hello)) s n h = dropped id s _ h
  step-IsStuck (socket_closes id code) s n h = dropped id s _ h

  stays :
      (es : List Event) (s : SocketState)
      → IsStuck s
      → All (λ e. is_close e ≡ false) es
      → IsStuck (run options env es s)
  unfolding run
  stays [] s h others = h
  stays (e ∷ es) s h others = stays es (step options env e s) (step-IsStuck e s others.0 h) others.1

  -- Where a handler of `disconnected` throws, and does not close the connection, as it is told of
  -- a close with a reconnect to follow: whatever happens afterwards but `close`, the connection
  -- stays reconnecting, without a socket and without a timer that would make one.
  pub run-IsStuck :
      (code attempts delay : ℕ) (s : SocketState) (es : List Event)
      → env.reacts (disconnected code true) ≡ false
      → env.fails (disconnected code true) ≡ true
      → s.closed_by_user ≡ false
      → s.socket ≡ none
      → s.reconnect_timer ≡ false
      → s.hello_timer ≡ false
      → All (λ e. is_close e ≡ false) es
      → IsStuck (run options env es (schedule options env code (some delay, attempts) s))
  run-IsStuck code attempts delay s es r f c n t h others =
      stays es (schedule options env code (some delay, attempts) s)
        (schedule-IsStuck code attempts delay s r f c n t h) others
