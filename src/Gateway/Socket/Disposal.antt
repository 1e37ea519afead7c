-- ===== src/Gateway/Socket/Disposal.antt =====
-- What happens to a connection of packages/gamebase-client/src/gateway-socket.ts after `close`.
use tslib.Common.{
  ℕ, suc, ◌<◌, ◌≡◌, ◌≢◌, refl, true, false, Option, none, some, List, [], ◌∷◌, arith, if_cases,
  if◌then◌else◌,
}
use tslib.Gateway.CloseCodes.{GatewayChannelKind, lobby, q}
use tslib.Gateway.Socket.{
  SocketState, SocketOptions, Env, GatewayClientState, idle, connecting, connected, reconnecting,
  closed, start, is_socket, close, close_with, close_socket, unless_fails, put, settle, emit,
  emit_then, opening, mark_ready, greeted, handle_open, handle_close, open_socket, local_close,
  Output, promised, refused, settled, created, opened, sent, closing, emitted,
}
use tslib.Gateway.Socket.Events.{
  Event, connects, closes, sends, hello_expires, reconnect_expires, socket_opens, socket_sends,
  socket_closes, malformed, typed, step, run, connect_in, send_to, handle_message, hello_timeout,
  reconnect_timeout,
}
use tslib.Gateway.Socket.Invariant.{IsSteady, start-IsSound, close-closes}
use tslib.Gateway.Socket.Steps.{run-IsSound}

-- The sockets made and the frames sent.
abbrev pub activity : List Output → ℕ
activity [] = 0
activity (created id ∷ t) = suc (activity t)
activity (sent id ∷ t) = suc (activity t)
activity (promised ∷ t) = activity t
activity (refused ∷ t) = activity t
activity (opened id ∷ t) = activity t
activity (settled b ∷ t) = activity t
activity (closing id code ∷ t) = activity t
activity (emitted e ∷ t) = activity t

-- A connection that its user closed.
pub record IsDisposed (n : ℕ) (s : SocketState) : Type 0 where
  pub by_user : s.closed_by_user ≡ true
  pub no_socket : s.socket ≡ none
  pub not_idle : s.state ≢ idle
  pub quiet : activity s.trace ≡ n

module _ (options : SocketOptions) (env : Env) where
  close-IsDisposed :
      {limit : ℕ} (s : SocketState)
      → IsSteady false limit s
      → IsDisposed (activity s.trace) (close options env s)
  unfolding close close_with unless_fails close_socket put settle
  close-IsDisposed s h = ground arith

module _ (options : SocketOptions) (env : Env) {n : ℕ} where
  -- What comes from a socket that is not the current one is dropped.
  dropped :
      (id : ℕ) (s t : SocketState)
      → IsDisposed n s
      → IsDisposed n (if is_socket s.socket id then t else s)
  dropped id s t h =
      if_cases (IsDisposed n) (is_socket s.socket id) (λ e. absurd (ground (arith, h.no_socket, e)))
        (λ e. h)

  close-again : (s : SocketState) → IsDisposed n s → IsDisposed n (close options env s)
  unfolding close
  close-again s h =
      if_cases (IsDisposed n) s.closed_by_user (λ e. h) (λ e. absurd (ground (arith, h.by_user, e)))

  refused-IsDisposed : (s : SocketState) → IsDisposed n s → IsDisposed n (put refused s)
  unfolding put
  refused-IsDisposed s h = ground arith

  connect_in-IsDisposed :
      (state : GatewayClientState) (s : SocketState)
      → s.state ≡ state
      → IsDisposed n s
      → IsDisposed n (connect_in options env state s)
  unfolding connect_in
  connect_in-IsDisposed idle s e h = absurd (h.not_idle e)
  connect_in-IsDisposed connecting s e h = refused-IsDisposed s h
  connect_in-IsDisposed connected s e h = refused-IsDisposed s h
  connect_in-IsDisposed reconnecting s e h = refused-IsDisposed s h
  connect_in-IsDisposed closed s e h = refused-IsDisposed s h

  send_to-IsDisposed :
      (socket : Option ℕ) (s : SocketState)
      → socket ≡ none
      → IsDisposed n s
      → IsDisposed n (send_to options env socket s)
  unfolding send_to
  send_to-IsDisposed none s e h = refused-IsDisposed s h
  send_to-IsDisposed (some id) s e h = absurd (ground (arith, e))

  hello_timeout-IsDisposed :
      (s : SocketState) → IsDisposed n s → IsDisposed n (hello_timeout options env s)
  unfolding hello_timeout local_close close_socket put
  hello_timeout-IsDisposed s h = ground arith

  reconnect_timeout-IsDisposed :
      (s : SocketState) → IsDisposed n s → IsDisposed n (reconnect_timeout options env s)
  unfolding reconnect_timeout open_socket
  reconnect_timeout-IsDisposed s h =
      if_cases (IsDisposed n) s.reconnect_timer
        (λ t.
          if_cases (IsDisposed n) s.closed_by_user (λ e. ground (arith, h))
            (λ e. absurd (ground (arith, h.by_user, e))))
        (λ t. h)

  step-IsDisposed :
      (e : Event) (s : SocketState) → IsDisposed n s → IsDisposed n (step options env e s)
  unfolding step handle_open handle_message handle_close
  step-IsDisposed connects s h = connect_in-IsDisposed s.state s refl h
  step-IsDisposed closes s h = close-again s h
  step-IsDisposed sends s h = send_to-IsDisposed s.socket s h.no_socket h
  step-IsDisposed hello_expires s h = hello_timeout-IsDisposed s h
  step-IsDisposed reconnect_expires s h = reconnect_timeout-IsDisposed s h
  step-IsDisposed (socket_opens id is_bearer) s h = dropped id s _ h
  step-IsDisposed (socket_sends id malformed) s h = dropped id s _ h
  step-IsDisposed (socket_sends id (typed is_hello)) s h = dropped id s _ h
  step-IsDisposed (socket_closes id code) s h = dropped id s _ h

  run-IsDisposed :
      (es : List Event) (s : SocketState) → IsDisposed n s → IsDisposed n (run options env es s)
  unfolding run
  run-IsDisposed [] s h = h
  run-IsDisposed (e ∷ es) s h = run-IsDisposed es (step options env e s) (step-IsDisposed e s h)

-- With at least one handshake failure allowed: once the user has closed a connection, in any
-- state that events lead to, no events afterwards make a socket or send a frame, and it stays
-- closed by its user, without a socket.
pub run-close :
    (options : SocketOptions) (env : Env) (before after : List Event)
    → 0 < options.max_handshake_failures
    → (activity (run options env after (close options env (run options env before start))).trace
        ≡ activity (run options env before start).trace)
      × ((run options env after (close options env (run options env before start))).closed_by_user
          ≡ true)
      × ((run options env after (close options env (run options env before start))).socket ≡ none)
run-close options env before after h =
    let s = run options env before start in
    let sound =
      run-IsSound options env false (λ e. absurd (ground (arith, e))) before start
        (start-IsSound false options.max_handshake_failures h) in
    let d =
      run-IsDisposed options env after (close options env s)
        (close-IsDisposed options env s sound.steady) in
    (d.quiet, d.by_user, d.no_socket)

-- A connection that is ready without a socket, though its user has closed it.
pub record IsGhost (s : SocketState) : Type 0 where
  pub state_is : s.state ≡ connected
  pub ready_is : s.ready ≡ true
  pub socket_is : s.socket ≡ none
  pub closed_is : s.closed_by_user ≡ true

module _ (options : SocketOptions) (env : Env) where
  greeted-IsGhost :
      (kind : GatewayChannelKind) (s : SocketState)
      → kind ≡ q
      → s.socket ≡ none
      → s.closed_by_user ≡ true
      → IsGhost (greeted options env kind s)
  unfolding greeted mark_ready settle
  greeted-IsGhost lobby s k e c = absurd (ground (arith, k))
  greeted-IsGhost q s k e c = ground (arith, e, c)

  close-socket : (s : SocketState) → s.closed_by_user ≡ false → (close options env s).socket ≡ none
  unfolding close close_with unless_fails close_socket put settle
  close-socket s h = ground (arith, h)

  opening-IsGhost :
      (s : SocketState)
      → options.kind ≡ q
      → env.reacts opening ≡ true
      → env.fails opening ≡ false
      → s.closed_by_user ≡ false
      → IsGhost (emit_then options env opening (greeted options env options.kind) s)
  unfolding emit_then unless_fails emit put
  opening-IsGhost s k r w c =
      if_cases IsGhost (env.fails opening) (λ e. absurd (ground (arith, e, w)))
        λ e.
          if_cases (λ x. IsGhost (greeted options env options.kind x)) (env.reacts opening)
            (λ e.
              greeted-IsGhost options.kind (close options env (put (emitted opening) s)) k
                (close-socket (put (emitted opening) s) c)
                (close-closes options env (put (emitted opening) s)))
            (λ e. absurd (ground (arith, e, r)))

-- A handler of `open` that closes the connection of a `q` channel and returns: whatever the
-- connection was,
-- when its socket opens the connection is left in state `connected`, ready, without a socket,
-- though its user has closed it.
pub handle_open-IsGhost :
    (options : SocketOptions) (env : Env) (id : ℕ) (s : SocketState)
    → options.kind ≡ q
    → env.reacts opening ≡ true
    → env.fails opening ≡ false
    → s.socket ≡ some id
    → s.closed_by_user ≡ false
    → IsGhost (handle_open options env id true s)
unfolding handle_open put
handle_open-IsGhost options env id s k r w e c =
    let s1 = put (opened id) (record s { opened_once = true; handshake_failures = 0 }) in
    if_cases IsGhost (is_socket s.socket id) (λ x. opening-IsGhost options env s1 k r w c)
      (λ x. absurd (ground (arith, x, e)))
