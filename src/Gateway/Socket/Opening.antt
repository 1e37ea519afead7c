-- ===== src/Gateway/Socket/Opening.antt =====
-- Opening a socket and its `open` event, of packages/gamebase-client/src/gateway-socket.ts, keep the
-- connection sound.
use tslib.Common.{
  ℕ, suc, ◌<◌, ◌≡◌, refl, sym, ap, subst, Bool, true, false, none, some, arith, if◌then◌else◌,
  if_cases, ◌⊎◌, inl, inr,
}
use tslib.Gateway.CloseCodes.{GatewayChannelKind, CloseDisposition, stop, lobby, q}
use tslib.Gateway.Socket.{
  SocketState, SocketOptions, Env, GatewayClientState, idle, connecting, connected, reconnecting,
  closed, GatewaySocketEvent, opening, created, opened, emitted, put, settle, close_socket, emit,
  is_some, is_socket, stop_with, local_close, open_socket, opening_state, mark_ready, greeted,
  handle_open,
}
use tslib.Gateway.Socket.Invariant.{
  IsCalm, IsSteady, emit-IsSteady, emit-cases, emit_then-elim, settle-keeps_closed, IsSound,
  closed-IsSound,
}
use tslib.Gateway.Socket.Soundness.{stop_with-IsSound, current}

module _ (options : SocketOptions) (env : Env) (calm : Bool)
    (silent : calm ≡ true → IsCalm env) where
  pub opening_state-cases :
      (state : GatewayClientState)
      → (opening_state state ≡ reconnecting) ⊎ (opening_state state ≡ connecting)
  unfolding opening_state
  opening_state-cases idle = inr refl
  opening_state-cases connecting = inr refl
  opening_state-cases connected = inr refl
  opening_state-cases reconnecting = inl refl
  opening_state-cases closed = inr refl

  opened-IsSteady :
      (s : SocketState)
      → IsSteady calm options.max_handshake_failures s
      → IsSteady calm options.max_handshake_failures (record s { state = opening_state s.state })
  opened-IsSteady s h = ground (arith, h, opening_state-cases s.state)

  thrown-IsSound :
      (s : SocketState)
      → IsSteady calm options.max_handshake_failures s
      → (s.socket ≡ none) × (s.reconnect_timer ≡ false)
      → IsSound calm options.max_handshake_failures
          (stop_with options env 0 stop (record s { sockets = suc s.sockets }))
  thrown-IsSound s h g =
      stop_with-IsSound options env calm silent 0 stop (record s { sockets = suc s.sockets })
        (ground (arith, h)) (λ c. g)

  made-IsSound :
      (s : SocketState)
      → IsSteady calm options.max_handshake_failures s
      → s.closed_by_user ≡ false
      → (s.socket ≡ none) × (s.reconnect_timer ≡ false)
      → s.handshake_failures < options.max_handshake_failures
      → (s.state ≡ reconnecting) ⊎ (s.state ≡ connecting)
      → IsSound calm options.max_handshake_failures (
          put
            (created s.sockets)
            (record s { socket = some s.sockets; sockets = suc s.sockets; opened_once = false }))
  unfolding put
  made-IsSound s h c g f e = ground (arith, h)

  pub opening-IsSound :
      (s : SocketState)
      → IsSteady calm options.max_handshake_failures s
      → s.closed_by_user ≡ false
      → (s.socket ≡ none) × (s.reconnect_timer ≡ false)
      → s.handshake_failures < options.max_handshake_failures
      → (s.state ≡ reconnecting) ⊎ (s.state ≡ connecting)
      → IsSound calm options.max_handshake_failures (
          if env.throws s.sockets
          then stop_with options env 0 stop (record s { sockets = suc s.sockets })
          else put
              (created s.sockets)
              (record s { socket = some s.sockets; sockets = suc s.sockets; opened_once = false }))
  opening-IsSound s h c g f e =
      if_cases (IsSound calm options.max_handshake_failures) (env.throws s.sockets)
        (λ t. thrown-IsSound s h g) (λ t. made-IsSound s h c g f e)

  -- Making a socket, where there is none and no timer runs.
  pub open_socket-IsSound :
      (s : SocketState)
      → IsSteady calm options.max_handshake_failures s
      → (s.closed_by_user ≡ false
          → (s.socket ≡ none)
            × (s.reconnect_timer ≡ false)
            × (s.handshake_failures < options.max_handshake_failures))
      → IsSound calm options.max_handshake_failures (open_socket options env s)
  unfolding open_socket
  open_socket-IsSound s h g =
      if_cases (IsSound calm options.max_handshake_failures) s.closed_by_user
        (λ c. closed-IsSound s c h)
        (λ c.
          let (n, t, f) = g c in
          opening-IsSound (record s { state = opening_state s.state }) (opened-IsSteady s h) c
            (n, t) f (opening_state-cases s.state))

  made_ready-IsSteady :
      (s : SocketState)
      → IsSteady calm options.max_handshake_failures s
      → IsSteady calm options.max_handshake_failures (mark_ready options env s)
  unfolding mark_ready settle
  made_ready-IsSteady s h = ground arith

  pub ready-IsSound :
      (s : SocketState)
      → IsSound calm options.max_handshake_failures s
      → is_some s.socket ≡ true
      → s.reconnect_timer ≡ false
      → IsSound calm options.max_handshake_failures (mark_ready options env s)
  unfolding mark_ready settle
  ready-IsSound s h e t = ground arith

  put-IsSound :
      (e : GatewaySocketEvent) (s : SocketState)
      → IsSound calm options.max_handshake_failures s
      → IsSound calm options.max_handshake_failures (put (emitted e) s)
  unfolding put
  put-IsSound e s h = ground arith

  -- An event that is emitted last.
  pub emit-IsSound :
      (e : GatewaySocketEvent) (s : SocketState)
      → IsSound calm options.max_handshake_failures s
      → IsSound calm options.max_handshake_failures (emit options env e s)
  emit-IsSound e s h =
      let steady = emit-IsSteady options env calm silent e s h.steady in
      elim (emit-cases options env e s) [
        | inl p ↦ subst (IsSound calm options.max_handshake_failures) (sym p) (put-IsSound e s h)
        | inr c ↦ closed-IsSound (emit options env e s) c steady
      ]

  pub local_close-IsSound :
      (d : CloseDisposition) (s : SocketState)
      → IsSound calm options.max_handshake_failures s
      → IsSound calm options.max_handshake_failures (local_close options env d s)
  unfolding local_close close_socket put
  local_close-IsSound d s h = ground arith

  opened-IsSound :
      (id : ℕ) (s : SocketState)
      → IsSound calm options.max_handshake_failures s
      → s.socket ≡ some id
      → IsSound calm options.max_handshake_failures
          (put (opened id) (record s { opened_once = true; handshake_failures = 0 }))
  unfolding put
  opened-IsSound id s h e = ground arith

  closed-ready :
      (s : SocketState) → s.closed_by_user ≡ true → (mark_ready options env s).closed_by_user ≡ true
  unfolding mark_ready
  closed-ready s c =
      settle-keeps_closed true (record s { ready = true; state = connected; attempts = 0 }) c

  pub hello_timer-IsSound :
      (b : Bool) (s : SocketState)
      → IsSound calm options.max_handshake_failures s
      → IsSound calm options.max_handshake_failures (record s { hello_timer = b })
  hello_timer-IsSound b s h = ground (arith, h)

  pub live-timer :
      (id : ℕ) (s : SocketState)
      → IsSound calm options.max_handshake_failures s
      → s.socket ≡ some id
      → s.reconnect_timer ≡ false
  live-timer id s h e = ground arith

  opened_here :
      (id : ℕ) (s : SocketState)
      → s.socket ≡ some id
      → (put (opened id) (record s { opened_once = true; handshake_failures = 0 })).socket ≡ some id
  unfolding put
  opened_here id s e = e

  -- `open` is emitted, then the connection is ready: a handler may have closed it in between.
  greeted-IsSound :
      (kind : GatewayChannelKind) (id : ℕ) (s : SocketState)
      → IsSound calm options.max_handshake_failures s
      → s.socket ≡ some id
      → IsSound calm options.max_handshake_failures
          (greeted options env kind (emit options env opening s))
  unfolding greeted put
  greeted-IsSound lobby id s h e =
      hello_timer-IsSound true (emit options env opening s) (emit-IsSound opening s h)
  greeted-IsSound q id s h e =
      let s1 = emit options env opening s in
      elim (emit-cases options env opening s) [
        | inl p ↦
            subst (λ x. IsSound calm options.max_handshake_failures (mark_ready options env x))
              (sym p)
              (ready-IsSound (put (emitted opening) s) (put-IsSound opening s h) (ap is_some e)
                (live-timer id s h e))
        | inr c ↦
            closed-IsSound (mark_ready options env s1) (closed-ready s1 c)
              (made_ready-IsSteady s1 (emit-IsSteady options env calm silent opening s h.steady))
      ]

  pub handle_open-IsSound :
      (id : ℕ) (is_bearer : Bool) (s : SocketState)
      → IsSound calm options.max_handshake_failures s
      → IsSound calm options.max_handshake_failures (handle_open options env id is_bearer s)
  unfolding handle_open
  handle_open-IsSound id is_bearer s h =
      let s1 = put (opened id) (record s { opened_once = true; handshake_failures = 0 }) in
      if_cases (IsSound calm options.max_handshake_failures) (is_socket s.socket id)
        (λ e.
          let here = current options env calm silent s.socket id e in
          let sound = opened-IsSound id s h here in
          if_cases (IsSound calm options.max_handshake_failures) is_bearer
            (λ b.
              emit_then-elim options env (IsSound calm options.max_handshake_failures) opening
                (greeted options env options.kind) s1 (λ f. emit-IsSound opening s1 sound)
                (greeted-IsSound options.kind id s1 sound (opened_here id s here)))
            (λ b.
              local_close-IsSound
                (record { kind = stop; reason = "gateway did not select the bearer subprotocol" })
                s1 sound))
        (λ e. h)
