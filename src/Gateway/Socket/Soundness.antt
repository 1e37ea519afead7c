-- ===== src/Gateway/Socket/Soundness.antt =====
-- Each event of packages/gamebase-client/src/gateway-socket.ts keeps the connection sound.
use tslib.Common.{
  ℕ, suc, ◌<◌, ◌≡◌, ◌≢◌, refl, sym, subst, Bool, true, false, Option, none, some, eqb_iff, leb,
  arith, if◌then◌else◌, if_cases, Bool-cases, ◌⊎◌, inl, inr,
}
use tslib.Gateway.Backoff
use tslib.Gateway.CloseCodes.{CloseDispositionKind, reconnect, stop, aborted, finished, client_bug}
use tslib.Gateway.Socket.{
  SocketState, SocketOptions, Env, GatewayClientState, idle, reconnecting, closed,
  GatewaySocketEvent, disconnected, reconnecting_in, stopped, emitted, put, settle, emit, emit_then,
  start_timer, is_socket, stop_with, schedule, schedule_reconnect, counted, resolved, disposed,
  handle_close,
}
use tslib.Gateway.Socket.Invariant.{
  IsCalm, IsSteady, emit-IsSteady, settle-IsSteady, emit-cases, emit_then-elim, failed, IsSound,
  closed-IsSound,
}

module _ (options : SocketOptions) (env : Env) (calm : Bool)
    (silent : calm ≡ true → IsCalm env) where
  -- Where the user did not close: a state that has no socket and no timer.
  Rests : GatewayClientState → SocketState → Type 0
  Rests state s =
      s.closed_by_user ≡ false
      → (s.state ≡ state)
        × (s.socket ≡ none)
        × (s.reconnect_timer ≡ false)
        × (state ≡ reconnecting → s.handshake_failures < options.max_handshake_failures)

  -- Steady at rest, which an event does not change.
  record Pauses (state : GatewayClientState) (s : SocketState) : Type 0 where
    pub steady : IsSteady calm options.max_handshake_failures s
    pub rests : Rests state s

  put-Rests :
      (e : GatewaySocketEvent) (state : GatewayClientState) (s : SocketState)
      → Rests state s
      → Rests state (put (emitted e) s)
  unfolding put Rests
  put-Rests e state s h = h

  closed-Rests :
      (state : GatewayClientState) (s : SocketState) → s.closed_by_user ≡ true → Rests state s
  unfolding Rests
  closed-Rests state s c n = absurd (ground (arith, c, n))

  emit-Pauses :
      (e : GatewaySocketEvent) (state : GatewayClientState) (s : SocketState)
      → Pauses state s
      → Pauses state (emit options env e s)
  emit-Pauses e state s h = record {
    steady = emit-IsSteady options env calm silent e s h.steady;
    rests = elim (emit-cases options env e s) [
      | inl p ↦ subst (Rests state) (sym p) (put-Rests e state s h.rests)
      | inr c ↦ closed-Rests state (emit options env e s) c
    ];
  }

  -- What a handler that throws leaves.
  thrown-IsSound :
      (e : GatewaySocketEvent) (state : GatewayClientState) (s : SocketState)
      → (state ≡ reconnecting) ⊎ (state ≡ closed)
      → env.fails e ≡ true
      → Pauses state s
      → IsSound calm options.max_handshake_failures s
  unfolding Rests
  thrown-IsSound e state s k f h = elim (Bool-cases s.closed_by_user) [
    | inl c ↦ closed-IsSound s c h.steady
    | inr c ↦ ground (arith, h.steady, h.rests c, failed options env calm silent e f, k)
  ]

  settled-IsSound :
      (s : SocketState)
      → Pauses closed s
      → IsSound calm options.max_handshake_failures (settle false s)
  unfolding settle Rests
  settled-IsSound s h = elim (Bool-cases s.closed_by_user) [
    | inl c ↦ closed-IsSound (settle false s) (ground (arith, c)) (settle-IsSteady false s h.steady)
    | inr c ↦ ground (arith, h.steady, h.rests c)
  ]

  waiting-IsSound :
      (s : SocketState)
      → Pauses reconnecting s
      → IsSound calm options.max_handshake_failures (start_timer options env s)
  unfolding start_timer Rests
  waiting-IsSound s h = elim (Bool-cases s.closed_by_user) [
    | inl c ↦ closed-IsSound (start_timer options env s) c (ground (arith, h.steady))
    | inr c ↦ ground (arith, h.steady, h.rests c)
  ]

  -- Two events in a row, either of whose handlers may throw.
  twice-IsSound :
      (a b : GatewaySocketEvent) (state : GatewayClientState) (rest : SocketState → SocketState)
      (s : SocketState)
      → (state ≡ reconnecting) ⊎ (state ≡ closed)
      → ((t : SocketState) → Pauses state t → IsSound calm options.max_handshake_failures (rest t))
      → Pauses state s
      → IsSound calm options.max_handshake_failures
          (emit_then options env a (emit_then options env b rest) s)
  twice-IsSound a b state rest s k go h =
      let t = emit options env a s in
      let u = emit options env b t in
      let at = emit-Pauses a state s h in
      let bt = emit-Pauses b state t at in
      emit_then-elim options env (IsSound calm options.max_handshake_failures) a
        (emit_then options env b rest) s (λ f. thrown-IsSound a state t k f at)
        (emit_then-elim options env (IsSound calm options.max_handshake_failures) b rest t
          (λ f. thrown-IsSound b state u k f bt) (go u bt))

  -- `stop` without a socket and without a timer ends the connection.
  pub stop_with-IsSound :
      (code : ℕ) (kind : CloseDispositionKind) (s : SocketState)
      → IsSteady calm options.max_handshake_failures s
      → (s.closed_by_user ≡ false → (s.socket ≡ none) × (s.reconnect_timer ≡ false))
      → IsSound calm options.max_handshake_failures (stop_with options env code kind s)
  unfolding stop_with Rests
  stop_with-IsSound code kind s h g =
      twice-IsSound (disconnected code false) (stopped code kind) closed (settle false)
        (record s { state = closed }) (inr refl) settled-IsSound
        (record {
          steady = ground (arith, h);
          rests = λ c. (refl, (g c).0, (g c).1, λ e. absurd (ground (arith, e)));
        })

  pub timer-IsSteady :
      (b : Bool) (s : SocketState)
      → IsSteady calm options.max_handshake_failures s
      → IsSteady calm options.max_handshake_failures (record s { reconnect_timer = b })
  timer-IsSteady b s h = ground (arith, h)

  rescheduled-IsSound :
      (code attempts delay : ℕ) (s : SocketState)
      → IsSteady calm options.max_handshake_failures s
      → s.state ≢ idle
      → s.state ≢ closed
      → (s.closed_by_user ≡ false
          → (s.socket ≡ none)
            × (s.reconnect_timer ≡ false)
            × (s.handshake_failures < options.max_handshake_failures))
      → IsSound calm options.max_handshake_failures
          (schedule options env code (some delay, attempts) s)
  unfolding schedule Rests
  rescheduled-IsSound code attempts delay s h ni nc g =
      twice-IsSound (disconnected code true) (reconnecting_in attempts delay) reconnecting
        (start_timer options env) (record s { attempts = attempts; state = reconnecting })
        (inl refl) waiting-IsSound
        (record { steady = ground (arith, h); rests = λ c. (refl, (g c).0, (g c).1, λ e. (g c).2) })

  schedule-IsSound :
      (code : ℕ) (next : Option ℕ × ℕ) (s : SocketState)
      → IsSteady calm options.max_handshake_failures s
      → s.state ≢ idle
      → s.state ≢ closed
      → (s.closed_by_user ≡ false
          → (s.socket ≡ none)
            × (s.reconnect_timer ≡ false)
            × (s.handshake_failures < options.max_handshake_failures))
      → IsSound calm options.max_handshake_failures (schedule options env code next s)
  unfolding schedule
  schedule-IsSound code (none, attempts) s h ni nc g =
      stop_with-IsSound code stop s h (λ c. ((g c).0, (g c).1))
  schedule-IsSound code (some delay, attempts) s h ni nc g =
      rescheduled-IsSound code attempts delay s h ni nc g

  resolved-IsSound :
      (code : ℕ) (kind : CloseDispositionKind) (s : SocketState)
      → IsSteady calm options.max_handshake_failures s
      → (s.state ≢ idle) × (s.state ≢ closed)
      → (s.socket ≡ none) × (s.reconnect_timer ≡ false)
      → (kind ≡ reconnect → s.handshake_failures < options.max_handshake_failures)
      → IsSound calm options.max_handshake_failures (resolved options env code (kind, s))
  unfolding resolved schedule_reconnect
  resolved-IsSound code reconnect s h n g f =
      schedule-IsSound code (Backoff.next options.backoff (env.random s.sockets) s.attempts) s h n.0
        n.1 (λ c. (g.0, g.1, f refl))
  resolved-IsSound code stop s h n g f = stop_with-IsSound code stop s h (λ c. g)
  resolved-IsSound code aborted s h n g f = stop_with-IsSound code aborted s h (λ c. g)
  resolved-IsSound code finished s h n g f = stop_with-IsSound code finished s h (λ c. g)
  resolved-IsSound code client_bug s h n g f = stop_with-IsSound code client_bug s h (λ c. g)

  -- The connection as `handle_close` leaves it before it decides what follows.
  abbrev without_socket : SocketState → SocketState
  without_socket s = record s {
    socket = none;
    ready = false;
    hello_timer = false;
    close_override = none;
  }

  counted-opened :
      (kind : CloseDispositionKind) (s : SocketState) (id : ℕ)
      → IsSound calm options.max_handshake_failures s
      → s.socket ≡ some id
      → s.opened_once ≡ true
      → IsSteady calm options.max_handshake_failures (without_socket s)
        × (s.handshake_failures < options.max_handshake_failures)
        × ((s.state ≢ idle) × (s.state ≢ closed))
        × (s.reconnect_timer ≡ false)
  counted-opened kind s id h e o = ground arith

  counted-unopened :
      (s : SocketState) (id : ℕ)
      → IsSound calm options.max_handshake_failures s
      → s.socket ≡ some id
      → s.opened_once ≡ false
      → IsSteady calm options.max_handshake_failures
          (record (without_socket s) { handshake_failures = suc s.handshake_failures })
        × ((s.state ≢ idle) × (s.state ≢ closed))
        × (s.reconnect_timer ≡ false)
  counted-unopened s id h e o = ground arith

  failed-IsSound :
      (code : ℕ) (kind : CloseDispositionKind) (s : SocketState)
      → IsSteady calm options.max_handshake_failures
          (record s { handshake_failures = suc s.handshake_failures })
      → (s.state ≢ idle) × (s.state ≢ closed)
      → (s.socket ≡ none) × (s.reconnect_timer ≡ false)
      → IsSound calm options.max_handshake_failures (
          resolved options env code (
            elim kind [
              | reconnect ↦
                  if leb options.max_handshake_failures (suc s.handshake_failures)
                  then stop
                  else reconnect
              | other ↦ other
            ],
            record s { handshake_failures = suc s.handshake_failures },
          ))
  failed-IsSound code reconnect s h n g =
      let s1 = record s { handshake_failures = suc s.handshake_failures } in
      if_cases
        (λ k. IsSound calm options.max_handshake_failures (resolved options env code (k, s1)))
        (leb options.max_handshake_failures (suc s.handshake_failures))
        (λ e. resolved-IsSound code stop s1 h n g (λ x. ground arith))
        (λ e. resolved-IsSound code reconnect s1 h n g (λ x. ground arith))
  failed-IsSound code stop s h n g =
      resolved-IsSound code stop (record s { handshake_failures = suc s.handshake_failures }) h n g
        (λ x. ground arith)
  failed-IsSound code aborted s h n g =
      resolved-IsSound code aborted (record s { handshake_failures = suc s.handshake_failures }) h n
        g (λ x. ground arith)
  failed-IsSound code finished s h n g =
      resolved-IsSound code finished (record s { handshake_failures = suc s.handshake_failures }) h
        n g (λ x. ground arith)
  failed-IsSound code client_bug s h n g =
      resolved-IsSound code client_bug (record s { handshake_failures = suc s.handshake_failures })
        h n g (λ x. ground arith)

  -- A close of a socket that never opened.
  unopened-IsSound :
      (code : ℕ) (kind : CloseDispositionKind) (s : SocketState)
      → s.opened_once ≡ false
      → IsSteady calm options.max_handshake_failures
          (record s { handshake_failures = suc s.handshake_failures })
      → (s.state ≢ idle) × (s.state ≢ closed)
      → (s.socket ≡ none) × (s.reconnect_timer ≡ false)
      → IsSound calm options.max_handshake_failures
          (resolved options env code (counted options env kind s))
  unfolding counted
  unopened-IsSound code kind s o h n g =
      if_cases (λ r. IsSound calm options.max_handshake_failures (resolved options env code r))
        s.opened_once (λ e. absurd (ground (arith, e, o))) (λ e. failed-IsSound code kind s h n g)

  ending-IsSound :
      (code : ℕ) (kind : CloseDispositionKind) (s : SocketState) (id : ℕ)
      → IsSound calm options.max_handshake_failures s
      → s.socket ≡ some id
      → IsSound calm options.max_handshake_failures
          (resolved options env code (counted options env kind (without_socket s)))
  unfolding counted
  ending-IsSound code kind s id h e = elim (Bool-cases s.opened_once) [
    | inl o ↦
        let (steady, f, n, t) = counted-opened kind s id h e o in
        if_cases (λ r. IsSound calm options.max_handshake_failures (resolved options env code r))
          s.opened_once
          (λ x. resolved-IsSound code kind (without_socket s) steady n (refl, t) (λ y. f))
          (λ x. absurd (ground (arith, x, o)))
    | inr o ↦
        let (steady, n, t) = counted-unopened s id h e o in
        unopened-IsSound code kind (without_socket s) o steady n (refl, t)
  ]

  pub current : (o : Option ℕ) (id : ℕ) → is_socket o id ≡ true → o ≡ some id
  current none id h = ground arith
  current (some n) id h = ground (arith, eqb_iff id n)

  pub handle_close-IsSound :
      (id code : ℕ) (s : SocketState)
      → IsSound calm options.max_handshake_failures s
      → IsSound calm options.max_handshake_failures (handle_close options env id code s)
  unfolding handle_close
  handle_close-IsSound id code s h =
      if_cases (IsSound calm options.max_handshake_failures) (is_socket s.socket id)
        (λ e.
          let here = current s.socket id e in
          if_cases (IsSound calm options.max_handshake_failures) s.closed_by_user
            (λ c. absurd (ground (arith, h.steady.socket_gone c, here)))
            (λ c. ending-IsSound code (disposed options env code s) s id h here))
        (λ e. h)
