-- ===== src/Gateway/Socket.antt =====
-- packages/gamebase-client/src/gateway-socket.ts, `createGatewaySocket`. Sockets are numbers, in the
-- order in which they are made. What happens to the connection is an event; what it does is its
-- trace,
-- the last thing first. A handler may call `close` while it runs, and may throw: `reacts` and
-- `fails` tell which ones do.
pub mod Events
pub mod Invariant
pub mod Soundness
pub mod Opening
pub mod Steps
pub mod Reachable
pub mod Disposal
pub mod Stuck
use tslib.Common.{
  ℕ, zero, suc, ◌+◌, String, Bool, true, false, not, ◌&&◌, ◌||◌, Option, none, some, List, [], ◌∷◌,
  eqb, leb, if◌then◌else◌,
}
use tslib.Gateway.Backoff
use tslib.Gateway.Backoff.{BackoffOptions}
use tslib.Gateway.CloseCodes.{
  GatewayChannelKind, lobby, q, CloseDispositionKind, CloseDisposition, reconnect, stop,
  classify_close,
}

pub data GatewayClientState : Type 0 where
  idle connecting connected reconnecting closed : GatewayClientState

-- What is emitted to the handlers.
pub data GatewaySocketEvent : Type 0 where
  opening hello frame protocol_error : GatewaySocketEvent
  disconnected : (code : ℕ) (will_reconnect : Bool) → GatewaySocketEvent
  reconnecting_in : (attempt delay_ms : ℕ) → GatewaySocketEvent
  stopped : (code : ℕ) (kind : CloseDispositionKind) → GatewaySocketEvent

-- `promised` is a promise that `connect` returns, `settled` its end; `created`, `opened`,
-- `closing` and
-- `sent` are about the socket with the number. `refused` is a call that throws or rejects.
pub data Output : Type 0 where
  promised refused : Output
  settled : (success : Bool) → Output
  created opened sent : (id : ℕ) → Output
  closing : (id code : ℕ) → Output
  emitted : GatewaySocketEvent → Output

pub record SocketState : Type 0 where
  pub state : GatewayClientState
  pub socket : Option ℕ
  pub sockets : ℕ
  pub closed_by_user : Bool
  pub ready : Bool
  pub hello_timer : Bool
  pub reconnect_timer : Bool
  pub close_override : Option CloseDisposition
  pub opened_once : Bool
  pub handshake_failures : ℕ
  pub pending : Bool
  pub attempts : ℕ
  pub trace : List Output

abbrev pub start : SocketState
start = record {
  state = idle;
  socket = none;
  sockets = 0;
  closed_by_user = false;
  ready = false;
  hello_timer = false;
  reconnect_timer = false;
  close_override = none;
  opened_once = false;
  handshake_failures = 0;
  pending = false;
  attempts = 0;
  trace = [];
}

pub record SocketOptions : Type 0 where
  pub kind : GatewayChannelKind
  pub max_handshake_failures : ℕ
  pub backoff : BackoffOptions

-- What is not in the code: the random number that is drawn after the close of the last of so many
-- sockets, the text for an unknown code, whether making the socket with a number throws, and the
-- events one of whose handlers calls `close`, or throws.
pub record Env : Type 0 where
  pub random : ℕ → ℕ
  pub lost : ℕ → String
  pub throws : ℕ → Bool
  pub reacts : GatewaySocketEvent → Bool
  pub fails : GatewaySocketEvent → Bool

abbrev pub is_socket : Option ℕ → ℕ → Bool
is_socket none id = false
is_socket (some current) id = eqb id current

abbrev pub is_some : Option ℕ → Bool
is_some none = false
is_some (some id) = true

abbrev pub local_close_code : ℕ
local_close_code = 4900

unfoldable pub put : Output → SocketState → SocketState
put output s = record s { trace = output ∷ s.trace }

unfoldable pub settle : Bool → SocketState → SocketState
settle success s =
    if s.pending then record s { pending = false; trace = settled success ∷ s.trace } else s

-- `current?.close(code)`
unfoldable pub close_socket : Option ℕ → ℕ → SocketState → SocketState
unfolding put
close_socket none code s = s
close_socket (some id) code s = put (closing id code) s

-- The state in which a socket is made: a reconnect stays one.
unfoldable pub opening_state : GatewayClientState → GatewayClientState
opening_state reconnecting = reconnecting
opening_state idle = connecting
opening_state connecting = connecting
opening_state connected = connecting
opening_state closed = connecting

module _ (options : SocketOptions) (env : Env) where
  -- A handler that throws ends the function that emits the event: what is left of it is skipped.
  unfoldable pub unless_fails :
      GatewaySocketEvent → (SocketState → SocketState) → SocketState → SocketState
  unless_fails event rest s = if env.fails event then s else rest s

  -- `close` from its event on, if the event is emitted.
  unfoldable pub close_with : Bool → SocketState → SocketState
  unfolding unless_fails settle put
  close_with true s =
      unless_fails (disconnected 1000 false) (settle false)
        (put (emitted (disconnected 1000 false)) s)
  close_with false s = settle false s

  -- `close`. A handler of its event that calls `close` in its turn changes nothing.
  unfoldable pub close : SocketState → SocketState
  unfolding close_socket close_with
  close s =
      if s.closed_by_user
      then s
      else close_with (s.ready || is_some s.socket) (
          close_socket s.socket 1000 (record s {
            closed_by_user = true;
            hello_timer = false;
            reconnect_timer = false;
            socket = none;
            ready = false;
            state = closed;
          }))

  -- The handlers of an event run.
  unfoldable pub emit : GatewaySocketEvent → SocketState → SocketState
  unfolding close put
  emit event s = if env.reacts event then close (put (emitted event) s) else put (emitted event) s

  -- An event is emitted, and the rest of the function follows.
  unfoldable pub emit_then :
      GatewaySocketEvent → (SocketState → SocketState) → SocketState → SocketState
  unfolding unless_fails emit
  emit_then event rest s = unless_fails event rest (emit event s)

  unfoldable pub mark_ready : SocketState → SocketState
  unfolding settle
  mark_ready s = settle true (record s { ready = true; state = connected; attempts = 0 })

  unfoldable pub stop_with : ℕ → CloseDispositionKind → SocketState → SocketState
  unfolding settle emit_then
  stop_with code kind s =
      emit_then (disconnected code false) (emit_then (stopped code kind) (settle false))
        (record s { state = closed })

  -- setTimeout
  unfoldable pub start_timer : SocketState → SocketState
  start_timer s = record s { reconnect_timer = true }

  -- With the delay that `backoff.next()` gives, and the attempts after it.
  unfoldable pub schedule : ℕ → Option ℕ × ℕ → SocketState → SocketState
  unfolding stop_with emit_then start_timer
  schedule code (none, attempts) s = stop_with code stop s
  schedule code (some delay, attempts) s =
      emit_then (disconnected code true) (emit_then (reconnecting_in attempts delay) start_timer)
        (record s { attempts = attempts; state = reconnecting })

  unfoldable pub schedule_reconnect : ℕ → SocketState → SocketState
  unfolding schedule Backoff.next
  schedule_reconnect code s =
      schedule code (Backoff.next options.backoff (env.random s.sockets) s.attempts) s

  -- The disposition of a close of the current socket: an override comes first.
  unfoldable pub disposed : ℕ → SocketState → CloseDispositionKind
  unfolding classify_close
  disposed code s = elim s.close_override [
    | some disposition ↦ disposition.kind
    | none ↦ (classify_close env.lost code options.kind).kind
  ]

  -- A socket that never opened counts as a failure; too many of them in a row stop the connection.
  unfoldable pub counted : CloseDispositionKind → SocketState → CloseDispositionKind × SocketState
  counted kind s = if s.opened_once then (kind, s) else (
    (elim kind [
      | reconnect ↦
          if leb options.max_handshake_failures (suc s.handshake_failures) then stop else reconnect
      | other ↦ other
    ]),
    record s { handshake_failures = suc s.handshake_failures },
  )

  unfoldable pub resolved : ℕ → CloseDispositionKind × SocketState → SocketState
  unfolding schedule_reconnect stop_with
  resolved code (reconnect, s) = schedule_reconnect code s
  resolved code (kind, s) = stop_with code kind s

  unfoldable pub handle_close : ℕ → ℕ → SocketState → SocketState
  unfolding resolved counted disposed
  handle_close id code s =
      if is_socket s.socket id
      then (if s.closed_by_user
          then record s { socket = none; ready = false; hello_timer = false }
          else resolved code (
              counted (disposed code s) (record s {
                socket = none;
                ready = false;
                hello_timer = false;
                close_override = none;
              })))
      else s

  unfoldable pub local_close : CloseDisposition → SocketState → SocketState
  unfolding close_socket
  local_close disposition s =
      close_socket s.socket local_close_code (record s { close_override = some disposition })

  unfoldable pub open_socket : SocketState → SocketState
  unfolding opening_state stop_with put
  open_socket s =
      if s.closed_by_user
      then s
      else (let s1 = record s { state = opening_state s.state } in
          if env.throws s.sockets
          then stop_with 0 stop (record s1 { sockets = suc s.sockets })
          else put (created s.sockets)
              (record s1 { socket = some s.sockets; sockets = suc s.sockets; opened_once = false }))

  -- The `open` event: a lobby waits for its `hello`.
  unfoldable pub greeted : GatewayChannelKind → SocketState → SocketState
  unfolding mark_ready
  greeted q s = mark_ready s
  greeted lobby s = record s { hello_timer = true }

  unfoldable pub handle_open : ℕ → Bool → SocketState → SocketState
  unfolding greeted emit_then local_close put
  handle_open id is_bearer s =
      if is_socket s.socket id
      then (let s1 = put (opened id) (record s { opened_once = true; handshake_failures = 0 }) in
          if is_bearer
          then emit_then opening (greeted options.kind) s1
          else local_close
              (record { kind = stop; reason = "gateway did not select the bearer subprotocol" }) s1)
      else s
