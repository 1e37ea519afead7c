-- ===== src/Gateway/Socket/Events.antt =====
-- packages/gamebase-client/src/gateway-socket.ts: messages, timers, and what the caller does, as
-- events.
use tslib.Common.{
  ℕ, Bool, true, false, not, ◌&&◌, ◌||◌, Option, none, some, List, [], ◌∷◌, if◌then◌else◌,
}
use tslib.Gateway.CloseCodes.{lobby, q, reconnect, stop}
use tslib.Gateway.Socket.{
  SocketState, SocketOptions, Env, GatewayClientState, idle, connecting, connected, reconnecting,
  closed, disconnected, stopped, hello, frame, protocol_error, promised, refused, sent, put, settle,
  close, emit, mark_ready, is_socket, local_close, open_socket, handle_open, handle_close,
}

-- What `handleMessage` makes of the data of a message: not a text or not an object with a textual
-- `type`, or a frame, which may be a `hello`.
pub data Message : Type 0 where
  malformed : Message
  typed : (is_hello : Bool) → Message

pub data Event : Type 0 where
  connects closes sends hello_expires reconnect_expires : Event
  socket_opens : (id : ℕ) (is_bearer : Bool) → Event
  socket_sends : (id : ℕ) (message : Message) → Event
  socket_closes : (id code : ℕ) → Event

module _ (options : SocketOptions) (env : Env) where
  -- Whether frames wait for a `hello`.
  unfoldable pub awaits_hello : SocketState → Bool
  awaits_hello s = elim options.kind [ lobby ↦ not s.ready | q ↦ false ]

  unfoldable pub handle_typed : Bool → SocketState → SocketState
  unfolding awaits_hello emit mark_ready
  handle_typed is_hello s =
      if awaits_hello s
      then (if is_hello
          then emit options env hello (mark_ready options env (record s { hello_timer = false }))
          else emit options env protocol_error s)
      else emit options env frame s

  unfoldable pub handle_message : ℕ → Message → SocketState → SocketState
  unfolding handle_typed emit
  handle_message id malformed s =
      if is_socket s.socket id then emit options env protocol_error s else s
  handle_message id (typed is_hello) s =
      if is_socket s.socket id then handle_typed is_hello s else s

  -- The timer that `open` of a lobby sets.
  unfoldable pub hello_timeout : SocketState → SocketState
  unfolding local_close
  hello_timeout s =
      if s.hello_timer
      then local_close options env (record { kind = reconnect; reason = "hello timeout" })
          (record s { hello_timer = false })
      else s

  unfoldable pub reconnect_timeout : SocketState → SocketState
  unfolding open_socket
  reconnect_timeout s =
      if s.reconnect_timer
      then open_socket options env (record s { reconnect_timer = false })
      else s

  -- Whether `open` throws: no socket can be made, and a handler of what `stop` emits throws.
  unfoldable pub open_throws : SocketState → Bool
  open_throws s =
      not s.closed_by_user
      && (env.throws s.sockets && (env.fails (disconnected 0 false) || env.fails (stopped 0 stop)))

  -- `open` in the executor of the promise of `connect`, which rejects the promise if it throws.
  unfoldable pub opens : SocketState → SocketState
  unfolding open_throws open_socket settle
  opens s = let t = open_socket options env s in if open_throws s then settle false t else t

  unfoldable pub connect_in : GatewayClientState → SocketState → SocketState
  unfolding opens put
  connect_in idle s = opens (put promised (record s { pending = true }))
  connect_in connecting s = put refused s
  connect_in connected s = put refused s
  connect_in reconnecting s = put refused s
  connect_in closed s = put refused s

  unfoldable pub send_to : Option ℕ → SocketState → SocketState
  unfolding put
  send_to none s = put refused s
  send_to (some id) s = if s.ready then put (sent id) s else put refused s

  unfoldable pub step : Event → SocketState → SocketState
  unfolding connect_in close send_to hello_timeout reconnect_timeout handle_open handle_message
      handle_close
  step connects s = connect_in s.state s
  step closes s = close options env s
  step sends s = send_to s.socket s
  step hello_expires s = hello_timeout s
  step reconnect_expires s = reconnect_timeout s
  step (socket_opens id is_bearer) s = handle_open options env id is_bearer s
  step (socket_sends id message) s = handle_message id message s
  step (socket_closes id code) s = handle_close options env id code s

  unfoldable pub run : List Event → SocketState → SocketState
  unfolding step
  run [] s = s
  run (e ∷ es) s = run es (step e s)
