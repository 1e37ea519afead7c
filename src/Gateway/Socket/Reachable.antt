-- ===== src/Gateway/Socket/Reachable.antt =====
-- What holds of each connection of packages/gamebase-client/src/gateway-socket.ts, after any
-- events in
-- any order, and whichever handlers close it or throw.
use tslib.Common.{◌+◌, ◌≤◌, ◌<◌, ◌≡◌, refl, Bool, arith, true, false, List}
use tslib.Gateway.Socket.{SocketState, SocketOptions, Env, start, is_some}
use tslib.Gateway.Socket.Events.{Event, run}
use tslib.Gateway.Socket.Invariant.{
  unopened, promises, settlements, to_number, Shape, IsCalm, IsSound, start-IsSound, strict-Shape,
}
use tslib.Gateway.Socket.Steps.{run-IsSound}

module _ (options : SocketOptions) (env : Env) (es : List Event) where
  abbrev pub reached : SocketState
  reached = run options env es start

  reached-IsSound :
      (calm : Bool)
      → (calm ≡ true → IsCalm env)
      → 0 < options.max_handshake_failures
      → IsSound calm options.max_handshake_failures reached
  reached-IsSound calm silent h =
      run-IsSound options env calm silent es start
        (start-IsSound calm options.max_handshake_failures h)

  -- With at least one handshake failure allowed and no handler that throws: at all times `connect`
  -- has made at most one promise, it has been settled exactly once if it is not pending and not at
  -- all if it is, and once `close` was called it is not pending.
  pub run-settles :
      IsCalm env
      → 0 < options.max_handshake_failures
      → (promises reached.trace ≤ 1)
        × (promises reached.trace ≡ settlements reached.trace + to_number reached.pending)
        × (reached.closed_by_user ≡ true → reached.pending ≡ false)
  run-settles calm h =
      let s = (reached-IsSound true (λ _. calm) h).steady in
      (s.one_promise, s.balanced, s.promise_gone refl)

  -- With at least one handshake failure allowed: the sockets made since one opened are at most
  -- `maxHandshakeFailures`, so that a refused token is not retried for ever.
  pub run-limits_handshakes :
      0 < options.max_handshake_failures → unopened reached.trace ≤ options.max_handshake_failures
  run-limits_handshakes h = (reached-IsSound false (λ e. absurd (ground (arith, e))) h).steady.few

  -- With at least one handshake failure allowed and no handler that throws, a connection that its
  -- user did not close is never stuck: when it is connecting or connected it has a socket and no
  -- reconnect timer, when it is reconnecting it has a socket or else a reconnect timer and not
  -- both, and when it is closed it has neither and `connect` is not pending; it is not pending
  -- either when it is connected or idle.
  pub run-Shape :
      IsCalm env
      → 0 < options.max_handshake_failures
      → reached.closed_by_user ≡ false
      → Shape reached.state (is_some reached.socket) reached.reconnect_timer reached.pending
  run-Shape calm h c =
      strict-Shape options.max_handshake_failures reached (reached-IsSound true (λ _. calm) h) c
