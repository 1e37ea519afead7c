-- ===== src/Gateway/Tests.antt =====
-- Runs of packages/gamebase-client/src/gateway-socket.ts and backoff.ts.
use tslib.Common.{
  ℕ, zero, suc, ◌≤◌, ◌<◌, ◌≡◌, refl, true, false, Bool, none, some, List, [], ◌∷◌, arith, min, ◌+◌,
}
use tslib.Gateway.Backoff.{BackoffOptions, delays, next, is_exhausted, base_delay, jittered, round}
use tslib.Gateway.Backoff.Bounds.{granted, AreNear, delays-limit}
use tslib.Gateway.CloseCodes.{q, lobby, classify_close}
use tslib.Gateway.Socket.{
  SocketState, SocketOptions, Env, GatewaySocketEvent, opening, disconnected, start, connecting,
  connected, emit_then, unless_fails, start_timer, reconnecting, closed, is_some, close, emit,
  handle_open, handle_close, put, settle, open_socket, greeted, mark_ready, schedule,
  schedule_reconnect, stop_with, resolved, counted, disposed, opening_state,
}
use tslib.Gateway.Socket.Events.{
  Event, connects, sends, reconnect_expires, socket_opens, socket_sends, socket_closes, typed, run,
  step, connect_in, opens, open_throws, send_to, handle_message, handle_typed, awaits_hello,
  reconnect_timeout,
}
use tslib.Gateway.Socket.Invariant.{unopened, promises, settlements, to_number, Shape, IsCalm}
use tslib.Gateway.Socket.Reachable.{reached, run-settles, run-limits_handshakes, run-Shape}
use tslib.Gateway.Socket.Stuck.{IsStuck, run-IsStuck}
use tslib.Gateway.Socket.Disposal.{activity, run-close, IsGhost, handle_open-IsGhost}

abbrev three_attempts : BackoffOptions
three_attempts = record {
  initial_ms = 500;
  max_ms = 1500;
  factor = 2;
  jitter_num = 1;
  jitter_den = 5;
  max_attempts = some 3;
  resolution = 8;
}

-- The random numbers 0, 1/2 and 7/8.
abbrev drawn : ℕ → ℕ
drawn zero = 0
drawn (suc zero) = 4
drawn (suc (suc n)) = 7

three_delays : delays three_attempts drawn 5 0 ≡ some 400 ∷ some 1000 ∷ some 1725 ∷ none ∷ none ∷ []
unfolding delays next is_exhausted base_delay jittered round
three_delays = refl

abbrev lobby_options : SocketOptions
lobby_options = record { kind = lobby; max_handshake_failures = 2; backoff = three_attempts }

abbrev q_options : SocketOptions
q_options = record { kind = q; max_handshake_failures = 2; backoff = three_attempts }

abbrev calm : Env
calm = record {
  random = drawn;
  lost = λ code. "connection lost";
  throws = λ id. false;
  reacts = λ e. false;
  fails = λ e. false;
}

abbrev closes_on_open : GatewaySocketEvent → Bool
closes_on_open opening = true
closes_on_open e = false

abbrev hasty : Env
hasty = record {
  random = drawn;
  lost = λ code. "connection lost";
  throws = λ id. false;
  reacts = closes_on_open;
  fails = λ e. false;
}

-- A lobby that opens, receives its `hello`, loses its connection and reconnects.
abbrev lively : List Event
lively =
    connects
    ∷ socket_opens 0 true
    ∷ socket_sends 0 (typed true)
    ∷ sends
    ∷ socket_closes 0 1001
    ∷ reconnect_expires
    ∷ []

lively_state : (run lobby_options calm lively start).state ≡ reconnecting
unfolding run step connect_in open_socket opens open_throws put opening_state handle_open greeted
    emit emit_then unless_fails handle_message handle_typed awaits_hello mark_ready settle send_to
    handle_close resolved counted disposed classify_close schedule_reconnect schedule start_timer
    next is_exhausted base_delay jittered round reconnect_timeout
lively_state = refl

-- Two sockets in a row that never open.
abbrev refused_twice : List Event
refused_twice = connects ∷ socket_closes 0 1006 ∷ reconnect_expires ∷ socket_closes 1 1006 ∷ []

refused_twice_state : (run lobby_options calm refused_twice start).state ≡ closed
unfolding run step connect_in open_socket opens open_throws put opening_state emit emit_then
    unless_fails settle handle_close resolved counted disposed classify_close schedule_reconnect
    schedule start_timer next is_exhausted base_delay jittered round stop_with reconnect_timeout
refused_twice_state = refl

drawn-lt : (k : ℕ) → drawn k < three_attempts.resolution
drawn-lt zero = omega arith
drawn-lt (suc zero) = omega arith
drawn-lt (suc (suc n)) = omega arith

delays-limit_example :
    (granted (delays three_attempts drawn 5 0) ≡ min 5 3)
    × AreNear three_attempts 0 (delays three_attempts drawn 5 0)
delays-limit_example =
    delays-limit three_attempts drawn 3 refl (omega arith) (omega arith) drawn-lt 5

calm-IsCalm : IsCalm calm
calm-IsCalm e = refl

one_allowed : 0 < lobby_options.max_handshake_failures
one_allowed = omega arith

run-settles_example :
    (promises (reached lobby_options calm lively).trace ≤ 1)
    × (promises (reached lobby_options calm lively).trace
        ≡ settlements (reached lobby_options calm lively).trace
          + to_number (reached lobby_options calm lively).pending)
    × ((reached lobby_options calm lively).closed_by_user ≡ true
        → (reached lobby_options calm lively).pending ≡ false)
run-settles_example = run-settles lobby_options calm lively calm-IsCalm one_allowed

run-limits_handshakes_example :
    unopened (reached lobby_options calm refused_twice).trace ≤ lobby_options.max_handshake_failures
run-limits_handshakes_example = run-limits_handshakes lobby_options calm refused_twice one_allowed

lively_open : (reached lobby_options calm lively).closed_by_user ≡ false
unfolding run step connect_in open_socket opens open_throws put opening_state handle_open greeted
    emit emit_then unless_fails handle_message handle_typed awaits_hello mark_ready settle send_to
    handle_close resolved counted disposed classify_close schedule_reconnect schedule start_timer
    next is_exhausted base_delay jittered round reconnect_timeout
lively_open = refl

run-Shape_example :
    Shape
      (reached lobby_options calm lively).state
      (is_some (reached lobby_options calm lively).socket)
      (reached lobby_options calm lively).reconnect_timer
      (reached lobby_options calm lively).pending
run-Shape_example = run-Shape lobby_options calm lively calm-IsCalm one_allowed lively_open

abbrev stubborn : List Event
stubborn = sends ∷ connects ∷ reconnect_expires ∷ socket_opens 1 true ∷ []

run-close_example :
    (activity
        (run lobby_options calm stubborn
          (close lobby_options calm (run lobby_options calm lively start))).trace
      ≡ activity (run lobby_options calm lively start).trace)
    × ((run lobby_options calm stubborn
          (close lobby_options calm (run lobby_options calm lively start))).closed_by_user
        ≡ true)
    × ((run lobby_options calm stubborn
          (close lobby_options calm (run lobby_options calm lively start))).socket
        ≡ none)
run-close_example = run-close lobby_options calm lively stubborn one_allowed

abbrev hasty_connecting : SocketState
hasty_connecting = record start { state = connecting; socket = some 0; sockets = 1; pending = true }

handle_open-IsGhost_example : IsGhost (handle_open q_options hasty 0 true hasty_connecting)
handle_open-IsGhost_example =
    handle_open-IsGhost q_options hasty 0 hasty_connecting refl refl refl refl refl

abbrev throws_on_loss : GatewaySocketEvent → Bool
throws_on_loss (disconnected code will_reconnect) = will_reconnect
throws_on_loss e = false

abbrev clumsy : Env
clumsy = record {
  random = drawn;
  lost = λ code. "connection lost";
  throws = λ id. false;
  reacts = λ e. false;
  fails = throws_on_loss;
}

abbrev lost_connection : SocketState
lost_connection = record start { state = connected; sockets = 1 }

run-IsStuck_example : IsStuck (
    run lobby_options clumsy stubborn
      (schedule lobby_options clumsy 1001 (some 500, 1) lost_connection))
run-IsStuck_example =
    run-IsStuck lobby_options clumsy 1001 1 500 lost_connection stubborn refl refl refl refl refl
      refl (refl, (refl, (refl, (refl, tt))))
