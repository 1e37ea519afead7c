-- ===== src/Gateway/Socket/Invariant.antt =====
-- What holds of a connection of packages/gamebase-client/src/gateway-socket.ts at all times.
use tslib.Common.{
  ℕ, suc, ◌+◌, ◌≤◌, ◌<◌, ◌≡◌, ◌≢◌, refl, Bool, true, false, not, ◌&&◌, none, List, [], ◌∷◌, arith,
  Bool-cases, if_cases, ◌⊎◌, inl, inr,
}
use tslib.Gateway.Socket.{
  SocketState, SocketOptions, Env, GatewayClientState, idle, connecting, connected, reconnecting,
  closed, GatewaySocketEvent, Output, promised, refused, settled, created, opened, sent, closing,
  emitted, put, settle, close, close_with, close_socket, unless_fails, emit, emit_then,
  disconnected, is_some, start,
}

-- The sockets that were made since one opened.
abbrev pub unopened : List Output → ℕ
unopened [] = 0
unopened (created id ∷ t) = suc (unopened t)
unopened (opened id ∷ t) = 0
unopened (promised ∷ t) = unopened t
unopened (refused ∷ t) = unopened t
unopened (settled b ∷ t) = unopened t
unopened (sent id ∷ t) = unopened t
unopened (closing id code ∷ t) = unopened t
unopened (emitted e ∷ t) = unopened t

abbrev pub promises : List Output → ℕ
promises [] = 0
promises (promised ∷ t) = suc (promises t)
promises (created id ∷ t) = promises t
promises (opened id ∷ t) = promises t
promises (refused ∷ t) = promises t
promises (settled b ∷ t) = promises t
promises (sent id ∷ t) = promises t
promises (closing id code ∷ t) = promises t
promises (emitted e ∷ t) = promises t

abbrev pub settlements : List Output → ℕ
settlements [] = 0
settlements (settled b ∷ t) = suc (settlements t)
settlements (promised ∷ t) = settlements t
settlements (created id ∷ t) = settlements t
settlements (opened id ∷ t) = settlements t
settlements (refused ∷ t) = settlements t
settlements (sent id ∷ t) = settlements t
settlements (closing id code ∷ t) = settlements t
settlements (emitted e ∷ t) = settlements t

abbrev pub to_number : Bool → ℕ
to_number false = 0
to_number true = 1

-- A socket that has not opened yet.
abbrev pub is_opening : SocketState → Bool
is_opening s = is_some s.socket && not s.opened_once

-- What holds also in the middle of an event. `limit` is `maxHandshakeFailures`; `calm` is true only
-- where no handler throws.
pub record IsSteady (calm : Bool) (limit : ℕ) (s : SocketState) : Type 0 where
  pub socket_gone : s.closed_by_user ≡ true → s.socket ≡ none
  pub promise_gone : calm ≡ true → s.closed_by_user ≡ true → s.pending ≡ false
  pub counted :
      s.closed_by_user ≡ false → unopened s.trace ≡ s.handshake_failures + to_number (is_opening s)
  pub few : unopened s.trace ≤ limit
  pub balanced : promises s.trace ≡ settlements s.trace + to_number s.pending
  pub one_promise : promises s.trace ≤ 1
  pub not_idle : s.closed_by_user ≡ true → s.state ≢ idle
  pub no_promise : s.state ≡ idle → promises s.trace ≡ 0

-- No handler throws.
abbrev pub IsCalm : Env → Type 0
IsCalm env = (e : GatewaySocketEvent) → env.fails e ≡ false

module _ {calm : Bool} {limit : ℕ} where
  pub put-IsSteady :
      (o : GatewaySocketEvent) (s : SocketState)
      → IsSteady calm limit s
      → IsSteady calm limit (put (emitted o) s)
  unfolding put
  put-IsSteady o s h = ground arith

  pub settle-IsSteady :
      (b : Bool) (s : SocketState) → IsSteady calm limit s → IsSteady calm limit (settle b s)
  unfolding settle
  settle-IsSteady b s h = ground arith

module _ (options : SocketOptions) (env : Env) (calm : Bool)
    (silent : calm ≡ true → IsCalm env) where
  -- Where a handler throws, not all is calm.
  pub failed : (e : GatewaySocketEvent) → env.fails e ≡ true → calm ≡ false
  failed e f = elim (Bool-cases calm) [ inl y ↦ absurd (ground (arith, silent y e, f)) | inr y ↦ y ]

  module _ {limit : ℕ} where
    pub close-IsSteady :
        (s : SocketState) → IsSteady calm limit s → IsSteady calm limit (close options env s)
    unfolding close close_with unless_fails close_socket put settle
    close-IsSteady s h = ground (arith, h, failed (disconnected 1000 false))

    -- A handler may close the connection; otherwise an event is emitted and nothing else happens.
    pub emit-IsSteady :
        (e : GatewaySocketEvent) (s : SocketState)
        → IsSteady calm limit s
        → IsSteady calm limit (emit options env e s)
    unfolding emit
    emit-IsSteady e s h = elim (Bool-cases (env.reacts e)) [
      | inl y ↦ rw y (close-IsSteady (put (emitted e) s) (put-IsSteady e s h))
      | inr y ↦ rw y (put-IsSteady e s h)
    ]

pub settle-keeps_closed :
    (b : Bool) (s : SocketState) → s.closed_by_user ≡ true → (settle b s).closed_by_user ≡ true
unfolding settle
settle-keeps_closed b s h = ground arith

module _ (options : SocketOptions) (env : Env) where
  pub close-closes : (s : SocketState) → (close options env s).closed_by_user ≡ true
  unfolding close close_with unless_fails close_socket put settle
  close-closes s = ground arith

  pub emit-cases :
      (e : GatewaySocketEvent) (s : SocketState)
      → (emit options env e s ≡ put (emitted e) s) ⊎ ((emit options env e s).closed_by_user ≡ true)
  unfolding emit
  emit-cases e s = elim (Bool-cases (env.reacts e)) [
    | inl y ↦ rw y (inr (close-closes (put (emitted e) s)))
    | inr y ↦ rw y (inl refl)
  ]

  -- What follows an event follows its handlers, unless one of them throws.
  pub emit_then-elim :
      (P : SocketState → Type 0) (e : GatewaySocketEvent) (rest : SocketState → SocketState)
      (s : SocketState)
      → (env.fails e ≡ true → P (emit options env e s))
      → P (rest (emit options env e s))
      → P (emit_then options env e rest s)
  unfolding emit_then unless_fails
  emit_then-elim P e rest s thrown returned = if_cases P (env.fails e) thrown (λ n. returned)

-- What each state says of the socket, the timer of a reconnect and the promise of `connect`.
abbrev pub Shape : GatewayClientState → Bool → Bool → Bool → Type 0
Shape idle has_socket timer pending = (has_socket ≡ false) × (timer ≡ false) × (pending ≡ false)
Shape connecting has_socket timer pending = (has_socket ≡ true) × (timer ≡ false)
Shape connected has_socket timer pending = (has_socket ≡ true) × (timer ≡ false) × (pending ≡ false)
Shape reconnecting has_socket timer pending = not has_socket ≡ timer
Shape closed has_socket timer pending = (has_socket ≡ false) × (timer ≡ false) × (pending ≡ false)

-- The same where a handler may throw: a reconnect may be without both, and a closed connection may
-- owe its promise.
abbrev pub LooseShape : GatewayClientState → Bool → Bool → Bool → Type 0
LooseShape idle has_socket timer pending =
    (has_socket ≡ false) × (timer ≡ false) × (pending ≡ false)
LooseShape connecting has_socket timer pending = (has_socket ≡ true) × (timer ≡ false)
LooseShape connected has_socket timer pending =
    (has_socket ≡ true) × (timer ≡ false) × (pending ≡ false)
LooseShape reconnecting has_socket timer pending = has_socket && timer ≡ false
LooseShape closed has_socket timer pending = (has_socket ≡ false) × (timer ≡ false)

-- What holds between events.
pub record IsSound (calm : Bool) (limit : ℕ) (s : SocketState) : Type 0 where
  pub steady : IsSteady calm limit s
  pub shape :
      s.closed_by_user ≡ false → LooseShape s.state (is_some s.socket) s.reconnect_timer s.pending
  pub retries :
      calm ≡ true
      → s.closed_by_user ≡ false
      → s.state ≡ reconnecting
      → not (is_some s.socket) ≡ s.reconnect_timer
  pub owes_nothing : calm ≡ true → s.closed_by_user ≡ false → s.state ≡ closed → s.pending ≡ false
  pub may_fail : s.closed_by_user ≡ false → s.state ≢ closed → s.handshake_failures < limit

pub start-IsSound : (calm : Bool) (limit : ℕ) → 0 < limit → IsSound calm limit start
start-IsSound calm limit h = ground (arith, h)

pub strict-Shape :
    (limit : ℕ) (s : SocketState)
    → IsSound true limit s
    → s.closed_by_user ≡ false
    → Shape s.state (is_some s.socket) s.reconnect_timer s.pending
strict-Shape limit s h c = ground (arith, h.shape c, h.retries refl c, h.owes_nothing refl c)

-- A closed connection is sound when it is steady.
pub closed-IsSound :
    {calm : Bool} {limit : ℕ} (s : SocketState)
    → s.closed_by_user ≡ true
    → IsSteady calm limit s
    → IsSound calm limit s
closed-IsSound s c h = record {
  steady = h;
  shape = λ n. absurd (ground (arith, c, n));
  retries = λ _ n. absurd (ground (arith, c, n));
  owes_nothing = λ _ n. absurd (ground (arith, c, n));
  may_fail = λ n. absurd (ground (arith, c, n));
}
