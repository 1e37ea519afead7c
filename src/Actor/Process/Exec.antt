-- ===== src/Actor/Process/Exec.antt =====
-- The world in which packages/actor-system/src/process.ts runs, and its effects. An instant is a
-- point where the code awaits: there the clock moves and other processes may push to the queue.
use tslib.Common.{ℕ, suc, String, Bool, true, false, Option, none, some, List, ◌∷◌, ◌++◌}
use tslib.Actor.Message.{UserMessage}

-- What the run shows to the outside.
pub data Event (T : Type 0) : Type 0 where
  tried : Bool → Event T
  prepared committed reported released shifted : Event T
  handled : List (UserMessage T) → Event T
  resolved : String → Event T
  popped : List (UserMessage T) → Event T
  slept : ℕ → Event T

-- A callback, by the instant of its call: does it throw?
abbrev pub Callback : Type 0
Callback = ℕ → Bool

pub data Handler (T : Type 0) : Type 0 where
  -- onMessage, onPrepare, onCommit
  single : (ℕ → T → Bool) → Option Callback → Option Callback → Handler T
  -- onMessages
  bulk : (ℕ → List T → Bool) → Handler T

-- `ActorProcessOptions`, and what the clock, the lock and the other processes do at each instant.
pub record Env (T : Type 0) : Type 0 where
  pub handler : Handler T
  pub on_error : Option Callback
  pub shift : Option Callback
  -- Date.now()
  pub millis : ℕ → ℕ
  -- what `lock.tryAcquire` answers, and whether it rejects instead, or `lock.release` does
  pub grants : ℕ → Bool
  pub acquire_throws : ℕ → Bool
  pub release_throws : ℕ → Bool
  -- whether a call of the queue rejects; the queue is then as it was
  pub queue_throws : ℕ → Bool
  -- has the heartbeat reported the lock as lost?
  pub lost : ℕ → Bool
  pub arrivals : ℕ → List (UserMessage T)

-- The queue is the oldest message first, the trace the newest event first.
pub record World (T : Type 0) : Type 0 where
  pub now : ℕ
  pub queue : List (UserMessage T)
  pub trace : List (Event T)

pub data Outcome (A : Type 0) : Type 0 where
  ok : A → Outcome A
  thrown : Outcome A
  out_of_fuel : Outcome A

abbrev pub Action : Type 0 → Type 0 → Type 0
Action T A = World T → Outcome A × World T

abbrev pub continue : {T A B : Type 0} → Outcome A → (A → Action T B) → Action T B
continue (ok a) f w = f a w
continue thrown f w = (thrown, w)
continue out_of_fuel f w = (out_of_fuel, w)

infixl 10 ◌>>=◌ ◌>>◌
unfoldable pub ◌>>=◌ : {T A B : Type 0} → Action T A → (A → Action T B) → Action T B
◌>>=◌ m f w = let (r, w') = m w in continue r f w'

abbrev pub ◌>>◌ : {T A B : Type 0} → Action T A → Action T B → Action T B
m >> n = m >>= λ _. n

unfoldable pub pure : {T A : Type 0} → A → Action T A
pure a w = (ok a, w)

unfoldable pub raise : {T A : Type 0} → Action T A
raise w = (thrown, w)

unfoldable pub exhausted : {T A : Type 0} → Action T A
exhausted w = (out_of_fuel, w)

unfoldable pub emit : {T : Type 0} → Event T → Action T (Unit {0})
emit e w = (ok tt, record w { trace = e ∷ w.trace })

-- The present instant.
unfoldable pub instant : {T : Type 0} → Action T ℕ
instant w = (ok w.now, w)

abbrev pub throw_if : {T : Type 0} → Bool → Action T (Unit {0})
throw_if true = raise
throw_if false = pure tt

module _ {T : Type 0} (env : Env T) where
  -- The control goes to the event loop and comes back.
  unfoldable pub pause : Action T (Unit {0})
  pause w = (ok tt, record w { now = suc w.now; queue = w.queue ++ env.arrivals w.now })

  -- The `await` of a call of the queue.
  unfoldable pub await_queue : Action T (Unit {0})
  unfolding pause
  await_queue = do now ← instant; pause; throw_if (env.queue_throws now)

  -- `await maybeAwait(callback(…))`, seen from outside as `e`.
  unfoldable pub call : Event T → Callback → Action T (Unit {0})
  call e throws = do now ← instant; emit e; pause; throw_if (throws now)

  unfoldable pub call_if_given : Event T → Option Callback → Action T (Unit {0})
  unfolding call
  call_if_given e none = pure tt
  call_if_given e (some throws) = call e throws
