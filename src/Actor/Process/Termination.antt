-- ===== src/Actor/Process/Termination.antt =====
-- The loops of packages/actor-system/src/process.ts end once the time is up: every round passes an
-- instant, so fuel above the number of instants that are left is enough.
pub mod Rounds
pub mod Whole
pub mod Call
pub mod Finite
pub mod Drains
pub mod DrainLoop
pub mod OneShot
use tslib.Common.{ℕ, suc, ◌≤◌, ◌<◌, ◌+◌, Bool, true, false, List, arith}
use tslib.Actor.Message.{UserMessage}
use tslib.Actor.Process.Exec.{World, Env, Event, Action, emit, pause}
use tslib.Actor.Process.Triple.{Assertion, Triple, Keeps, post-Triple, emit-Triple, pause-Triple}

module _ {T : Type 0} where
  abbrev pub Any : Assertion T
  Any w = Unit {0}

  -- The fuel never runs out.
  abbrev pub Never : Assertion T
  Never w = ⊥

  -- Progress from `n` in a loop that cannot go on at `limit` or later.
  abbrev pub Progress : ℕ → ℕ → Bool → Assertion T
  Progress limit n true w = (n < limit) × (suc n ≤ w.now)
  Progress limit n false w = n ≤ w.now

  pub emit-Progress :
      (limit n : ℕ) (b : Bool) (e : Event T) → Keeps Any Never (Progress limit n b) (emit e)
  emit-Progress limit n true e = emit-Triple e (Progress limit n true) (λ w p. p)
  emit-Progress limit n false e = emit-Triple e (Progress limit n false) (λ w p. p)

  pub refill-Progress :
      (limit n : ℕ) (b : Bool) (w : World T) (q : List (UserMessage T))
      → Progress limit n b w
      → Progress limit n b (record w { queue = q })
  refill-Progress limit n true w q p = p
  refill-Progress limit n false w q p = p

  pub pause-Progress :
      (env : Env T) (limit n : ℕ) (b : Bool) → Keeps Any Never (Progress limit n b) (pause env)
  pause-Progress env limit n true =
      pause-Triple env (Progress limit n true) (λ w p. (p.0, omega arith))
  pause-Progress env limit n false = pause-Triple env (Progress limit n false) (λ w p. omega arith)

  pub Progress-weaken :
      (limit n : ℕ) (b : Bool) (w : World T) → Progress limit n b w → Progress limit n false w
  Progress-weaken limit n true w p = omega arith
  Progress-weaken limit n false w p = p

-- What keeps a later instant reached keeps an earlier one reached.
pub from_next :
    {T B : Type 0} (limit n : ℕ) {m : Action T B}
    → Keeps Any Never (Progress limit (suc n) false) m
    → Triple Any Never (Progress limit n true) m (λ _. Progress limit n false)
from_next limit n t = record {
  at = λ w p. (post-Triple (λ _. Progress limit (suc n) false) (λ _ _ q. omega arith) t).at w p.1;
}

-- What is left of the fuel outlasts the instants.
abbrev pub Enough : ℕ → ℕ → ℕ → Type 0
Enough limit n fuel = (limit < n + fuel) × (0 < fuel)

-- A round that goes on leaves enough for the next.
pub Enough-next :
    (limit n fuel : ℕ) → Enough limit n (suc fuel) → n < limit → Enough limit (suc n) fuel
Enough-next limit n fuel e h = omega arith

pub not-Enough-zero : (limit n : ℕ) → ¬ Enough limit n 0
not-Enough-zero limit n e = omega arith
