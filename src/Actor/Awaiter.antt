-- ===== src/Actor/Awaiter.antt =====
-- packages/actor-system/src/inMemory.ts, `createInMemoryAwaiter`. A promise is a number, in the order
-- of the calls of `wait`; `settled` lists the promises with their results, the first one first.
pub mod Outcomes
mod Tests
use Prim.Native.String.{◌++◌}
use tslib.Common.{
  ℕ, suc, String, Bool, true, false, Option, none, some, List, [], ◌∷◌, ltb, if◌then◌else◌,
}
use mathlib.Core.List
use tslib.Common.Map
use tslib.Common.Map.{Map}

pub record Awaiter : Type 0 where
  pub resolvers : Map ℕ
  pub promises : ℕ
  pub settled : List (ℕ × Bool)
  -- The timers that have been set, with their times.
  pub timers : List (String × ℕ)

abbrev pub started : Awaiter
started = record { resolvers = []; promises = 0; settled = []; timers = [] }

pub finish_with : Awaiter → String → Bool → Option ℕ → Awaiter
finish_with awaiter id result none = awaiter
finish_with awaiter id result (some promise) = record awaiter {
  resolvers = Map.delete awaiter.resolvers id;
  settled = List.◌++◌ awaiter.settled ((promise, result) ∷ []);
}

-- The resolver that the id has, if any, is called and goes.
pub finish : Awaiter → String → Bool → Awaiter
unfolding finish_with
finish awaiter id result = finish_with awaiter id result (Map.get awaiter.resolvers id)

-- The promise of the call is the number of promises before it.
pub wait : Awaiter → String → String → ℕ → Awaiter
wait awaiter actor_id message_id timeout_millis = record awaiter {
  resolvers = Map.set awaiter.resolvers (actor_id ++ message_id) awaiter.promises;
  promises = suc awaiter.promises;
  timers =
      if ltb 0 timeout_millis
      then (actor_id ++ message_id, timeout_millis) ∷ awaiter.timers
      else awaiter.timers;
}

pub resolve : Awaiter → String → String → Awaiter
unfolding finish
resolve awaiter actor_id message_id = finish awaiter (actor_id ++ message_id) true

-- What happens to an awaiter. `expires` is a timer for the id that goes off, of this wait or of an
-- earlier one; histories with timers that were never set are not left out.
pub data Event : Type 0 where
  waits : (actor_id message_id : String) (timeout_millis : ℕ) → Event
  resolves : (actor_id message_id : String) → Event
  expires : (id : String) → Event

pub happen : Awaiter → Event → Awaiter
unfolding wait resolve finish
happen awaiter (waits actor_id message_id timeout_millis) =
    wait awaiter actor_id message_id timeout_millis
happen awaiter (resolves actor_id message_id) = resolve awaiter actor_id message_id
happen awaiter (expires id) = finish awaiter id false

pub run : List Event → Awaiter → Awaiter
run [] awaiter = awaiter
run (e ∷ es) awaiter = run es (happen awaiter e)
