-- ===== src/Actor/Lock.antt =====
-- packages/actor-system/src/inMemory.ts, `createInMemoryLock`: the set of the actors that are locked.
pub mod Flags
mod Tests
use tslib.Common.{String, Bool, true, false, List, [], ◌∷◌, ◌++◌, ◌==◌, if◌then◌else◌}

abbrev pub member : String → List String → Bool
member actor [] = false
member actor (a ∷ others) = if a == actor then true else member actor others

-- Set.prototype.delete: no element of a set stands twice.
abbrev pub without : String → List String → List String
without actor [] = []
without actor (a ∷ others) =
    let rest = without actor others in if a == actor then rest else a ∷ rest

pub try_acquire : List String → String → Bool × List String
try_acquire lock_holders actor =
    if member actor lock_holders then (false, lock_holders) else (true, lock_holders ++ actor ∷ [])

pub release : List String → String → Bool × List String
release lock_holders actor = (member actor lock_holders, without actor lock_holders)

pub data Call : Type 0 where
  acquires releases : String → Call

pub call : List String → Call → Bool × List String
unfolding try_acquire release
call lock_holders (acquires actor) = try_acquire lock_holders actor
call lock_holders (releases actor) = release lock_holders actor

-- The answers to calls, in their order.
pub answers : List String → List Call → List Bool
answers lock_holders [] = []
answers lock_holders (c ∷ cs) = let (answer, next) = call lock_holders c in answer ∷ answers next cs
