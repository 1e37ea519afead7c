-- ===== src/Actor/Lock/Tests.antt =====
-- Runs of the lock of packages/actor-system/src/inMemory.ts.
use tslib.Common.{◌≡◌, List, [], ◌∷◌}
use tslib.Actor.Lock.{Call, acquires, releases, answers}
use tslib.Actor.Lock.Flags.{flag_answers, answers-refine-flags}

abbrev calls : List Call
calls = acquires "a" ∷ acquires "a" ∷ acquires "b" ∷ releases "a" ∷ releases "a" ∷ acquires "a" ∷ []

answers-refine-flags_example : answers [] calls ≡ flag_answers [] calls
answers-refine-flags_example = answers-refine-flags calls
