-- ===== src/Actor/Queue/Tests.antt =====
-- A run of the in-memory queue of packages/actor-system/src/inMemory.ts.
use tslib.Common.{ℕ, ◌≡◌, List, [], ◌∷◌}
use tslib.Actor.Queue.Refinement.{
  Call, pushes, pops, flushes, sizes, replies, fifo_replies, items, replies-refine-fifo,
}

abbrev history : List (Call ℕ)
history = pushes "a" 1 ∷ pushes "b" 2 ∷ pushes "a" 3 ∷ pops "a" ∷ flushes "a" ∷ sizes "a" ∷ []

replies-refine-fifo_example : replies [] history ≡ fifo_replies (items []) history
replies-refine-fifo_example = replies-refine-fifo [] history
