-- ===== src/Actor/Queue.antt =====
-- packages/actor-system/src/inMemory.ts, `createInMemoryQueue`: one array per actor in a `Map`.
-- An array that `flush` hands out has left the map, so nothing aliases it.
pub mod Refinement
mod Tests
use tslib.Common.{ℕ, suc, String, Option, none, some, List, [], ◌∷◌, ◌++◌, length}
use tslib.Common.Map
use tslib.Common.Map.{Map}

module _ {T : Type 0} where
  pub size : Map (List T) → String → ℕ
  size queues actor = elim (Map.get queues actor) [ none ↦ 0 | some queue ↦ length queue ]

  -- The depth after the push comes back.
  pub push : Map (List T) → String → T → Map (List T) × ℕ
  push queues actor item = elim (Map.get queues actor) [
    | none ↦ (Map.set queues actor (item ∷ []), 1)
    | some queue ↦ (Map.set queues actor (queue ++ item ∷ []), length (queue ++ item ∷ []))
  ]

  -- `shift` on the array: the emptied array stays in the map.
  shifted : Map (List T) → String → List T → Map (List T) × Option T
  shifted queues actor [] = (queues, none)
  shifted queues actor (item ∷ rest) = (Map.set queues actor rest, some item)

  pub pop : Map (List T) → String → Map (List T) × Option T
  unfolding shifted
  pop queues actor = elim (Map.get queues actor) [
    | none ↦ (queues, none)
    | some queue ↦ shifted queues actor queue
  ]

  first : List T → Option T
  first [] = none
  first (item ∷ rest) = some item

  pub peek : Map (List T) → String → Option T
  unfolding first
  peek queues actor = elim (Map.get queues actor) [ none ↦ none | some queue ↦ first queue ]

  -- An empty array stays where it is, any other leaves the map.
  flushed : Map (List T) → String → List T → Map (List T) × List T
  flushed queues actor [] = (queues, [])
  flushed queues actor (item ∷ rest) = (Map.delete queues actor, item ∷ rest)

  pub flush : Map (List T) → String → Map (List T) × List T
  unfolding flushed
  flush queues actor = elim (Map.get queues actor) [
    | none ↦ (queues, [])
    | some queue ↦ flushed queues actor queue
  ]
