-- ===== src/RedisAwaiter.antt =====
-- packages/actor-system-redis/src/awaiter.ts, `wait` of `createRedisAwaiter`: the loop that polls the
-- key of a message. What the polls find and what the clock shows are parameters.
pub mod Polls
mod Tests
use tslib.Common.{ℕ, zero, suc, ◌+◌, Bool, true, false, not, ◌&&◌, ltb, if◌then◌else◌}

-- One `redisGet`: the value that `resolve` writes, anything else, or a call that throws.
pub data Poll : Type 0 where
  found missing failed : Poll

pub data Outcome : Type 0 where
  ok : Bool → Outcome
  thrown out_of_fuel : Outcome

-- `poll n` is what poll `n` finds, and `now n` what `Date.now()` shows after it.
module _ (poll : ℕ → Poll) (now : ℕ → ℕ) (start timeout_millis : ℕ) where
  -- After poll `n`: the loop goes on with `rest` while time remains.
  pub ended : ℕ → Bool → Bool → Outcome → Outcome
  ended n answered has_error rest =
      if ltb (now n) (start + timeout_millis)
      then rest
      else (if not answered && has_error then thrown else ok false)

  -- The loop from poll `n` on: whether a poll was answered, and whether one threw.
  pub polls : ℕ → ℕ → Bool → Bool → Outcome
  unfolding ended
  polls zero n answered has_error = out_of_fuel
  polls (suc fuel) n answered has_error = elim (poll n) [
    | found ↦ ok true
    | missing ↦ let rest = polls fuel (suc n) true has_error in ended n true has_error rest
    | failed ↦ let rest = polls fuel (suc n) answered true in ended n answered true rest
  ]

  pub wait : ℕ → Outcome
  unfolding polls
  wait fuel = if ltb 0 timeout_millis then polls fuel 0 false false else ok false
