-- ===== src/RedisAwaiter/Tests.antt =====
-- A run of `wait` of packages/actor-system-redis/src/awaiter.ts: the first poll fails, the
-- second finds
-- nothing, the third the value.
use tslib.Common.{ℕ, zero, suc, ◌+◌, ◌*◌, ◌<◌, ◌≤◌, ◌≡◌, refl, true, arith}
use tslib.RedisAwaiter.{Poll, found, missing, failed, ok, ended, polls, wait}
use tslib.RedisAwaiter.Polls.{Tells, Sleeps, wait-Tells}

abbrev poll : ℕ → Poll
poll zero = failed
poll (suc zero) = missing
poll (suc (suc n)) = found

abbrev now : ℕ → ℕ
now n = 100 + n * 50

now-Sleeps : Sleeps poll now 100 120
now-Sleeps n h = omega arith

positive : 0 < 120
positive = omega arith

enough : 120 < 200
enough = omega arith

started : 100 ≤ now 0
started = omega arith

wait-Tells_example : Tells poll now 100 120 (wait poll now 100 120 200)
wait-Tells_example = wait-Tells poll now 100 120 200 positive enough started now-Sleeps

finds : wait poll now 100 120 3 ≡ ok true
unfolding wait polls ended
finds = refl
