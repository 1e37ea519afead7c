-- ===== src/Actor/Process.antt =====
-- packages/actor-system/src/process.ts: `tryToProcess`. Each `while` has fuel.
pub mod Exec
pub mod Drain
pub mod Triple
pub mod Finally
pub mod Delivery
pub mod Invariant
pub mod Loops
pub mod Ownership
pub mod Termination
pub mod Guarantees
mod Tests
use tslib.Common.{
  ℕ, zero, suc, ◌+◌, ◌-◌, min, Bool, true, false, not, ◌&&◌, ◌||◌, Option, none, some, List, [],
  ◌++◌, ltb, eqb, if◌then◌else◌,
}
use tslib.Actor.Message.{AwaiterMeta, is_commit, ids_where}
use Exec.{
  World, Env, Outcome, Action, ok, thrown, out_of_fuel, tried, released, shifted, slept, ◌>>=◌,
  ◌>>◌, pure, exhausted, emit, instant, pause, throw_if, call, call_if_given,
}
use Drain.{size, notify_completions, process_in_mode}

pub record Options : Type 0 where
  pub one_shot : Option Bool
  pub alive_millis : Option ℕ
  pub shiftable : Bool
  pub idle_interval_millis : ℕ

abbrev pub default_idle_interval_millis : ℕ
default_idle_interval_millis = 50

-- `const once = oneShot === true || maybeOneShot`.
pub is_once : Options → Bool
is_once o = elim o.one_shot [
  | none ↦ elim o.alive_millis [ none ↦ true | some _ ↦ false ]
  | some b ↦ b
]

-- The limit on the lifetime: 0 stands for none, as `aliveMillis && aliveMillis > 0` has it.
pub limit : Options → ℕ
limit o = elim o.alive_millis [ none ↦ 0 | some n ↦ n ]

module _ {T : Type 0} (env : Env T) where
  module _ (still_ours : ℕ → Bool) where
    -- One round: the metadata so far, and whether the loop goes on.
    unfoldable pub loop_round : ℕ → List AwaiterMeta → Action T (List AwaiterMeta × Bool)
    loop_round fuel metas = do
      local ← process_in_mode env still_ours fuel env.handler
      notify_completions env (ids_where is_commit (metas ++ local))
      n ← size env
      pure (metas ++ local, not (eqb n 0))

    unfoldable pub process_loop : ℕ → ℕ → List AwaiterMeta → Action T (List AwaiterMeta)
    process_loop zero inner metas = exhausted
    process_loop (suc fuel) inner metas = do
      now ← instant
      if still_ours now
          then (do
            next ← loop_round inner metas
            (if next.1 then process_loop fuel inner next.0 else pure next.0))
          else pure metas

  module _ (options : Options) (start : ℕ) where
    unfoldable pub is_alive : ℕ → Bool
    is_alive now =
        if ltb 0 (limit options)
        then ltb (env.millis now - env.millis start) (limit options)
        else true

    unfoldable pub still_ours : ℕ → Bool
    still_ours now = is_alive now && not (env.lost now)

    -- sleep(Math.min(idleIntervalMillis, remainingMillis()))
    unfoldable pub nap : Action T (Unit {0})
    nap = do
      now ← instant
      let remaining = env.millis start + limit options - env.millis now
      emit (
          slept (
            if ltb 0 (limit options)
            then min options.idle_interval_millis remaining
            else options.idle_interval_millis))
      pause env

    unfoldable pub try_acquire : Action T Bool
    try_acquire = do
      now ← instant
      let granted = env.grants now && not (env.acquire_throws now)
      emit (tried granted)
      pause env
      throw_if (env.acquire_throws now)
      pure granted

    unfoldable pub acquire : ℕ → Action T Bool
    acquire zero = exhausted
    acquire (suc fuel) = do
      granted ← try_acquire
      now ← instant
      if granted
          then pure true
          else if is_once options || not (is_alive now)
          then pure false
          else do nap; acquire fuel

    -- The drain cycles under the lock.
    unfoldable pub cycles : ℕ → List AwaiterMeta → Action T (List AwaiterMeta)
    cycles zero metas = exhausted
    cycles (suc fuel) metas = do
      now ← instant
      if still_ours now
          then (do
            local ← process_loop still_ours fuel fuel []
            later ← instant
            if is_once options || env.lost later || not (is_alive later)
                then pure (metas ++ local)
                else (do nap; cycles fuel (metas ++ local)))
          else pure metas

    -- The body of the `try`, with `shiftOnTimeout`.
    unfoldable pub owned : ℕ → Action T (List AwaiterMeta × Bool)
    owned fuel = do
      metas ← cycles fuel []
      now ← instant
      pure (metas, options.shiftable && not (is_alive now))

  -- `finally`: the lock is released, and an error of the release takes over.
  unfoldable pub release_after : {A : Type 0} → Outcome A → Action T A
  release_after (ok a) = do call env released env.release_throws; pure a
  release_after thrown = do call env released env.release_throws; λ w. (thrown, w)
  release_after out_of_fuel = exhausted

  unfoldable pub finally_release : {A : Type 0} → Action T A → Action T A
  finally_release body w = let (r, w') = body w in release_after r w'

  unfoldable pub shift_if : Bool → Action T (Unit {0})
  shift_if b = if b then call_if_given env shifted env.shift else pure tt

  unfoldable pub run_owned : Options → ℕ → ℕ → Action T (List AwaiterMeta)
  run_owned options start fuel = do
    result ← finally_release (owned options start fuel)
    shift_if result.1
    pure result.0

  -- After `const startMillis = Date.now()`.
  unfoldable pub begun : Options → ℕ → ℕ → Action T (List AwaiterMeta)
  begun options fuel start = do
    acquired ← acquire options start fuel
    if acquired then run_owned options start fuel else pure []

  unfoldable pub try_to_process : Options → ℕ → Action T (List AwaiterMeta)
  unfolding begun
  try_to_process options fuel = do start ← instant; begun options fuel start
