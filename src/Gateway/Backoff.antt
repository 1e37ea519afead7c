-- ===== src/Gateway/Backoff.antt =====
-- packages/gamebase-client/src/backoff.ts, `createBackoff`. The numbers are whole and the fractions
-- are exact: `jitter` is `jitter_num / jitter_den`, at most 1, and a random number in [0, 1) is
-- `r / resolution`.
pub mod Bounds
use tslib.Common.{
  ℕ, zero, suc, ◌+◌, ◌-◌, ◌*◌, min, Bool, true, false, Option, none, some, List, [], ◌∷◌, leb,
  if◌then◌else◌,
}
use Prim.Native.Nat.{◌^◌, ◌/◌}

pub record BackoffOptions : Type 0 where
  pub initial_ms : ℕ
  pub max_ms : ℕ
  pub factor : ℕ
  pub jitter_num : ℕ
  pub jitter_den : ℕ
  -- Nothing stands for no limit.
  pub max_attempts : Option ℕ
  pub resolution : ℕ

abbrev pub default_options : BackoffOptions
default_options = record {
  initial_ms = 500;
  max_ms = 15000;
  factor = 2;
  jitter_num = 1;
  jitter_den = 5;
  max_attempts = none;
  resolution = 2 ^ 53;
}

-- attempts >= maxAttempts
unfoldable pub is_exhausted : BackoffOptions → ℕ → Bool
is_exhausted options attempts = elim options.max_attempts [ none ↦ false | some m ↦ leb m attempts ]

unfoldable pub base_delay : BackoffOptions → ℕ → ℕ
base_delay options attempts = min options.max_ms (options.initial_ms * options.factor ^ attempts)

-- Math.round of `n / d`.
unfoldable pub round : ℕ → ℕ → ℕ
round n d = (2 * n + d) / (2 * d)

-- Math.round(base - spread + random() * spread * 2), with `spread = base * jitter`, over the common
-- denominator of the jitter and the random number.
unfoldable pub jittered : BackoffOptions → ℕ → ℕ → ℕ
unfolding round
jittered options r base =
    round
      (base * (options.jitter_den - options.jitter_num) * options.resolution
        + r * (base * options.jitter_num) * 2)
      (options.jitter_den * options.resolution)

-- The delay, if there is one, and the attempts after it; `r` is what `random` gives.
unfoldable pub next : BackoffOptions → ℕ → ℕ → Option ℕ × ℕ
unfolding is_exhausted base_delay jittered
next options r attempts =
    if is_exhausted options attempts
    then (none, attempts)
    else (some (jittered options r (base_delay options attempts)), suc attempts)

-- The delays of `n` calls without a `reset`; `random` gives the random number after each number of
-- attempts.
unfoldable pub delays : BackoffOptions → (ℕ → ℕ) → ℕ → ℕ → List (Option ℕ)
unfolding next
delays options random zero attempts = []
delays options random (suc n) attempts =
    let (delay, attempts') = next options (random attempts) attempts in
    delay ∷ delays options random n attempts'
