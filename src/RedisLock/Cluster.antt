-- ===== src/RedisLock/Cluster.antt =====
-- Several holders of packages/actor-system-redis/src/lock.ts on one Redis server, and all that can
-- happen to them.
use Prim.Native.String.{◌++◌}
use tslib.Common.{ℕ, String, ◌≡◌, ◌≢◌, none, some, [], eqb, ◌⊎◌, if◌then◌else◌}
use tslib.Common.Map
use tslib.Common.Map.{Map}
use tslib.RedisLock.{Server, Fate}
use tslib.RedisLock.Effects.{Call, acquires, releases, renews, operate}

-- Each holder is a `createRedisLock` with its own `tokens`.
pub record Cluster (S : Type 0) : Type 0 where
  pub server : S
  pub tokens : ℕ → Map String

-- `randomUUID` draws what no holder keeps.
abbrev pub IsFresh : {S : Type 0} → Cluster S → Call → Type 0
IsFresh c (acquires actor token) = (q : ℕ) (b : String) → Map.get (c.tokens q) b ≢ some token
IsFresh c (releases actor) = Unit
IsFresh c (renews actor) = Unit

module _ {S : Type 0} (redis : Server S) (key_prefix : String) (timeouts : ℕ → ℕ) where
  -- Holder `p` makes a call.
  abbrev pub after : ℕ → Call → Fate → Cluster S → Cluster S
  after p call fate c =
      let result = operate redis key_prefix (timeouts p) call fate (c.tokens p) c.server in
      record { server = result.1; tokens = λ q. if eqb p q then result.2 else c.tokens q }

  -- What a lease's end, an eviction or a deletion by hand leaves.
  abbrev pub Forgets : S → S → Type 0
  Forgets s s' = (k : String) → (redis.get s' k ≡ none) ⊎ (redis.get s' k ≡ redis.get s k)

  pub data Step (c : Cluster S) : Cluster S → Type 0 where
    calls : (p : ℕ) (call : Call) (fate : Fate) → IsFresh c call → Step c (after p call fate c)
    forgets : (s' : S) → Forgets c.server s' → Step c (record c { server = s' })
    -- A holder's process ends and another starts, without tokens.
    restarts : (p : ℕ) → Step c (record c { tokens = λ q. if eqb p q then [] else c.tokens q })

  pub data Reach (c : Cluster S) : Cluster S → Type 0 where
    here : Reach c c
    next : {d e : Cluster S} → Reach c d → Step d e → Reach c e

  -- Holder `p` has the lock of `actor`, by its own token.
  abbrev pub Holds : Cluster S → ℕ → String → Type 0
  Holds c p actor =
      (t : String) × (Map.get (c.tokens p) actor ≡ some t)
      × (redis.get c.server (key_prefix ++ actor) ≡ some t)
