-- ===== src/RedisQueue.antt =====
-- packages/actor-system-redis/src/queue.ts, `createRedisQueue`. The list commands of the Redis server
-- and the codec are parameters.
pub mod Flush
pub mod Refinement
mod Tests
use Prim.Native.String.{◌++◌}
use tslib.Common.{
  ℕ, zero, suc, ◌<◌, String, ◌≡◌, Bool, true, false, Option, none, some, List, [], ◌∷◌, length,
  ◌==◌, if◌then◌else◌,
}
use mathlib.Core.List
use mathlib.Core.Option

-- The first item of a list, and what is left when the first `n` are trimmed away.
abbrev pub first {ℓ} : {A : Type ℓ} → List A → Option A
first [] = none
first (x ∷ xs) = some x

abbrev pub drop {ℓ} : {A : Type ℓ} → ℕ → List A → List A
drop zero xs = xs
drop (suc n) [] = []
drop (suc n) (x ∷ xs) = drop n xs

-- The commands of a Redis server with state `S`, as Redis documents them: LLEN, RPUSH, EXPIRE, LPOP,
-- LINDEX key 0, LRANGE key 0 -1, LTRIM key n -1. `items` is the list of a key; a key that is not
-- there
-- is an empty list.
pub record ListServer (S : Type 0) : Type 0 where
  pub items : S → String → List String
  pub llen : S → String → ℕ
  pub rpush : S → String → String → ℕ × S
  pub expire : S → String → ℕ → S
  pub lpop : S → String → Option String × S
  pub lindex_0 : S → String → Option String
  pub lrange_all : S → String → List String
  pub ltrim_from : S → String → ℕ → S
  pub llen_reply : (s : S) (k : String) → llen s k ≡ length (items s k)
  pub rpush_reply : (s : S) (k v : String) → (rpush s k v).0 ≡ suc (length (items s k))
  pub items_rpush :
      (s : S) (k v j : String)
      → items (rpush s k v).1 j ≡ (if k == j then List.◌++◌ (items s k) (v ∷ []) else items s j)
  -- EXPIRE with a positive time, while that has not passed.
  pub items_expire :
      (s : S) (k : String) (ttl : ℕ) (j : String) → 0 < ttl → items (expire s k ttl) j ≡ items s j
  pub lpop_reply : (s : S) (k : String) → (lpop s k).0 ≡ first (items s k)
  pub items_lpop :
      (s : S) (k j : String)
      → items (lpop s k).1 j ≡ (if k == j then drop 1 (items s k) else items s j)
  pub lindex_reply : (s : S) (k : String) → lindex_0 s k ≡ first (items s k)
  pub lrange_reply : (s : S) (k : String) → lrange_all s k ≡ items s k
  pub items_ltrim :
      (s : S) (k : String) (n : ℕ) (j : String)
      → items (ltrim_from s k n) j ≡ (if k == j then drop n (items s k) else items s j)

-- The codec; `none` is a `decode` that throws.
pub record Codec (T : Type 0) : Type 0 where
  pub encode : T → String
  pub decode : String → Option T
  pub decode-encode : (x : T) → decode (encode x) ≡ some x

-- The result of a call: `thrown` for a value that does not decode.
pub data Result (A : Type 0) : Type 0 where
  ok : A → Result A
  thrown : Result A

module _ {S T : Type 0} (redis : ListServer S) (codec : Codec T) where
  -- `codec.decode` on what a command found, if it found something.
  pub decoded : Option String → Result (Option T)
  decoded none = ok none
  decoded (some value) = elim (codec.decode value) [ none ↦ thrown | some x ↦ ok (some x) ]

  pub decode_all : List String → Result (List T)
  decode_all [] = ok []
  decode_all (value ∷ values) =
      let rest = decode_all values in
      elim (codec.decode value) [
        | none ↦ thrown
        | some x ↦ elim rest [ ok xs ↦ ok (x ∷ xs) | thrown ↦ thrown ]
      ]

  module _ (key_prefix : String) (ttl_seconds : ℕ) where
    pub size : String → S → ℕ
    size actor s = redis.llen s (key_prefix ++ actor)

    pub push : String → T → S → ℕ × S
    push actor item s =
        let (depth, s') = redis.rpush s (key_prefix ++ actor) (codec.encode item) in
        (depth, redis.expire s' (key_prefix ++ actor) ttl_seconds)

    -- A value that does not decode is gone all the same.
    pub pop : String → S → Result (Option T) × S
    unfolding decoded
    pop actor s = let (value, s') = redis.lpop s (key_prefix ++ actor) in (decoded value, s')

    pub peek : String → S → Result (Option T)
    unfolding decoded
    peek actor s = decoded (redis.lindex_0 s (key_prefix ++ actor))

    -- `flush` with what its LRANGE found. `others` is what happens between
    -- the two, or before the return where there is no LTRIM.
    pub flush_found : (S → S) → String → List String → S → Result (List T) × S
    unfolding decode_all
    flush_found others actor [] s = (ok [], others s)
    flush_found others actor (v ∷ values) s = elim (decode_all (v ∷ values)) [
      | thrown ↦ (thrown, others s)
      | ok xs ↦ (ok xs, redis.ltrim_from (others s) (key_prefix ++ actor) (suc (length values)))
    ]

    pub flush : (S → S) → String → S → Result (List T) × S
    unfolding flush_found
    flush others actor s = flush_found others actor (redis.lrange_all s (key_prefix ++ actor)) s
