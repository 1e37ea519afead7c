-- ===== src/RedisLock.antt =====
-- packages/actor-system-redis/src/lock.ts, `createRedisLock`, with its scripts. The Redis server and
-- `randomUUID` are parameters. `tokens` is the map of one holder.
pub mod Effects
pub mod Cluster
pub mod Exclusion
pub mod Replies
pub mod Keeping
pub mod Ownership
mod Tests
use Prim.Native.String.{◌++◌}
use tslib.Common.{
  ℕ, ◌<◌, String, ◌≡◌, Bool, true, false, Option, none, some, ltb, eqb, ◌==◌, ◌&&◌, if◌then◌else◌,
}
use tslib.Common.Map
use tslib.Common.Map.{Map}

abbrev pub is_absent : Option String → Bool
is_absent none = true
is_absent (some v) = false

-- `redis.call("GET", KEYS[1]) == ARGV[1]`: a missing key answers `false`, which is no string.
abbrev pub is_value : Option String → String → Bool
is_value none token = false
is_value (some v) token = v == token

-- The commands of a Redis server with state `S`, as Redis documents them: GET, SET NX with or
-- without PX, DEL, PEXPIRE.
pub record Server (S : Type 0) : Type 0 where
  pub get : S → String → Option String
  pub set_nx : S → String → String → Option ℕ → Bool × S
  pub del : S → String → ℕ × S
  pub pexpire : S → String → ℕ → ℕ × S
  pub set_nx_reply :
      (s : S) (k v : String) (ms : Option ℕ) → (set_nx s k v ms).0 ≡ is_absent (get s k)
  pub get_set_nx :
      (s : S) (k v : String) (ms : Option ℕ) (j : String)
      → get (set_nx s k v ms).1 j ≡ (if is_absent (get s k) && (k == j) then some v else get s j)
  pub del_reply : (s : S) (k : String) → (del s k).0 ≡ (if is_absent (get s k) then 0 else 1)
  pub get_del : (s : S) (k j : String) → get (del s k).1 j ≡ (if k == j then none else get s j)
  -- A time to live that is not positive would delete the key.
  pub pexpire_reply :
      (s : S) (k : String) (ms : ℕ)
      → 0 < ms
      → (pexpire s k ms).0 ≡ (if is_absent (get s k) then 0 else 1)
  pub get_pexpire :
      (s : S) (k : String) (ms : ℕ) (j : String) → 0 < ms → get (pexpire s k ms).1 j ≡ get s j

-- What becomes of a command on its way: it is answered, it is run but its answer is lost, or it does
-- not reach the server. Without an answer the call throws.
pub data Fate : Type 0 where
  answered reply_lost unsent : Fate

pub send : {S A : Type 0} → Fate → (S → A × S) → S → Option A × S
send answered command s = let (a, s') = command s in (some a, s')
send reply_lost command s = (none, (command s).1)
send unsent command s = (none, s)

module _ {S : Type 0} (redis : Server S) where
  pub compare_and_delete : String → String → S → ℕ × S
  compare_and_delete key token s =
      if is_value (redis.get s key) token then redis.del s key else (0, s)

  pub compare_and_extend : String → String → ℕ → S → ℕ × S
  compare_and_extend key token millis s =
      if is_value (redis.get s key) token then redis.pexpire s key millis else (0, s)

  pub compare_only : String → String → S → ℕ × S
  compare_only key token s = (if is_value (redis.get s key) token then 1 else 0, s)

  module _ (key_prefix : String) (lock_timeout : ℕ) where
    -- A lock without an expiry has 0 for its timeout.
    pub lease : Option ℕ
    lease = if ltb 0 lock_timeout then some lock_timeout else none

    -- `if (success) { tokens.set(actorId, token); }`; a call that throws keeps the tokens.
    pub after_acquire : Map String → String → String → Option Bool → Map String
    after_acquire tokens actor token none = tokens
    after_acquire tokens actor token (some success) =
        if success then Map.set tokens actor token else tokens

    -- `none` for a call that throws.
    pub try_acquire : Fate → Map String → String → String → S → Option Bool × S × Map String
    unfolding lease after_acquire
    try_acquire fate tokens actor token s =
        let (success, s') = send fate (λ x. redis.set_nx x (key_prefix ++ actor) token lease) s in
        (success, s', after_acquire tokens actor token success)

    pub after_release : Map String → String → Option ℕ → Option Bool × Map String
    after_release tokens actor none = (none, tokens)
    after_release tokens actor (some deleted) = (some (eqb deleted 1), Map.delete tokens actor)

    -- `release` with what `tokens.get(actorId)` found.
    pub release_with : Fate → Map String → String → Option String → S → Option Bool × S × Map String
    unfolding after_release
    release_with fate tokens actor none s = (some false, s, tokens)
    release_with fate tokens actor (some token) s =
        let (deleted, s') = send fate (compare_and_delete (key_prefix ++ actor) token) s in
        let (reply, tokens') = after_release tokens actor deleted in (reply, s', tokens')

    pub release : Fate → Map String → String → S → Option Bool × S × Map String
    unfolding release_with
    release fate tokens actor s = release_with fate tokens actor (Map.get tokens actor) s

    -- The script that `renew` runs.
    pub extend : String → String → S → ℕ × S
    extend key token =
        if ltb 0 lock_timeout
        then compare_and_extend key token lock_timeout
        else compare_only key token

    pub after_renew : Map String → String → Option ℕ → Option Bool × Map String
    after_renew tokens actor none = (none, tokens)
    after_renew tokens actor (some extended) =
        (some (eqb extended 1), if eqb extended 1 then tokens else Map.delete tokens actor)

    -- `renew` with what `tokens.get(actorId)` found.
    pub renew_with : Fate → Map String → String → Option String → S → Option Bool × S × Map String
    unfolding after_renew extend
    renew_with fate tokens actor none s = (some false, s, tokens)
    renew_with fate tokens actor (some token) s =
        let (extended, s') = send fate (extend (key_prefix ++ actor) token) s in
        let (reply, tokens') = after_renew tokens actor extended in (reply, s', tokens')

    pub renew : Fate → Map String → String → S → Option Bool × S × Map String
    unfolding renew_with
    renew fate tokens actor s = renew_with fate tokens actor (Map.get tokens actor) s
