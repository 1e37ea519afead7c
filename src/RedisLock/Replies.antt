-- ===== src/RedisLock/Replies.antt =====
-- What the answers of packages/actor-system-redis/src/lock.ts say.
use Prim.Native.String.{◌++◌}
use tslib.Common.{
  ℕ, String, ◌≡◌, refl, Bool, false, Option, none, some, eq_refl, arith, ◌||◌, if◌then◌else◌,
  ltb→lt,
}
use tslib.Common.Map
use tslib.Common.Map.{Map, get-set, get-delete}
use tslib.RedisLock.{
  Server, send, compare_and_delete, compare_and_extend, compare_only, try_acquire, release, renew,
  release_with, renew_with, answered, lease, after_acquire, after_release, after_renew, extend,
  is_value, is_absent,
}
use tslib.RedisLock.Effects.{Call, acquires, releases, renews, operate, actor_of}

-- Whether the holder's token for an actor is what the server has for it.
abbrev pub is_held : Option String → Option String → Bool
is_held none found = false
is_held (some token) found = is_value found token

module _ {S : Type 0} (redis : Server S) (key_prefix : String) (lock_timeout : ℕ) where
  abbrev pub held : Map String → String → S → Bool
  held tokens actor s = is_held (Map.get tokens actor) (redis.get s (key_prefix ++ actor))

  -- What the call should answer.
  abbrev pub verdict : Call → Map String → S → Bool
  verdict (acquires actor token) tokens s = is_absent (redis.get s (key_prefix ++ actor))
  verdict (releases actor) tokens s = held tokens actor s
  verdict (renews actor) tokens s = held tokens actor s

  -- Whether the holder should have the lock afterwards.
  abbrev pub held_after : Call → Map String → S → Bool
  held_after (acquires actor token) tokens s =
      is_absent (redis.get s (key_prefix ++ actor)) || held tokens actor s
  held_after (releases actor) tokens s = false
  held_after (renews actor) tokens s = held tokens actor s

  abbrev Answers : Call → Map String → S → Type 0
  Answers call tokens s =
      ((operate redis key_prefix lock_timeout call answered tokens s).0
        ≡ some (verdict call tokens s))
      × (held (operate redis key_prefix lock_timeout call answered tokens s).2 (actor_of call)
            (operate redis key_prefix lock_timeout call answered tokens s).1
          ≡ held_after call tokens s)

  acquire-Answers :
      (actor token : String) (tokens : Map String) (s : S) → Answers (acquires actor token) tokens s
  unfolding try_acquire send after_acquire
  acquire-Answers actor token tokens s =
      let key = key_prefix ++ actor in
      let ms = lease redis key_prefix lock_timeout in
      ground (
        arith,
        eq_refl key,
        eq_refl token,
        eq_refl actor,
        redis.set_nx_reply s key token ms,
        redis.get_set_nx s key token ms key,
        get-set tokens actor actor token,
      )

  deletes-answer :
      (key token : String) (s : S)
      → (compare_and_delete redis key token s).0
        ≡ (if is_value (redis.get s key) token then 1 else 0)
  unfolding compare_and_delete
  deletes-answer key token s = ground (arith, redis.del_reply s key)

  pub extends-answer :
      (key token : String) (s : S)
      → ((extend redis key_prefix lock_timeout key token s).0
          ≡ (if is_value (redis.get s key) token then 1 else 0))
        × (redis.get (extend redis key_prefix lock_timeout key token s).1 key ≡ redis.get s key)
  unfolding extend compare_and_extend compare_only
  extends-answer key token s = ground (
    arith,
    ltb→lt 0 lock_timeout,
    redis.pexpire_reply s key lock_timeout,
    redis.get_pexpire s key lock_timeout key,
  )

  release-answers :
      (actor : String) (tokens : Map String) (s : S) (o : Option String)
      → Map.get tokens actor ≡ o
      → ((release_with redis key_prefix lock_timeout answered tokens actor o s).0
          ≡ some (is_held o (redis.get s (key_prefix ++ actor))))
        × (Map.get (release_with redis key_prefix lock_timeout answered tokens actor o s).2 actor
            ≡ none)
  unfolding release_with send after_release
  release-answers actor tokens s none e = (refl, e)
  release-answers actor tokens s (some t) e = ground (
    arith,
    deletes-answer (key_prefix ++ actor) t s,
    eq_refl actor,
    get-delete tokens actor actor,
  )

  renew-answers :
      (actor : String) (tokens : Map String) (s : S) (o : Option String)
      → Map.get tokens actor ≡ o
      → let result = renew_with redis key_prefix lock_timeout answered tokens actor o s in
        (result.0 ≡ some (is_held o (redis.get s (key_prefix ++ actor))))
        × (held result.2 actor result.1 ≡ is_held o (redis.get s (key_prefix ++ actor)))
  unfolding renew_with send after_renew
  renew-answers actor tokens s none e = (refl, rw e refl)
  renew-answers actor tokens s (some t) e = ground (
    arith,
    extends-answer (key_prefix ++ actor) t s,
    eq_refl actor,
    get-delete tokens actor actor,
  )

  -- An answered call tells the truth: `tryAcquire` whether the lock was free, `release` and `renew`
  -- whether the holder's token was still what the server has. After it the holder has the lock
  -- exactly if it took it or had it before (`tryAcquire`), never (`release`), or exactly if it had it
  -- before (`renew`).
  pub operate-answers :
      (call : Call) (tokens : Map String) (s : S)
      → ((operate redis key_prefix lock_timeout call answered tokens s).0
          ≡ some (verdict call tokens s))
        × (held
              (operate redis key_prefix lock_timeout call answered tokens s).2
              (actor_of call)
              (operate redis key_prefix lock_timeout call answered tokens s).1
            ≡ held_after call tokens s)
  unfolding release renew
  operate-answers (acquires actor token) tokens s = acquire-Answers actor token tokens s
  operate-answers (releases actor) tokens s =
      let (reply, gone) = release-answers actor tokens s (Map.get tokens actor) refl in
      (reply, rw gone refl)
  operate-answers (renews actor) tokens s = renew-answers actor tokens s (Map.get tokens actor) refl
