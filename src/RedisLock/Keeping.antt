-- ===== src/RedisLock/Keeping.antt =====
-- A lock of packages/actor-system-redis/src/lock.ts stays with its holder through all that others do.
use Prim.Native.String.{◌++◌}
use tslib.Common.{
  ℕ, String, ◌≡◌, ◌≢◌, refl, sym, ap, ◌∙◌, true, Option, none, some, ◌==◌, eq_iff, arith, ltb→lt,
  Bool-cases, inl, inr,
}
use tslib.Common.Map
use tslib.Common.Map.{Map, get-set, get-delete}
use tslib.RedisLock.{
  Server, Fate, send, answered, reply_lost, unsent, compare_and_extend, compare_only, try_acquire,
  release, renew, release_with, renew_with, after_acquire, after_release, after_renew, extend,
  lease,
}
use tslib.RedisLock.Effects.{Call, acquires, releases, renews, operate, value-set_nx, value-operate}
use tslib.RedisLock.Replies.{extends-answer}

module _ {S : Type 0} (redis : Server S) (key_prefix : String) (lock_timeout : ℕ) where
  -- The holder of the lock of `b` has the token `t`.
  abbrev Has : Map String → S → String → String → Type 0
  Has tokens s b t = (Map.get tokens b ≡ some t) × (redis.get s (key_prefix ++ b) ≡ some t)

  same_key : (a b : String) → (a == b) ≡ true → key_prefix ++ a ≡ key_prefix ++ b
  same_key a b e = ap (λ x. key_prefix ++ x) ((eq_iff a b).0 e)

  acquire-tokens :
      (fate : Fate) (tokens : Map String) (s : S) (a token b t : String)
      → Has tokens s b t
      → Map.get (try_acquire redis key_prefix lock_timeout fate tokens a token s).2 b ≡ some t
  unfolding try_acquire send after_acquire
  acquire-tokens answered tokens s a token b t h = ground (
    arith,
    h.0,
    h.1,
    same_key a b,
    get-set tokens a b token,
    redis.set_nx_reply s (key_prefix ++ a) token (lease redis key_prefix lock_timeout),
  )
  acquire-tokens reply_lost tokens s a token b t h = h.0
  acquire-tokens unsent tokens s a token b t h = h.0

  release_with-tokens :
      (fate : Fate) (tokens : Map String) (s : S) (a b t : String) (o : Option String)
      → a ≢ b
      → Map.get tokens b ≡ some t
      → Map.get (release_with redis key_prefix lock_timeout fate tokens a o s).2 b ≡ some t
  unfolding release_with send after_release
  release_with-tokens fate tokens s a b t none n h = h
  release_with-tokens answered tokens s a b t (some u) n h =
      ground (arith, eq_iff a b, get-delete tokens a b)
  release_with-tokens reply_lost tokens s a b t (some u) n h = h
  release_with-tokens unsent tokens s a b t (some u) n h = h

  renew_with-tokens :
      (fate : Fate) (tokens : Map String) (s : S) (a b t : String) (o : Option String)
      → Map.get tokens a ≡ o
      → Has tokens s b t
      → Map.get (renew_with redis key_prefix lock_timeout fate tokens a o s).2 b ≡ some t
  unfolding renew_with send after_renew
  renew_with-tokens fate tokens s a b t none e h = h.0
  renew_with-tokens answered tokens s a b t (some u) e h = elim (Bool-cases (a == b)) [
    | inl y ↦
        let x : some u ≡ some t = sym e ∙ ap (Map.get tokens) ((eq_iff a b).0 y) ∙ h.0 in
        ground (
          arith,
          h.0,
          h.1,
          x,
          same_key a b,
          eq_iff t t,
          (extends-answer redis key_prefix lock_timeout (key_prefix ++ a) u s).0,
        )
    | inr y ↦ ground (arith, h.0, get-delete tokens a b)
  ]
  renew_with-tokens reply_lost tokens s a b t (some u) e h = h.0
  renew_with-tokens unsent tokens s a b t (some u) e h = h.0

  extend-elsewhere :
      (key token : String) (s : S) (j : String)
      → redis.get (extend redis key_prefix lock_timeout key token s).1 j ≡ redis.get s j
  unfolding extend compare_and_extend compare_only
  extend-elsewhere key token s j =
      ground (arith, ltb→lt 0 lock_timeout, redis.get_pexpire s key lock_timeout j)

  renew_with-server :
      (fate : Fate) (tokens : Map String) (s : S) (a k v : String) (o : Option String)
      → redis.get s k ≡ some v
      → redis.get (renew_with redis key_prefix lock_timeout fate tokens a o s).1 k ≡ some v
  unfolding renew_with send
  renew_with-server fate tokens s a k v none h = h
  renew_with-server answered tokens s a k v (some u) h =
      extend-elsewhere (key_prefix ++ a) u s k ∙ h
  renew_with-server reply_lost tokens s a k v (some u) h =
      extend-elsewhere (key_prefix ++ a) u s k ∙ h
  renew_with-server unsent tokens s a k v (some u) h = h

  -- A holder keeps a lock through all calls of its own but the release of this lock.
  pub operate-Has :
      (call : Call) (fate : Fate) (tokens : Map String) (s : S) (b t : String)
      → call ≢ releases b
      → ((a : String) → Map.get tokens a ≡ some t → a ≡ b)
      → Has tokens s b t
      → Has
          (operate redis key_prefix lock_timeout call fate tokens s).2
          (operate redis key_prefix lock_timeout call fate tokens s).1
          b
          t
  unfolding try_acquire release renew
  operate-Has (acquires a token) fate tokens s b t n own h = (
    acquire-tokens fate tokens s a token b t h,
    value-set_nx redis key_prefix lock_timeout (key_prefix ++ b) t (key_prefix ++ a) token
        (lease redis key_prefix lock_timeout) fate s h.1,
  )
  operate-Has (releases a) fate tokens s b t n own h =
      let other : a ≢ b = λ e. n (ap releases e) in
      (
        release_with-tokens fate tokens s a b t (Map.get tokens a) other h.0,
        value-operate redis key_prefix lock_timeout (releases a) fate tokens s (key_prefix ++ b) t
            h.1 (λ u x e. other (own a (x ∙ ap some e))),
      )
  operate-Has (renews a) fate tokens s b t n own h = (
    renew_with-tokens fate tokens s a b t (Map.get tokens a) refl h,
    renew_with-server fate tokens s a (key_prefix ++ b) t (Map.get tokens a) h.1,
  )
