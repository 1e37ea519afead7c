-- ===== src/RedisLock/Effects.antt =====
-- What one call of packages/actor-system-redis/src/lock.ts does to the server and to the tokens.
use Prim.Native.String.{◌++◌}
use tslib.Common.{
  ℕ, String, ◌≡◌, ◌≢◌, refl, Bool, true, false, Option, none, some, eq_iff, arith, ◌⊎◌, inl, inr,
}
use tslib.Common.Map
use tslib.Common.Map.{Map, get-set, get-delete}
use tslib.RedisLock.{
  Server, Fate, send, compare_and_delete, compare_and_extend, compare_only, try_acquire, release,
  renew, release_with, renew_with, answered, reply_lost, unsent, lease, after_acquire,
  after_release, after_renew, extend,
}

-- One call of a holder; `acquires` carries the token that `randomUUID` draws.
pub data Call : Type 0 where
  acquires : String → String → Call
  releases renews : String → Call

abbrev pub actor_of : Call → String
actor_of (acquires actor token) = actor
actor_of (releases actor) = actor
actor_of (renews actor) = actor

module _ {S : Type 0} (redis : Server S) (key_prefix : String) (lock_timeout : ℕ) where
  abbrev pub operate : Call → Fate → Map String → S → Option Bool × S × Map String
  operate (acquires actor token) fate tokens s =
      try_acquire redis key_prefix lock_timeout fate tokens actor token s
  operate (releases actor) fate tokens s = release redis key_prefix lock_timeout fate tokens actor s
  operate (renews actor) fate tokens s = renew redis key_prefix lock_timeout fate tokens actor s

  -- The scripts leave a value that is not the token's alone.
  Keeps : (k v key token : String) → (S → ℕ × S) → Type 0
  Keeps k v key token command =
      (s : S) → redis.get s k ≡ some v → token ≢ v → redis.get (command s).1 k ≡ some v

  compare_and_delete-Keeps :
      (k v key token : String) → Keeps k v key token (compare_and_delete redis key token)
  unfolding Keeps compare_and_delete
  compare_and_delete-Keeps k v key token s h n =
      ground (arith, eq_iff key k, eq_iff v token, redis.get_del s key k)

  extend-Keeps :
      (k v key token : String)
      → Keeps k v key token (extend redis key_prefix lock_timeout key token)
  unfolding Keeps extend compare_and_extend compare_only
  extend-Keeps k v key token s h n = ground (arith, redis.get_pexpire s key lock_timeout k)

  send-Keeps :
      (k v key token : String) (fate : Fate) (command : S → ℕ × S) (s : S)
      → Keeps k v key token command
      → redis.get s k ≡ some v
      → token ≢ v
      → redis.get (send fate command s).1 k ≡ some v
  unfolding Keeps send
  send-Keeps k v key token answered command s kept h n = kept s h n
  send-Keeps k v key token reply_lost command s kept h n = kept s h n
  send-Keeps k v key token unsent command s kept h n = h

  -- `SET NX` leaves every value alone.
  pub value-set_nx :
      (k v key token : String) (ms : Option ℕ) (fate : Fate) (s : S)
      → redis.get s k ≡ some v
      → redis.get (send fate (λ x. redis.set_nx x key token ms) s).1 k ≡ some v
  unfolding send
  value-set_nx k v key token ms answered s h =
      ground (arith, eq_iff key k, redis.get_set_nx s key token ms k)
  value-set_nx k v key token ms reply_lost s h =
      ground (arith, eq_iff key k, redis.get_set_nx s key token ms k)
  value-set_nx k v key token ms unsent s h = h

  value-release :
      (k v : String) (fate : Fate) (tokens : Map String) (actor : String) (o : Option String)
      (s : S)
      → redis.get s k ≡ some v
      → ((t : String) → o ≡ some t → t ≢ v)
      → redis.get (release_with redis key_prefix lock_timeout fate tokens actor o s).1 k ≡ some v
  unfolding release_with
  value-release k v fate tokens actor none s h n = h
  value-release k v fate tokens actor (some t) s h n =
      send-Keeps k v (key_prefix ++ actor) t fate (compare_and_delete redis (key_prefix ++ actor) t)
        s (compare_and_delete-Keeps k v (key_prefix ++ actor) t) h (n t refl)

  value-renew :
      (k v : String) (fate : Fate) (tokens : Map String) (actor : String) (o : Option String)
      (s : S)
      → redis.get s k ≡ some v
      → ((t : String) → o ≡ some t → t ≢ v)
      → redis.get (renew_with redis key_prefix lock_timeout fate tokens actor o s).1 k ≡ some v
  unfolding renew_with
  value-renew k v fate tokens actor none s h n = h
  value-renew k v fate tokens actor (some t) s h n =
      send-Keeps k v (key_prefix ++ actor) t fate
        (extend redis key_prefix lock_timeout (key_prefix ++ actor) t) s
        (extend-Keeps k v (key_prefix ++ actor) t) h (n t refl)

  -- A call of a holder whose token for the actor is another one leaves a value alone.
  pub value-operate :
      (call : Call) (fate : Fate) (tokens : Map String) (s : S) (k v : String)
      → redis.get s k ≡ some v
      → ((t : String) → Map.get tokens (actor_of call) ≡ some t → t ≢ v)
      → redis.get (operate call fate tokens s).1 k ≡ some v
  unfolding try_acquire release renew
  value-operate (acquires actor token) fate tokens s k v h n =
      value-set_nx k v (key_prefix ++ actor) token (lease redis key_prefix lock_timeout) fate s h
  value-operate (releases actor) fate tokens s k v h n =
      value-release k v fate tokens actor (Map.get tokens actor) s h n
  value-operate (renews actor) fate tokens s k v h n =
      value-renew k v fate tokens actor (Map.get tokens actor) s h n

  after_acquire-new :
      (tokens : Map String) (actor token : String) (o : Option Bool) (b t : String)
      → Map.get (after_acquire redis key_prefix lock_timeout tokens actor token o) b ≡ some t
      → (Map.get tokens b ≡ some t) ⊎ ((actor ≡ b) × (token ≡ t))
  unfolding after_acquire
  after_acquire-new tokens actor token none b t h = inl h
  after_acquire-new tokens actor token (some false) b t h = inl h
  after_acquire-new tokens actor token (some true) b t h =
      ground (arith, eq_iff actor b, get-set tokens actor b token)

  after_release-old :
      (tokens : Map String) (actor : String) (o : Option ℕ) (b t : String)
      → Map.get (after_release redis key_prefix lock_timeout tokens actor o).1 b ≡ some t
      → Map.get tokens b ≡ some t
  unfolding after_release
  after_release-old tokens actor none b t h = h
  after_release-old tokens actor (some n) b t h =
      ground (arith, eq_iff actor b, get-delete tokens actor b)

  after_renew-old :
      (tokens : Map String) (actor : String) (o : Option ℕ) (b t : String)
      → Map.get (after_renew redis key_prefix lock_timeout tokens actor o).1 b ≡ some t
      → Map.get tokens b ≡ some t
  unfolding after_renew
  after_renew-old tokens actor none b t h = h
  after_renew-old tokens actor (some n) b t h =
      ground (arith, eq_iff actor b, get-delete tokens actor b)

  release_with-old :
      (fate : Fate) (tokens : Map String) (actor : String) (o : Option String) (s : S)
      (b t : String)
      → Map.get (release_with redis key_prefix lock_timeout fate tokens actor o s).2 b ≡ some t
      → Map.get tokens b ≡ some t
  unfolding release_with
  release_with-old fate tokens actor none s b t h = h
  release_with-old fate tokens actor (some token) s b t h =
      after_release-old tokens actor
        (send fate (compare_and_delete redis (key_prefix ++ actor) token) s).0 b t h

  renew_with-old :
      (fate : Fate) (tokens : Map String) (actor : String) (o : Option String) (s : S)
      (b t : String)
      → Map.get (renew_with redis key_prefix lock_timeout fate tokens actor o s).2 b ≡ some t
      → Map.get tokens b ≡ some t
  unfolding renew_with
  renew_with-old fate tokens actor none s b t h = h
  renew_with-old fate tokens actor (some token) s b t h =
      after_renew-old tokens actor
        (send fate (extend redis key_prefix lock_timeout (key_prefix ++ actor) token) s).0 b t h

  -- A call brings in no token but the one that it draws.
  pub tokens-operate :
      (call : Call) (fate : Fate) (tokens : Map String) (s : S) (b t : String)
      → Map.get (operate call fate tokens s).2 b ≡ some t
      → (Map.get tokens b ≡ some t) ⊎ (call ≡ acquires b t)
  unfolding try_acquire release renew
  tokens-operate (acquires actor token) fate tokens s b t h =
      elim (after_acquire-new tokens actor token
        (send fate
          (λ x. redis.set_nx x (key_prefix ++ actor) token (lease redis key_prefix lock_timeout))
          s).0
        b t h) [ inl e ↦ inl e | inr (p, q) ↦ inr (rw (p, q) refl) ]
  tokens-operate (releases actor) fate tokens s b t h =
      inl (release_with-old fate tokens actor (Map.get tokens actor) s b t h)
  tokens-operate (renews actor) fate tokens s b t h =
      inl (renew_with-old fate tokens actor (Map.get tokens actor) s b t h)
