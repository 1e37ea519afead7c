-- ===== src/RedisLock/Ownership.antt =====
-- How long a holder of packages/actor-system-redis/src/lock.ts has its lock.
use Prim.Native.String.{◌++◌}
use tslib.Common.{
  ℕ, String, ◌≡◌, ◌≢◌, sym, ap, ◌∙◌, some, eqb, eqb_iff, arith, if◌then◌else◌, false, [], subst,
}
use tslib.Common.Map
use tslib.Common.Map.{Map, get-empty}
use tslib.RedisLock.{Server, Fate}
use tslib.RedisLock.Effects.{Call, operate, releases, acquires, actor_of, value-operate}
use tslib.RedisLock.Cluster.{Cluster, IsFresh, after, Step, calls, forgets, restarts, Reach, Holds}
use tslib.RedisLock.Cluster.{Forgets}
use tslib.RedisLock.{answered, is_absent}
use tslib.RedisLock.Replies.{operate-answers}
use tslib.RedisLock.Exclusion.{IsDistinct, Step-IsDistinct, Reach-IsDistinct, started-IsDistinct}
use tslib.RedisLock.Keeping.{operate-Has}

module _ {S : Type 0} (redis : Server S) (key_prefix : String) (timeouts : ℕ → ℕ) where
  token_of_other :
      (c : Cluster S) (p : ℕ) (call : Call) (fate : Fate) (q : ℕ) (b : String)
      → p ≢ q
      → Map.get ((after redis key_prefix timeouts p call fate c).tokens q) b
        ≡ Map.get (c.tokens q) b
  token_of_other c p call fate q b n = ground (arith, eqb_iff p q)

  after-Holds :
      (c : Cluster S) (p q : ℕ) (call : Call) (fate : Fate) (actor : String)
      → IsDistinct redis key_prefix timeouts c
      → p ≢ q
      → Holds redis key_prefix timeouts c q actor
      → Holds redis key_prefix timeouts (after redis key_prefix timeouts p call fate c) q actor
  after-Holds c p q call fate actor d n (t, h, k) = (
    t,
    token_of_other c p call fate q actor n ∙ h,
    value-operate redis key_prefix (timeouts p) call fate (c.tokens p) c.server
        (key_prefix ++ actor) t k
        (λ u x e. n ((d p q (actor_of call) actor t (x ∙ ap some e) h).0)),
  )

  own-Holds :
      (c : Cluster S) (p q : ℕ) (call : Call) (fate : Fate) (actor : String)
      → IsDistinct redis key_prefix timeouts c
      → p ≡ q
      → call ≢ releases actor
      → Holds redis key_prefix timeouts c q actor
      → Holds redis key_prefix timeouts (after redis key_prefix timeouts p call fate c) q actor
  own-Holds c p q call fate actor d e n (t, h, k) =
      let (x, y) =
        operate-Has redis key_prefix (timeouts p) call fate (c.tokens p) c.server actor t n
          (λ a z. (d p q a actor t z h).1)
          (subst (λ r. Map.get (c.tokens r) actor ≡ some t) (sym e) h, k) in
      (t, ground (arith, x, eqb_iff p q), y)

  -- What does not end the lock that holder `q` has for the actor: all calls of all holders but
  -- its own
  -- release of it, restarts of other holders, and forgetting of other keys.
  pub data Leaves (q : ℕ) (actor : String) (c : Cluster S) : Cluster S → Type 0 where
    other_call :
        (p : ℕ) (call : Call) (fate : Fate)
        → IsFresh c call
        → p ≢ q
        → Leaves q actor c (after redis key_prefix timeouts p call fate c)
    own_call :
        (p : ℕ) (call : Call) (fate : Fate)
        → IsFresh c call
        → p ≡ q
        → call ≢ releases actor
        → Leaves q actor c (after redis key_prefix timeouts p call fate c)
    forgets_other :
        (s' : S)
        → Forgets redis key_prefix timeouts c.server s'
        → redis.get s' (key_prefix ++ actor) ≡ redis.get c.server (key_prefix ++ actor)
        → Leaves q actor c (record c { server = s' })
    restarts_other :
        (p : ℕ)
        → p ≢ q
        → Leaves q actor c (record c { tokens = λ r. if eqb p r then [] else c.tokens r })

  pub data LeavesAll (q : ℕ) (actor : String) (c : Cluster S) : Cluster S → Type 0 where
    stays : LeavesAll q actor c c
    then_leaves :
        {d e : Cluster S} → LeavesAll q actor c d → Leaves q actor d e → LeavesAll q actor c e

  Leaves-Step :
      (q : ℕ) (actor : String) (c d : Cluster S)
      → Leaves q actor c d
      → Step redis key_prefix timeouts c d
  Leaves-Step q actor c d (other_call p call fate f n) = calls p call fate f
  Leaves-Step q actor c d (own_call p call fate f e n) = calls p call fate f
  Leaves-Step q actor c d (forgets_other s' f e) = forgets s' f
  Leaves-Step q actor c d (restarts_other p n) = restarts p

  Leaves-Holds :
      (q : ℕ) (actor : String) (c d : Cluster S)
      → Leaves q actor c d
      → IsDistinct redis key_prefix timeouts c
      → Holds redis key_prefix timeouts c q actor
      → Holds redis key_prefix timeouts d q actor
  Leaves-Holds q actor c d (other_call p call fate f n) i h =
      after-Holds c p q call fate actor i n h
  Leaves-Holds q actor c d (own_call p call fate f e n) i h =
      own-Holds c p q call fate actor i e n h
  Leaves-Holds q actor c d (forgets_other s' f e) i (t, h, k) = (t, h, e ∙ k)
  Leaves-Holds q actor c d (restarts_other p n) i (t, h, k) = (t, ground (arith, eqb_iff p q, h), k)

  LeavesAll-Holds :
      (q : ℕ) (actor : String) (c d : Cluster S)
      → LeavesAll q actor c d
      → IsDistinct redis key_prefix timeouts c
      → Holds redis key_prefix timeouts c q actor
      → Holds redis key_prefix timeouts d q actor × IsDistinct redis key_prefix timeouts d
  LeavesAll-Holds q actor c d stays i h = (h, i)
  LeavesAll-Holds q actor c e (then_leaves {d = d} r l) i h =
      let (h', i') = LeavesAll-Holds q actor c d r i h in
      (
        Leaves-Holds q actor d e l i' h',
        Step-IsDistinct redis key_prefix timeouts (Leaves-Step q actor d e l) i',
      )

  refused :
      (c : Cluster S) (q p : ℕ) (actor token : String)
      → Holds redis key_prefix timeouts c q actor
      → (operate redis key_prefix
          (timeouts p)
          (acquires actor token)
          answered
          (c.tokens p)
          c.server).0
        ≡ some false
  refused c q p actor token (t, h, k) =
      (operate-answers redis key_prefix (timeouts p) (acquires actor token) (c.tokens p) c.server).0
      ∙ ap (λ x. some (is_absent x)) k

  -- A holder that has the lock of an actor, in whatever state the holders can come to, keeps it
  -- through all calls of all holders but its own release of it, lost answers included, and through
  -- restarts of other holders, as long as the server does not forget its key; all the while every
  -- answered `tryAcquire` of the actor, by any holder, is refused.
  pub Holds-lasts :
      (s : S) (c d : Cluster S) (q : ℕ) (actor : String)
      → Reach redis key_prefix timeouts (record { server = s; tokens = λ r. [] }) c
      → Holds redis key_prefix timeouts c q actor
      → LeavesAll q actor c d
      → Holds redis key_prefix timeouts d q actor
        × ((p : ℕ) (token : String)
            → (operate redis key_prefix
                (timeouts p)
                (acquires actor token)
                answered
                (d.tokens p)
                d.server).0
              ≡ some false)
  Holds-lasts s c d q actor r h l =
      let (k, i) =
        LeavesAll-Holds q actor c d l
          (Reach-IsDistinct redis key_prefix timeouts r
            (started-IsDistinct redis key_prefix timeouts s))
          h in
      (k, λ p token. refused d q p actor token k)
