-- ===== src/RedisLock/Exclusion.antt =====
-- Mutual exclusion of the holders of packages/actor-system-redis/src/lock.ts.
use tslib.Common.{
  ℕ, String, ◌≡◌, ◌≢◌, refl, sym, ap, ◌∙◌, some, eqb, eqb_iff, ◌⊎◌, inl, inr, arith, if◌then◌else◌,
  Bool, true, false, [], subst,
}
use tslib.Common.Map
use tslib.Common.Map.{Map, get-empty}
use tslib.RedisLock.{Server, Fate}
use tslib.RedisLock.Effects.{Call, acquires, operate, actor_of, tokens-operate}
use tslib.RedisLock.Cluster.{
  Cluster, IsFresh, after, Step, calls, forgets, restarts, Reach, here, next, Holds,
}

module _ {S : Type 0} (redis : Server S) (key_prefix : String) (timeouts : ℕ → ℕ) where
  -- No token stands twice, in one map or in two.
  abbrev pub IsDistinct : Cluster S → Type 0
  IsDistinct c =
      (p q : ℕ) (a b t : String)
      → Map.get (c.tokens p) a ≡ some t
      → Map.get (c.tokens q) b ≡ some t
      → (p ≡ q) × (a ≡ b)

  -- The token of a holder after a call is an old one of it, or it has just been drawn by it.
  token-chosen :
      (c : Cluster S) (p : ℕ) (call : Call) (fate : Fate) (q : ℕ) (b t : String) (e : Bool)
      → eqb p q ≡ e
      → Map.get
          (if e
            then (operate redis key_prefix (timeouts p) call fate (c.tokens p) c.server).2
            else c.tokens q)
          b
        ≡ some t
      → (Map.get (c.tokens q) b ≡ some t) ⊎ ((p ≡ q) × (call ≡ acquires b t))
  token-chosen c p call fate q b t false n h = inl h
  token-chosen c p call fate q b t true y h =
      elim (tokens-operate redis key_prefix (timeouts p) call fate (c.tokens p) c.server b t h) [
        | inl e ↦ inl (subst (λ x. Map.get (c.tokens x) b ≡ some t) ((eqb_iff p q).0 y) e)
        | inr e ↦ inr ((eqb_iff p q).0 y, e)
      ]

  token-after :
      (c : Cluster S) (p : ℕ) (call : Call) (fate : Fate) (q : ℕ) (b t : String)
      → Map.get ((after redis key_prefix timeouts p call fate c).tokens q) b ≡ some t
      → (Map.get (c.tokens q) b ≡ some t) ⊎ ((p ≡ q) × (call ≡ acquires b t))
  token-after c p call fate q b t h = token-chosen c p call fate q b t (eqb p q) refl h

  -- A token that has just been drawn stands nowhere else.
  not_drawn :
      (c : Cluster S) (call : Call) (q : ℕ) (a b t : String)
      → IsFresh c call
      → call ≡ acquires a t
      → Map.get (c.tokens q) b ≢ some t
  not_drawn c call q a b t fresh e = subst (IsFresh c) e fresh q b

  same_call : (a b t : String) → acquires a t ≡ acquires b t → a ≡ b
  same_call a b t e = ap actor_of e

  after-IsDistinct :
      (c : Cluster S) (p : ℕ) (call : Call) (fate : Fate)
      → IsFresh c call
      → IsDistinct c
      → IsDistinct (after redis key_prefix timeouts p call fate c)
  after-IsDistinct c r call fate fresh d p q a b t h k = elim (token-after c r call fate p a t h) [
    | inl x ↦ elim (token-after c r call fate q b t k) [
      | inl y ↦ d p q a b t x y
      | inr y ↦ absurd (not_drawn c call p b a t fresh y.1 x)
    ]
    | inr x ↦ elim (token-after c r call fate q b t k) [
      | inl y ↦ absurd (not_drawn c call q a b t fresh x.1 y)
      | inr y ↦ (sym x.0 ∙ y.0, same_call a b t (sym x.1 ∙ y.1))
    ]
  ]

  token-restarted :
      (c : Cluster S) (p q : ℕ) (b t : String) (e : Bool)
      → Map.get (if e then [] else c.tokens q) b ≡ some t
      → Map.get (c.tokens q) b ≡ some t
  token-restarted c p q b t false h = h
  token-restarted c p q b t true h = ground (arith, get-empty {V = String} b)

  pub Step-IsDistinct :
      {c d : Cluster S} → Step redis key_prefix timeouts c d → IsDistinct c → IsDistinct d
  Step-IsDistinct {c = c} (calls p call fate fresh) = after-IsDistinct c p call fate fresh
  Step-IsDistinct (forgets s' f) = λ d. d
  Step-IsDistinct {c = c} (restarts r) = λ d p q a b t h k.
      d p q a b t (token-restarted c r p a t (eqb r p) h) (token-restarted c r q b t (eqb r q) k)

  pub Reach-IsDistinct :
      {c d : Cluster S} → Reach redis key_prefix timeouts c d → IsDistinct c → IsDistinct d
  Reach-IsDistinct here h = h
  Reach-IsDistinct (next r st) h = Step-IsDistinct st (Reach-IsDistinct r h)

  pub started-IsDistinct : (s : S) → IsDistinct (record { server = s; tokens = λ q. [] })
  started-IsDistinct s p q a b t h k = ground (arith, get-empty {V = String} a)

  one_holder :
      (c : Cluster S) (p q : ℕ) (actor : String)
      → IsDistinct c
      → Holds redis key_prefix timeouts c p actor
      → Holds redis key_prefix timeouts c q actor
      → p ≡ q
  one_holder c p q actor d (t, x, h) (u, y, k) = (d p q actor actor u (x ∙ sym h ∙ k) y).0

  -- Whatever holders, leases and processes do from a start without tokens, two holders that both have
  -- the lock of an actor are one.
  pub Holds-exclusive :
      (s : S) (c : Cluster S) (p q : ℕ) (actor : String)
      → Reach redis key_prefix timeouts (record { server = s; tokens = λ q. [] }) c
      → Holds redis key_prefix timeouts c p actor
      → Holds redis key_prefix timeouts c q actor
      → p ≡ q
  Holds-exclusive s c p q actor r h k =
      one_holder c p q actor (Reach-IsDistinct r (started-IsDistinct s)) h k
