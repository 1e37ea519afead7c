-- ===== src/Actor/Queue/Refinement.antt =====
-- The in-memory queue against its contract in packages/actor-system/src/queue.ts: a FIFO list for
-- every actor, none of which sees the others.
use mathlib.Core.Path.{fun_ext, ap₂}
use tslib.Common.{
  ℕ, suc, String, ◌≡◌, refl, ap, ◌∙◌, ◌==◌, eq_iff, Option, none, some, List, [], ◌∷◌, ◌++◌, length,
  arith, Option-cases, inl, inr, ◌⊎◌, if◌then◌else◌,
}
use tslib.Common.Map
use tslib.Common.Map.{Map, get-set, get-delete}
use tslib.Actor.Queue.{size, push, pop, peek, flush}

pub data Call (T : Type 0) : Type 0 where
  sizes pops peeks flushes : String → Call T
  pushes : String → T → Call T

pub data Reply (T : Type 0) : Type 0 where
  count : ℕ → Reply T
  one : Option T → Reply T
  batch : List T → Reply T

-- Every actor's items, the oldest first.
abbrev pub Fifo : Type 0 → Type 0
Fifo T = String → List T

module _ {T : Type 0} where
  -- A call on the implementation.
  pub call : Map (List T) → Call T → Map (List T) × Reply T
  call q (sizes a) = (q, count (size q a))
  call q (pushes a x) = let (q', n) = push q a x in (q', count n)
  call q (pops a) = let (q', x) = pop q a in (q', one x)
  call q (peeks a) = (q, one (peek q a))
  call q (flushes a) = let (q', xs) = flush q a in (q', batch xs)

  abbrev pub update : Fifo T → String → List T → Fifo T
  update f a xs b = if a == b then xs else f b

  abbrev pub head_of : List T → Option T
  head_of [] = none
  head_of (x ∷ xs) = some x

  abbrev pub tail_of : List T → List T
  tail_of [] = []
  tail_of (x ∷ xs) = xs

  -- The contract.
  pub fifo_call : Fifo T → Call T → Fifo T × Reply T
  fifo_call f (sizes a) = (f, count (length (f a)))
  fifo_call f (pushes a x) = (update f a (f a ++ x ∷ []), count (suc (length (f a))))
  fifo_call f (pops a) = (update f a (tail_of (f a)), one (head_of (f a)))
  fifo_call f (peeks a) = (f, one (head_of (f a)))
  fifo_call f (flushes a) = (update f a [], batch (f a))

  -- What an actor's queue holds.
  pub items : Map (List T) → Fifo T
  items q a = elim (Map.get q a) [ none ↦ [] | some xs ↦ xs ]

  length-snoc : (xs : List T) (x : T) → length (xs ++ x ∷ []) ≡ suc (length xs)
  length-snoc [] x = refl
  length-snoc (y ∷ xs) x = omega (arith, length-snoc xs x)

  reply-call : (q : Map (List T)) (c : Call T) → (call q c).1 ≡ (fifo_call (items q) c).1
  unfolding call fifo_call items size push pop peek flush
  reply-call q (sizes a) = ground arith
  reply-call q (pushes a x) = elim (Option-cases (Map.get q a)) [
    | inl e ↦ ground arith
    | inr (xs, e) ↦ ground (arith, length-snoc xs x)
  ]
  reply-call q (pops a) = ground arith
  reply-call q (peeks a) = ground arith
  reply-call q (flushes a) = ground arith

  array-cases :
      (o : Option (List T))
      → (o ≡ none) ⊎ ((o ≡ some []) ⊎ ((x : T) × (xs : List T) × (o ≡ some (x ∷ xs))))
  array-cases none = inl refl
  array-cases (some []) = inr (inl refl)
  array-cases (some (x ∷ xs)) = inr (inr (x, xs, refl))

  items-call :
      (q : Map (List T)) (c : Call T) (b : String)
      → items (call q c).0 b ≡ (fifo_call (items q) c).0 b
  unfolding call fifo_call items size push pop peek flush
  items-call q (sizes a) b = refl
  items-call q (pushes a x) b = elim (Option-cases (Map.get q a)) [
    | inl e ↦ ground (arith, eq_iff a b, get-set q a b (x ∷ []))
    | inr (xs, e) ↦ ground (arith, eq_iff a b, get-set q a b (xs ++ x ∷ []))
  ]
  items-call q (pops a) b = elim (array-cases (Map.get q a)) [
    | inl e ↦ ground (arith, eq_iff a b)
    | inr (inl e) ↦ ground (arith, eq_iff a b)
    | inr (inr (x, xs, e)) ↦ ground (arith, eq_iff a b, get-set q a b xs)
  ]
  items-call q (peeks a) b = refl
  items-call q (flushes a) b = ground (arith, eq_iff a b, get-delete q a b)

  -- A history of calls, and what was answered.
  pub replies : Map (List T) → List (Call T) → List (Reply T)
  replies q [] = []
  replies q (c ∷ cs) = (call q c).1 ∷ replies (call q c).0 cs

  pub fifo_replies : Fifo T → List (Call T) → List (Reply T)
  fifo_replies f [] = []
  fifo_replies f (c ∷ cs) = (fifo_call f c).1 ∷ fifo_replies (fifo_call f c).0 cs

  -- Whatever calls are made, in whatever order and on whatever actors, from any state of the map,
  -- the in-memory queue answers each of them as independent FIFO lists that start with the items
  -- of the map do.
  pub replies-refine-fifo :
      (q : Map (List T)) (cs : List (Call T)) → replies q cs ≡ fifo_replies (items q) cs
  unfolding replies fifo_replies
  replies-refine-fifo q [] = refl
  replies-refine-fifo q (c ∷ cs) =
      let same : items (call q c).0 ≡ (fifo_call (items q) c).0 = fun_ext (items-call q c) in
      ap₂ ◌∷◌ (reply-call q c)
        (replies-refine-fifo (call q c).0 cs ∙ ap (λ f. fifo_replies f cs) same)
