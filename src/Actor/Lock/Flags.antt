-- ===== src/Actor/Lock/Flags.antt =====
-- The lock of packages/actor-system/src/inMemory.ts as one flag for each actor.
use tslib.Common.{
  String, ◌≡◌, refl, Bool, true, false, not, List, [], ◌∷◌, ◌++◌, ◌==◌, eq_iff, arith,
  if◌then◌else◌,
}
use tslib.Actor.Lock.{
  member, without, try_acquire, release, Call, acquires, releases, call, answers,
}

-- Whether an actor is locked after the calls, the last one first: its last call decides.
pub is_locked : List Call → String → Bool
is_locked [] actor = false
is_locked (acquires a ∷ before) actor = if a == actor then true else is_locked before actor
is_locked (releases a ∷ before) actor = if a == actor then false else is_locked before actor

-- `tryAcquire` should find the lock free, and `release` should find it taken.
pub flag_answer : List Call → Call → Bool
unfolding is_locked
flag_answer before (acquires actor) = not (is_locked before actor)
flag_answer before (releases actor) = is_locked before actor

pub flag_answers : List Call → List Call → List Bool
unfolding flag_answer
flag_answers before [] = []
flag_answers before (c ∷ cs) = flag_answer before c ∷ flag_answers (c ∷ before) cs

member-append :
    (x actor : String) (others : List String)
    → member x (others ++ actor ∷ []) ≡ (if actor == x then true else member x others)
member-append x actor [] = refl
member-append x actor (a ∷ others) = ground (arith, member-append x actor others)

member-without :
    (x actor : String) (others : List String)
    → member x (without actor others) ≡ (if actor == x then false else member x others)
member-without x actor [] = ground arith
member-without x actor (a ∷ others) =
    ground (arith, member-without x actor others, eq_iff a actor, eq_iff a x, eq_iff actor x)

-- The set and the flags agree.
abbrev IsShown : List String → List Call → Type 0
IsShown lock_holders before = (x : String) → member x lock_holders ≡ is_locked before x

call-IsShown :
    (lock_holders : List String) (before : List Call) (c : Call)
    → IsShown lock_holders before
    → ((call lock_holders c).0 ≡ flag_answer before c)
      × IsShown (call lock_holders c).1 (c ∷ before)
unfolding call try_acquire release is_locked flag_answer
call-IsShown lock_holders before (acquires a) h =
    (ground (arith, h a), λ x. ground (arith, h a, h x, member-append x a lock_holders, eq_iff a x))
call-IsShown lock_holders before (releases a) h =
    (h a, λ x. ground (arith, h x, member-without x a lock_holders))

answers-shown :
    (lock_holders : List String) (before cs : List Call)
    → IsShown lock_holders before
    → answers lock_holders cs ≡ flag_answers before cs
unfolding answers flag_answers
answers-shown lock_holders before [] h = refl
answers-shown lock_holders before (c ∷ cs) h =
    let (e, next) = call-IsShown lock_holders before c h in
    ground (arith, e, answers-shown (call lock_holders c).1 (c ∷ before) cs next)

-- A new lock answers every history of calls as one flag for each actor does: `tryAcquire` is granted
-- exactly when the last call on the actor was not a `tryAcquire`, and `release` tells whether it was.
pub answers-refine-flags : (cs : List Call) → answers [] cs ≡ flag_answers [] cs
unfolding is_locked
answers-refine-flags cs = answers-shown [] [] cs (λ x. refl)
