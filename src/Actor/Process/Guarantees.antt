-- ===== src/Actor/Process/Guarantees.antt =====
-- What `tryToProcess` of packages/actor-system/src/process.ts guarantees, outcome by outcome.
use tslib.Common.{ℕ, refl, [], ◌⊎◌, inl, inr}
use tslib.Actor.Process.Exec.{World, Env, Outcome, ok, thrown, out_of_fuel}
use tslib.Actor.Process.{Options, try_to_process}
use tslib.Actor.Process.Triple.{Assertion, Ends}
use tslib.Actor.Process.Delivery.{Delivered, Held}
use tslib.Actor.Process.Delivery
use tslib.Actor.Process.Ownership.{IsEnded, IsSettled}
use tslib.Actor.Process.Ownership
use tslib.Actor.Process.Termination.{Never}
use tslib.Actor.Process.Termination
use tslib.Actor.Process.Termination.Call.{Expires, Ample}
use tslib.Actor.Process.Termination.OneShot.{IsOneShot, one_shot-Triple, start-Left}

-- There is fuel enough: the lifetime is limited and over at some instant for which the fuel is
-- enough, or this is a one-shot call, the pushes of others end and the lock is not lost.
abbrev pub IsFueled : {T : Type 0} → Env T → Options → ℕ → Type 0
IsFueled env options fuel =
    ((last : ℕ) × Expires env options 0 last × Ample last 0 fuel) ⊎ IsOneShot env options fuel

abbrev pub IsSpent : {T : Type 0} → Env T → Options → ℕ → Assertion T
IsSpent env options fuel w = ¬ IsFueled env options fuel

both :
    {T A : Type 0} (Q S S' : Assertion T) (R : A → Assertion T) (P : Type 0) (r : Outcome A)
    (w : World T)
    → Ends Q S R r w
    → (P → Ends Termination.Any Never (λ _. Termination.Any) r w)
    → Ends Q (λ _. ¬ P) R r w
both Q S S' R P (ok a) w e f = e
both Q S S' R P thrown w e f = e
both Q S S' R P out_of_fuel w e f = f

-- Nothing was pushed yet, and nothing happened.
abbrev pub origin : {T : Type 0} → World T
origin = record { now = 0; queue = []; trace = [] }

module _ {T : Type 0} (env : Env T) (options : Options) (fuel : ℕ) where
  ends :
      IsFueled env options fuel
      → Ends Termination.Any Never
          (λ _. Termination.Any)
          (try_to_process env options fuel origin).0
          (try_to_process env options fuel origin).1
  ends (inl (last, expires, ample)) =
      (Termination.Call.try_to_process-Triple env options fuel 0 last expires ample).at origin refl
  ends (inr shot) =
      (one_shot-Triple env options fuel shot).at origin (start-Left env options fuel shot)

  -- From an empty queue, with any options, the default one-shot call included, in either mode,
  -- whatever other processes push meanwhile and whichever callbacks, calls of the queue or of the
  -- lock throw: if `tryToProcess` returns, the messages that left the queue are those given to the
  -- handler, each once and in their order, the returned metadata is theirs, and what left and what
  -- is still queued make up what was pushed. If it throws, nothing left the queue without having
  -- been given to the handler first, and at most the message at the head of the queue was given to
  -- it and is still there. It returns or throws, with fuel enough, if its lifetime is limited and
  -- over at some instant, and also if it is a one-shot call without a limit, the pushes of others
  -- end and the lock is not lost. That a call of the queue that throws leaves the
  -- queue as it was is assumed.
  pub try_to_process-Delivered :
      Ends
        (Held env)
        (IsSpent env options fuel)
        (Delivered env)
        (try_to_process env options fuel origin).0
        (try_to_process env options fuel origin).1
  try_to_process-Delivered =
      both (Held env) (Delivery.Any env) Never (Delivered env) (IsFueled env options fuel) _ _
        ((Delivery.Call.try_to_process-Triple env options fuel).at origin
          (record { conserved = refl; exact = refl; told = refl }))
        ends

  -- With any options, the default one-shot call included, and whatever throws, the events of a
  -- call of `tryToProcess` come in this order: attempts on the lock and sleeps until one attempt
  -- succeeds, then only work on the queue, then one release, then at most one shift, and nothing
  -- after it. So the queue and the handlers are touched only between a granted attempt and the
  -- release. A call that returns has released the lock, or it never got it and returns no
  -- metadata; one that throws has released the lock too, or never got it. It returns or throws,
  -- with fuel enough, if its lifetime is limited and over at some instant, and also if it is a
  -- one-shot call without a limit, the pushes of others end and the lock is not lost.
  pub try_to_process-releases :
      Ends
        (IsEnded env)
        (IsSpent env options fuel)
        (IsSettled env)
        (try_to_process env options fuel origin).0
        (try_to_process env options fuel origin).1
  try_to_process-releases =
      both (IsEnded env) Ownership.Any Never (IsSettled env) (IsFueled env options fuel) _ _
        ((Ownership.try_to_process-Triple env options fuel).at origin refl) ends
