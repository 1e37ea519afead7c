-- ===== src/Actor/Process/Ownership.antt =====
-- The lock in `tryToProcess` of packages/actor-system/src/process.ts: what is done in which phase.
use tslib.Common.{
  ℕ, zero, suc, ◌≡◌, refl, ap, ◌⊎◌, inl, inr, sym, ◌∙◌, arith, Bool, true, false, not, ◌&&◌, ◌||◌,
  Option, none, some, List, [], ◌∷◌,
}
use tslib.Actor.Message.{AwaiterMeta}
use tslib.Actor.Process.Exec.{
  Env, Event, Callback, call_if_given, tried, released, shifted, slept, emit, pause, exhausted,
}
use tslib.Actor.Process.{
  Options, is_once, is_alive, nap, try_acquire, acquire, shift_if, run_owned, try_to_process,
}
use tslib.Actor.Process.Triple.{
  Assertion, Triple, Keeps, pure-Triple, if-Triple, bind-Triple, seq-Triple, conseq-Triple,
  instant-Keeps, emit-Triple, pause-Triple, call-Triple, throw_if-Triple, throw-Triple,
}
use tslib.Actor.Process.Invariant.{is_work}
use tslib.Actor.Process.Loops.{owned-Keeps}
use tslib.Actor.Process.Finally.{finally_release-Triple}

-- Before the lock is granted, while it is held, after its release, after the shift.
pub data Phase : Type 0 where
  waiting owning left moved : Phase

abbrev pub granted : Bool → Phase
granted true = Phase.owning
granted false = Phase.waiting

module _ {T : Type 0} where
  -- The events that a phase allows, and the phase after them.
  abbrev pub advance : Phase → Event T → Option Phase
  advance Phase.waiting (tried true) = some Phase.owning
  advance Phase.waiting (tried false) = some Phase.waiting
  advance Phase.waiting (slept _) = some Phase.waiting
  advance Phase.waiting _ = none
  advance Phase.owning (tried _) = none
  advance Phase.owning shifted = none
  advance Phase.owning released = some Phase.left
  advance Phase.owning _ = some Phase.owning
  advance Phase.left shifted = some Phase.moved
  advance Phase.left _ = none
  advance Phase.moved _ = none

  abbrev pub next_phase : Option Phase → Event T → Option Phase
  next_phase none e = none
  next_phase (some p) e = advance p e

  -- Nothing, where an event came in a phase that does not allow it.
  abbrev pub phase_of : List (Event T) → Option Phase
  phase_of [] = some Phase.waiting
  phase_of (e ∷ t) = next_phase (phase_of t) e

  abbrev pub InPhase : Phase → Assertion T
  InPhase p w = phase_of w.trace ≡ some p

  advance-work : (e : Event T) → is_work e ≡ true → advance Phase.owning e ≡ some Phase.owning
  advance-work (tried _) h = cc
  advance-work released h = cc
  advance-work shifted h = cc
  advance-work _ h = refl

  abbrev pub Any : Assertion T
  Any w = Unit {0}

  emit-InPhase :
      {Q S : Assertion T} (p q : Phase) (e : Event T)
      → advance p e ≡ some q
      → Triple Q S (InPhase p) (emit e) (λ _. InPhase q)
  emit-InPhase p q e h = emit-Triple e (InPhase q) λ w at. rw at h

  pause-InPhase : {Q S : Assertion T} (env : Env T) (p : Phase) → Keeps Q S (InPhase p) (pause env)
  pause-InPhase env p = pause-Triple env (InPhase p) λ w at. at

advance-tried : (T : Type 0) (b : Bool) → advance {T = T} Phase.waiting (tried b) ≡ some (granted b)
advance-tried T true = refl
advance-tried T false = refl

ungranted : (b throws : Bool) → throws ≡ true → granted (b && not throws) ≡ Phase.waiting
ungranted true true e = refl
ungranted false true e = refl
ungranted b false e = absurd (ground (arith, e))

module _ {T : Type 0} (env : Env T) where
  -- The lock was released once, after which at most the shift was made.
  abbrev pub IsOver : Assertion T
  IsOver w = InPhase Phase.left w ⊎ InPhase Phase.moved w

  -- A call that never got the lock did nothing and tells nothing.
  abbrev pub IsSettled : List AwaiterMeta → Assertion T
  IsSettled metas w = (InPhase Phase.waiting w × (metas ≡ [])) ⊎ IsOver w

  -- After a throw: the call never got the lock, or it released it.
  abbrev pub IsEnded : Assertion T
  IsEnded w = InPhase Phase.waiting w ⊎ IsOver w

  module _ (options : Options) (start : ℕ) where
    try_acquire-Triple :
        Triple IsEnded Any
          (InPhase Phase.waiting)
          (try_acquire env options start)
          (λ b. InPhase (granted b))
    unfolding try_acquire
    try_acquire-Triple =
        bind-Triple (λ _. InPhase Phase.waiting) instant-Keeps
          λ now.
            let b = env.grants now && not (env.acquire_throws now) in
            seq-Triple (InPhase (granted b))
              (emit-InPhase Phase.waiting (granted b) (tried b) (advance-tried T b))
              (seq-Triple (InPhase (granted b)) (pause-InPhase env (granted b)) (
                seq-Triple (InPhase (granted b))
                  (throw_if-Triple (env.acquire_throws now) (λ w e at.
                    inl (at ∙ ap some (ungranted (env.grants now) (env.acquire_throws now) e))))
                  (pure-Triple b (λ b. InPhase (granted b)) (λ w at. at))))

    nap-Triple : Keeps IsEnded Any (InPhase Phase.waiting) (nap env options start)
    unfolding nap
    nap-Triple =
        bind-Triple (λ _. InPhase Phase.waiting) instant-Keeps
          λ now.
            seq-Triple (InPhase Phase.waiting)
              (emit-InPhase Phase.waiting Phase.waiting (slept _) refl)
              (pause-InPhase env Phase.waiting)

    pub acquire-Triple :
        (fuel : ℕ)
        → Triple IsEnded Any
            (InPhase Phase.waiting)
            (acquire env options start fuel)
            (λ b. InPhase (granted b))
    unfolding acquire exhausted
    acquire-Triple zero = record { at = λ w at. tt }
    acquire-Triple (suc fuel) =
        bind-Triple (λ b. InPhase (granted b)) try_acquire-Triple
          λ b.
            bind-Triple (λ _. InPhase (granted b)) instant-Keeps
              λ now.
                if-Triple b
                  (λ e.
                    pure-Triple true (λ b. InPhase (granted b))
                      (λ w at. rw (ap granted (sym e)) at))
                  (λ e.
                    conseq-Triple (InPhase Phase.waiting) (λ w at. rw (ap granted e) at at)
                      (if-Triple (is_once options || not (is_alive env options start now))
                        (λ _. pure-Triple false (λ b. InPhase (granted b)) (λ w at. at))
                        (λ _. seq-Triple (InPhase Phase.waiting) nap-Triple (acquire-Triple fuel))))

  shift_if-Triple :
      (b : Bool) → Triple IsOver Any (InPhase Phase.left) (shift_if env b) (λ _. IsOver)
  unfolding shift_if call_if_given
  shift_if-Triple b =
      if-Triple b (λ _. given env.shift) (λ _. pure-Triple tt (λ _. IsOver) (λ w at. inl at))
    where
      given :
          (callback : Option Callback)
          → Triple IsOver Any
              (InPhase Phase.left)
              (call_if_given env shifted callback)
              (λ _. IsOver)
      given none = pure-Triple tt (λ _. IsOver) (λ w at. inl at)
      given (some throws) =
          call-Triple env shifted throws IsOver (emit-Triple shifted IsOver (λ w at. inr (rw at)))
            (pause-Triple env IsOver (λ w at. at)) (λ w at. at)

  run_owned-Triple :
      (options : Options) (start fuel : ℕ)
      → Triple IsOver Any (InPhase Phase.owning) (run_owned env options start fuel) IsSettled
  unfolding run_owned
  run_owned-Triple options start fuel =
      bind-Triple (λ _. InPhase Phase.left)
        (finally_release-Triple IsOver Any (λ _. InPhase Phase.left) env
          (λ r.
            call-Triple env released env.release_throws (InPhase Phase.left)
              (emit-InPhase Phase.owning Phase.left released refl) (pause-InPhase env Phase.left)
              (λ w at. inl at))
          (call-Triple env released env.release_throws IsOver
            (emit-Triple released IsOver (λ w at. inl (rw at)))
            (pause-Triple env IsOver (λ w at. at)) (λ w at. at))
          (λ w at. tt)
          (owned-Keeps {Q = InPhase Phase.owning} {S = Any} env (pause-InPhase env Phase.owning)
            (λ e q. emit-InPhase Phase.owning Phase.owning e (advance-work e q)) (λ w q at. at)
            (λ w at. at) (λ w at. tt) options start fuel))
        λ r.
          seq-Triple IsOver (shift_if-Triple r.1) (pure-Triple r.0 IsSettled (λ w over. inr over))

  pub try_to_process-Triple :
      (options : Options) (fuel : ℕ)
      → Triple IsEnded Any (InPhase Phase.waiting) (try_to_process env options fuel) IsSettled
  unfolding try_to_process
  try_to_process-Triple options fuel =
      bind-Triple (λ _. InPhase Phase.waiting) instant-Keeps
        λ start.
          bind-Triple (λ b. InPhase (granted b)) (acquire-Triple options start fuel)
            λ b.
              if-Triple b
                (λ e.
                  conseq-Triple (InPhase Phase.owning) (λ w at. rw (ap granted e) at at)
                    (throw-Triple IsOver IsEnded (λ w over. inr over)
                      (run_owned-Triple options start fuel)))
                (λ e. pure-Triple [] IsSettled (λ w at. inl (rw (ap granted e) at at, refl)))
