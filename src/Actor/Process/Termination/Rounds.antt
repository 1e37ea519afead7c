-- ===== src/Actor/Process/Termination/Rounds.antt =====
-- Both modes of packages/actor-system/src/process.ts end.
use tslib.Common.{
  ℕ, zero, suc, ◌≤◌, ◌<◌, ◌≡◌, refl, Bool, true, false, Option, none, some, List, [], ◌∷◌, ◌++◌,
  ltb, arith,
}
use tslib.Actor.Message.{AwaiterMeta}
use tslib.Actor.Process.Exec.{
  World, Env, Event, Action, call_if_given, Callback, Handler, single, bulk, prepared, committed,
  exhausted,
}
use tslib.Actor.Process.Drain.{
  size, flush, another, round, rounds, process_queue_in_lock, process_in_single_mode, bulk_round,
  process_in_bulk_mode, process_in_mode,
}
use tslib.Actor.Process.Triple.{
  Assertion, Triple, Keeps, pure-Triple, if-Triple, bind-Triple, seq-Triple, post-Triple,
  instant-Triple, instant-Keeps, pause-Triple, await-Triple,
}
use tslib.Actor.Process.Invariant.{
  is_work, Keeps-bind, Keeps-if, Keeps-pure, callback-Keeps, peek-Keeps, peeked-Keeps,
  process_batch-Keeps,
}
use tslib.Actor.Process.Termination.{
  Any, Never, Progress, emit-Progress, refill-Progress, pause-Progress, Progress-weaken, Enough,
  Enough-next, not-Enough-zero,
}

module _ {T : Type 0} (env : Env T) (alive : ℕ → Bool) (limit : ℕ)
    (over : (k : ℕ) → limit ≤ k → alive k ≡ false) where
  abbrev P : ℕ → Bool → Assertion T
  P n b = Progress limit n b

  pub alive-lt : (n k : ℕ) → alive k ≡ true → n ≤ k → n < limit
  alive-lt n k e h = ground (arith, over k)

  -- A pause that follows a passed test is progress.
  pub size-Progress :
      (n k : ℕ)
      → alive k ≡ true
      → Triple Any Never (λ w. (n ≤ w.now) × (k ≡ w.now)) (size env) (λ _. P n true)
  unfolding size
  size-Progress n k e =
      seq-Triple (P n true)
        (await-Triple env (P n true)
          (pause-Triple env (P n true) (λ w p. (alive-lt n k e (omega arith), omega arith)))
          (λ w p. tt))
        (record { at = λ w p. p })

  flush-Progress :
      (n k : ℕ)
      → alive k ≡ true
      → Triple Any Never (λ w. (n ≤ w.now) × (k ≡ w.now)) (flush env) (λ _. P n true)
  unfolding flush
  flush-Progress n k e =
      seq-Triple (P n true)
        (await-Triple env (P n true)
          (pause-Triple env (P n true) (λ w p. (alive-lt n k e (omega arith), omega arith)))
          (λ w p. tt))
        (record { at = λ w p. p })

  another-Progress : (n : ℕ) → Triple Any Never (P n false) (another env alive) (P n)
  unfolding another
  another-Progress n =
      bind-Triple (λ k w. (n ≤ w.now) × (k ≡ w.now)) instant-Triple
        λ k.
          if-Triple (alive k)
            (λ e.
              bind-Triple (λ _. P n true) (size-Progress n k e)
                λ m. pure-Triple (ltb 0 m) (P n) (weak n (ltb 0 m)))
            (λ e. pure-Triple false (P n) (λ w p. p.0))
    where
      weak : (n : ℕ) (b : Bool) (w : World T) → P n true w → P n b w
      weak n true w p = p
      weak n false w p = omega arith

  abbrev pub after : {A : Type 0} → ℕ → Option A → Assertion T
  after n none = P n false
  after n (some _) = P n true

  after-true : {A : Type 0} (n : ℕ) (o : Option A) (w : World T) → P n true w → after n o w
  after-true n none w p = omega arith
  after-true n (some _) w p = p

  round-Progress :
      (n : ℕ) (on_message : ℕ → T → Bool)
      → Triple Any Never (P n false) (round env alive on_message) (after n)
  unfolding round
  round-Progress n on_message = bind-Triple (P n) (another-Progress n) λ more.
      if-Triple more
        (λ e. rw e (
          post-Triple (λ _. P n true) (after-true n)
            (Keeps-bind
              (peek-Keeps env (pause-Progress env limit n true)
                (λ e _. emit-Progress limit n true e) (refill-Progress limit n true) (λ w p. tt))
              (peeked-Keeps env (pause-Progress env limit n true)
                (λ e _. emit-Progress limit n true e) (refill-Progress limit n true) (λ w p. tt)
                alive on_message))))
        (λ e. pure-Triple none (after n) (λ w p. Progress-weaken limit n more w p))

  bulk_round-Progress :
      (n : ℕ) (on_messages : ℕ → List T → Bool) (metas : List AwaiterMeta)
      → Triple Any Never (P n false) (bulk_round env alive on_messages metas) (after n)
  unfolding bulk_round
  bulk_round-Progress n on_messages metas =
      bind-Triple (λ k w. (n ≤ w.now) × (k ≡ w.now)) instant-Triple
        λ k.
          if-Triple (alive k)
            (λ e.
              post-Triple (λ _. P n true) (after-true n)
                (bind-Triple (λ _. P n true) (flush-Progress n k e)
                  (process_batch-Keeps env (pause-Progress env limit n true)
                    (λ e _. emit-Progress limit n true e) (refill-Progress limit n true) (λ w p. tt)
                    alive on_messages metas)))
            (λ e. pure-Triple none (after n) (λ w p. p.0))

  pub exhausted-Enough :
      {A : Type 0} (n : ℕ) (R : A → Assertion T)
      → Enough limit n 0
      → Triple Any Never (P n false) exhausted R
  exhausted-Enough n R enough = absurd (not-Enough-zero limit n enough)

  -- The next round starts with fuel enough, and what holds after it holds from here on.
  pub later :
      {B : Type 0} (n fuel : ℕ) (m : Action T B)
      → Enough limit n (suc fuel)
      → (Enough limit (suc n) fuel → Keeps Any Never (P (suc n) false) m)
      → Triple Any Never (P n true) m (λ _. P n false)
  later n fuel m enough go = record {
    at = λ w p.
        (post-Triple (λ _. P (suc n) false) (λ _ _ q. omega arith)
            (go (Enough-next limit n fuel enough p.0))).at
          w p.1;
  }

  rounds-Ends :
      (on_message : ℕ → T → Bool) (fuel n : ℕ) (metas : List AwaiterMeta)
      → Enough limit n fuel
      → Keeps Any Never (P n false) (rounds env alive fuel on_message metas)
  unfolding rounds
  rounds-Ends on_message zero n metas enough = exhausted-Enough n (λ _. P n false) enough
  rounds-Ends on_message (suc fuel) n metas enough =
      bind-Triple (after n) (round-Progress n on_message) (elim [
        | none ↦ pure-Triple metas (λ _. P n false) (λ w p. p)
        | some c ↦ later n fuel _ enough (rounds-Ends on_message fuel (suc n) (metas ++ c ∷ []))
      ])

  bulk-Ends :
      (on_messages : ℕ → List T → Bool) (fuel n : ℕ) (metas : List AwaiterMeta)
      → Enough limit n fuel
      → Keeps Any Never (P n false) (process_in_bulk_mode env alive fuel on_messages metas)
  unfolding process_in_bulk_mode
  bulk-Ends on_messages zero n metas enough = exhausted-Enough n (λ _. P n false) enough
  bulk-Ends on_messages (suc fuel) n metas enough =
      bind-Triple (after n) (bulk_round-Progress n on_messages metas) (elim [
        | none ↦ pure-Triple metas (λ _. P n false) (λ w p. p)
        | some all ↦ later n fuel _ enough (bulk-Ends on_messages fuel (suc n) all)
      ])

  hook-Ends :
      (n : ℕ) (e : Event T) (callback : Option Callback)
      → is_work e ≡ true
      → Keeps Any Never (P n false) (call_if_given env e callback)
  hook-Ends n =
      callback-Keeps env (pause-Progress env limit n false) (λ e _. emit-Progress limit n false e)
        (refill-Progress limit n false) (λ w p. tt)

  pub mode-Ends :
      (fuel n : ℕ) (handler : Handler T)
      → Enough limit n fuel
      → Keeps Any Never (P n false) (process_in_mode env alive fuel handler)
  unfolding process_in_mode process_in_single_mode process_queue_in_lock
  mode-Ends fuel n (single on_message on_prepare on_commit) enough = Keeps-bind instant-Keeps λ now.
      Keeps-if (alive now)
        (Keeps-bind (hook-Ends n prepared on_prepare refl) λ _.
          Keeps-bind
            (Keeps-bind (rounds-Ends on_message fuel n [] enough)
              λ metas. Keeps-bind (pause-Progress env limit n false) λ _. Keeps-pure metas)
            λ metas. Keeps-bind (hook-Ends n committed on_commit refl) λ _. Keeps-pure metas)
        (Keeps-pure [])
  mode-Ends fuel n (bulk on_messages) enough = bulk-Ends on_messages fuel n [] enough
