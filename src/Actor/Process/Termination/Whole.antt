-- ===== src/Actor/Process/Termination/Whole.antt =====
-- `tryToProcess` of packages/actor-system/src/process.ts ends.
use tslib.Common.{ℕ, zero, suc, ◌≤◌, ◌<◌, ◌≡◌, Bool, true, false, not, List, ◌++◌, eqb, arith}
use tslib.Actor.Message.{AwaiterMeta, is_commit, ids_where}
use tslib.Actor.Process.Exec.{Env, Action, pause}
use tslib.Actor.Process.Drain.{size}
use tslib.Actor.Process.{loop_round, process_loop}
use tslib.Actor.Process.Triple.{
  Assertion, Triple, Keeps, pure-Triple, if-Triple, bind-Triple, seq-Triple, instant-Triple,
  pause-Triple, await-Triple,
}
use tslib.Actor.Process.Invariant.{notify-Keeps}
use tslib.Actor.Process.Termination.{
  Any, Never, Progress, emit-Progress, refill-Progress, pause-Progress, Enough,
}
use tslib.Actor.Process.Termination.Rounds.{mode-Ends, exhausted-Enough, later, alive-lt}

module _ {T : Type 0} (env : Env T) (alive : ℕ → Bool) (limit : ℕ)
    (over : (k : ℕ) → limit ≤ k → alive k ≡ false) where
  abbrev P : ℕ → Bool → Assertion T
  P n b = Progress limit n b

  pub when_alive :
      {A : Type 0} {R : A → Assertion T} (n k : ℕ) {m : Action T A}
      → alive k ≡ true
      → (n < limit → Triple Any Never (P n false) m R)
      → Triple Any Never (λ w. (n ≤ w.now) × (k ≡ w.now)) m R
  when_alive n k e go = record {
    at = λ w p. (go (alive-lt env alive limit over n k e (omega arith))).at w p.0;
  }

  pub passing : (n : ℕ) → n < limit → Triple Any Never (P n false) (pause env) (λ _. P n true)
  passing n h = pause-Triple env (P n true) (λ w p. (h, omega arith))

  loop_round-Progress :
      (inner n : ℕ) (metas : List AwaiterMeta)
      → n < limit
      → Enough limit n inner
      → Triple Any Never (P n false) (loop_round env alive inner metas) (λ _. P n true)
  unfolding loop_round size
  loop_round-Progress inner n metas h enough =
      bind-Triple (λ _. P n false) (mode-Ends env alive limit over inner n env.handler enough)
        λ local.
          seq-Triple (P n false)
            (notify-Keeps env (pause-Progress env limit n false)
              (λ e _. emit-Progress limit n false e) (refill-Progress limit n false) (λ w p. tt)
              (ids_where is_commit (metas ++ local)))
            (bind-Triple (λ _. P n true)
              (seq-Triple (P n true) (await-Triple env (P n true) (passing n h) (λ w p. tt))
                (record { at = λ w p. p }))
              (λ m. pure-Triple (metas ++ local, not (eqb m 0)) (λ _. P n true) (λ w p. p)))

  Enough-suc : (n inner : ℕ) → Enough limit n inner → Enough limit (suc n) inner
  Enough-suc n inner e = omega arith

  pub process_loop-Ends :
      (fuel inner n : ℕ) (metas : List AwaiterMeta)
      → Enough limit n fuel
      → Enough limit n inner
      → Keeps Any Never (P n false) (process_loop env alive fuel inner metas)
  unfolding process_loop
  process_loop-Ends zero inner n metas enough within =
      exhausted-Enough env alive limit over n (λ _. P n false) enough
  process_loop-Ends (suc fuel) inner n metas enough within =
      bind-Triple (λ k w. (n ≤ w.now) × (k ≡ w.now)) instant-Triple
        λ k.
          if-Triple (alive k)
            (λ e. when_alive n k e λ h.
              bind-Triple (λ _. P n true) (loop_round-Progress inner n metas h within)
                λ next.
                  if-Triple next.1
                    (λ _. later env alive limit over n fuel _ enough λ more.
                      process_loop-Ends fuel inner (suc n) next.0 more (Enough-suc n inner within))
                    (λ _. pure-Triple next.0 (λ _. P n false) (λ w p. omega arith)))
            (λ _. pure-Triple metas (λ _. P n false) (λ w p. p.0))
