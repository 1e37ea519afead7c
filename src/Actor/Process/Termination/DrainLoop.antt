-- ===== src/Actor/Process/Termination/DrainLoop.antt =====
-- The drain loop of packages/actor-system/src/process.ts ends when the pushes of others end and the
-- lock is not lost.
use tslib.Common.{
  ℕ, zero, suc, ◌-◌, ◌≤◌, ◌<◌, ◌≡◌, refl, ap, Bool, true, false, not, ◌⊎◌, inl, inr, List, [], ◌++◌,
  length, eqb, ltb, arith, Bool-cases,
}
use tslib.Actor.Message.{AwaiterMeta, is_commit, ids_where}
use tslib.Actor.Process.Exec.{Env, pause}
use tslib.Actor.Process.Drain.{size, notify_completions}
use tslib.Actor.Process.{loop_round, process_loop}
use tslib.Actor.Process.Triple.{
  Assertion, Triple, Keeps, pure-Triple, if-Triple, bind-Triple, seq-Triple, post-Triple,
  instant-Keeps, pause-Triple, await-Triple,
}
use tslib.Actor.Process.Termination.{Any, Never}
use tslib.Actor.Process.Termination.Finite.{
  Left, Drained, paused, pause-Left, pause-Drained, emit-Left, emit-Drained, future-step_early,
  length-append, resolve_all-Keeps,
}
use tslib.Actor.Process.Termination.Drains.{Fewer, mode-Drained}

module _ {T : Type 0} (env : Env T) (last : ℕ)
    (quiet : (k : ℕ) → last ≤ k → env.arrivals k ≡ []) where
  -- Less is left than before, or the pushes have ended.
  Either : ℕ → Assertion T
  Either n w = Fewer env last quiet false n w ⊎ Left env last quiet true n w

  early : (n : ℕ) → Keeps Any Never (Either n) (pause env)
  unfolding Either
  early n = pause-Triple env (Either n) λ w p. elim p [
    | inl f ↦ inl (f.0, paused env last quiet false (n - 1) w f.1)
    | inr l ↦ inr (paused env last quiet true n w l)
  ]

  -- The first pause.
  passed : (n : ℕ) → Triple Any Never (Left env last quiet false n) (pause env) (λ _. Either n)
  unfolding Either
  passed n = pause-Triple env (Either n) λ w p. elim (Bool-cases (ltb w.now last)) [
    | inl e ↦
        let step = future-step_early env last quiet w.now (ground (arith, e)) in
        let long = length-append w.queue (env.arrivals w.now) in
        inl (
          omega (arith, p.left, step, long),
          record {
            left = omega (arith, p.left, step, long);
            is_late = λ c. absurd (ground (arith, c));
          },
        )
    | inr e ↦ inr (
        paused env last quiet true n w (record { left = p.left; is_late = λ _. ground (arith, e) }))
  ]

  module _ (alive : ℕ → Bool) (ours : (k : ℕ) → alive k ≡ true) where
    loop_round-early :
        (inner n : ℕ) (metas : List AwaiterMeta)
        → n < inner
        → Triple Any Never
            (Left env last quiet false n)
            (loop_round env alive inner metas)
            (λ _. Either n)
    unfolding loop_round notify_completions size
    loop_round-early inner n metas h =
        let P = Left env last quiet false n in
        bind-Triple (λ _. P)
          (post-Triple (λ _. Drained env last quiet false n) (λ _ w p. p.has)
            (mode-Drained env last quiet false alive ours inner n env.handler h))
          λ local.
            seq-Triple (Either n)
              (seq-Triple P
                (resolve_all-Keeps env P (pause-Left env last quiet false n)
                  (emit-Left env last quiet false n) (ids_where is_commit (metas ++ local)))
                (passed n))
              (bind-Triple (λ _. Either n)
                (seq-Triple (Either n) (await-Triple env (Either n) (early n) (λ w p. tt))
                  (record { at = λ w p. p }))
                λ m. pure-Triple (metas ++ local, not (eqb m 0)) (λ _. Either n) (λ w p. p))

    loop_round-late :
        (inner n : ℕ) (metas : List AwaiterMeta)
        → n < inner
        → Triple Any Never
            (Left env last quiet true n)
            (loop_round env alive inner metas)
            (λ next w. next.1 ≡ false)
    unfolding loop_round notify_completions size
    loop_round-late inner n metas h =
        let D = Drained env last quiet true n in
        let kept = pause-Drained env last quiet true n in
        bind-Triple (λ _. D) (mode-Drained env last quiet true alive ours inner n env.handler h)
          λ local.
            seq-Triple D
              (seq-Triple D
                (resolve_all-Keeps env D kept (emit-Drained env last quiet true n)
                  (ids_where is_commit (metas ++ local)))
                kept)
              (bind-Triple (λ m w. m ≡ 0)
                (seq-Triple D (await-Triple env D kept (λ w p. tt))
                  (record { at = λ w p. ap length (p.drained refl) }))
                λ m.
                  pure-Triple (metas ++ local, not (eqb m 0)) (λ next w. next.1 ≡ false)
                    (λ w e. ground (arith, e)))

    process_loop-late :
        (fuel inner n : ℕ) (metas : List AwaiterMeta)
        → 0 < fuel
        → n < inner
        → Triple Any Never
            (Left env last quiet true n)
            (process_loop env alive fuel inner metas)
            (λ _. Any)
    unfolding process_loop
    process_loop-late zero inner n metas z h = absurd (omega (arith, z))
    process_loop-late (suc fuel) inner n metas z h =
        bind-Triple (λ _. Left env last quiet true n) instant-Keeps
          λ k.
            if-Triple (alive k)
              (λ _.
                bind-Triple (λ next w. next.1 ≡ false) (loop_round-late inner n metas h)
                  λ next.
                    if-Triple next.1 (λ e. record { at = λ w p. absurd (ground (arith, e, p)) })
                      (λ _. pure-Triple next.0 (λ _. Any) (λ w p. tt)))
              (λ e. absurd (ground (arith, ours k, e)))

    pub process_loop-Ends :
        (fuel inner n : ℕ) (metas : List AwaiterMeta)
        → suc n < fuel
        → n < inner
        → Triple Any Never
            (Left env last quiet false n)
            (process_loop env alive fuel inner metas)
            (λ _. Any)
    unfolding process_loop Either
    process_loop-Ends zero inner n metas z h = absurd (omega (arith, z))
    process_loop-Ends (suc fuel) inner n metas z h =
        bind-Triple (λ _. Left env last quiet false n) instant-Keeps
          λ k.
            if-Triple (alive k)
              (λ _.
                bind-Triple (λ _. Either n) (loop_round-early inner n metas h)
                  λ next.
                    if-Triple next.1
                      (λ _. record {
                        at = λ w p. elim p [
                          | inl f ↦
                              (process_loop-Ends fuel inner (n - 1) next.0 (omega (arith, z, f.0))
                                  (omega (arith, h))).at
                                w f.1
                          | inr l ↦
                              (process_loop-late fuel inner n next.0 (omega (arith, z)) h).at w l
                        ];
                      })
                      (λ _. pure-Triple next.0 (λ _. Any) (λ w p. tt)))
              (λ e. absurd (ground (arith, ours k, e)))
