-- ===== src/Actor/Process/Delivery/Whole.antt =====
-- `tryToProcess` of packages/actor-system/src/process.ts as a whole, from an empty queue on.
use tslib.Common.{
  ℕ, zero, suc, refl, Bool, true, false, not, ◌&&◌, ◌||◌, List, [], ◌++◌, String, eqb,
}
use tslib.Actor.Message.{AwaiterMeta, is_commit, ids_where}
use tslib.Actor.Process.Exec.{Env, tried, slept, exhausted}
use tslib.Actor.Process.Drain.{notify_completions}
use tslib.Actor.Process.{
  Options, is_once, loop_round, process_loop, is_alive, still_ours, nap, try_acquire, acquire,
  cycles, owned,
}
use tslib.Actor.Process.Triple.{
  Triple, Keeps, pure-Triple, if-Triple, bind-Triple, seq-Triple, conseq-Triple, instant-Keeps,
  throw_if-Keeps,
}
use tslib.Actor.Process.Delivery.{
  Delivered, Held, Any, Delivered-Held, quiet-Delivered, pause-Delivered,
}
use tslib.Actor.Process.Delivery.Modes.{Local, exhausted-Local, told_more, told_none}
use tslib.Actor.Process.Delivery.Single.{size-Delivered}
use tslib.Actor.Process.Delivery.Bulk.{resolve_all-Delivered, mode-Triple}

module _ {T : Type 0} (env : Env T) where
  notify-Delivered :
      (metas : List AwaiterMeta) (ids : List String)
      → Keeps (Held env) (Any env) (Delivered env metas) (notify_completions env ids)
  unfolding notify_completions
  notify-Delivered metas ids =
      seq-Triple (Delivered env metas) (resolve_all-Delivered env metas ids)
        (pause-Delivered env metas)

  module _ (base : List AwaiterMeta) (ours : ℕ → Bool) where
    loop_round-Triple :
        (fuel : ℕ) (metas : List AwaiterMeta)
        → Triple
            (Held env)
            (Any env)
            (Local env base metas)
            (loop_round env ours fuel metas)
            (λ next. Local env base next.0)
    unfolding loop_round
    loop_round-Triple fuel metas =
        bind-Triple (Local env (base ++ metas))
          (mode-Triple env (base ++ metas) ours fuel env.handler)
          λ local.
            let all = (base ++ metas) ++ local in
            seq-Triple (Delivered env all)
              (notify-Delivered all (ids_where is_commit (metas ++ local)))
              (bind-Triple (λ _. Delivered env all) (size-Delivered env all)
                λ n.
                  pure-Triple (metas ++ local, not (eqb n 0)) (λ next. Local env base next.0)
                    (told_more env base metas local))

    process_loop-Triple :
        (fuel inner : ℕ) (metas : List AwaiterMeta)
        → Triple
            (Held env)
            (Any env)
            (Local env base metas)
            (process_loop env ours fuel inner metas)
            (Local env base)
    unfolding process_loop
    process_loop-Triple zero inner metas = exhausted-Local env base metas
    process_loop-Triple (suc fuel) inner metas =
        bind-Triple (λ _. Local env base metas) instant-Keeps
          λ now.
            if-Triple (ours now)
              (λ _.
                bind-Triple (λ next. Local env base next.0) (loop_round-Triple inner metas)
                  λ next.
                    if-Triple next.1 (λ _. process_loop-Triple fuel inner next.0)
                      (λ _. pure-Triple next.0 (Local env base) (λ w d. d)))
              (λ _. pure-Triple metas (Local env base) (λ w d. d))

  module _ (options : Options) (start : ℕ) where
    nap-Delivered :
        (metas : List AwaiterMeta)
        → Keeps (Held env) (Any env) (Delivered env metas) (nap env options start)
    unfolding nap
    nap-Delivered metas =
        bind-Triple (λ _. Delivered env metas) instant-Keeps
          λ now.
            seq-Triple (Delivered env metas) (quiet-Delivered env metas (slept _) refl)
              (pause-Delivered env metas)

    pub acquire-Delivered :
        (fuel : ℕ) → Keeps (Held env) (Any env) (Delivered env []) (acquire env options start fuel)
    unfolding acquire try_acquire exhausted
    acquire-Delivered zero = record { at = λ w d. tt }
    acquire-Delivered (suc fuel) =
        bind-Triple (λ _. Delivered env [])
          (bind-Triple (λ _. Delivered env []) instant-Keeps
            λ now.
              let granted = env.grants now && not (env.acquire_throws now) in
              seq-Triple (Delivered env []) (quiet-Delivered env [] (tried granted) refl) (
                seq-Triple (Delivered env []) (pause-Delivered env []) (
                  seq-Triple (Delivered env [])
                    (throw_if-Keeps (env.acquire_throws now) (Delivered-Held env []))
                    (pure-Triple granted (λ _. Delivered env []) (λ w d. d)))))
          λ granted.
            bind-Triple (λ _. Delivered env []) instant-Keeps
              λ now.
                if-Triple granted (λ _. pure-Triple true (λ _. Delivered env []) (λ w d. d))
                  (λ _.
                    if-Triple (is_once options || not (is_alive env options start now))
                      (λ _. pure-Triple false (λ _. Delivered env []) (λ w d. d))
                      (λ _.
                        seq-Triple (Delivered env []) (nap-Delivered []) (acquire-Delivered fuel)))

    cycles-Triple :
        (fuel : ℕ) (metas : List AwaiterMeta)
        → Triple
            (Held env)
            (Any env)
            (Delivered env metas)
            (cycles env options start fuel metas)
            (Delivered env)
    unfolding cycles exhausted
    cycles-Triple zero metas = record { at = λ w d. tt }
    cycles-Triple (suc fuel) metas =
        bind-Triple (λ _. Delivered env metas) instant-Keeps
          λ now.
            if-Triple (still_ours env options start now)
              (λ _.
                bind-Triple (Local env metas)
                  (conseq-Triple (Local env metas []) (told_none env metas)
                    (process_loop-Triple metas (still_ours env options start) fuel fuel []))
                  λ local.
                    bind-Triple (λ _. Local env metas local) instant-Keeps
                      λ later.
                        if-Triple
                          (is_once options
                            || env.lost later
                            || not (is_alive env options start later))
                          (λ _. pure-Triple (metas ++ local) (Delivered env) (λ w d. d))
                          (λ _.
                            seq-Triple (Local env metas local) (nap-Delivered (metas ++ local))
                              (cycles-Triple fuel (metas ++ local))))
              (λ _. pure-Triple metas (Delivered env) (λ w d. d))

    pub owned-Triple :
        (fuel : ℕ)
        → Triple
            (Held env)
            (Any env)
            (Delivered env [])
            (owned env options start fuel)
            (λ r. Delivered env r.0)
    unfolding owned
    owned-Triple fuel = bind-Triple (Delivered env) (cycles-Triple fuel []) λ metas.
        bind-Triple (λ _. Delivered env metas) instant-Keeps
          λ now. pure-Triple _ (λ r. Delivered env r.0) (λ w d. d)
