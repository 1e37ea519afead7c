-- ===== src/Actor/Process/Termination/OneShot.antt =====
-- A one-shot call of `tryToProcess` of packages/actor-system/src/process.ts ends when the pushes of
-- others end and the lock is not lost.
use tslib.Common.{
  ℕ, zero, suc, ◌+◌, ◌-◌, ◌≤◌, ◌<◌, ◌≡◌, subst, true, false, not, ◌||◌, [], ◌++◌, arith,
}
use tslib.Actor.Process.Exec.{Env, tried, released, shifted}
use tslib.Actor.Process.{
  Options, is_once, limit, is_alive, still_ours, try_acquire, acquire, cycles, owned, shift_if,
  run_owned, begun, try_to_process,
}
use tslib.Actor.Process.Triple.{
  Assertion, Triple, Keeps, pure-Triple, if-Triple, bind-Triple, seq-Triple, instant-Keeps,
  emit-Triple, pause-Triple, throw_if-Keeps, call-Triple, call_if_given-Triple,
}
use tslib.Actor.Process.Finally.{finally_release-Triple}
use tslib.Actor.Process.Termination.{Any, Never}
use tslib.Actor.Process.Termination.Finite.{future, Left, pause-Left, emit-Left}
use tslib.Actor.Process.Termination.DrainLoop.{process_loop-Ends}

module _ {T : Type 0} (env : Env T) (last : ℕ)
    (quiet : (k : ℕ) → last ≤ k → env.arrivals k ≡ []) where
  module _ (options : Options) (start : ℕ) (once : is_once options ≡ true)
      (ours : (k : ℕ) → still_ours env options start k ≡ true) where
    cycles-Ends :
        (fuel n : ℕ)
        → suc (suc n) < fuel
        → Triple Any Never
            (Left env last quiet false n)
            (cycles env options start fuel [])
            (λ _. Any)
    unfolding cycles
    cycles-Ends zero n h = absurd (omega (arith, h))
    cycles-Ends (suc fuel) n h =
        bind-Triple (λ _. Left env last quiet false n) instant-Keeps
          λ k.
            if-Triple (still_ours env options start k)
              (λ _.
                bind-Triple (λ _. Any)
                  (process_loop-Ends env last quiet (still_ours env options start) ours fuel fuel n
                    [] (omega (arith, h)) (omega (arith, h)))
                  λ local.
                    bind-Triple (λ _. Any) instant-Keeps
                      λ later.
                        if-Triple
                          (is_once options
                            || env.lost later
                            || not (is_alive env options start later))
                          (λ _. pure-Triple ([] ++ local) (λ _. Any) (λ w p. tt))
                          (λ e. absurd (ground (arith, once, e))))
              (λ e. absurd (ground (arith, ours k, e)))

    acquire-Ends :
        (fuel n : ℕ)
        → 0 < fuel
        → Keeps Any Never (Left env last quiet false n) (acquire env options start fuel)
    unfolding acquire try_acquire
    acquire-Ends zero n h = absurd (omega (arith, h))
    acquire-Ends (suc fuel) n h =
        let P = Left env last quiet false n in
        bind-Triple (λ _. P)
          (bind-Triple (λ _. P) instant-Keeps
            λ now. seq-Triple P (emit-Left env last quiet false n (tried _)) (
              seq-Triple P (pause-Left env last quiet false n) (
                seq-Triple P (throw_if-Keeps (env.acquire_throws now) (λ w p. tt))
                  (pure-Triple _ (λ _. P) (λ w p. p)))))
          λ granted.
            bind-Triple (λ _. P) instant-Keeps
              λ now.
                if-Triple granted (λ _. pure-Triple true (λ _. P) (λ w p. p))
                  (λ _.
                    if-Triple (is_once options || not (is_alive env options start now))
                      (λ _. pure-Triple false (λ _. P) (λ w p. p))
                      (λ e. absurd (ground (arith, once, e))))

    run_owned-Ends :
        (fuel n : ℕ)
        → suc (suc n) < fuel
        → Triple Any Never
            (Left env last quiet false n)
            (run_owned env options start fuel)
            (λ _. Any)
    unfolding run_owned shift_if owned
    run_owned-Ends fuel n h =
        let release =
          call-Triple {Q = Any} {S = Never} {P = Any} env released env.release_throws Any
            (emit-Triple released Any (λ w p. tt)) (pause-Triple env Any (λ w p. tt)) (λ w p. tt) in
        bind-Triple (λ _. Any)
          (finally_release-Triple Any Never (λ _. Any) env (λ r. release) release (λ w s. s)
            (bind-Triple (λ _. Any) (cycles-Ends fuel n h)
              λ metas.
                bind-Triple (λ _. Any) instant-Keeps λ now. pure-Triple _ (λ _. Any) (λ w p. tt)))
          λ r.
            seq-Triple Any
              (if-Triple r.1
                (λ _.
                  call_if_given-Triple env shifted env.shift (emit-Triple shifted Any (λ w p. tt))
                    (pause-Triple env Any (λ w p. tt)) (λ w p. tt))
                (λ _. pure-Triple tt (λ _. Any) (λ w p. tt)))
              (pure-Triple r.0 (λ _. Any) (λ w p. tt))

-- One attempt on the lock and one drain, without a limit on the lifetime; the lock is not lost, the
-- pushes end, and the fuel is for the instants and the messages until then.
pub record IsOneShot {T : Type 0} (env : Env T) (options : Options) (fuel : ℕ) : Type 0 where
  pub once : is_once options ≡ true
  pub unlimited : limit options ≡ 0
  pub kept : (k : ℕ) → env.lost k ≡ false
  pub last : ℕ
  pub quiet : (k : ℕ) → last ≤ k → env.arrivals k ≡ []
  pub enough : suc (suc (future env last 0)) < fuel

module _ {T : Type 0} (env : Env T) (options : Options) (fuel : ℕ)
    (shot : IsOneShot env options fuel) where
  always_ours : (start k : ℕ) → still_ours env options start k ≡ true
  unfolding still_ours is_alive
  always_ours start k = ground (arith, shot.unlimited, shot.kept k)

  abbrev Start : Assertion T
  Start = Left env shot.last shot.quiet false (future env shot.last 0)

  pub start-Left : Start (record { now = 0; queue = []; trace = [] })
  start-Left =
      let all : shot.last ≡ shot.last - 0 = omega arith in
      record {
        left = subst (λ d. 0 + future env d 0 ≤ future env shot.last 0) all (omega arith);
        is_late = λ e. absurd (ground (arith, e));
      }

  pub one_shot-Triple : Triple Any Never Start (try_to_process env options fuel) (λ _. Any)
  unfolding try_to_process begun
  one_shot-Triple =
      let n = future env shot.last 0 in
      bind-Triple (λ _. Start) instant-Keeps
        λ start.
          bind-Triple (λ _. Start)
            (acquire-Ends env shot.last shot.quiet options start shot.once (always_ours start) fuel
              n (omega (arith, shot.enough)))
            λ acquired.
              if-Triple acquired
                (λ _.
                  run_owned-Ends env shot.last shot.quiet options start shot.once
                    (always_ours start) fuel n shot.enough)
                (λ _. pure-Triple [] (λ _. Any) (λ w p. tt))
