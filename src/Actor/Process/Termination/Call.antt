-- ===== src/Actor/Process/Termination/Call.antt =====
-- The lock's loops in `tryToProcess` of packages/actor-system/src/process.ts end, and the call
-- with them.
use tslib.Common.{
  ℕ, zero, suc, ◌+◌, ◌≤◌, ◌<◌, ◌≡◌, Bool, true, false, not, ◌||◌, List, [], ◌++◌, arith,
}
use tslib.Actor.Message.{AwaiterMeta}
use tslib.Actor.Process.Exec.{Env, tried, released, shifted, slept, instant}
use tslib.Actor.Process.{
  Options, is_once, limit, is_alive, still_ours, nap, try_acquire, acquire, cycles, owned, shift_if,
  run_owned, begun, try_to_process,
}
use tslib.Actor.Process.Triple.{
  Assertion, Triple, Keeps, pure-Triple, if-Triple, bind-Triple, seq-Triple, post-Triple,
  instant-Triple, instant-Keeps, pause-Triple, emit-Triple, throw_if-Keeps, call-Triple,
  call_if_given-Triple,
}
use tslib.Actor.Process.Finally.{finally_release-Triple}
use tslib.Actor.Process.Invariant.{Keeps-bind, Keeps-if, Keeps-pure}
use tslib.Actor.Process.Termination.{
  Any, Never, Progress, emit-Progress, pause-Progress, Enough, Enough-next, from_next,
}
use tslib.Actor.Process.Termination.Rounds.{exhausted-Enough}
use tslib.Actor.Process.Termination.Whole.{when_alive, passing, process_loop-Ends}

-- The drain cycles hand one unit less to the loops within.
abbrev pub Ample : ℕ → ℕ → ℕ → Type 0
Ample last n fuel = (last + 1 < n + fuel) × (1 < fuel)

module _ {T : Type 0} (env : Env T) (options : Options) (start last : ℕ)
    (over : (k : ℕ) → last ≤ k → is_alive env options start k ≡ false) where
  abbrev P : ℕ → Bool → Assertion T
  P n b = Progress last n b

  not_ours : (k : ℕ) → last ≤ k → still_ours env options start k ≡ false
  unfolding still_ours
  not_ours k h = rw (over k h)

  nap-Progress :
      (n : ℕ) → n < last → Triple Any Never (P n false) (nap env options start) (λ _. P n true)
  unfolding nap
  nap-Progress n h =
      bind-Triple (λ _. P n false) instant-Keeps
        λ now.
          seq-Triple (P n false) (emit-Progress last n false (slept _))
            (passing env (is_alive env options start) last over n h)

  cycles-Ends :
      (fuel n : ℕ) (metas : List AwaiterMeta)
      → Ample last n fuel
      → Keeps Any Never (P n false) (cycles env options start fuel metas)
  unfolding cycles
  cycles-Ends zero n metas ample = absurd (omega arith)
  cycles-Ends (suc fuel) n metas ample =
      bind-Triple (λ k w. (n ≤ w.now) × (k ≡ w.now)) instant-Triple
        λ k.
          if-Triple (still_ours env options start k)
            (λ e. when_alive env (still_ours env options start) last not_ours n k e λ h.
              bind-Triple (λ _. P n false)
                (process_loop-Ends env (still_ours env options start) last not_ours fuel fuel n []
                  (omega arith) (omega arith))
                λ local.
                  bind-Triple (λ _. P n false) instant-Keeps
                    λ k'.
                      if-Triple
                        (is_once options || env.lost k' || not (is_alive env options start k'))
                        (λ _. pure-Triple (metas ++ local) (λ _. P n false) (λ w p. p))
                        (λ _. seq-Triple (P n true) (nap-Progress n h) (
                          from_next last n
                            (cycles-Ends fuel (suc n) (metas ++ local) (omega arith)))))
            (λ e. pure-Triple metas (λ _. P n false) (λ w p. p.0))

  owned-Ends :
      (fuel n : ℕ) → Ample last n fuel → Keeps Any Never (P n false) (owned env options start fuel)
  unfolding owned
  owned-Ends fuel n ample =
      Keeps-bind (cycles-Ends fuel n [] ample) λ metas. Keeps-bind instant-Keeps λ now. Keeps-pure _

  still_waiting :
      (k : ℕ) (b : Bool)
      → (b || not (is_alive env options start k)) ≡ false
      → is_alive env options start k ≡ true
  still_waiting k b h = ground arith

  acquire-Ends :
      (fuel n : ℕ)
      → Enough last n fuel
      → Keeps Any Never (P n false) (acquire env options start fuel)
  unfolding acquire try_acquire
  acquire-Ends zero n enough =
      exhausted-Enough env (is_alive env options start) last over n (λ _. P n false) enough
  acquire-Ends (suc fuel) n enough =
      bind-Triple (λ _. P n false)
        (Keeps-bind instant-Keeps λ now. Keeps-bind (emit-Progress last n false (tried _)) λ _.
          Keeps-bind (pause-Progress env last n false)
            λ _. Keeps-bind (throw_if-Keeps (env.acquire_throws now) (λ w p. tt)) λ _. Keeps-pure _)
        λ b.
          bind-Triple (λ k w. (n ≤ w.now) × (k ≡ w.now)) instant-Triple
            λ k.
              if-Triple b (λ _. pure-Triple true (λ _. P n false) (λ w p. p.0))
                (λ _.
                  if-Triple (is_once options || not (is_alive env options start k))
                    (λ _. pure-Triple false (λ _. P n false) (λ w p. p.0))
                    (λ e.
                      when_alive env (is_alive env options start) last over n k
                        (still_waiting k (is_once options) e)
                        λ h. seq-Triple (P n true) (nap-Progress n h) (
                          from_next last n
                            (acquire-Ends fuel (suc n) (Enough-next last n fuel enough h)))))

  run_owned-Ends :
      (fuel n : ℕ)
      → Ample last n fuel
      → Keeps Any Never (P n false) (run_owned env options start fuel)
  unfolding run_owned shift_if
  run_owned-Ends fuel n ample =
      Keeps-bind
        (finally_release-Triple Any Never (λ _. P n false) env
          (λ r.
            call-Triple env released env.release_throws (P n false)
              (emit-Progress last n false released) (pause-Progress env last n false) (λ w p. tt))
          (call-Triple env released env.release_throws Any (emit-Triple released Any (λ w p. tt))
            (pause-Triple env Any (λ w p. tt)) (λ w p. tt))
          (λ w s. s) (owned-Ends fuel n ample))
        λ r.
          Keeps-bind
            (Keeps-if r.1
              (call_if_given-Triple env shifted env.shift (emit-Progress last n false shifted)
                (pause-Progress env last n false) (λ w p. tt))
              (Keeps-pure tt))
            λ _. Keeps-pure r.0

module _ {T : Type 0} (env : Env T) (options : Options) where
  -- The lifetime is over at `last`.
  abbrev pub Expires : ℕ → ℕ → Type 0
  Expires start last =
      (0 < limit options) × ((k : ℕ) → last ≤ k → env.millis start + limit options ≤ env.millis k)

  Expires-over :
      (start last : ℕ)
      → Expires start last
      → (k : ℕ) → last ≤ k
      → is_alive env options start k ≡ false
  unfolding is_alive
  Expires-over start last e k h = ground (arith, e.1 k)

  started :
      (n : ℕ) → Triple {T = T} Any Never (λ w. w.now ≡ n) instant (λ k w. (k ≡ n) × (w.now ≡ n))
  unfolding instant
  started n = record { at = λ w e. (e, e) }

  -- From the instant of the start on.
  begun-Ends :
      (fuel start last : ℕ)
      → Expires start last
      → Ample last start fuel
      → (k : ℕ)
      → Triple Any Never (λ w. (k ≡ start) × (w.now ≡ start)) (begun env options fuel k) (λ _. Any)
  unfolding begun
  begun-Ends fuel start last e ample k = record {
    at = λ w p.
        (post-Triple (λ _. Progress last start false) (λ _ _ _. tt)
            (Keeps-bind (acquire-Ends env options k last (over p.0) fuel start (omega arith)) λ b.
              Keeps-if b (run_owned-Ends env options k last (over p.0) fuel start ample)
                (Keeps-pure []))).at
          w (omega arith);
  }
    where
      over : k ≡ start → (i : ℕ) → last ≤ i → is_alive env options k i ≡ false
      over same i h = rw same (Expires-over start last e i h)

  pub try_to_process-Triple :
      (fuel start last : ℕ)
      → Expires start last
      → Ample last start fuel
      → Triple Any Never (λ w. w.now ≡ start) (try_to_process env options fuel) (λ _. Any)
  unfolding try_to_process
  try_to_process-Triple fuel start last e ample =
      bind-Triple (λ k w. (k ≡ start) × (w.now ≡ start)) (started start)
        (begun-Ends fuel start last e ample)
