-- ===== src/Actor/Process/Delivery/Call.antt =====
-- What a call of `tryToProcess` in packages/actor-system/src/process.ts does to the messages.
use tslib.Common.{ℕ, refl, Bool, List, []}
use tslib.Actor.Message.{AwaiterMeta}
use tslib.Actor.Process.Exec.{Env, released, shifted}
use tslib.Actor.Process.{Options, shift_if, run_owned, try_to_process}
use tslib.Actor.Process.Triple.{
  Triple, Keeps, pure-Triple, if-Triple, bind-Triple, seq-Triple, instant-Keeps,
  call_if_given-Triple, call-Triple,
}
use tslib.Actor.Process.Finally.{finally_release-Triple}
use tslib.Actor.Process.Delivery.{
  Delivered, Held, Any, Delivered-Held, quiet-Delivered, pause-Delivered, quiet-Held, pause-Held,
}
use tslib.Actor.Process.Delivery.Whole.{acquire-Delivered, owned-Triple}

module _ {T : Type 0} (env : Env T) where
  shift_if-Delivered :
      (metas : List AwaiterMeta) (b : Bool)
      → Keeps (Held env) (Any env) (Delivered env metas) (shift_if env b)
  unfolding shift_if
  shift_if-Delivered metas b =
      if-Triple b
        (λ _.
          call_if_given-Triple env shifted env.shift (quiet-Delivered env metas shifted refl)
            (pause-Delivered env metas) (Delivered-Held env metas))
        (λ _. pure-Triple tt (λ _. Delivered env metas) (λ w d. d))

  run_owned-Triple :
      (options : Options) (start fuel : ℕ)
      → Triple
          (Held env)
          (Any env)
          (Delivered env [])
          (run_owned env options start fuel)
          (Delivered env)
  unfolding run_owned
  run_owned-Triple options start fuel =
      bind-Triple (λ r. Delivered env r.0)
        (finally_release-Triple (Held env) (Any env) (λ r. Delivered env r.0) env
          (λ r.
            call-Triple env released env.release_throws (Delivered env r.0)
              (quiet-Delivered env r.0 released refl) (pause-Delivered env r.0)
              (Delivered-Held env r.0))
          (call-Triple env released env.release_throws (Held env) (quiet-Held env released refl)
            (pause-Held env) (λ w h. h))
          (λ w s. s) (owned-Triple env options start fuel))
        λ r.
          seq-Triple (Delivered env r.0) (shift_if-Delivered r.0 r.1)
            (pure-Triple r.0 (Delivered env) (λ w d. d))

  pub try_to_process-Triple :
      (options : Options) (fuel : ℕ)
      → Triple
          (Held env)
          (Any env)
          (Delivered env [])
          (try_to_process env options fuel)
          (Delivered env)
  unfolding try_to_process
  try_to_process-Triple options fuel =
      bind-Triple (λ _. Delivered env []) instant-Keeps
        λ start.
          bind-Triple (λ _. Delivered env []) (acquire-Delivered env options start fuel)
            λ acquired.
              if-Triple acquired (λ _. run_owned-Triple options start fuel)
                (λ _. pure-Triple [] (Delivered env) (λ w d. d))
