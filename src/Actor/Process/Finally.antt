-- ===== src/Actor/Process/Finally.antt =====
-- The `try … finally` of `tryToProcess` in packages/actor-system/src/process.ts.
use tslib.Actor.Process.Exec.{
  World, Env, Outcome, Action, ok, thrown, out_of_fuel, released, exhausted, call,
}
use tslib.Actor.Process.Triple.{Assertion, Ends, Triple, pure-Triple, seq-Triple}
use tslib.Actor.Process.{release_after, finally_release}

module _ {T A : Type 0} {Q S : Assertion T} {R : A → Assertion T} (Q' S' : Assertion T)
    (R' : A → Assertion T) (env : Env T)
    (after_ok : (a : A) → Triple Q' S' (R a) (call env released env.release_throws) (λ _. R' a))
    (after_throw : Triple Q' S' Q (call env released env.release_throws) (λ _. Q'))
    (after_fuel : (w : World T) → S w → S' w) where
  release_after-Ends :
      (r : Outcome A) (w : World T)
      → Ends Q S R r w
      → Ends Q' S' R' (release_after env r w).0 (release_after env r w).1
  unfolding release_after exhausted
  release_after-Ends (ok a) w h =
      (seq-Triple (R' a) (after_ok a) (pure-Triple a R' (λ w p. p))).at w h
  release_after-Ends thrown w h =
      (seq-Triple {U = R'} Q' after_throw (record { at = λ w p. p })).at w h
  release_after-Ends out_of_fuel w h = after_fuel w h

  -- The release runs after a result and after a throw.
  pub finally_release-Triple :
      {P : Assertion T} {body : Action T A}
      → Triple Q S P body R
      → Triple Q' S' P (finally_release env body) R'
  unfolding finally_release
  finally_release-Triple {body} t = record {
    at = λ w p. let (r, w') = body w in release_after-Ends r w' (t.at w p);
  }
