-- ===== src/Actor/Process/Termination/Finite.antt =====
-- The modes of packages/actor-system/src/process.ts end also without a limit on the lifetime, when
-- the pushes of others end and the lock is not lost: a round that goes on takes a message off the
-- queue.
use tslib.Common.{
  ℕ, zero, suc, ◌+◌, ◌-◌, ◌≤◌, ◌<◌, ◌≡◌, refl, ap, ◌∙◌, sym, subst, String, Bool, true, Option,
  List, [], ◌∷◌, ◌++◌, length, arith,
}
use tslib.Actor.Message.{UserMessage, is_act}
use tslib.Actor.Process.Exec.{
  World, Env, Event, Callback, reported, handled, resolved, emit, pause, call_if_given,
}
use tslib.Actor.Process.Drain.{resolve_all, guarded, notify_act}
use tslib.Actor.Process.Triple.{
  Assertion, Keeps, pure-Triple, if-Triple, bind-Triple, seq-Triple, instant-Keeps, emit-Triple,
  pause-Triple, call_if_given-Triple,
}
use tslib.Actor.Process.Termination.{Any, Never}

-- The instants up to `last` and the messages pushed at them, from an instant on, for `d` instants.
abbrev pub future : {T : Type 0} → Env T → ℕ → ℕ → ℕ
future env zero k = 0
future env (suc d) k = suc (length (env.arrivals k)) + future env d (suc k)

pub length-append : {A : Type 0} (l r : List A) → length (l ++ r) ≡ length l + length r
length-append [] r = omega arith
length-append (x ∷ l) r = omega (arith, length-append l r)

module _ {T : Type 0} (env : Env T) (last : ℕ)
    (quiet : (k : ℕ) → last ≤ k → env.arrivals k ≡ []) where
  -- What is left to do at most.
  abbrev pub work : World T → ℕ
  work w = length w.queue + future env (last - w.now) w.now

  -- At most `n` is left; `late` says that the pushes have ended.
  pub record Left (late : Bool) (n : ℕ) (w : World T) : Type 0 where
    pub left : work w ≤ n
    pub is_late : late ≡ true → last ≤ w.now

  pub record Filled (late : Bool) (n : ℕ) (w : World T) : Type 0 where
    pub has : Left late n w
    pub filled : 0 < length w.queue

  pub record Drained (late : Bool) (n : ℕ) (w : World T) : Type 0 where
    pub has : Left late n w
    pub drained : late ≡ true → w.queue ≡ []

  -- A pause before `last` is work done.
  future-step :
      (k : ℕ)
      → length (env.arrivals k) + future env (last - suc k) (suc k) ≤ future env (last - k) k
  future-step k = go (last - k) refl
    where
      go :
          (d : ℕ)
          → last - k ≡ d
          → length (env.arrivals k) + future env (last - suc k) (suc k) ≤ future env d k
      go zero e =
          let none_left : 0 ≡ last - suc k = omega (arith, e) in
          subst (λ x. length (env.arrivals k) + future env x (suc k) ≤ 0) none_left
            (subst (λ (l : List (UserMessage T)). length l + 0 ≤ 0)
              (sym (quiet k (omega (arith, e)))) (omega arith))
      go (suc d) e =
          let fewer : d ≡ last - suc k = omega (arith, e) in
          subst (λ x. length (env.arrivals k) + future env x (suc k) ≤ future env (suc d) k) fewer
            (omega arith)

  pub future-step_early :
      (k : ℕ)
      → k < last
      → suc (length (env.arrivals k) + future env (last - suc k) (suc k)) ≤ future env (last - k) k
  future-step_early k h =
      let more : suc (last - suc k) ≡ last - k = omega (arith, h) in
      subst
        (λ x. suc (length (env.arrivals k) + future env (last - suc k) (suc k)) ≤ future env x k)
        more (omega arith)

  module _ (late : Bool) (n : ℕ) where
    pub pause-Left : Keeps Any Never (Left late n) (pause env)
    pause-Left = pause-Triple env (Left late n) λ w p. record {
      left = omega (arith, p.left, future-step w.now, length-append w.queue (env.arrivals w.now));
      is_late = λ e. omega (arith, p.is_late e);
    }

    pub paused :
        (w : World T)
        → Left late n w
        → Left late n (record w { now = suc w.now; queue = w.queue ++ env.arrivals w.now })
    paused w p = record {
      left = omega (arith, p.left, future-step w.now, length-append w.queue (env.arrivals w.now));
      is_late = λ e. omega (arith, p.is_late e);
    }

    pub pause-Filled : Keeps Any Never (Filled late n) (pause env)
    pause-Filled = pause-Triple env (Filled late n) λ w p. record {
      has = paused w p.has;
      filled = omega (arith, p.filled, length-append w.queue (env.arrivals w.now));
    }

    pub pause-Drained : Keeps Any Never (Drained late n) (pause env)
    pause-Drained = pause-Triple env (Drained late n) λ w p. record {
      has = paused w p.has;
      drained =
          λ e. ap (λ q. q ++ env.arrivals w.now) (p.drained e) ∙ quiet w.now (p.has.is_late e);
    }

    pub emit-Left : (e : Event T) → Keeps Any Never (Left late n) (emit e)
    emit-Left e = emit-Triple e (Left late n) λ w p. record { left = p.left; is_late = p.is_late }

    pub emit-Filled : (e : Event T) → Keeps Any Never (Filled late n) (emit e)
    emit-Filled e = emit-Triple e (Filled late n) λ w p. record {
      has = record { left = p.has.left; is_late = p.has.is_late };
      filled = p.filled;
    }

    pub emit-Drained : (e : Event T) → Keeps Any Never (Drained late n) (emit e)
    emit-Drained e = emit-Triple e (Drained late n) λ w p. record {
      has = record { left = p.has.left; is_late = p.has.is_late };
      drained = p.drained;
    }

    pub empty-Drained : (w : World T) → Left late n w → length w.queue ≡ 0 → Drained late n w
    empty-Drained w p e = record { has = p; drained = λ _. empty w.queue e }
      where
        empty : (q : List (UserMessage T)) → length q ≡ 0 → q ≡ []
        empty [] e = refl
        empty (m ∷ q) e = absurd (omega (arith, e))

-- What pauses and events keep, handlers and answers keep.
module _ {T : Type 0} (env : Env T) (P : Assertion T) (kept : Keeps Any Never P (pause env))
    (emitted : (e : Event T) → Keeps Any Never P (emit e)) where
  pub callback-Keeps :
      (e : Event T) (callback : Option Callback) → Keeps Any Never P (call_if_given env e callback)
  callback-Keeps e callback = call_if_given-Triple env e callback (emitted e) kept (λ w p. tt)

  pub guarded-Keeps :
      (ms : List (UserMessage T)) (throws : Callback) → Keeps Any Never P (guarded env ms throws)
  unfolding guarded
  guarded-Keeps ms throws =
      bind-Triple (λ _. P) instant-Keeps
        λ now. seq-Triple P (emitted (handled ms)) (
          seq-Triple P kept (
            if-Triple (throws now) (λ _. callback-Keeps reported env.on_error)
              (λ _. pure-Triple tt (λ _. P) (λ w p. p))))

  pub notify_act-Keeps : (m : UserMessage T) → Keeps Any Never P (notify_act env m)
  unfolding notify_act
  notify_act-Keeps m =
      if-Triple (is_act m.await_policy) (λ _. emitted (resolved m.message_id))
        (λ _. pure-Triple tt (λ _. P) (λ w p. p))

  pub resolve_all-Keeps : (ids : List String) → Keeps Any Never P (resolve_all env ids)
  unfolding resolve_all
  resolve_all-Keeps [] = pure-Triple tt (λ _. P) (λ w p. p)
  resolve_all-Keeps (id ∷ ids) = seq-Triple P (emitted (resolved id)) (resolve_all-Keeps ids)
