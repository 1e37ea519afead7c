-- ===== src/Actor/Process/Invariant.antt =====
-- What no pause and no event of the work breaks, no part of a round breaks: the functions of
-- packages/actor-system/src/process.ts that have no loop of their own.
use tslib.Common.{
  ℕ, ◌≡◌, refl, Bool, true, false, Option, none, some, List, [], ◌∷◌, map, String, ltb,
  if◌then◌else◌,
}
use tslib.Actor.Message.{UserMessage, AwaiterMeta, copy_awaiter_meta, is_act}
use tslib.Actor.Process.Exec.{
  World, Env, Event, Callback, Action, tried, reported, released, shifted, handled, resolved,
  popped, slept, pure, emit, pause, call_if_given, ◌>>=◌,
}
use tslib.Actor.Process.Drain.{
  resolve_all, notify_completions, size, peek, take_first, pop, flush, guarded, process_message,
  notify_act, process_peeked, another, peeked, round, process_batch, bulk_round,
}
use tslib.Actor.Process.{Options, nap}
use tslib.Actor.Process.Triple.{
  Assertion, Keeps, pure-Triple, bind-Triple, instant-Keeps, await-Triple, call_if_given-Triple,
}

-- The events of an owner at work.
abbrev pub is_work : {T : Type 0} → Event T → Bool
is_work (tried _) = false
is_work released = false
is_work shifted = false
is_work _ = true

module _ {T : Type 0} {Q S P : Assertion T} where
  module _ {A : Type 0} where
    pub Keeps-pure : (a : A) → Keeps Q S P (pure a)
    Keeps-pure a = pure-Triple a (λ _. P) (λ w p. p)

    pub Keeps-if :
        (b : Bool) {m n : Action T A}
        → Keeps Q S P m
        → Keeps Q S P n
        → Keeps Q S P (if b then m else n)
    Keeps-if true km kn = km
    Keeps-if false km kn = kn

  module _ {A B : Type 0} where
    pub Keeps-bind :
        {m : Action T A} {f : A → Action T B}
        → Keeps Q S P m
        → ((a : A) → Keeps Q S P (f a))
        → Keeps Q S P (m >>= f)
    Keeps-bind km kf = bind-Triple (λ _. P) km kf

-- `P` may rest on the trace and on the time, not on the queue.
module _ {T : Type 0} {Q S P : Assertion T} (env : Env T) (paused : Keeps Q S P (pause env))
    (worked : (e : Event T) → is_work e ≡ true → Keeps Q S P (emit e))
    (refilled : (w : World T) (q : List (UserMessage T)) → P w → P (record w { queue = q }))
    (weaken : (w : World T) → P w → Q w) where
  pub resolve_all-Keeps : (ids : List String) → Keeps Q S P (resolve_all env ids)
  unfolding resolve_all
  resolve_all-Keeps [] = Keeps-pure tt
  resolve_all-Keeps (id ∷ ids) = Keeps-bind (worked (resolved id) refl) (λ _. resolve_all-Keeps ids)

  pub notify-Keeps : (ids : List String) → Keeps Q S P (notify_completions env ids)
  unfolding notify_completions
  notify-Keeps ids = Keeps-bind (resolve_all-Keeps ids) (λ _. paused)

  pub size-Keeps : Keeps Q S P (size env)
  unfolding size
  size-Keeps = Keeps-bind (await-Triple env P paused weaken) (λ _. record { at = λ w p. p })

  pub peek-Keeps : Keeps Q S P (peek env)
  unfolding peek
  peek-Keeps = Keeps-bind (await-Triple env P paused weaken) (λ _. record { at = λ w p. p })

  pub callback-Keeps :
      (e : Event T) (callback : Option Callback)
      → is_work e ≡ true
      → Keeps Q S P (call_if_given env e callback)
  callback-Keeps e callback q = call_if_given-Triple env e callback (worked e q) paused weaken

  pub guarded-Keeps :
      (ms : List (UserMessage T)) (throws : Callback) → Keeps Q S P (guarded env ms throws)
  unfolding guarded
  guarded-Keeps ms throws = Keeps-bind instant-Keeps λ now.
      Keeps-bind (worked (handled ms) refl) λ _.
        Keeps-bind paused
          λ _. Keeps-if (throws now) (callback-Keeps reported env.on_error refl) (Keeps-pure tt)

  notify_act-Keeps : (m : UserMessage T) → Keeps Q S P (notify_act env m)
  unfolding notify_act
  notify_act-Keeps m =
      Keeps-if (is_act m.await_policy) (worked (resolved m.message_id) refl) (Keeps-pure tt)

  take_first-Keeps : (q : List (UserMessage T)) → Keeps Q S P (take_first env q)
  unfolding take_first emit
  take_first-Keeps [] = record { at = λ w p. p }
  take_first-Keeps (m ∷ rest) = record {
    at = λ w p. refilled _ rest ((worked (popped (m ∷ [])) refl).at w p);
  }

  pop-Keeps : Keeps Q S P (pop env)
  unfolding pop
  pop-Keeps =
      Keeps-bind (await-Triple env P paused weaken)
        (λ _. record { at = λ w p. (take_first-Keeps w.queue).at w p })

  flush-Keeps : Keeps Q S P (flush env)
  unfolding flush emit
  flush-Keeps =
      Keeps-bind (await-Triple env P paused weaken)
        λ _. record { at = λ w p. refilled _ [] ((worked (popped w.queue) refl).at w p) }

  process_peeked-Keeps :
      (on_message : ℕ → T → Bool) (m : UserMessage T)
      → Keeps Q S P (process_peeked env on_message m)
  unfolding process_peeked process_message
  process_peeked-Keeps on_message m =
      Keeps-bind (guarded-Keeps (m ∷ []) (λ now. on_message now m.item)) λ _.
        Keeps-bind (notify_act-Keeps m)
          λ _. Keeps-bind pop-Keeps λ _. Keeps-pure (copy_awaiter_meta m)

  module _ (is_alive : ℕ → Bool) where
    pub peeked-Keeps :
        (on_message : ℕ → T → Bool) (found : Option (UserMessage T))
        → Keeps Q S P (peeked env is_alive on_message found)
    unfolding peeked
    peeked-Keeps on_message none = Keeps-pure none
    peeked-Keeps on_message (some m) =
        Keeps-bind (process_peeked-Keeps on_message m) λ c. Keeps-pure (some c)

    pub round-Keeps : (on_message : ℕ → T → Bool) → Keeps Q S P (round env is_alive on_message)
    unfolding round another
    round-Keeps on_message =
        Keeps-bind
          (Keeps-bind instant-Keeps λ now.
            Keeps-if (is_alive now) (Keeps-bind size-Keeps λ n. Keeps-pure (ltb 0 n))
              (Keeps-pure false))
          λ more.
            Keeps-if more (Keeps-bind peek-Keeps λ found. peeked-Keeps on_message found)
              (Keeps-pure none)

    pub process_batch-Keeps :
        (on_messages : ℕ → List T → Bool) (metas : List AwaiterMeta) (ms : List (UserMessage T))
        → Keeps Q S P (process_batch env is_alive on_messages metas ms)
    unfolding process_batch
    process_batch-Keeps on_messages metas [] = Keeps-pure none
    process_batch-Keeps on_messages metas (m ∷ ms) =
        Keeps-bind (guarded-Keeps (m ∷ ms) (λ now. on_messages now (map (λ x. x.item) (m ∷ ms))))
          λ _. Keeps-bind (resolve_all-Keeps _) λ _. Keeps-pure _

    pub bulk_round-Keeps :
        (on_messages : ℕ → List T → Bool) (metas : List AwaiterMeta)
        → Keeps Q S P (bulk_round env is_alive on_messages metas)
    unfolding bulk_round
    bulk_round-Keeps on_messages metas = Keeps-bind instant-Keeps λ now.
        Keeps-if (is_alive now)
          (Keeps-bind flush-Keeps λ ms. process_batch-Keeps on_messages metas ms) (Keeps-pure none)

  pub nap-Keeps : (options : Options) (start : ℕ) → Keeps Q S P (nap env options start)
  unfolding nap
  nap-Keeps options start =
      Keeps-bind instant-Keeps λ now. Keeps-bind (worked (slept _) refl) (λ _. paused)
