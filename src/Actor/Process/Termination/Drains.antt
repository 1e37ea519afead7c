-- ===== src/Actor/Process/Termination/Drains.antt =====
-- Both modes of packages/actor-system/src/process.ts drain a queue to which others push no longer.
use tslib.Common.{
  ℕ, zero, suc, ◌-◌, ◌≤◌, ◌<◌, ◌≡◌, refl, Bool, true, false, Option, none, some, List, [], ◌∷◌,
  ◌++◌, length, ltb, map, arith,
}
use tslib.Actor.Message.{UserMessage, AwaiterMeta, copy_awaiter_meta, is_act, ids_where}
use tslib.Actor.Process.Exec.{
  World, Env, Event, Handler, single, bulk, prepared, committed, emit, pause,
}
use tslib.Actor.Process.Drain.{
  size, peek, pop, take_first, flush, process_message, process_peeked, another, peeked, round,
  rounds, process_queue_in_lock, process_in_single_mode, process_batch, bulk_round,
  process_in_bulk_mode, process_in_mode,
}
use tslib.Actor.Process.Triple.{
  Assertion, Ends, Triple, Keeps, pure-Triple, if-Triple, bind-Triple, seq-Triple, post-Triple,
  instant-Keeps, emit-Triple, pause-Triple, await-Triple,
}
use tslib.Actor.Process.Termination.{Any, Never}
use tslib.Actor.Process.Termination.Finite.{
  Left, Filled, Drained, paused, pause-Left, pause-Filled, pause-Drained, emit-Left, emit-Filled,
  emit-Drained, empty-Drained, callback-Keeps, guarded-Keeps, notify_act-Keeps, resolve_all-Keeps,
}

module _ {T : Type 0} (env : Env T) (last : ℕ) (quiet : (k : ℕ) → last ≤ k → env.arrivals k ≡ [])
    (late : Bool) where
  -- One unit less is left than before.
  abbrev pub Fewer : ℕ → Assertion T
  Fewer n w = (0 < n) × Left env last quiet late (n - 1) w

  pub pause-Fewer : (n : ℕ) → Keeps Any Never (Fewer n) (pause env)
  pause-Fewer n = pause-Triple env (Fewer n) λ w p. (p.0, paused env last quiet late (n - 1) w p.1)

  pub emit-Fewer : (n : ℕ) (e : Event T) → Keeps Any Never (Fewer n) (emit e)
  emit-Fewer n e =
      emit-Triple e (Fewer n) λ w p. (p.0, record { left = p.1.left; is_late = p.1.is_late })

  module _ (n : ℕ) where
    abbrev P : Assertion T
    P = Left env last quiet late n

    pub size-Triple : Triple Any Never P (size env) (λ m w. P w × (m ≡ length w.queue))
    unfolding size
    size-Triple =
        seq-Triple P (await-Triple env P (pause-Left env last quiet late n) (λ w p. tt))
          (record { at = λ w p. (p, refl) })

    found : Option (UserMessage T) → Assertion T
    found none = Drained env last quiet late n
    found (some m) = Filled env last quiet late n

    peek-found :
        (w : World T) (q : List (UserMessage T))
        → w.queue ≡ q
        → P w
        → found (elim q [ [] ↦ none | m ∷ _ ↦ some m ]) w
    unfolding found
    peek-found w [] e p = record { has = p; drained = λ _. e }
    peek-found w (m ∷ r) e p = record { has = p; filled = ground (arith, e) }

    peek-Triple : Triple Any Never P (peek env) found
    unfolding peek
    peek-Triple =
        seq-Triple P (await-Triple env P (pause-Left env last quiet late n) (λ w p. tt))
          (record { at = λ w p. peek-found w w.queue refl p })

    take_first-Fewer :
        (q : List (UserMessage T)) (w : World T)
        → w.queue ≡ q
        → Filled env last quiet late n w
        → Ends Any Never (λ _. Fewer n) (take_first env q w).0 (take_first env q w).1
    unfolding take_first
    take_first-Fewer [] w e p = absurd (ground (arith, e, p.filled))
    take_first-Fewer (m ∷ r) w e p =
        let longer : length w.queue ≡ suc (length r) = ground (arith, e) in
        (
          omega (arith, longer, p.has.left),
          record { left = omega (arith, longer, p.has.left); is_late = p.has.is_late },
        )

    process_peeked-Fewer :
        (on_message : ℕ → T → Bool) (m : UserMessage T)
        → Triple Any Never
            (Filled env last quiet late n)
            (process_peeked env on_message m)
            (λ _. Fewer n)
    unfolding process_peeked process_message pop
    process_peeked-Fewer on_message m =
        let F = Filled env last quiet late n in
        let kept = pause-Filled env last quiet late n in
        let emitted = emit-Filled env last quiet late n in
        seq-Triple F (guarded-Keeps env F kept emitted (m ∷ []) (λ now. on_message now m.item)) (
          seq-Triple F (notify_act-Keeps env F kept emitted m) (
            seq-Triple (Fewer n)
              (seq-Triple F (await-Triple env F kept (λ w p. tt))
                (record { at = λ w p. take_first-Fewer w.queue w refl p }))
              (pure-Triple (copy_awaiter_meta m) (λ _. Fewer n) (λ w p. p))))

    after : {A : Type 0} → Option A → Assertion T
    after none = Drained env last quiet late n
    after (some _) = Fewer n

    after_flush : List (UserMessage T) → Assertion T
    after_flush [] = Drained env last quiet late n
    after_flush (m ∷ ms) = Fewer n

    flushed :
        (w : World T) (q : List (UserMessage T)) (t : List (Event T))
        → w.queue ≡ q
        → P w
        → after_flush q (record w { queue = []; trace = t })
    unfolding after_flush
    flushed w [] t e p = record {
      has = record { left = omega (arith, p.left); is_late = p.is_late };
      drained = λ _. refl;
    }
    flushed w (m ∷ r) t e p =
        let longer : length w.queue ≡ suc (length r) = ground (arith, e) in
        (
          omega (arith, longer, p.left),
          record { left = omega (arith, longer, p.left); is_late = p.is_late },
        )

    flush-Triple : Triple Any Never P (flush env) after_flush
    unfolding flush
    flush-Triple =
        seq-Triple P (await-Triple env P (pause-Left env last quiet late n) (λ w p. tt))
          (record { at = λ w p. flushed w w.queue _ refl p })

    module _ (alive : ℕ → Bool) (ours : (k : ℕ) → alive k ≡ true) where
      dead : (k : ℕ) → alive k ≡ false → ⊥
      dead k e = ground (arith, ours k, e)

      another-Triple :
          Triple Any Never P (another env alive) (λ b w. P w × (b ≡ false → length w.queue ≡ 0))
      unfolding another
      another-Triple =
          bind-Triple (λ _. P) instant-Keeps
            λ k.
              if-Triple (alive k)
                (λ _.
                  bind-Triple (λ m w. P w × (m ≡ length w.queue)) size-Triple
                    λ m.
                      pure-Triple (ltb 0 m) (λ b w. P w × (b ≡ false → length w.queue ≡ 0))
                        (λ w p. (p.0, λ e. ground (arith, e, p.1))))
                (λ e. absurd (dead k e))

      peeked-Triple :
          (on_message : ℕ → T → Bool) (o : Option (UserMessage T))
          → Triple Any Never (found o) (peeked env alive on_message o) after
      unfolding peeked found after
      peeked-Triple on_message none = pure-Triple none after (λ w p. p)
      peeked-Triple on_message (some m) =
          bind-Triple (λ _. Fewer n) (process_peeked-Fewer on_message m)
            λ c. pure-Triple (some c) after (λ w p. p)

      round-Triple :
          (on_message : ℕ → T → Bool) → Triple Any Never P (round env alive on_message) after
      unfolding round after
      round-Triple on_message =
          bind-Triple (λ b w. P w × (b ≡ false → length w.queue ≡ 0)) another-Triple
            λ more.
              if-Triple more
                (λ _. record {
                  at = λ w p. (bind-Triple found peek-Triple (peeked-Triple on_message)).at w p.0;
                })
                (λ e.
                  pure-Triple none after (λ w p. empty-Drained env last quiet late n w p.0 (p.1 e)))

      process_batch-Triple :
          (on_messages : ℕ → List T → Bool) (metas : List AwaiterMeta) (ms : List (UserMessage T))
          → Triple Any Never (after_flush ms) (process_batch env alive on_messages metas ms) after
      unfolding process_batch after_flush after
      process_batch-Triple on_messages metas [] = pure-Triple none after (λ w p. p)
      process_batch-Triple on_messages metas (m ∷ ms) =
          let all : List AwaiterMeta = metas ++ map copy_awaiter_meta (m ∷ ms) in
          seq-Triple (Fewer n)
            (guarded-Keeps env (Fewer n) (pause-Fewer n) (emit-Fewer n) (m ∷ ms)
              (λ now. on_messages now (map (λ x. x.item) (m ∷ ms))))
            (seq-Triple (Fewer n)
              (resolve_all-Keeps env (Fewer n) (pause-Fewer n) (emit-Fewer n)
                (ids_where is_act all))
              (pure-Triple (some all) after (λ w p. p)))

      bulk_round-Triple :
          (on_messages : ℕ → List T → Bool) (metas : List AwaiterMeta)
          → Triple Any Never P (bulk_round env alive on_messages metas) after
      unfolding bulk_round
      bulk_round-Triple on_messages metas =
          bind-Triple (λ _. P) instant-Keeps
            λ k.
              if-Triple (alive k)
                (λ _. bind-Triple after_flush flush-Triple (process_batch-Triple on_messages metas))
                (λ e. absurd (dead k e))

  module _ (alive : ℕ → Bool) (ours : (k : ℕ) → alive k ≡ true) where
    abbrev D : ℕ → Assertion T
    D = Drained env last quiet late

    -- What is drained of less is drained of more.
    weaken : (n : ℕ) (w : World T) → D (n - 1) w → D n w
    weaken n w p = record {
      has = record { left = omega (arith, p.has.left); is_late = p.has.is_late };
      drained = p.drained;
    }

    rounds-Drained :
        (on_message : ℕ → T → Bool) (fuel n : ℕ) (metas : List AwaiterMeta)
        → n < fuel
        → Triple Any Never
            (Left env last quiet late n)
            (rounds env alive fuel on_message metas)
            (λ _. D n)
    unfolding rounds after
    rounds-Drained on_message zero n metas h = absurd (omega (arith, h))
    rounds-Drained on_message (suc fuel) n metas h =
        bind-Triple (after n) (round-Triple n alive ours on_message) (elim [
          | none ↦ pure-Triple metas (λ _. D n) (λ w p. p)
          | some c ↦ record {
            at = λ w p.
                (post-Triple (λ _. D (n - 1)) (λ _ w q. weaken n w q)
                    (rounds-Drained on_message fuel (n - 1) (metas ++ c ∷ [])
                      (omega (arith, h, p.0)))).at
                  w p.1;
          }
        ])

    bulk-Drained :
        (on_messages : ℕ → List T → Bool) (fuel n : ℕ) (metas : List AwaiterMeta)
        → n < fuel
        → Triple Any Never
            (Left env last quiet late n)
            (process_in_bulk_mode env alive fuel on_messages metas)
            (λ _. D n)
    unfolding process_in_bulk_mode after
    bulk-Drained on_messages zero n metas h = absurd (omega (arith, h))
    bulk-Drained on_messages (suc fuel) n metas h =
        bind-Triple (after n) (bulk_round-Triple n alive ours on_messages metas) (elim [
          | none ↦ pure-Triple metas (λ _. D n) (λ w p. p)
          | some all ↦ record {
            at = λ w p.
                (post-Triple (λ _. D (n - 1)) (λ _ w q. weaken n w q)
                    (bulk-Drained on_messages fuel (n - 1) all (omega (arith, h, p.0)))).at
                  w p.1;
          }
        ])

    pub mode-Drained :
        (fuel n : ℕ) (handler : Handler T)
        → n < fuel
        → Triple Any Never
            (Left env last quiet late n)
            (process_in_mode env alive fuel handler)
            (λ _. D n)
    unfolding process_in_mode process_in_single_mode process_queue_in_lock
    mode-Drained fuel n (single on_message on_prepare on_commit) h =
        let P = Left env last quiet late n in
        let kept = pause-Drained env last quiet late n in
        bind-Triple (λ _. P) instant-Keeps
          λ k.
            if-Triple (alive k)
              (λ _.
                seq-Triple P
                  (callback-Keeps env P (pause-Left env last quiet late n)
                    (emit-Left env last quiet late n) prepared on_prepare)
                  (bind-Triple (λ _. D n)
                    (bind-Triple (λ _. D n) (rounds-Drained on_message fuel n [] h)
                      λ metas. seq-Triple (D n) kept (pure-Triple metas (λ _. D n) (λ w p. p)))
                    λ metas.
                      seq-Triple (D n)
                        (callback-Keeps env (D n) kept (emit-Drained env last quiet late n)
                          committed on_commit)
                        (pure-Triple metas (λ _. D n) (λ w p. p))))
              (λ e. absurd (ground (arith, ours k, e)))
    mode-Drained fuel n (bulk on_messages) h = bulk-Drained on_messages fuel n [] h
