-- ===== src/Actor/Process/Delivery/Single.antt =====
-- The single mode of packages/actor-system/src/process.ts: peek, handle, then pop.
use mathlib.Core.List.{map-append}
use tslib.Common.{
  ℕ, ◌≡◌, refl, ap, ◌∙◌, sym, Bool, false, Option, none, some, List, [], ◌∷◌, ◌++◌, map,
  append_assoc, ltb,
}
use tslib.Actor.Message.{UserMessage, AwaiterMeta, copy_awaiter_meta, is_act}
use tslib.Actor.Process.Exec.{World, Env, handled, resolved, reported}
use tslib.Actor.Process.Drain.{
  size, peek, take_first, pop, guarded, process_message, notify_act, process_peeked, another,
  peeked, round,
}
use tslib.Actor.Process.Triple.{
  Assertion, Ends, Triple, Keeps, pure-Triple, if-Triple, bind-Triple, seq-Triple, instant-Keeps,
  emit-Triple, call_if_given-Triple, await-Triple,
}
use tslib.Actor.Process.Delivery.{
  Delivered, Pending, Held, Any, Delivered-Held, Pending-Held, quiet-Pending, pause-Delivered,
  pause-Pending, popped_of,
}

module _ {T : Type 0} (env : Env T) where
  -- A message stands at the head.
  record Peeked (metas : List AwaiterMeta) (m : UserMessage T) (w : World T) : Type 0 where
    pub delivered : Delivered env metas w
    pub rest : List (UserMessage T)
    pub at_head : w.queue ≡ m ∷ rest

  module _ (metas : List AwaiterMeta) where
    process_message-Pending :
        (on_message : ℕ → T → Bool) (m : UserMessage T)
        → Triple
            (Held env)
            (Any env)
            (Peeked metas m)
            (process_message env on_message m)
            (λ _. Pending env metas m)
    unfolding process_message guarded
    process_message-Pending on_message m =
        bind-Triple (λ _. Peeked metas m) instant-Keeps
          λ now.
            seq-Triple (Pending env metas m)
              (emit-Triple (handled (m ∷ [])) (Pending env metas m) λ w p. record {
                conserved = p.delivered.conserved;
                rest = p.rest;
                at_head = p.at_head;
                ahead = ap (λ l. l ++ m ∷ []) p.delivered.exact;
                told = ap (map copy_awaiter_meta) (sym p.delivered.exact) ∙ p.delivered.told;
              })
              (seq-Triple (Pending env metas m) (pause-Pending env metas m) (
                if-Triple (on_message now m.item)
                  (λ _.
                    call_if_given-Triple env reported env.on_error
                      (quiet-Pending env metas m reported refl) (pause-Pending env metas m)
                      (Pending-Held env metas m))
                  (λ _. pure-Triple tt (λ _. Pending env metas m) (λ w p. p))))

    notify_act-Pending :
        (m : UserMessage T) → Keeps (Held env) (Any env) (Pending env metas m) (notify_act env m)
    unfolding notify_act
    notify_act-Pending m =
        if-Triple (is_act m.await_policy)
          (λ _. quiet-Pending env metas m (resolved m.message_id) refl)
          (λ _. pure-Triple tt (λ _. Pending env metas m) (λ w p. p))

    take_first-Delivered :
        (m : UserMessage T) (q : List (UserMessage T)) (w : World T)
        → w.queue ≡ q
        → Pending env metas m w
        → Ends
            (Held env)
            (Any env)
            (λ _. Delivered env (metas ++ copy_awaiter_meta m ∷ []))
            (take_first env q w).0
            (take_first env q w).1
    unfolding take_first
    take_first-Delivered m [] w e p = cc p.at_head
    take_first-Delivered m (n ∷ r) w e p =
        let same : m ≡ n = cc p.at_head in
        record {
          conserved =
              append_assoc (popped_of w.trace) (n ∷ []) r
              ∙ ap (λ l. popped_of w.trace ++ l) (sym e)
              ∙ p.conserved;
          exact = p.ahead ∙ ap (λ x. popped_of w.trace ++ x ∷ []) same;
          told =
              ap (map copy_awaiter_meta) p.ahead
              ∙ map-append copy_awaiter_meta (popped_of w.trace) (m ∷ [])
              ∙ ap (λ l. l ++ copy_awaiter_meta m ∷ []) p.told;
        }

    pop-Delivered :
        (m : UserMessage T)
        → Triple
            (Held env)
            (Any env)
            (Pending env metas m)
            (pop env)
            (λ _. Delivered env (metas ++ copy_awaiter_meta m ∷ []))
    unfolding pop
    pop-Delivered m =
        seq-Triple (Pending env metas m)
          (await-Triple env (Pending env metas m) (pause-Pending env metas m)
            (Pending-Held env metas m))
          (record { at = λ w p. take_first-Delivered m w.queue w refl p })

    process_peeked-Delivered :
        (on_message : ℕ → T → Bool) (m : UserMessage T)
        → Triple
            (Held env)
            (Any env)
            (Peeked metas m)
            (process_peeked env on_message m)
            (λ c. Delivered env (metas ++ c ∷ []))
    unfolding process_peeked
    process_peeked-Delivered on_message m =
        seq-Triple (Pending env metas m) (process_message-Pending on_message m) (
          seq-Triple (Pending env metas m) (notify_act-Pending m) (
            seq-Triple (Delivered env (metas ++ copy_awaiter_meta m ∷ [])) (pop-Delivered m) (
              pure-Triple (copy_awaiter_meta m) (λ c. Delivered env (metas ++ c ∷ [])) (λ w d. d))))

    pub size-Delivered : Keeps (Held env) (Any env) (Delivered env metas) (size env)
    unfolding size
    size-Delivered =
        seq-Triple (Delivered env metas)
          (await-Triple env (Delivered env metas) (pause-Delivered env metas)
            (Delivered-Held env metas))
          (record { at = λ w d. d })

    abbrev found : Option (UserMessage T) → Assertion T
    found none = Delivered env metas
    found (some m) = Peeked metas m

    peek-found :
        (w : World T) (q : List (UserMessage T))
        → w.queue ≡ q
        → Delivered env metas w
        → found (elim q [ [] ↦ none | m ∷ _ ↦ some m ]) w
    peek-found w [] e d = d
    peek-found w (m ∷ r) e d = record { delivered = d; rest = r; at_head = e }

    peek-Triple : Triple (Held env) (Any env) (Delivered env metas) (peek env) found
    unfolding peek
    peek-Triple =
        seq-Triple (Delivered env metas)
          (await-Triple env (Delivered env metas) (pause-Delivered env metas)
            (Delivered-Held env metas))
          (record { at = λ w d. peek-found w w.queue refl d })

    abbrev pub after_round : Option AwaiterMeta → Assertion T
    after_round none = Delivered env metas
    after_round (some c) = Delivered env (metas ++ c ∷ [])

    module _ (is_alive : ℕ → Bool) where
      another-Delivered : Keeps (Held env) (Any env) (Delivered env metas) (another env is_alive)
      unfolding another
      another-Delivered =
          bind-Triple (λ _. Delivered env metas) instant-Keeps
            λ now.
              if-Triple (is_alive now)
                (λ _.
                  bind-Triple (λ _. Delivered env metas) size-Delivered
                    λ n. pure-Triple (ltb 0 n) (λ _. Delivered env metas) (λ w d. d))
                (λ _. pure-Triple false (λ _. Delivered env metas) (λ w d. d))

      peeked-Triple :
          (on_message : ℕ → T → Bool) (found_message : Option (UserMessage T))
          → Triple
              (Held env)
              (Any env)
              (found found_message)
              (peeked env is_alive on_message found_message)
              after_round
      unfolding peeked
      peeked-Triple on_message none = pure-Triple none after_round (λ w d. d)
      peeked-Triple on_message (some m) =
          bind-Triple (λ c. Delivered env (metas ++ c ∷ [])) (process_peeked-Delivered on_message m)
            λ c. pure-Triple (some c) after_round (λ w d. d)

      pub round-Triple :
          (on_message : ℕ → T → Bool)
          → Triple
              (Held env)
              (Any env)
              (Delivered env metas)
              (round env is_alive on_message)
              after_round
      unfolding round
      round-Triple on_message =
          bind-Triple (λ _. Delivered env metas) another-Delivered
            λ more.
              if-Triple more (λ _. bind-Triple found peek-Triple (peeked-Triple on_message))
                (λ _. pure-Triple none after_round (λ w d. d))
