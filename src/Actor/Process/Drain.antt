-- ===== src/Actor/Process/Drain.antt =====
-- packages/actor-system/src/process.ts, the modes that drain a queue under a lock, and awaiting.ts.
-- Each `while` has fuel. The queue is the one of the actor at hand, by the contract of queue.ts.
use tslib.Common.{
  ℕ, zero, suc, String, Bool, false, Option, none, some, List, [], ◌∷◌, ◌++◌, map, ltb, length,
  if◌then◌else◌,
}
use tslib.Actor.Message.{UserMessage, AwaiterMeta, copy_awaiter_meta, is_act, ids_where}
use tslib.Actor.Process.Exec.{
  Env, Callback, Action, ok, prepared, committed, reported, handled, resolved, popped, ◌>>=◌, ◌>>◌,
  pure, exhausted, emit, instant, pause, await_queue, call_if_given, Handler, single, bulk,
}

module _ {T : Type 0} (env : Env T) where
  -- awaiting.ts, `notifyCompletions`: one `awaiter.resolve` for each, and no error gets out.
  unfoldable pub resolve_all : List String → Action T (Unit {0})
  resolve_all [] = pure tt
  resolve_all (id ∷ ids) = do emit (resolved id); resolve_all ids

  unfoldable pub notify_completions : List String → Action T (Unit {0})
  unfolding resolve_all
  notify_completions ids = do resolve_all ids; pause env

  -- await queue.size(id)
  unfoldable pub size : Action T ℕ
  size = do await_queue env; λ w. (ok (length w.queue), w)

  -- await queue.peek(id)
  unfoldable pub peek : Action T (Option (UserMessage T))
  peek = do await_queue env; λ w. (ok (elim w.queue [ [] ↦ none | m ∷ _ ↦ some m ]), w)

  unfoldable pub take_first : List (UserMessage T) → Action T (Unit {0})
  take_first [] w = (ok tt, w)
  take_first (m ∷ rest) w = (ok tt, record w { queue = rest; trace = popped (m ∷ []) ∷ w.trace })

  -- await queue.pop(id)
  unfoldable pub pop : Action T (Unit {0})
  pop = do await_queue env; λ w. take_first w.queue w

  -- await queue.flush(id)
  unfoldable pub flush : Action T (List (UserMessage T))
  flush = do
    await_queue env
    λ w. (ok w.queue, record w { queue = []; trace = popped w.queue ∷ w.trace })

  -- The `catch` around a handler: `onError` may throw in its turn.
  unfoldable pub guarded : List (UserMessage T) → Callback → Action T (Unit {0})
  guarded messages throws = do
    now ← instant
    emit (handled messages)
    pause env
    if throws now then call_if_given env reported env.on_error else pure tt

  unfoldable pub process_message : (ℕ → T → Bool) → UserMessage T → Action T (Unit {0})
  process_message on_message message = guarded (message ∷ []) (λ now. on_message now message.item)

  -- `notifyCompletion` is not awaited here; its call of the awaiter is made at once.
  unfoldable pub notify_act : UserMessage T → Action T (Unit {0})
  notify_act message =
      if is_act message.await_policy then emit (resolved message.message_id) else pure tt

  -- Steps 2 to 4 of the loop below.
  unfoldable pub process_peeked : (ℕ → T → Bool) → UserMessage T → Action T AwaiterMeta
  process_peeked on_message message = do
    process_message on_message message
    notify_act message
    pop
    pure (copy_awaiter_meta message)

  module _ (is_alive : ℕ → Bool) where
    -- while (isAlive() && (await queue.size(id)) > 0)
    unfoldable pub another : Action T Bool
    another = do now ← instant; if is_alive now then (do n ← size; pure (ltb 0 n)) else pure false

    -- `break` on a broken queue.
    unfoldable pub peeked : (ℕ → T → Bool) → Option (UserMessage T) → Action T (Option AwaiterMeta)
    peeked on_message none = pure none
    peeked on_message (some message) = do meta ← process_peeked on_message message; pure (some meta)

    -- One round: the metadata of the message that it processed, or nothing at the loop's end.
    unfoldable pub round : (ℕ → T → Bool) → Action T (Option AwaiterMeta)
    round on_message = do
      more ← another
      if more then (do found ← peek; peeked on_message found) else pure none

    unfoldable pub rounds : ℕ → (ℕ → T → Bool) → List AwaiterMeta → Action T (List AwaiterMeta)
    rounds zero on_message metas = exhausted
    rounds (suc fuel) on_message metas = do
      meta ← round on_message
      elim meta [ none ↦ pure metas | some m ↦ rounds fuel on_message (metas ++ m ∷ []) ]

    -- `await Promise.all(notifyPromises)` after the loop.
    unfoldable pub process_queue_in_lock : ℕ → (ℕ → T → Bool) → Action T (List AwaiterMeta)
    process_queue_in_lock fuel on_message = do
      metas ← rounds fuel on_message []
      pause env
      pure metas

    unfoldable pub process_in_single_mode :
        ℕ → (ℕ → T → Bool) → Option Callback → Option Callback → Action T (List AwaiterMeta)
    process_in_single_mode fuel on_message on_prepare on_commit = do
      now ← instant
      if is_alive now
          then (do
            call_if_given env prepared on_prepare
            metas ← process_queue_in_lock fuel on_message
            call_if_given env committed on_commit
            pure metas)
          else pure []

    -- `void notifyCompletions(…)`: the awaiter is called at once, and nothing is awaited.
    unfoldable pub process_batch :
        (ℕ → List T → Bool)
        → List AwaiterMeta
        → List (UserMessage T)
        → Action T (Option (List AwaiterMeta))
    process_batch on_messages metas [] = pure none
    process_batch on_messages metas (m ∷ messages) = do
      guarded (m ∷ messages) (λ now. on_messages now (map (λ x. x.item) (m ∷ messages)))
      let all = metas ++ map copy_awaiter_meta (m ∷ messages)
      resolve_all (ids_where is_act all)
      pure (some all)

    -- One round of the bulk loop: all metadata so far, or nothing at the loop's end.
    unfoldable pub bulk_round :
        (ℕ → List T → Bool) → List AwaiterMeta → Action T (Option (List AwaiterMeta))
    bulk_round on_messages metas = do
      now ← instant
      if is_alive now
          then (do messages ← flush; process_batch on_messages metas messages)
          else pure none

    unfoldable pub process_in_bulk_mode :
        ℕ → (ℕ → List T → Bool) → List AwaiterMeta → Action T (List AwaiterMeta)
    process_in_bulk_mode zero on_messages metas = exhausted
    process_in_bulk_mode (suc fuel) on_messages metas = do
      all ← bulk_round on_messages metas
      elim all [ none ↦ pure metas | some ms ↦ process_in_bulk_mode fuel on_messages ms ]

    -- `switch (env._consume)`.
    unfoldable pub process_in_mode : ℕ → Handler T → Action T (List AwaiterMeta)
    process_in_mode fuel (single on_message on_prepare on_commit) =
        process_in_single_mode fuel on_message on_prepare on_commit
    process_in_mode fuel (bulk on_messages) = process_in_bulk_mode fuel on_messages []
