-- ===== src/Actor/Process/Delivery/Bulk.antt =====
-- The bulk mode of packages/actor-system/src/process.ts: the queue is flushed, and the batch is
-- handed over afterwards.
use mathlib.Core.List.{map-append}
use tslib.Common.{
  ℕ, zero, suc, Bool, ◌≡◌, refl, ap, ◌∙◌, sym, Option, none, some, List, [], ◌∷◌, ◌++◌, map,
  append-nil, String,
}
use tslib.Actor.Message.{UserMessage, AwaiterMeta, copy_awaiter_meta, is_act, ids_where}
use tslib.Actor.Process.Exec.{World, Env, Handler, single, bulk, handled, resolved, reported, pure}
use tslib.Actor.Process.Drain.{
  resolve_all, flush, guarded, process_batch, bulk_round, process_in_bulk_mode, process_in_mode,
}
use tslib.Actor.Process.Triple.{
  Assertion, Triple, Keeps, pure-Triple, if-Triple, bind-Triple, seq-Triple, conseq-Triple,
  instant-Keeps, emit-Triple, call_if_given-Triple, await-Triple,
}
use tslib.Actor.Process.Delivery.{
  Delivered, Held, Any, Delivered-Held, quiet-Delivered, pause-Delivered, popped_of, handled_of,
  IsConserved,
}
use tslib.Actor.Process.Delivery.Modes.{Local, exhausted-Local, single-Triple, told_more, told_none}

module _ {T : Type 0} (env : Env T) where
  pub resolve_all-Delivered :
      (metas : List AwaiterMeta) (ids : List String)
      → Keeps (Held env) (Any env) (Delivered env metas) (resolve_all env ids)
  unfolding resolve_all
  resolve_all-Delivered metas [] = pure-Triple tt (λ _. Delivered env metas) (λ w d. d)
  resolve_all-Delivered metas (id ∷ ids) =
      seq-Triple (Delivered env metas) (quiet-Delivered env metas (resolved id) refl)
        (resolve_all-Delivered metas ids)

  -- A batch that left the queue and is not handled yet.
  record Flushed (metas : List AwaiterMeta) (ms : List (UserMessage T)) (w : World T) : Type 0 where
    pub conserved : IsConserved env w
    pub behind : handled_of w.trace ++ ms ≡ popped_of w.trace
    pub told : map copy_awaiter_meta (handled_of w.trace) ≡ metas

  flush-Triple :
      (metas : List AwaiterMeta)
      → Triple (Held env) (Any env) (Delivered env metas) (flush env) (Flushed metas)
  unfolding flush
  flush-Triple metas =
      seq-Triple (Delivered env metas)
        (await-Triple env (Delivered env metas) (pause-Delivered env metas)
          (Delivered-Held env metas))
        (record {
          at = λ w d. record {
            conserved = append-nil (popped_of w.trace ++ w.queue) ∙ d.conserved;
            behind = ap (λ l. l ++ w.queue) d.exact;
            told = d.told;
          };
        })

  Flushed-nil :
      (metas : List AwaiterMeta) (w : World T) → Flushed metas [] w → Delivered env metas w
  Flushed-nil metas w f = record {
    conserved = f.conserved;
    exact = sym (append-nil (handled_of w.trace)) ∙ f.behind;
    told = f.told;
  }

  guarded-Triple :
      (metas : List AwaiterMeta) (ms : List (UserMessage T)) (throws : ℕ → Bool)
      → Triple
          (Held env)
          (Any env)
          (Flushed metas ms)
          (guarded env ms throws)
          (λ _. Delivered env (metas ++ map copy_awaiter_meta ms))
  unfolding guarded
  guarded-Triple metas ms throws =
      let all : List AwaiterMeta = metas ++ map copy_awaiter_meta ms in
      bind-Triple (λ _. Flushed metas ms) instant-Keeps
        λ now.
          seq-Triple (Delivered env all)
            (emit-Triple (handled ms) (Delivered env all) λ w f. record {
              conserved = f.conserved;
              exact = f.behind;
              told =
                  map-append copy_awaiter_meta (handled_of w.trace) ms
                  ∙ ap (λ l. l ++ map copy_awaiter_meta ms) f.told;
            })
            (seq-Triple (Delivered env all) (pause-Delivered env all) (
              if-Triple (throws now)
                (λ _.
                  call_if_given-Triple env reported env.on_error
                    (quiet-Delivered env all reported refl) (pause-Delivered env all)
                    (Delivered-Held env all))
                (λ _. pure-Triple tt (λ _. Delivered env all) (λ w d. d))))

  module _ (base : List AwaiterMeta) (is_alive : ℕ → Bool) where
    abbrev after_batch : List AwaiterMeta → Option (List AwaiterMeta) → Assertion T
    after_batch local none = Local env base local
    after_batch local (some all) = Local env base all

    process_batch-Triple :
        (on_messages : ℕ → List T → Bool) (local : List AwaiterMeta) (ms : List (UserMessage T))
        → Triple
            (Held env)
            (Any env)
            (Flushed (base ++ local) ms)
            (process_batch env is_alive on_messages local ms)
            (after_batch local)
    unfolding process_batch
    process_batch-Triple on_messages local [] =
        pure-Triple none (after_batch local) (Flushed-nil (base ++ local))
    process_batch-Triple on_messages local (m ∷ ms) =
        let told = map copy_awaiter_meta (m ∷ ms) in
        seq-Triple (Delivered env ((base ++ local) ++ told))
          (guarded-Triple (base ++ local) (m ∷ ms)
            (λ now. on_messages now (map (λ x. x.item) (m ∷ ms))))
          (seq-Triple (Delivered env ((base ++ local) ++ told))
            (resolve_all-Delivered ((base ++ local) ++ told) (ids_where is_act (local ++ told)))
            (pure-Triple (some (local ++ told)) (after_batch local)
              (told_more env base local told)))

    bulk_round-Triple :
        (on_messages : ℕ → List T → Bool) (local : List AwaiterMeta)
        → Triple
            (Held env)
            (Any env)
            (Local env base local)
            (bulk_round env is_alive on_messages local)
            (after_batch local)
    unfolding bulk_round
    bulk_round-Triple on_messages local =
        bind-Triple (λ _. Local env base local) instant-Keeps
          λ now.
            if-Triple (is_alive now)
              (λ _.
                bind-Triple (Flushed (base ++ local)) (flush-Triple (base ++ local))
                  (process_batch-Triple on_messages local))
              (λ _. pure-Triple none (after_batch local) (λ w d. d))

    next_batch :
        (on_messages : ℕ → List T → Bool) (fuel : ℕ) (local : List AwaiterMeta)
        → ((all : List AwaiterMeta)
            → Triple
                (Held env)
                (Any env)
                (Local env base all)
                (process_in_bulk_mode env is_alive fuel on_messages all)
                (Local env base))
        → (result : Option (List AwaiterMeta))
        → Triple
            (Held env)
            (Any env)
            (after_batch local result)
            (elim result [
              | none ↦ pure local
              | some all ↦ process_in_bulk_mode env is_alive fuel on_messages all
            ])
            (Local env base)
    next_batch on_messages fuel local go none = pure-Triple local (Local env base) (λ w d. d)
    next_batch on_messages fuel local go (some all) = go all

    bulk-Triple :
        (on_messages : ℕ → List T → Bool) (fuel : ℕ) (local : List AwaiterMeta)
        → Triple
            (Held env)
            (Any env)
            (Local env base local)
            (process_in_bulk_mode env is_alive fuel on_messages local)
            (Local env base)
    unfolding process_in_bulk_mode
    bulk-Triple on_messages zero local = exhausted-Local env base local
    bulk-Triple on_messages (suc fuel) local =
        bind-Triple (after_batch local) (bulk_round-Triple on_messages local)
          (next_batch on_messages fuel local (bulk-Triple on_messages fuel))

    -- Either mode tells, on top of what was told before, the messages that it handled.
    pub mode-Triple :
        (fuel : ℕ) (handler : Handler T)
        → Triple
            (Held env)
            (Any env)
            (Delivered env base)
            (process_in_mode env is_alive fuel handler)
            (Local env base)
    unfolding process_in_mode
    mode-Triple fuel (single on_message on_prepare on_commit) =
        single-Triple env base is_alive fuel on_message on_prepare on_commit
    mode-Triple fuel (bulk on_messages) =
        conseq-Triple (Local env base []) (told_none env base) (bulk-Triple on_messages fuel [])
