-- ===== src/Actor/Process/Delivery/Modes.antt =====
-- The loop of the single mode of packages/actor-system/src/process.ts, with its hooks.
use tslib.Common.{
  ℕ, zero, suc, refl, ◌∙◌, sym, Bool, Option, none, some, List, [], ◌∷◌, ◌++◌, append_assoc,
  append-nil,
}
use tslib.Actor.Message.{AwaiterMeta}
use tslib.Actor.Process.Exec.{World, Env, Callback, prepared, committed, pure, exhausted}
use tslib.Actor.Process.Drain.{rounds, process_queue_in_lock, process_in_single_mode}
use tslib.Actor.Process.Triple.{
  Assertion, Triple, pure-Triple, if-Triple, bind-Triple, seq-Triple, conseq-Triple, instant-Keeps,
  call_if_given-Triple,
}
use tslib.Actor.Process.Delivery.{
  Delivered, Held, Any, Delivered-Held, quiet-Delivered, pause-Delivered,
}
use tslib.Actor.Process.Delivery.Single.{after_round, round-Triple}

module _ {T : Type 0} (env : Env T) where
  -- What a batch adds to the metadata told so far.
  pub told_more :
      (base local : List AwaiterMeta) (ms : List AwaiterMeta) (w : World T)
      → Delivered env ((base ++ local) ++ ms) w
      → Delivered env (base ++ (local ++ ms)) w
  told_more base local ms w d = record {
    conserved = d.conserved;
    exact = d.exact;
    told = d.told ∙ append_assoc base local ms;
  }

  pub told_none :
      (base : List AwaiterMeta) (w : World T) → Delivered env base w → Delivered env (base ++ []) w
  told_none base w d = record {
    conserved = d.conserved;
    exact = d.exact;
    told = d.told ∙ sym (append-nil base);
  }

  module _ (base : List AwaiterMeta) where
    abbrev pub Local : List AwaiterMeta → Assertion T
    Local local = Delivered env (base ++ local)

    pub exhausted-Local :
        (local : List AwaiterMeta) → Triple (Held env) (Any env) (Local local) exhausted Local
    unfolding exhausted
    exhausted-Local local = record { at = λ w d. tt }

  module _ (base : List AwaiterMeta) (is_alive : ℕ → Bool) where
    next_round :
        (on_message : ℕ → T → Bool) (fuel : ℕ) (local : List AwaiterMeta)
        → ((c : AwaiterMeta)
            → Triple
                (Held env)
                (Any env)
                (Local base (local ++ c ∷ []))
                (rounds env is_alive fuel on_message (local ++ c ∷ []))
                (Local base))
        → (meta : Option AwaiterMeta)
        → Triple
            (Held env)
            (Any env)
            (after_round env (base ++ local) meta)
            (elim meta [
              | none ↦ pure local
              | some c ↦ rounds env is_alive fuel on_message (local ++ c ∷ [])
            ])
            (Local base)
    next_round on_message fuel local go none = pure-Triple local (Local base) (λ w d. d)
    next_round on_message fuel local go (some c) =
        conseq-Triple (Local base (local ++ c ∷ [])) (told_more base local (c ∷ [])) (go c)

    rounds-Triple :
        (on_message : ℕ → T → Bool) (fuel : ℕ) (local : List AwaiterMeta)
        → Triple
            (Held env)
            (Any env)
            (Local base local)
            (rounds env is_alive fuel on_message local)
            (Local base)
    unfolding rounds
    rounds-Triple on_message zero local = exhausted-Local base local
    rounds-Triple on_message (suc fuel) local =
        bind-Triple (after_round env (base ++ local))
          (round-Triple env (base ++ local) is_alive on_message)
          (next_round on_message fuel local (λ c. rounds-Triple on_message fuel (local ++ c ∷ [])))

    pub single-Triple :
        (fuel : ℕ) (on_message : ℕ → T → Bool) (on_prepare on_commit : Option Callback)
        → Triple
            (Held env)
            (Any env)
            (Delivered env base)
            (process_in_single_mode env is_alive fuel on_message on_prepare on_commit)
            (Local base)
    unfolding process_in_single_mode process_queue_in_lock
    single-Triple fuel on_message on_prepare on_commit =
        bind-Triple (λ _. Delivered env base) instant-Keeps
          λ now.
            if-Triple (is_alive now)
              (λ _.
                seq-Triple (Delivered env base)
                  (call_if_given-Triple env prepared on_prepare
                    (quiet-Delivered env base prepared refl) (pause-Delivered env base)
                    (Delivered-Held env base))
                  (bind-Triple (Local base)
                    (bind-Triple (Local base)
                      (conseq-Triple (Local base []) (told_none base)
                        (rounds-Triple on_message fuel []))
                      λ metas.
                        seq-Triple (Local base metas) (pause-Delivered env (base ++ metas))
                          (pure-Triple metas (Local base) (λ w d. d)))
                    λ metas.
                      seq-Triple (Local base metas)
                        (call_if_given-Triple env committed on_commit
                          (quiet-Delivered env (base ++ metas) committed refl)
                          (pause-Delivered env (base ++ metas))
                          (Delivered-Held env (base ++ metas)))
                        (pure-Triple metas (Local base) (λ w d. d))))
              (λ _. pure-Triple [] (Local base) (told_none base))
