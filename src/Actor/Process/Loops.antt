-- ===== src/Actor/Process/Loops.antt =====
-- What no part of a round breaks, the loops of packages/actor-system/src/process.ts do not break.
use tslib.Common.{
  ℕ, zero, suc, ◌≡◌, refl, Bool, true, not, ◌||◌, none, some, List, [], ◌∷◌, ◌++◌, eqb,
}
use tslib.Actor.Message.{UserMessage, AwaiterMeta, is_commit, ids_where}
use tslib.Actor.Process.Exec.{
  World, Env, Event, Handler, single, bulk, prepared, committed, exhausted, emit, pause,
}
use tslib.Actor.Process.Drain.{
  rounds, process_queue_in_lock, process_in_single_mode, process_in_bulk_mode, process_in_mode,
}
use tslib.Actor.Process.{
  Options, is_once, loop_round, process_loop, is_alive, still_ours, cycles, owned,
}
use tslib.Actor.Process.Triple.{Assertion, Keeps, instant-Keeps}
use tslib.Actor.Process.Invariant.{
  is_work, Keeps-pure, Keeps-if, Keeps-bind, notify-Keeps, size-Keeps, callback-Keeps, round-Keeps,
  bulk_round-Keeps, nap-Keeps,
}

module _ {T : Type 0} {Q S P : Assertion T} (env : Env T) (paused : Keeps Q S P (pause env))
    (worked : (e : Event T) → is_work e ≡ true → Keeps Q S P (emit e))
    (refilled : (w : World T) (q : List (UserMessage T)) → P w → P (record w { queue = q }))
    (weaken : (w : World T) → P w → Q w) (spent : (w : World T) → P w → S w) where
  exhausted-Keeps : {A : Type 0} → Keeps Q S P (exhausted {A = A})
  unfolding exhausted
  exhausted-Keeps = record { at = spent }

  module _ (alive : ℕ → Bool) where
    rounds-Keeps :
        (on_message : ℕ → T → Bool) (fuel : ℕ) (metas : List AwaiterMeta)
        → Keeps Q S P (rounds env alive fuel on_message metas)
    unfolding rounds
    rounds-Keeps on_message zero metas = exhausted-Keeps
    rounds-Keeps on_message (suc fuel) metas =
        Keeps-bind (round-Keeps env paused worked refilled weaken alive on_message) (elim [
          | none ↦ Keeps-pure metas
          | some c ↦ rounds-Keeps on_message fuel (metas ++ c ∷ [])
        ])

    bulk-Keeps :
        (on_messages : ℕ → List T → Bool) (fuel : ℕ) (metas : List AwaiterMeta)
        → Keeps Q S P (process_in_bulk_mode env alive fuel on_messages metas)
    unfolding process_in_bulk_mode
    bulk-Keeps on_messages zero metas = exhausted-Keeps
    bulk-Keeps on_messages (suc fuel) metas =
        Keeps-bind (bulk_round-Keeps env paused worked refilled weaken alive on_messages metas)
          (elim [ none ↦ Keeps-pure metas | some all ↦ bulk-Keeps on_messages fuel all ])

    mode-Keeps :
        (fuel : ℕ) (handler : Handler T) → Keeps Q S P (process_in_mode env alive fuel handler)
    unfolding process_in_mode process_in_single_mode process_queue_in_lock
    mode-Keeps fuel (single on_message on_prepare on_commit) = Keeps-bind instant-Keeps λ now.
        Keeps-if (alive now)
          (Keeps-bind (callback-Keeps env paused worked refilled weaken prepared on_prepare refl)
            λ _.
              Keeps-bind
                (Keeps-bind (rounds-Keeps on_message fuel [])
                  λ metas. Keeps-bind paused λ _. Keeps-pure metas)
                λ metas.
                  Keeps-bind
                    (callback-Keeps env paused worked refilled weaken committed on_commit refl)
                    λ _. Keeps-pure metas)
          (Keeps-pure [])
    mode-Keeps fuel (bulk on_messages) = bulk-Keeps on_messages fuel []

    process_loop-Keeps :
        (fuel inner : ℕ) (metas : List AwaiterMeta)
        → Keeps Q S P (process_loop env alive fuel inner metas)
    unfolding process_loop loop_round
    process_loop-Keeps zero inner metas = exhausted-Keeps
    process_loop-Keeps (suc fuel) inner metas = Keeps-bind instant-Keeps λ now.
        Keeps-if (alive now)
          (Keeps-bind
            (Keeps-bind (mode-Keeps inner env.handler) λ local.
              Keeps-bind
                (notify-Keeps env paused worked refilled weaken
                  (ids_where is_commit (metas ++ local)))
                λ _.
                  Keeps-bind (size-Keeps env paused worked refilled weaken)
                    λ n. Keeps-pure (metas ++ local, not (eqb n 0)))
            λ next. Keeps-if next.1 (process_loop-Keeps fuel inner next.0) (Keeps-pure next.0))
          (Keeps-pure metas)

  module _ (options : Options) (start : ℕ) where
    cycles-Keeps :
        (fuel : ℕ) (metas : List AwaiterMeta) → Keeps Q S P (cycles env options start fuel metas)
    unfolding cycles
    cycles-Keeps zero metas = exhausted-Keeps
    cycles-Keeps (suc fuel) metas = Keeps-bind instant-Keeps λ now.
        Keeps-if (still_ours env options start now)
          (Keeps-bind (process_loop-Keeps (still_ours env options start) fuel fuel []) λ local.
            Keeps-bind instant-Keeps λ later.
              Keeps-if (is_once options || env.lost later || not (is_alive env options start later))
                (Keeps-pure (metas ++ local))
                (Keeps-bind (nap-Keeps env paused worked refilled weaken options start)
                  λ _. cycles-Keeps fuel (metas ++ local)))
          (Keeps-pure metas)

    pub owned-Keeps : (fuel : ℕ) → Keeps Q S P (owned env options start fuel)
    unfolding owned
    owned-Keeps fuel =
        Keeps-bind (cycles-Keeps fuel []) λ metas. Keeps-bind instant-Keeps λ now. Keeps-pure _
