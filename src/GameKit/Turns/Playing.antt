-- ===== src/GameKit/Turns/Playing.antt =====
-- packages/game-kit/src/turns.ts: however a turn game begins, it stays valid.
use tslib.Common.{
  ◌≡◌, refl, String, Bool, true, false, not, ◌&&◌, ◌||◌, Option, none, some, List, [], length, eqb,
  ltb, ◌==◌, same_text, if◌then◌else◌, if_cases, arith,
}
use Prim.Native.Nat.{◌/◌}
use tslib.GameKit.Turns.{TurnRecord, final_hash, validate_from, validate}
use tslib.GameKit.Turns.Game.{Room, error, Env, TurnGame, emit, request_log}
use tslib.GameKit.Turns.Resync.{announce}
use tslib.GameKit.Turns.Later.{
  begins_refl, IsPlayed, Later, Same-Later, Later-refl, Later-trans, emit-Same, fail-Later,
  request_log-Same,
}
use tslib.GameKit.Turns.Replacement.{announce-Later}
use tslib.GameKit.Turns.Lane.{same_texts}
use tslib.GameKit.Turns.Startup.{
  Saved, Restored, absent, refused, restored, Loaded, not_loaded, loaded, load_from, restore_state,
  restore_log, restore, blank, named, joined, settled, host_name, begin_with, begin,
}
use tslib.GameKit.Turns.Play.{Event, run}
use tslib.GameKit.Turns.Resync.{max_safe}
use tslib.GameKit.Turns.Lifetime.{run-Later}

module _ {Move State : Type 0} (env : Env Move State) where
  settled-Later :
      (s : TurnGame Move State) (r : Bool × TurnGame Move State)
      → Later env s r.1
      → Later env s (settled env r)
  unfolding settled
  settled-Later s (true, t) h =
      Later-trans env s t (emit env error t) h
        (Same-Later env t (emit env error t) (emit-Same env error t))
  settled-Later s (false, t) h =
      Later-trans env s t (record t { initialized = true }) h
        (ground (arith, begins_refl t.records))

  named-Later : (o : Option String) (s : TurnGame Move State) → Later env s (named env o s)
  unfolding named
  named-Later none s = ground (arith, begins_refl s.records)
  named-Later (some id) s = Later-refl env s

  joined-Later : (room : Room) (s : TurnGame Move State) → Later env s (joined env room s).1
  unfolding joined
  joined-Later room s =
      let t = named env s.game_id s in
      if_cases (λ (r : Bool × TurnGame Move State). Later env s r.1)
        (same_text room.host (some env.me))
        (λ e.
          Later-trans env s t (announce env none t).1 (named-Later s.game_id s)
            (announce-Later env none t))
        (λ e. Same-Later env s (request_log env room s).1 (request_log-Same env room s))

  -- What is restored is a valid log with the state that it leads to.
  abbrev IsRestored : Restored Move State → Type 0
  IsRestored absent = Unit
  IsRestored (refused m) = Unit
  IsRestored (restored records state game_id) = validate env.rules records ≡ some state

  restore_state-IsRestored :
      (log : List (TurnRecord Move)) (id : String) (o : Option State)
      → validate env.rules log ≡ o
      → IsRestored (restore_state env log id o)
  unfolding restore_state
  restore_state-IsRestored log id none h = tt
  restore_state-IsRestored log id (some state) h = h

  restore_log-IsRestored :
      (saved : Saved Move) (l : Loaded Move) → IsRestored (restore_log env saved l)
  unfolding restore_log
  restore_log-IsRestored saved (not_loaded m) = tt
  restore_log-IsRestored saved (loaded log) =
      if_cases IsRestored (eqb (length log) saved.count && final_hash log == saved.final_hash)
        (λ e. restore_state-IsRestored log saved.game_id (validate env.rules log) refl) (λ e. tt)

  restore-IsRestored : (saved : Option (Saved Move)) → IsRestored (restore env saved)
  unfolding restore
  restore-IsRestored none = tt
  restore-IsRestored (some saved) =
      if_cases IsRestored
        (eqb saved.version 1
          && (saved.initial_hash == env.initial_hash && same_texts saved.players env.rules.players))
        (λ e.
          if_cases IsRestored
            (ltb max_safe saved.chunks
              || (ltb max_safe saved.count
                  || (ltb saved.count saved.chunks
                      || (ltb (env.max_bytes / 80) saved.count
                          || (eqb saved.count 0 && not (eqb saved.chunks 0))))))
            (λ b. tt)
            (λ b.
              restore_log-IsRestored saved (load_from env saved.parts 0 saved.chunks (loaded []))))
        (λ e. tt)

  blank-IsPlayed : IsPlayed env (blank env)
  unfolding blank validate validate_from
  blank-IsPlayed = refl

  begin_with-IsPlayed :
      (room : Room) (r : Restored Move State) → IsRestored r → IsPlayed env (begin_with env room r)
  unfolding begin_with
  begin_with-IsPlayed room absent h =
      (settled-Later (blank env) (joined env room (blank env))
          (joined-Later room (blank env))).played
        blank-IsPlayed
  begin_with-IsPlayed room (restored records state id) h =
      let s = record (blank env) { records = records; state = state; game_id = some id } in
      (settled-Later s (joined env room s) (joined-Later room s)).played h
  begin_with-IsPlayed room (refused m) h =
      if_cases (IsPlayed env) m
        (λ e. (fail-Later env 0 (host_name env room.host) (blank env)).played blank-IsPlayed)
        (λ e. blank-IsPlayed)

  pub begin-IsPlayed :
      (room : Room) (saved : Option (Saved Move)) → IsPlayed env (begin env room saved)
  unfolding begin
  begin-IsPlayed room saved =
      begin_with-IsPlayed room (if env.persists then restore env saved else absent)
        (if_cases IsRestored env.persists (λ e. restore-IsRestored saved) (λ e. tt))

  -- However a game begins, with any saved log, and whatever happens to it afterwards, its log
  -- is one that
  -- `validate` accepts, and its state is the state that the moves of the log lead to.
  pub run-IsPlayed :
      (room : Room) (saved : Option (Saved Move)) (es : List (Event Move))
      → IsPlayed env (run env es (begin env room saved))
  run-IsPlayed room saved es =
      (run-Later env es (begin env room saved)).played (begin-IsPlayed room saved)
