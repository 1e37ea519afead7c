-- ===== src/GameKit/Turns/Startup.antt =====
-- packages/game-kit/src/turns.ts: `initialized`, which restores a saved log. What is received
-- before it has
-- settled is not modelled.
use tslib.Common.{
  ℕ, zero, suc, String, Bool, true, false, not, ◌&&◌, ◌||◌, Option, none, some, List, [], ◌++◌,
  length, eqb, ltb, ◌==◌, same_text, if◌then◌else◌,
}
use Prim.Native.Nat.{◌/◌}
use tslib.GameKit.Turns.{TurnRecord, final_hash, validate, is_mismatch}
use tslib.GameKit.Turns.Game.{Room, error, Env, TurnGame, emit, fail, request_log}
use tslib.GameKit.Turns.Resync.{max_safe, announce}
use tslib.GameKit.Turns.Lane.{same_texts, is_empty}

-- The manifest that is loaded, and the part that is loaded for each number.
pub record Saved (Move : Type 0) : Type 0 where
  pub version : ℕ
  pub game_id : String
  pub players : List String
  pub initial_hash : String
  pub chunks : ℕ
  pub count : ℕ
  pub final_hash : String
  pub parts : ℕ → Option (List (TurnRecord Move))

-- What comes of a saved log. A refused one throws, with the code `mismatch` or another.
pub data Restored (Move State : Type 0) : Type 0 where
  absent : Restored Move State
  refused : (is_mismatch : Bool) → Restored Move State
  restored :
      (records : List (TurnRecord Move)) (state : State) (game_id : String) → Restored Move State

pub data Loaded (Move : Type 0) : Type 0 where
  not_loaded : (is_mismatch : Bool) → Loaded Move
  loaded : List (TurnRecord Move) → Loaded Move

module _ {Move State : Type 0} (env : Env Move State) where
  unfoldable pub add_loaded : List (TurnRecord Move) → Option (List (TurnRecord Move)) → Loaded Move
  add_loaded log none = not_loaded false
  add_loaded log (some part) =
      if is_empty part
      then not_loaded true
      else if ltb env.max_bytes (env.rules.bytes (log ++ part))
      then not_loaded false
      else loaded (log ++ part)

  -- The parts from `i` on, `n` of them.
  unfoldable pub load_from :
      (ℕ → Option (List (TurnRecord Move))) → ℕ → ℕ → Loaded Move → Loaded Move
  unfolding add_loaded
  load_from parts i n (not_loaded m) = not_loaded m
  load_from parts i zero (loaded log) = loaded log
  load_from parts i (suc n) (loaded log) = load_from parts (suc i) n (add_loaded log (parts i))

  unfoldable pub restore_state :
      List (TurnRecord Move) → String → Option State → Restored Move State
  unfolding is_mismatch
  restore_state log game_id none = refused (is_mismatch env.rules log)
  restore_state log game_id (some state) = restored log state game_id

  unfoldable pub restore_log : Saved Move → Loaded Move → Restored Move State
  unfolding restore_state validate
  restore_log saved (not_loaded m) = refused m
  restore_log saved (loaded log) =
      if eqb (length log) saved.count && final_hash log == saved.final_hash
      then restore_state log saved.game_id (validate env.rules log)
      else refused true

  unfoldable pub restore : Option (Saved Move) → Restored Move State
  unfolding restore_log load_from
  restore none = absent
  restore (some saved) =
      if eqb saved.version 1
        && (saved.initial_hash == env.initial_hash && same_texts saved.players env.rules.players)
      then (if ltb max_safe saved.chunks
            || (ltb max_safe saved.count
                || (ltb saved.count saved.chunks
                    || (ltb (env.max_bytes / 80) saved.count
                        || (eqb saved.count 0 && not (eqb saved.chunks 0)))))
          then refused true
          else restore_log saved (load_from saved.parts 0 saved.chunks (loaded [])))
      else absent

  unfoldable pub blank : TurnGame Move State
  blank = record {
    state = env.rules.initial;
    records = [];
    frozen = false;
    disposed = false;
    finished = false;
    result_saved = false;
    persistence_dirty = false;
    finish_result = "";
    game_id = none;
    request_id = none;
    requested_from = none;
    replay_request_id = none;
    timer = none;
    assembly = none;
    pending_finish = none;
    buffered = [];
    initialized = false;
    awaits = 0;
    drawn = 0;
    trace = [];
  }

  -- `gameId ??= crypto.randomUUID()`
  unfoldable pub named : Option String → TurnGame Move State → TurnGame Move State
  named none s = record s { game_id = some (env.uuid s.drawn); drawn = suc s.drawn }
  named (some id) s = s

  unfoldable pub joined : Room → TurnGame Move State → Bool × TurnGame Move State
  unfolding named announce request_log
  joined room s =
      if same_text room.host (some env.me)
      then announce env none (named s.game_id s)
      else request_log env room s

  -- `initialized` has settled: whether it was rejected is kept.
  unfoldable pub settled : Bool × TurnGame Move State → TurnGame Move State
  unfolding emit
  settled (true, s) = emit env error s
  settled (false, s) = record s { initialized = true }

  unfoldable pub host_name : Option String → String
  host_name none = ""
  host_name (some host) = host

  unfoldable pub begin_with : Room → Restored Move State → TurnGame Move State
  unfolding settled joined fail host_name blank
  begin_with room absent = settled (joined room blank)
  begin_with room (restored records state game_id) =
      settled
        (joined room (record blank { records = records; state = state; game_id = some game_id }))
  begin_with room (refused is_mismatch) =
      if is_mismatch then fail env 0 (host_name room.host) blank else blank

  -- The game as `initialized` leaves it. The saved log is looked at if the game persists.
  unfoldable pub begin : Room → Option (Saved Move) → TurnGame Move State
  unfolding begin_with restore
  begin room saved = begin_with room (if env.persists then restore saved else absent)
