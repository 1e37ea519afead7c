-- ===== src/GameKit/Turns/Play.antt =====
-- packages/game-kit/src/turns.ts: `submit`, `finish`, and whatever else can happen to a turn
-- game, as events.
use tslib.Common.{
  String, Bool, true, false, not, ◌&&◌, ◌||◌, Option, none, some, List, [], ◌∷◌, ◌++◌, length, ltb,
  ◌==◌, same_text, if◌then◌else◌,
}
use tslib.GameKit.Turns.{TurnRecord, chunks, final_hash, player_at, is_text}
use tslib.GameKit.Turns.Game.{
  TurnMessage, Manifest, Room, moved, ended, Env, TurnGame, is_some, put, dispose, expire_from,
  await, call, and_next, caught, persist, request_log, accept,
}
use tslib.GameKit.Turns.Resync.{announce, finish_local}
use tslib.GameKit.Turns.Lane.{
  StartMessage, Chunk, FinishMessage, on_start, on_log, on_manifest, on_chunk, on_finish,
}

pub data Event (Move : Type 0) : Type 0 where
  starts : (room : Room) (from : String) (message : StartMessage) → Event Move
  turns : (room : Room) (from : String) (message : TurnMessage Move) → Event Move
  asks_log : (room : Room) (from game_id : String) (request_id : Option String) → Event Move
  manifests : (room : Room) (from : String) (message : Manifest) → Event Move
  sends_chunk : (room : Room) (from : String) (message : Chunk Move) → Event Move
  finishes : (room : Room) (from : String) (message : FinishMessage) → Event Move
  connects changes_host : (room : Room) → Event Move
  submits : (room : Room) (move : Move) → Event Move
  ends : (room : Room) (result : String) → Event Move
  resumes expiry disposal : Event Move

module _ {Move State : Type 0} (env : Env Move State) where
  unfoldable pub is_applied : Option State → Bool
  is_applied none = false
  is_applied (some state) = true

  unfoldable pub is_sendable : TurnRecord Move → Bool
  unfolding chunks
  is_sendable item = elim (chunks env.rules 7000 (item ∷ [])) [ none ↦ false | some parts ↦ true ]

  -- A record that this player makes is sent and accepted.
  unfoldable pub send_turn :
      Room → TurnRecord Move → TurnGame Move State → Bool × TurnGame Move State
  unfolding is_applied is_sendable and_next call put accept
  send_turn room item s =
      if not (is_sendable item)
        || (ltb env.max_bytes (env.rules.bytes (s.records ++ (item ∷ [])))
            || not (is_applied (env.rules.apply s.state item.move item.by)))
      then (true, s)
      else (let message : TurnMessage Move = record { game_id = s.game_id; item = item } in
          and_next env (call env (put env (moved message) s))
            (λ t. accept env room env.me message t))

  unfoldable pub submit_hashed :
      Room → Move → Option String → TurnGame Move State → Bool × TurnGame Move State
  unfolding send_turn
  submit_hashed room move none s = (true, s)
  submit_hashed room move (some hash) s =
      send_turn room (record { index = length s.records; move = move; by = env.me; hash = hash }) s

  unfoldable pub submit : Room → Move → TurnGame Move State → Bool × TurnGame Move State
  unfolding submit_hashed await player_at is_text
  submit room move s =
      if not s.initialized
        || (s.disposed
            || (s.frozen || (s.finished || (not (is_some s.game_id) || is_some s.request_id))))
      then (true, s)
      else if not (is_text (player_at env.rules (length s.records)) env.me)
      then (true, s)
      else submit_hashed room move
          (env.rules.hash (final_hash s.records) (length s.records) env.me move) (await env s)

  unfoldable pub finish : Room → String → TurnGame Move State → Bool × TurnGame Move State
  unfolding and_next call put finish_local
  finish room result s =
      if not s.initialized
        || (s.disposed
            || (s.frozen
                || (not (same_text room.host (some env.me))
                    || (s.finished && not (s.finish_result == result)))))
      then (true, s)
      else and_next env
          (if s.finished
            then (false, s)
            else call env (
                put env
                  (ended (record {
                    result = result;
                    count = length s.records;
                    final_hash = final_hash s.records;
                  }))
                  s))
          (λ t. finish_local env result t)

  -- `enqueue`: what comes after the end of the game is dropped, and an error is emitted.
  unfoldable pub enqueue :
      (TurnGame Move State → Bool × TurnGame Move State) → TurnGame Move State → TurnGame Move State
  unfolding caught
  enqueue action s = if s.disposed then s else caught env (action s)

  unfoldable pub resume_result : TurnGame Move State → TurnGame Move State
  unfolding enqueue finish_local
  resume_result s =
      if s.finished && not s.result_saved
      then enqueue (λ t. finish_local env s.finish_result t) s
      else s

  -- The game has come to the foreground.
  unfoldable pub resume : TurnGame Move State → TurnGame Move State
  unfolding enqueue persist resume_result
  resume s = resume_result (if s.persistence_dirty then enqueue (λ t. persist env t) s else s)

  unfoldable pub change_host : Room → TurnGame Move State → Bool × TurnGame Move State
  unfolding announce request_log
  change_host room s =
      if same_text room.host (some env.me) then announce env none s else request_log env room s

  unfoldable pub step : Event Move → TurnGame Move State → TurnGame Move State
  unfolding enqueue on_start on_log on_manifest on_chunk on_finish accept submit finish resume
      change_host expire_from dispose request_log
  step (starts room from v) s = enqueue (λ t. on_start env room from v t) s
  step (turns room from v) s = enqueue (λ t. accept env room from v t) s
  step (asks_log room from game_id request_id) s =
      enqueue (λ t. on_log env room from game_id request_id t) s
  step (manifests room from v) s = enqueue (λ t. on_manifest env room from v t) s
  step (sends_chunk room from v) s = enqueue (λ t. on_chunk env room from v t) s
  step (finishes room from v) s = enqueue (λ t. on_finish env room from v t) s
  step (connects room) s = if is_some s.game_id then enqueue (λ t. request_log env room t) s else s
  step (changes_host room) s = enqueue (λ t. change_host room t) s
  step (submits room move) s = (submit room move s).1
  step (ends room result) s = (finish room result s).1
  step resumes s = resume s
  step expiry s = expire_from env s.timer s
  step disposal s = dispose env s

  unfoldable pub run : List (Event Move) → TurnGame Move State → TurnGame Move State
  unfolding step
  run [] s = s
  run (e ∷ es) s = run es (step e s)
