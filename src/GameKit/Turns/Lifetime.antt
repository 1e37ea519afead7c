-- ===== src/GameKit/Turns/Lifetime.antt =====
-- packages/game-kit/src/turns.ts: what a turn game keeps through everything that can happen to it.
use tslib.Common.{
  String, Bool, false, not, ◌&&◌, ◌||◌, Option, none, some, List, [], ◌∷◌, ◌++◌, length, ltb, ◌==◌,
  same_text, if◌then◌else◌, if_cases,
}
use tslib.GameKit.Turns.{TurnRecord, final_hash, player_at, is_text}
use tslib.GameKit.Turns.Game.{
  TurnMessage, Room, moved, ended, expires, disposes, Env, TurnGame, is_some, put, dispose, happen,
  await, call, and_next, persist, request_log, accept,
}
use tslib.GameKit.Turns.Resync.{finish_local}
use tslib.GameKit.Turns.Later.{
  Later, Same-Later, Later-refl, Later-trans, await-Same, told-Same, and_next-Later, persist-Same,
  request_log-Same, happen-Same,
}
use tslib.GameKit.Turns.History.{accept-Later}
use tslib.GameKit.Turns.Replacement.{finish_local-Later, announce-Later}
use tslib.GameKit.Turns.Lane.{on_start, on_log, on_manifest, on_chunk, on_finish}
use tslib.GameKit.Turns.Play.{
  Event, starts, turns, asks_log, manifests, sends_chunk, finishes, connects, changes_host, submits,
  ends, resumes, expiry, disposal, send_turn, is_sendable, is_applied, submit_hashed, submit,
  finish, enqueue, resume_result, resume, change_host, step, run,
}
use tslib.GameKit.Turns.Handlers.{
  on_start-Later, on_log-Later, on_manifest-Later, on_chunk-Later, on_finish-Later, enqueue-Later,
}

module _ {Move State : Type 0} (env : Env Move State) where
  abbrev Leads : TurnGame Move State → Bool × TurnGame Move State → Type 0
  Leads s r = Later env s r.1

  sent-Later :
      (room : Room) (item : TurnRecord Move) (message : TurnMessage Move) (s : TurnGame Move State)
      → Leads s (
          and_next env
            (call env (put env (moved message) s))
            (λ t. accept env room env.me message t))
  sent-Later room item message s =
      and_next-Later env s (call env (put env (moved message) s))
        (λ t. accept env room env.me message t)
        (Same-Later env s (call env (put env (moved message) s)).1
          (told-Same env (moved message) s))
        (accept-Later env room env.me message)

  send_turn-Later :
      (room : Room) (item : TurnRecord Move) (s : TurnGame Move State)
      → Leads s (send_turn env room item s)
  unfolding send_turn
  send_turn-Later room item s =
      if_cases (Leads s)
        (not (is_sendable env item)
          || (ltb env.max_bytes (env.rules.bytes (s.records ++ (item ∷ [])))
              || not (is_applied env (env.rules.apply s.state item.move item.by))))
        (λ e. Later-refl env s)
        (λ e. sent-Later room item (record { game_id = s.game_id; item = item }) s)

  submit_hashed-Later :
      (room : Room) (move : Move) (o : Option String) (s : TurnGame Move State)
      → Leads s (submit_hashed env room move o s)
  unfolding submit_hashed
  submit_hashed-Later room move none s = Later-refl env s
  submit_hashed-Later room move (some hash) s =
      send_turn-Later room
        (record { index = length s.records; move = move; by = env.me; hash = hash }) s

  submit-Later :
      (room : Room) (move : Move) (s : TurnGame Move State) → Leads s (submit env room move s)
  unfolding submit
  submit-Later room move s =
      let o = env.rules.hash (final_hash s.records) (length s.records) env.me move in
      if_cases (Leads s)
        (not s.initialized
          || (s.disposed
              || (s.frozen || (s.finished || (not (is_some s.game_id) || is_some s.request_id)))))
        (λ e. Later-refl env s)
        (λ e.
          if_cases (Leads s) (not (is_text (player_at env.rules (length s.records)) env.me))
            (λ n. Later-refl env s)
            (λ n.
              Later-trans env s (await env s) (submit_hashed env room move o (await env s)).1
                (Same-Later env s (await env s) (await-Same env s))
                (submit_hashed-Later room move o (await env s))))

  finish-Later :
      (room : Room) (result : String) (s : TurnGame Move State) → Leads s (finish env room result s)
  unfolding finish
  finish-Later room result s =
      let o =
        ended (record {
          result = result;
          count = length s.records;
          final_hash = final_hash s.records;
        }) in
      let r : Bool × TurnGame Move State =
        if s.finished then (false, s) else call env (put env o s) in
      if_cases (Leads s)
        (not s.initialized
          || (s.disposed
              || (s.frozen
                  || (not (same_text room.host (some env.me))
                      || (s.finished && not (s.finish_result == result))))))
        (λ e. Later-refl env s)
        (λ e.
          and_next-Later env s r (λ t. finish_local env result t)
            (if_cases (Leads s) s.finished (λ f. Later-refl env s)
              (λ f. Same-Later env s (call env (put env o s)).1 (told-Same env o s)))
            (finish_local-Later env result))

  resume_result-Later : (s : TurnGame Move State) → Later env s (resume_result env s)
  unfolding resume_result
  resume_result-Later s =
      if_cases (Later env s) (s.finished && not s.result_saved)
        (λ e.
          enqueue-Later env (λ t. finish_local env s.finish_result t) s
            (finish_local-Later env s.finish_result s))
        (λ e. Later-refl env s)

  resume-Later : (s : TurnGame Move State) → Later env s (resume env s)
  unfolding resume
  resume-Later s =
      let t = if s.persistence_dirty then enqueue env (λ t. persist env t) s else s in
      Later-trans env s t (resume_result env t)
        (if_cases (Later env s) s.persistence_dirty
          (λ e.
            enqueue-Later env (λ t. persist env t) s
              (Same-Later env s (persist env s).1 (persist-Same env s)))
          (λ e. Later-refl env s))
        (resume_result-Later t)

  asked-Later : (room : Room) (s : TurnGame Move State) → Leads s (request_log env room s)
  asked-Later room s = Same-Later env s (request_log env room s).1 (request_log-Same env room s)

  change_host-Later : (room : Room) (s : TurnGame Move State) → Leads s (change_host env room s)
  unfolding change_host
  change_host-Later room s =
      if_cases (Leads s) (same_text room.host (some env.me)) (λ e. announce-Later env none s)
        (λ e. asked-Later room s)

  expired-Later : (s : TurnGame Move State) → Later env s (happen env expires s)
  expired-Later s = Same-Later env s (happen env expires s) (happen-Same env expires s)

  pub step-Later : (e : Event Move) (s : TurnGame Move State) → Later env s (step env e s)
  unfolding step happen
  step-Later (starts room from v) s =
      enqueue-Later env (λ t. on_start env room from v t) s (on_start-Later env room from v s)
  step-Later (turns room from v) s =
      enqueue-Later env (λ t. accept env room from v t) s (accept-Later env room from v s)
  step-Later (asks_log room from game_id request_id) s =
      enqueue-Later env (λ t. on_log env room from game_id request_id t) s
        (on_log-Later env room from game_id request_id s)
  step-Later (manifests room from v) s =
      enqueue-Later env (λ t. on_manifest env room from v t) s (on_manifest-Later env room from v s)
  step-Later (sends_chunk room from v) s =
      enqueue-Later env (λ t. on_chunk env room from v t) s (on_chunk-Later env room from v s)
  step-Later (finishes room from v) s =
      enqueue-Later env (λ t. on_finish env room from v t) s (on_finish-Later env room from v s)
  step-Later (connects room) s =
      if_cases (Later env s) (is_some s.game_id)
        (λ e. enqueue-Later env (λ t. request_log env room t) s (asked-Later room s))
        (λ e. Later-refl env s)
  step-Later (changes_host room) s =
      enqueue-Later env (λ t. change_host env room t) s (change_host-Later room s)
  step-Later (submits room move) s = submit-Later room move s
  step-Later (ends room result) s = finish-Later room result s
  step-Later resumes s = resume-Later s
  step-Later expiry s = expired-Later s
  step-Later disposal s = Same-Later env s (dispose env s) (happen-Same env disposes s)

  pub run-Later : (es : List (Event Move)) (s : TurnGame Move State) → Later env s (run env es s)
  unfolding run
  run-Later [] s = Later-refl env s
  run-Later (e ∷ es) s =
      Later-trans env s (step env e s) (run env es (step env e s)) (step-Later e s)
        (run-Later es (step env e s))
