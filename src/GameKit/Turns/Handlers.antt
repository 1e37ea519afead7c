-- ===== src/GameKit/Turns/Handlers.antt =====
-- packages/game-kit/src/turns.ts: what the handlers of the messages do to the log.
use tslib.Common.{
  ◌+◌, String, Bool, false, not, ◌&&◌, ◌||◌, Option, none, some, List, [], ◌∷◌, ◌++◌, length, eqb,
  ltb, ◌==◌, same_text, if_cases, arith,
}
use tslib.GameKit.Turns.{TurnRecord, final_hash}
use tslib.GameKit.Turns.Game.{
  Manifest, Assembly, Finish, Room, Env, TurnGame, is_some, fail, and_next, request_log,
}
use tslib.GameKit.Turns.Resync.{commit_assembly}
use tslib.GameKit.Turns.Later.{
  begins_refl, Later, Same, Same-Later, Later-refl, Later-trans, fail-Later, and_next-Same,
  caught-Later, request_log-Same,
}
use tslib.GameKit.Turns.Replacement.{finish_local-Later, commit_assembly-Later, reply_log-Later}
use tslib.GameKit.Turns.Lane.{
  StartMessage, Chunk, FinishMessage, same_texts, is_empty, on_start, on_log, on_manifest,
  is_bad_manifest, is_other_assembly, add_part, chunk_for, on_chunk, on_finish,
}
use tslib.GameKit.Turns.Hashes.{is_hash}
use tslib.GameKit.Turns.Play.{enqueue}
use tslib.GameKit.Turns.Resync.{get_part, max_safe}

module _ {Move State : Type 0} (env : Env Move State) where
  abbrev Leads : TurnGame Move State → Bool × TurnGame Move State → Type 0
  Leads s r = Later env s r.1

  -- Changes of what is awaited leave the log alone.
  game_id-Later :
      (id : Option String) (s : TurnGame Move State) → Later env s (record s { game_id = id })
  game_id-Later id s = ground (arith, begins_refl s.records)

  assembly-Later :
      (a : Option (Assembly Move)) (s : TurnGame Move State)
      → Later env s (record s { assembly = a })
  assembly-Later a s = ground (arith, begins_refl s.records)

  pending-Same :
      (f : Option Finish) (s : TurnGame Move State) → Same env s (record s { pending_finish = f })
  pending-Same f s = ground arith

  -- A fault at the present end of the log.
  fault-Later :
      (from : String) (s : TurnGame Move State)
      → Leads s (false, fail env (length s.records) from s)
  fault-Later from s = fail-Later env (length s.records) from s

  pub on_start-Later :
      (room : Room) (from : String) (v : StartMessage) (s : TurnGame Move State)
      → Leads s (on_start env room from v s)
  unfolding on_start
  on_start-Later room from v s =
      if_cases (Leads s)
        (not (same_text room.host (some from)) && not (same_text s.requested_from (some from)))
        (λ e. Later-refl env s)
        (λ e.
          if_cases (Leads s) (not s.initialized) (λ i. Later-refl env s)
            (λ i.
              if_cases (Leads s)
                (not (v.initial_hash == env.initial_hash)
                  || (not (same_texts v.players env.rules.players)
                      || (is_some s.game_id && not (same_text s.game_id (some v.game_id)))))
                (λ m. fault-Later from s) (λ m. game_id-Later (some v.game_id) s)))

  pub on_log-Later :
      (room : Room) (from asked_id : String) (request_id : Option String) (s : TurnGame Move State)
      → Leads s (on_log env room from asked_id request_id s)
  unfolding on_log
  on_log-Later room from asked_id request_id s =
      if_cases (Leads s) s.initialized (λ i. reply_log-Later env room from asked_id request_id s)
        (λ i. Later-refl env s)

  committed-Later :
      (room : Room) (a : Assembly Move) (s : TurnGame Move State)
      → Leads s (commit_assembly env room (record s { assembly = some a }))
  committed-Later room a s =
      let t = record s { assembly = some a } in
      Later-trans env s t (commit_assembly env room t).1 (assembly-Later (some a) s)
        (commit_assembly-Later env room t)

  pub on_manifest-Later :
      (room : Room) (from : String) (v : Manifest) (s : TurnGame Move State)
      → Leads s (on_manifest env room from v s)
  unfolding on_manifest
  on_manifest-Later room from v s =
      if_cases (Leads s)
        (not (same_text s.request_id (some v.request_id))
          || not (same_text s.game_id (some v.game_id)))
        (λ e. Later-refl env s)
        (λ e.
          if_cases (Leads s) (not (same_text s.requested_from (some from)) || is_bad_manifest env v)
            (λ b. fault-Later from s)
            (λ b.
              if_cases (Leads s) (is_other_assembly env from s.assembly) (λ o. Later-refl env s)
                (λ o.
                  committed-Later room
                    (record { manifest = v; from = from; parts = []; total_bytes = 0 }) s)))

  add_part-Later :
      (room : Room) (from : String) (v : Chunk Move) (a : Assembly Move)
      (o : Option (List (TurnRecord Move))) (s : TurnGame Move State)
      → Leads s (add_part env room from v a o s)
  unfolding add_part
  add_part-Later room from v a (some old) s =
      if_cases (Later env s) (env.same old v.records) (λ e. Later-refl env s)
        (λ e. fault-Later from s)
  add_part-Later room from v a none s =
      if_cases (Leads s) (ltb env.max_bytes (a.total_bytes + env.rules.bytes v.records))
        (λ e. fault-Later from s)
        (λ e.
          committed-Later room
            (record a {
              parts = a.parts ++ ((v.part, v.records) ∷ []);
              total_bytes = a.total_bytes + env.rules.bytes v.records;
            })
            s)

  chunk_for-Later :
      (room : Room) (from : String) (v : Chunk Move) (o : Option (Assembly Move))
      (s : TurnGame Move State)
      → Leads s (chunk_for env room from v o s)
  unfolding chunk_for
  chunk_for-Later room from v none s = Later-refl env s
  chunk_for-Later room from v (some a) s =
      if_cases (Leads s)
        (not (from == a.from)
          || (not (same_text s.game_id (some v.game_id))
              || not (same_text s.request_id (some v.request_id))))
        (λ e. Later-refl env s)
        (λ e.
          if_cases (Leads s)
            (ltb max_safe v.part || (not (ltb v.part a.manifest.chunks) || is_empty v.records))
            (λ b. fault-Later from s)
            (λ b. add_part-Later room from v a (get_part a.parts v.part) s))

  pub on_chunk-Later :
      (room : Room) (from : String) (v : Chunk Move) (s : TurnGame Move State)
      → Leads s (on_chunk env room from v s)
  unfolding on_chunk
  on_chunk-Later room from v s = chunk_for-Later room from v s.assembly s

  -- A finish that waits for the log.
  waiting-Later :
      (room : Room) (f : Finish) (s : TurnGame Move State)
      → Leads s (
          and_next env
            (request_log env room s)
            (λ t. (false, record t { pending_finish = some f })))
  waiting-Later room f s =
      let later : TurnGame Move State → Bool × TurnGame Move State =
        λ t. (false, record t { pending_finish = some f }) in
      Same-Later env s (and_next env (request_log env room s) later).1 (
        and_next-Same env s (request_log env room s) later (request_log-Same env room s)
          (pending-Same (some f)))

  pub on_finish-Later :
      (room : Room) (from : String) (v : FinishMessage) (s : TurnGame Move State)
      → Leads s (on_finish env room from v s)
  unfolding on_finish
  on_finish-Later room from v s =
      if_cases (Leads s)
        (not (same_text v.game_id s.game_id)
          || ((not (same_text room.host (some from))
                && not (
                    same_text s.requested_from (some from)
                    && same_text v.request_id s.replay_request_id))
              || s.frozen))
        (λ e. Later-refl env s)
        (λ e.
          if_cases (Leads s) (ltb max_safe v.finish.count || not (is_hash v.finish.final_hash))
            (λ b. fault-Later from s)
            (λ b.
              if_cases (Leads s) (is_some s.request_id)
                (λ r.
                  Same-Later env s (record s { pending_finish = some v.finish })
                    (pending-Same (some v.finish) s))
                (λ r.
                  if_cases (Leads s) (ltb (length s.records) v.finish.count)
                    (λ l. waiting-Later room v.finish s)
                    (λ l.
                      if_cases (Leads s)
                        (not (eqb v.finish.count (length s.records))
                          || not (v.finish.final_hash == final_hash s.records))
                        (λ m. fault-Later from s)
                        (λ m. finish_local-Later env v.finish.result s)))))

  pub enqueue-Later :
      (action : TurnGame Move State → Bool × TurnGame Move State) (s : TurnGame Move State)
      → Leads s (action s)
      → Later env s (enqueue env action s)
  unfolding enqueue
  enqueue-Later action s h =
      if_cases (Later env s) s.disposed (λ e. Later-refl env s)
        (λ e. caught-Later env s (action s) h)
