-- ===== src/GameKit/Turns/Lane.antt =====
-- packages/game-kit/src/turns.ts: the handlers of the messages, which the lane runs one after
-- another.
use tslib.Common.{
  ℕ, ◌+◌, String, Bool, true, false, not, ◌&&◌, ◌||◌, Option, none, some, List, [], ◌∷◌, ◌++◌,
  length, eqb, ltb, ◌==◌, same_text, if◌then◌else◌,
}
use Prim.Native.Nat.{◌/◌}
use tslib.GameKit.Turns.{TurnRecord, final_hash}
use tslib.GameKit.Turns.Hashes.{is_hash}
use tslib.GameKit.Turns.Game.{
  Manifest, Assembly, Finish, Room, Env, TurnGame, is_some, fail, and_next, request_log,
}
use tslib.GameKit.Turns.Resync.{max_safe, get_part, reply_log, finish_local, commit_assembly}

pub record StartMessage : Type 0 where
  pub game_id : String
  pub players : List String
  pub initial_hash : String

pub record Chunk (Move : Type 0) : Type 0 where
  pub game_id : String
  pub request_id : String
  pub part : ℕ
  pub records : List (TurnRecord Move)

pub record FinishMessage : Type 0 where
  pub game_id : Option String
  pub finish : Finish
  pub request_id : Option String

abbrev pub same_texts : List String → List String → Bool
same_texts [] [] = true
same_texts (a ∷ as') (b ∷ bs) = a == b && same_texts as' bs
same_texts _ _ = false

module _ {A : Type 0} where
  abbrev pub is_empty : List A → Bool
  is_empty [] = true
  is_empty (x ∷ xs) = false

module _ {Move State : Type 0} (env : Env Move State) where
  unfoldable pub on_start :
      Room → String → StartMessage → TurnGame Move State → Bool × TurnGame Move State
  unfolding fail
  on_start room from v s =
      if not (same_text room.host (some from)) && not (same_text s.requested_from (some from))
      then (false, s)
      else if not s.initialized
      then (true, s)
      else if not (v.initial_hash == env.initial_hash)
          || (not (same_texts v.players env.rules.players)
              || (is_some s.game_id && not (same_text s.game_id (some v.game_id))))
      then (false, fail env (length s.records) from s)
      else (false, record s { game_id = some v.game_id })

  unfoldable pub on_log :
      Room → String → String → Option String → TurnGame Move State → Bool × TurnGame Move State
  unfolding reply_log
  on_log room from asked_id request_id s =
      if s.initialized then reply_log env room from asked_id request_id s else (true, s)

  -- What a manifest may not be.
  unfoldable pub is_bad_manifest : Manifest → Bool
  unfolding is_hash
  is_bad_manifest v =
      ltb max_safe v.count
      || (ltb max_safe v.chunks
          || (ltb v.count v.chunks
              || ((eqb v.count 0 && not (eqb v.chunks 0))
                  || (ltb (env.max_bytes / 80) v.count || not (is_hash v.final_hash)))))

  unfoldable pub is_other_assembly : String → Option (Assembly Move) → Bool
  is_other_assembly from none = false
  is_other_assembly from (some a) = not (a.from == from)

  unfoldable pub on_manifest :
      Room → String → Manifest → TurnGame Move State → Bool × TurnGame Move State
  unfolding fail is_bad_manifest is_other_assembly commit_assembly
  on_manifest room from v s =
      if not (same_text s.request_id (some v.request_id))
        || not (same_text s.game_id (some v.game_id))
      then (false, s)
      else if not (same_text s.requested_from (some from)) || is_bad_manifest v
      then (false, fail env (length s.records) from s)
      else if is_other_assembly from s.assembly
      then (false, s)
      else commit_assembly env room (record s {
        assembly = some (record { manifest = v; from = from; parts = []; total_bytes = 0 });
      })

  -- A part that is there already, or one to be added.
  unfoldable pub add_part :
      Room
      → String
      → Chunk Move
      → Assembly Move
      → Option (List (TurnRecord Move))
      → TurnGame Move State
      → Bool × TurnGame Move State
  unfolding fail commit_assembly
  add_part room from v a (some old) s =
      (false, if env.same old v.records then s else fail env (length s.records) from s)
  add_part room from v a none s =
      let total = a.total_bytes + env.rules.bytes v.records in
      if ltb env.max_bytes total
      then (false, fail env (length s.records) from s)
      else commit_assembly env room (record s {
        assembly =
            some (record a { parts = a.parts ++ ((v.part, v.records) ∷ []); total_bytes = total });
      })

  unfoldable pub chunk_for :
      Room
      → String
      → Chunk Move
      → Option (Assembly Move)
      → TurnGame Move State
      → Bool × TurnGame Move State
  unfolding fail add_part
  chunk_for room from v none s = (false, s)
  chunk_for room from v (some a) s =
      if not (from == a.from)
        || (not (same_text s.game_id (some v.game_id))
            || not (same_text s.request_id (some v.request_id)))
      then (false, s)
      else if ltb max_safe v.part || (not (ltb v.part a.manifest.chunks) || is_empty v.records)
      then (false, fail env (length s.records) from s)
      else add_part room from v a (get_part a.parts v.part) s

  unfoldable pub on_chunk :
      Room → String → Chunk Move → TurnGame Move State → Bool × TurnGame Move State
  unfolding chunk_for
  on_chunk room from v s = chunk_for room from v s.assembly s

  unfoldable pub on_finish :
      Room → String → FinishMessage → TurnGame Move State → Bool × TurnGame Move State
  unfolding fail and_next request_log finish_local is_hash
  on_finish room from v s =
      if not (same_text v.game_id s.game_id)
        || ((not (same_text room.host (some from))
              && not (
                  same_text s.requested_from (some from)
                  && same_text v.request_id s.replay_request_id))
            || s.frozen)
      then (false, s)
      else if ltb max_safe v.finish.count || not (is_hash v.finish.final_hash)
      then (false, fail env (length s.records) from s)
      else if is_some s.request_id
      then (false, record s { pending_finish = some v.finish })
      else if ltb (length s.records) v.finish.count
      then and_next env (request_log env room s)
          (λ t. (false, record t { pending_finish = some v.finish }))
      else if not (eqb v.finish.count (length s.records))
          || not (v.finish.final_hash == final_hash s.records)
      then (false, fail env (length s.records) from s)
      else finish_local env v.finish.result s
