-- ===== src/GameKit/Turns/Resync.antt =====
-- packages/game-kit/src/turns.ts: the answer to a request for the log, the assembly of the
-- answer, and the end
-- of a game.
use tslib.Common.{
  ℕ, zero, suc, String, Bool, true, false, not, ◌&&◌, ◌||◌, Option, none, some, List, [], ◌∷◌, ◌++◌,
  length, eqb, leb, ◌==◌, same_text, if◌then◌else◌,
}
use tslib.GameKit.Turns.{TurnRecord, chunks, final_hash, zero_hash, is_in_turn, fits}
use tslib.GameKit.Turns.Game.{
  Buffered, Assembly, Finish, Room, announced, answered, stored_result, Env, TurnGame, is_some, put,
  fail, await, call, and_next, caught, persist, accept, responder_for,
}

-- Number.MAX_SAFE_INTEGER
abbrev pub max_safe : ℕ
max_safe = 9007199254740991

module _ {Move : Type 0} where
  -- `parts.get`
  abbrev pub get_part : List (ℕ × List (TurnRecord Move)) → ℕ → Option (List (TurnRecord Move))
  get_part [] i = none
  get_part ((j, part) ∷ parts) i = if eqb j i then some part else get_part parts i

  -- The log of the parts from `i` on, `n` of them: none where one is missing.
  abbrev pub log_from : List (ℕ × List (TurnRecord Move)) → ℕ → ℕ → Option (List (TurnRecord Move))
  log_from parts i zero = some []
  log_from parts i (suc n) = elim (get_part parts i) [
    | none ↦ none
    | some part ↦ elim (log_from parts (suc i) n) [ none ↦ none | some log ↦ some (part ++ log) ]
  ]

  -- Whether each record has the hash of the record of the log at its place.
  abbrev pub begins : List (TurnRecord Move) → List (TurnRecord Move) → Bool
  begins [] log = true
  begins (r ∷ records) [] = false
  begins (r ∷ records) (item ∷ log) = item.hash == r.hash && begins records log

module _ {Move State : Type 0} (env : Env Move State) where
  unfoldable pub announce : Option String → TurnGame Move State → Bool × TurnGame Move State
  unfolding call put
  announce target s =
      if is_some s.game_id then call env (put env (announced target) s) else (false, s)

  -- The answer to a request for the log: the manifest and the chunks, which go out one by one.
  -- The message that the game is over, which follows the last chunk in the background, is left out.
  unfoldable pub reply_with :
      String
      → String
      → String
      → Option (List (List (TurnRecord Move)))
      → TurnGame Move State
      → Bool × TurnGame Move State
  unfolding and_next announce call put
  reply_with from request_id game_id none s = (true, s)
  reply_with from request_id game_id (some parts) s = and_next env (announce (some from) s) (λ t.
      call env (
        put env
          (answered from
            (record {
              game_id = game_id;
              request_id = request_id;
              count = length s.records;
              final_hash = final_hash s.records;
              chunks = length parts;
            })
            parts)
          t))

  -- An empty `gameId` asks for any game.
  unfoldable pub reply_in :
      Option String
      → Room
      → String
      → String
      → Option String
      → TurnGame Move State
      → Bool × TurnGame Move State
  unfolding reply_with chunks responder_for
  reply_in none room from asked_id request_id s = (false, s)
  reply_in (some game_id) room from asked_id none s = (false, s)
  reply_in (some game_id) room from asked_id (some request_id) s =
      if (not (asked_id == "") && not (asked_id == game_id))
        || not (same_text (responder_for env room from) (some env.me))
      then (false, s)
      else reply_with from request_id game_id (chunks env.rules 7000 s.records) s

  unfoldable pub reply_log :
      Room → String → String → Option String → TurnGame Move State → Bool × TurnGame Move State
  unfolding reply_in
  reply_log room from asked_id request_id s = reply_in s.game_id room from asked_id request_id s

  -- `validate`, which awaits a hash for each record up to one that does not fit or cannot be applied.
  unfoldable pub validate_now :
      String
      → ℕ
      → State
      → List (TurnRecord Move)
      → TurnGame Move State
      → Option State × TurnGame Move State
  unfolding fits is_in_turn await
  validate_now previous index state [] s = (some state, s)
  validate_now previous index state (item ∷ log) s =
      if fits env.rules previous index item
      then elim (env.rules.apply state item.move item.by) [
        | none ↦ (none, await env s)
        | some rebuilt ↦ validate_now item.hash (suc index) rebuilt log (await env s)
      ]
      else (none, if is_in_turn env.rules index item then await env s else s)

  unfoldable pub save_result : TurnGame Move State → Bool × TurnGame Move State
  unfolding and_next call put
  save_result s =
      and_next env
        (if env.saves_result
          then call env (put env (stored_result s.finish_result (final_hash s.records)) s)
          else (false, s))
        (λ t. (false, record t { result_saved = true }))

  unfoldable pub finish_once : String → TurnGame Move State → TurnGame Move State
  finish_once result s =
      if s.finished then s else record s { finish_result = result; finished = true }

  unfoldable pub finish_local : String → TurnGame Move State → Bool × TurnGame Move State
  unfolding and_next persist save_result finish_once
  finish_local result s =
      if s.result_saved
      then (false, s)
      else (let s1 = finish_once result s in
          and_next env (if s1.persistence_dirty then persist env s1 else (false, s1)) save_result)

  unfoldable pub accept_all :
      Room → List (Buffered Move) → TurnGame Move State → Bool × TurnGame Move State
  unfolding and_next accept
  accept_all room [] s = (false, s)
  accept_all room (b ∷ waiting) s =
      and_next env (accept env room b.from b.payload s) (λ t. accept_all room waiting t)

  -- What follows an assembly: a finish that waited for it, and persistence.
  unfoldable pub finish_pending :
      String → Option Finish → TurnGame Move State → Bool × TurnGame Move State
  unfolding fail and_next finish_local caught persist
  finish_pending from none s = (false, caught env (persist env s))
  finish_pending from (some finish) s =
      if s.frozen
      then (false, caught env (persist env s))
      else (let s1 = record s { pending_finish = none } in
          if not (eqb finish.count (length s.records))
            || not (finish.final_hash == final_hash s.records)
          then (false, fail env (length s.records) from s1)
          else and_next env (finish_local finish.result s1)
              (λ t. (false, caught env (persist env t))))

  -- The log of an assembly takes the place of the records.
  unfoldable pub replace_log :
      Room
      → String
      → List (TurnRecord Move)
      → Option State × TurnGame Move State
      → Bool × TurnGame Move State
  unfolding fail and_next accept_all finish_pending
  replace_log room from log (none, s) = (false, fail env (length s.records) from s)
  replace_log room from log (some rebuilt, s) =
      if s.disposed
      then (false, s)
      else and_next env
          (accept_all room s.buffered (record s {
            records = log;
            persistence_dirty = env.persists;
            state = rebuilt;
            request_id = none;
            assembly = none;
            timer = none;
            buffered = [];
          }))
          (λ t. finish_pending from t.pending_finish t)

  unfoldable pub commit_log :
      Room
      → Assembly Move
      → Option (List (TurnRecord Move))
      → TurnGame Move State
      → Bool × TurnGame Move State
  unfolding fail replace_log validate_now
  commit_log room a none s = (false, s)
  commit_log room a (some log) s =
      if eqb (length log) a.manifest.count
        && (final_hash log == a.manifest.final_hash
            && (leb (length s.records) (length log) && begins s.records log))
      then replace_log room a.from log (validate_now zero_hash 0 env.rules.initial log s)
      else (false, fail env (length s.records) a.from s)

  unfoldable pub commit_from :
      Room → Option (Assembly Move) → TurnGame Move State → Bool × TurnGame Move State
  unfolding commit_log
  commit_from room none s = (false, s)
  commit_from room (some a) s =
      if eqb (length a.parts) a.manifest.chunks
      then commit_log room a (log_from a.parts 0 a.manifest.chunks) s
      else (false, s)

  unfoldable pub commit_assembly : Room → TurnGame Move State → Bool × TurnGame Move State
  unfolding commit_from
  commit_assembly room s = commit_from room s.assembly s
