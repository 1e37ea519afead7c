-- ===== src/GameKit/Turns/Game.antt =====
-- packages/game-kit/src/turns.ts: the state of a turn game, what an await does to it, its
-- persistence and
-- `accept`. The lane runs one handler after another; while a handler awaits, the timer of a
-- request may
-- expire or the game may be disposed of, and an awaited call may reject.
use tslib.Common.{
  ℕ, suc, String, Bool, true, false, not, ◌&&◌, ◌||◌, Option, none, some, List, [], ◌∷◌, ◌++◌,
  length, any, ltb, ◌==◌, same_text, if◌then◌else◌,
}
use tslib.GameKit.Turns.{TurnRecord, Rules, get_elem?, chunks, final_hash, player_at, is_text}

-- `gameId` is none where the message has none.
pub record TurnMessage (Move : Type 0) : Type 0 where
  pub game_id : Option String
  pub item : TurnRecord Move

pub record Buffered (Move : Type 0) : Type 0 where
  pub from : String
  pub payload : TurnMessage Move

pub record Manifest : Type 0 where
  pub game_id : String
  pub request_id : String
  pub count : ℕ
  pub final_hash : String
  pub chunks : ℕ

pub record Assembly (Move : Type 0) : Type 0 where
  pub manifest : Manifest
  pub from : String
  pub parts : List (ℕ × List (TurnRecord Move))
  pub total_bytes : ℕ

-- A result is its JSON.
pub record Finish : Type 0 where
  pub result : String
  pub count : ℕ
  pub final_hash : String

-- The members of the room, with whether they are online.
pub record Room : Type 0 where
  pub host : Option String
  pub members : List (String × Bool)

-- Events that are emitted, messages that are sent and rows that are stored.
pub data Output (Move : Type 0) : Type 0 where
  mismatch turn : (index : ℕ) (by : String) → Output Move
  error : Output Move
  asked : (target request_id : String) → Output Move
  announced : (target : Option String) → Output Move
  answered :
      (target : String) (manifest : Manifest) (parts : List (List (TurnRecord Move))) → Output Move
  moved : TurnMessage Move → Output Move
  ended : Finish → Output Move
  stored_chunk : List (TurnRecord Move) → Output Move
  stored_manifest : (count : ℕ) (final_hash : String) → Output Move
  stored_result : (result final_hash : String) → Output Move

pub data Happening : Type 0 where
  quiet expires disposes : Happening

-- The player at this end, the options, and what is not in the code: the lengths and comparisons
-- of JSON,
-- the random identifiers, and what happens during each await.
pub record Env (Move State : Type 0) : Type 0 where
  pub rules : Rules Move State
  pub me : String
  pub max_bytes : ℕ
  pub persists : Bool
  pub saves_result : Bool
  pub initial_hash : String
  pub buffered_bytes : List (Buffered Move) → ℕ
  pub same : List (TurnRecord Move) → List (TurnRecord Move) → Bool
  pub uuid : ℕ → String
  pub happening : ℕ → Happening
  pub fails : ℕ → Bool

pub record TurnGame (Move State : Type 0) : Type 0 where
  pub state : State
  pub records : List (TurnRecord Move)
  pub frozen : Bool
  pub disposed : Bool
  pub finished : Bool
  pub result_saved : Bool
  pub persistence_dirty : Bool
  pub finish_result : String
  pub game_id : Option String
  pub request_id : Option String
  pub requested_from : Option String
  pub replay_request_id : Option String
  -- The request that the timer is for.
  pub timer : Option String
  pub assembly : Option (Assembly Move)
  pub pending_finish : Option Finish
  pub buffered : List (Buffered Move)
  pub initialized : Bool
  pub awaits : ℕ
  pub drawn : ℕ
  pub trace : List (Output Move)

module _ {A : Type 0} where
  abbrev pub is_some : Option A → Bool
  is_some none = false
  is_some (some a) = true

module _ {Move State : Type 0} (env : Env Move State) where
  unfoldable pub put : Output Move → TurnGame Move State → TurnGame Move State
  put output s = record s { trace = output ∷ s.trace }

  -- A game that was disposed of has no handlers any more.
  unfoldable pub emit : Output Move → TurnGame Move State → TurnGame Move State
  unfolding put
  emit output s = if s.disposed then s else put output s

  unfoldable pub fail : ℕ → String → TurnGame Move State → TurnGame Move State
  unfolding emit
  fail index by s =
      emit (mismatch index by) (record s {
        frozen = true;
        timer = none;
        request_id = none;
        assembly = none;
        buffered = [];
      })

  unfoldable pub dispose : TurnGame Move State → TurnGame Move State
  dispose s =
      if s.disposed
      then s
      else record s { disposed = true; timer = none; buffered = []; assembly = none }

  -- The timer of a request, after 30 seconds.
  unfoldable pub expire_from : Option String → TurnGame Move State → TurnGame Move State
  unfolding emit
  expire_from none s = s
  expire_from (some expected) s =
      if same_text s.request_id (some expected)
      then emit error (record s { timer = none; request_id = none; assembly = none; buffered = [] })
      else record s { timer = none }

  unfoldable pub happen : Happening → TurnGame Move State → TurnGame Move State
  unfolding expire_from dispose
  happen quiet s = s
  happen expires s = expire_from s.timer s
  happen disposes s = dispose s

  unfoldable pub await : TurnGame Move State → TurnGame Move State
  unfolding happen
  await s = happen (env.happening s.awaits) (record s { awaits = suc s.awaits })

  -- An awaited call: whether it throws.
  unfoldable pub call : TurnGame Move State → Bool × TurnGame Move State
  unfolding await
  call s = (env.fails s.awaits, await s)

  unfoldable pub and_next :
      Bool × TurnGame Move State
      → (TurnGame Move State → Bool × TurnGame Move State)
      → Bool × TurnGame Move State
  and_next (true, s) f = (true, s)
  and_next (false, s) f = f s

  -- An error that is caught is emitted.
  unfoldable pub caught : Bool × TurnGame Move State → TurnGame Move State
  unfolding emit
  caught (true, s) = emit error s
  caught (false, s) = s

  unfoldable pub store_parts :
      List (List (TurnRecord Move)) → TurnGame Move State → Bool × TurnGame Move State
  unfolding and_next call put
  store_parts [] s = (false, s)
  store_parts (part ∷ parts) s =
      if s.disposed || s.frozen
      then (true, s)
      else and_next (call (put (stored_chunk part) s)) (λ t. store_parts parts t)

  unfoldable pub store_manifest : TurnGame Move State → Bool × TurnGame Move State
  unfolding and_next call put
  store_manifest s =
      if s.disposed || s.frozen
      then (true, s)
      else and_next (call (put (stored_manifest (length s.records) (final_hash s.records)) s))
          (λ t. (false, record t { persistence_dirty = false }))

  unfoldable pub persist_parts :
      Option (List (List (TurnRecord Move))) → TurnGame Move State → Bool × TurnGame Move State
  unfolding and_next store_parts store_manifest
  persist_parts none s = (true, s)
  persist_parts (some parts) s = and_next (store_parts parts s) store_manifest

  unfoldable pub persist : TurnGame Move State → Bool × TurnGame Move State
  unfolding persist_parts chunks
  persist s =
      if env.persists && is_some s.game_id
      then persist_parts (chunks env.rules 15000 s.records) s
      else (false, s)

  -- `responderFor`
  unfoldable pub is_online : Room → String → Bool
  is_online room user = any (λ m. m.0 == user && m.1) room.members

  unfoldable pub first_online : Room → String → List String → Option String
  unfolding is_online
  first_online room requester [] = none
  first_online room requester (p ∷ players) =
      if not (p == requester) && is_online room p
      then some p
      else first_online room requester players

  unfoldable pub responder_for : Room → String → Option String
  unfolding is_online first_online
  responder_for room requester = elim room.host [
    | none ↦ first_online room requester env.rules.players
    | some host ↦
        if is_online room host && not (host == requester)
        then some host
        else first_online room requester env.rules.players
  ]

  unfoldable pub ask : Option String → TurnGame Move State → Bool × TurnGame Move State
  unfolding call put
  ask none s = (false, s)
  ask (some target) s =
      let id = some (env.uuid s.drawn) in
      call (
        put (asked target (env.uuid s.drawn)) (record s {
          requested_from = some target;
          request_id = id;
          replay_request_id = id;
          assembly = none;
          buffered = [];
          timer = id;
          drawn = suc s.drawn;
        }))

  unfoldable pub request_log : Room → TurnGame Move State → Bool × TurnGame Move State
  unfolding ask responder_for
  request_log room s =
      if s.disposed || is_some s.request_id then (false, s) else ask (responder_for room env.me) s

  unfoldable pub buffer : String → TurnMessage Move → TurnGame Move State → TurnGame Move State
  buffer from message s = record s {
    buffered = s.buffered ++ (record { from = from; payload = message } ∷ []);
  }

  -- A move that fits is applied. `accept` throws a log that grows too large, and any other error is a
  -- mismatch; `apply` is taken not to throw an error of its own with the code of the former.
  unfoldable pub apply_next :
      String → TurnRecord Move → Option State → TurnGame Move State → Bool × TurnGame Move State
  unfolding fail caught persist emit
  apply_next from item none s = (false, fail item.index from s)
  apply_next from item (some next) s =
      if ltb env.max_bytes (env.rules.bytes (s.records ++ (item ∷ []))) then (true, s) else (
        false,
        caught (
            persist (
              emit (turn item.index item.by) (record s {
                state = next;
                records = s.records ++ (item ∷ []);
                persistence_dirty = env.persists;
              }))),
      )

  -- The record that is next in the log.
  unfoldable pub extend :
      String → TurnRecord Move → TurnGame Move State → Bool × TurnGame Move State
  unfolding fail await apply_next player_at is_text
  extend from item s =
      if item.by == from && is_text (player_at env.rules (length s.records)) item.by
      then (let s1 = await s in
          if is_text (env.rules.hash (final_hash s.records) item.index item.by item.move) item.hash
          then apply_next from item (env.rules.apply s1.state item.move item.by) s1
          else (false, fail (length s1.records) from s1))
      else (false, fail (length s.records) from s)

  -- A record that is in the log already.
  unfoldable pub compare_known :
      String
      → TurnRecord Move
      → Option (TurnRecord Move)
      → TurnGame Move State
      → TurnGame Move State
  unfolding fail
  compare_known from item none s = fail item.index from s
  compare_known from item (some known) s =
      if known.hash == item.hash && item.by == from then s else fail item.index from s

  unfoldable pub accept :
      Room → String → TurnMessage Move → TurnGame Move State → Bool × TurnGame Move State
  unfolding buffer fail compare_known and_next request_log extend
  accept room from message s =
      if not (same_text message.game_id s.game_id) || s.frozen || s.finished
      then (false, s)
      else if is_some s.request_id
      then (let s1 = buffer from message s in
          (
            false,
            if ltb env.max_bytes (env.buffered_bytes s1.buffered)
                then fail (length s1.records) from s1
                else s1,
          ))
      else if ltb message.item.index (length s.records)
      then (false, compare_known from message.item (get_elem? s.records message.item.index) s)
      else if ltb (length s.records) message.item.index
      then and_next (request_log room s) (λ t. (false, buffer from message t))
      else extend from message.item s
