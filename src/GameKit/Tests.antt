-- ===== src/GameKit/Tests.antt =====
-- Runs of packages/game-kit/src/turns.ts: two players who name letters in turn.
use tslib.Common.{
  ℕ, eq_iff, ◌≤◌, ◌≡◌, refl, String, true, false, none, some, List, [], ◌∷◌, ◌++◌, arith, length,
  length-append, inl,
}
use tslib.GameKit.Turns.{
  validate_from, TurnRecord, zero_hash, chunks, chunks_from, prepend, last_part, final_hash, fits,
  is_in_turn, is_text, player_at, validate,
}
use tslib.GameKit.Turns.Game.{
  first_online, is_online, responder_for, ask, Env, TurnGame, Room, TurnMessage, accept, and_next,
  call, put, extend, await, happen, apply_next, caught, persist, emit, request_log,
}
use tslib.GameKit.Turns.Startup.{
  begin, restore, restored, begin_with, settled, joined, named, blank,
}
use tslib.GameKit.Turns.Play.{
  Event, submits, turns, starts, manifests, run, step, enqueue, submit, submit_hashed, send_turn,
  is_sendable, is_applied,
}
use tslib.GameKit.Turns.Resync.{max_safe, announce}
use Prim.Native.Nat.{◌/◌}
use tslib.GameKit.Turns.Playing.{run-IsPlayed}
use tslib.GameKit.Turns.Agreement.{run-extends, runs-agree}
use tslib.GameKit.Turns.Acceptance.{
  IsAwaited, IsFair, IsAppended, IsUnfair, IsRefused, accept-IsAppended, accept-IsRefused,
}
use tslib.GameKit.Turns.Restoration.{IsMonotone, stored_rows, restore-stored_rows}
use tslib.GameKit.Turns.Lane.{on_start}
use tslib.GameKit.Turns.Hashes.{is_hash, all_hex}
use tslib.GameKit.Turns.Transfer.{IsQuiet, IsWaiting, HasLog, manifest_of, chunk_events}
use tslib.GameKit.Turns.Delivery.{run-HasLog}
use mathlib.Core.Option.{bind}
use tslib.GameKit.Turns.Chunks.{Splits, chunks-Splits}
use tslib.GameKit.Letters.{mix, letters, letters-IsInjective, env_of, lobby_room}

abbrev first_moves : List (Event String)
first_moves = submits lobby_room "x" ∷ []

abbrev ann_game : TurnGame String ℕ
ann_game = run (env_of "ann") first_moves (begin (env_of "ann") lobby_room none)

-- Bob has the same game, and ann's move comes to him.
abbrev bob_room : Room
bob_room = record { host = some "bob"; members = ("ann", true) ∷ ("bob", true) ∷ [] }

abbrev first_record : TurnRecord String
first_record = record { index = 0; move = "x"; by = "ann"; hash = mix "ann" (mix "x" zero_hash) }

abbrev first_message : TurnMessage String
first_message = record { game_id = some "id"; item = first_record }

abbrev arrivals : List (Event String)
arrivals = turns bob_room "ann" first_message ∷ []

abbrev bob_game : TurnGame String ℕ
bob_game = run (env_of "bob") arrivals (begin (env_of "bob") bob_room none)

ann_played : validate letters ann_game.records ≡ some ann_game.state
ann_played = run-IsPlayed (env_of "ann") lobby_room none first_moves

run-IsPlayed_example : validate letters ann_game.records ≡ some ann_game.state
run-IsPlayed_example = run-IsPlayed (env_of "ann") lobby_room none first_moves

one_record : length ann_game.records ≡ length bob_game.records
unfolding run step enqueue submit submit_hashed send_turn is_sendable is_applied and_next call put
    accept extend await happen is_text player_at apply_next caught persist emit begin begin_with
    settled joined named announce request_log blank chunks chunks_from prepend last_part mix
one_record = refl

one_hash : final_hash ann_game.records ≡ final_hash bob_game.records
unfolding run step enqueue submit submit_hashed send_turn is_sendable is_applied and_next call put
    accept extend await happen is_text player_at apply_next caught persist emit begin begin_with
    settled joined named announce request_log blank chunks chunks_from prepend last_part mix
one_hash = refl

runs-agree_example : (ann_game.records ≡ bob_game.records) × (ann_game.state ≡ bob_game.state)
runs-agree_example =
    runs-agree (env_of "ann") letters-IsInjective (env_of "bob") refl lobby_room bob_room none none
      first_moves arrivals one_record one_hash

abbrev second_moves : List (Event String)
second_moves = submits lobby_room "y" ∷ []

run-extends_example :
    ((rest : List (TurnRecord String)) × ((run (env_of "ann") second_moves ann_game).records
        ≡ ann_game.records ++ rest))
    × (ann_game.frozen ≡ true → (run (env_of "ann") second_moves ann_game).frozen ≡ true)
    × (ann_game.finished ≡ true
        → ((run (env_of "ann") second_moves ann_game).finished ≡ true)
          × ((run (env_of "ann") second_moves ann_game).finish_result ≡ ann_game.finish_result))
run-extends_example =
    run-extends (env_of "ann") letters-IsInjective lobby_room none first_moves second_moves

abbrev bob_begun : TurnGame String ℕ
bob_begun = begin (env_of "bob") bob_room none

awaited : IsAwaited (env_of "bob") first_message bob_begun
unfolding run step enqueue submit submit_hashed send_turn is_sendable is_applied and_next call put
    accept extend await happen is_text player_at apply_next caught persist emit begin begin_with
    settled joined named announce request_log blank chunks chunks_from prepend last_part mix
awaited = record {
  game_is = refl;
  not_frozen = refl;
  not_finished = refl;
  no_request = refl;
  is_next = refl;
}

fair : IsFair (env_of "bob") "ann" first_record bob_begun
unfolding run step enqueue submit submit_hashed send_turn is_sendable is_applied and_next call put
    accept extend await happen is_text player_at apply_next caught persist emit begin begin_with
    settled joined named announce request_log blank chunks chunks_from prepend last_part mix fits
    is_in_turn
fair = (refl, refl)

short_log : letters.bytes (bob_begun.records ++ (first_record ∷ [])) ≤ (env_of "bob").max_bytes
unfolding run step enqueue submit submit_hashed send_turn is_sendable is_applied and_next call put
    accept extend await happen is_text player_at apply_next caught persist emit begin begin_with
    settled joined named announce request_log blank chunks chunks_from prepend last_part mix
short_log = omega arith

applied : letters.apply bob_begun.state first_record.move first_record.by ≡ some 1
unfolding run step enqueue submit submit_hashed send_turn is_sendable is_applied and_next call put
    accept extend await happen is_text player_at apply_next caught persist emit begin begin_with
    settled joined named announce request_log blank chunks chunks_from prepend last_part mix
applied = refl

accept-IsAppended_example :
    ((accept (env_of "bob") bob_room "ann" first_message bob_begun).0 ≡ false)
    × IsAppended
        (env_of "bob")
        first_record
        1
        bob_begun
        (accept (env_of "bob") bob_room "ann" first_message bob_begun).1
accept-IsAppended_example =
    accept-IsAppended (env_of "bob") bob_room "ann" first_message bob_begun 1 awaited fair applied
      short_log

impostor : IsUnfair (env_of "bob") "bob" first_record bob_begun
impostor = inl (λ e. ground (arith, e, eq_iff "ann" "bob"))

accept-IsRefused_example :
    ((accept (env_of "bob") bob_room "bob" first_message bob_begun).0 ≡ false)
    × IsRefused
        (env_of "bob")
        bob_begun
        (accept (env_of "bob") bob_room "bob" first_message bob_begun).1
accept-IsRefused_example =
    accept-IsRefused (env_of "bob") bob_room "bob" first_message bob_begun awaited impostor

letters-IsMonotone : IsMonotone (env_of "ann")
letters-IsMonotone a b = omega (arith, length-append a b)

one_chunk : chunks letters 15000 ann_game.records ≡ some (ann_game.records ∷ [])
unfolding run step enqueue submit submit_hashed send_turn is_sendable is_applied and_next call put
    accept extend await happen is_text player_at apply_next caught persist emit begin begin_with
    settled joined named announce request_log blank chunks chunks_from prepend last_part mix
one_chunk = refl

within : letters.bytes ann_game.records ≤ (env_of "ann").max_bytes
unfolding run step enqueue submit submit_hashed send_turn is_sendable is_applied and_next call put
    accept extend await happen is_text player_at apply_next caught persist emit begin begin_with
    settled joined named announce request_log blank chunks chunks_from prepend last_part mix
within = omega arith

few : length ann_game.records ≤ (env_of "ann").max_bytes / 80
unfolding run step enqueue submit submit_hashed send_turn is_sendable is_applied and_next call put
    accept extend await happen is_text player_at apply_next caught persist emit begin begin_with
    settled joined named announce request_log blank chunks chunks_from prepend last_part mix
few = omega arith

safe : length ann_game.records ≤ max_safe
unfolding run step enqueue submit submit_hashed send_turn is_sendable is_applied and_next call put
    accept extend await happen is_text player_at apply_next caught persist emit begin begin_with
    settled joined named announce request_log blank chunks chunks_from prepend last_part mix
safe = omega arith

restore-stored_rows_example :
    restore (env_of "ann") (some (stored_rows (env_of "ann") "id" (ann_game.records ∷ []) ann_game))
    ≡ restored ann_game.records ann_game.state "id"
restore-stored_rows_example =
    restore-stored_rows (env_of "ann") letters-IsMonotone ann_game "id" (ann_game.records ∷ [])
      ann_played one_chunk within few safe

chunks-Splits_example :
    Splits letters 250 []
      (first_record ∷ first_record ∷ first_record ∷ [])
      (chunks letters 250 (first_record ∷ first_record ∷ first_record ∷ []))
chunks-Splits_example = chunks-Splits letters 250 (first_record ∷ first_record ∷ first_record ∷ [])

-- The same game with a hash that looks like one: bob joins it late.
abbrev plain_env : Env String ℕ
plain_env = record (env_of "bob") { rules = record letters { hash = λ p i b m. some zero_hash } }

abbrev ann_starts : List (Event String)
ann_starts =
    starts lobby_room "ann"
      (record { game_id = "g"; players = "ann" ∷ "bob" ∷ []; initial_hash = "i" })
    ∷ []

abbrev late_game : TurnGame String ℕ
late_game = run plain_env ann_starts (begin plain_env lobby_room none)

abbrev plain_record : TurnRecord String
plain_record = record { index = 0; move = "x"; by = "ann"; hash = zero_hash }

abbrev plain_log : List (TurnRecord String)
plain_log = plain_record ∷ []

late_IsWaiting : IsWaiting plain_env "id" "g" "ann" plain_log late_game
unfolding run step enqueue submit submit_hashed send_turn is_sendable is_applied and_next call put
    accept extend await happen is_text player_at apply_next caught persist emit begin begin_with
    settled joined named announce request_log blank chunks chunks_from prepend last_part mix
    on_start first_online is_online responder_for ask
late_IsWaiting = record {
  request_is = refl;
  game_is = refl;
  sender_is = refl;
  no_assembly = refl;
  no_moves = refl;
  no_finish = refl;
  is_active = refl;
  log_begins = refl;
}

plain_valid : validate plain_env.rules plain_log ≡ some 1
unfolding validate validate_from fits is_in_turn is_text player_at bind
plain_valid = refl

plain_chunks : chunks plain_env.rules 7000 plain_log ≡ some (plain_log ∷ [])
unfolding chunks chunks_from prepend last_part
plain_chunks = refl

zero_is_hash : is_hash zero_hash ≡ true
unfolding is_hash all_hex
zero_is_hash = refl

quiet_env : IsQuiet plain_env
quiet_env n = refl

run-HasLog_example : HasLog plain_env plain_log 1 late_game (
    run plain_env
      (manifests lobby_room "ann" (manifest_of plain_env "id" "g" plain_log 1)
        ∷ chunk_events plain_env lobby_room "id" "g" "ann" 0 (plain_log ∷ []))
      late_game)
run-HasLog_example =
    run-HasLog plain_env quiet_env lobby_room "id" "g" "ann" plain_log 1 (plain_log ∷ []) late_game
      late_IsWaiting plain_valid plain_chunks (omega arith) (omega arith) zero_is_hash (omega arith)
