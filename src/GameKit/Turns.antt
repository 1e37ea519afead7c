-- ===== src/GameKit/Turns.antt =====
-- packages/game-kit/src/turns.ts, `createTurnGame`: its data, the chunks of a log and the check
-- of a log.
-- A message is typed as the code casts it. `elapsed`, which only informs, is left out.
pub mod Chunks
pub mod Validity
pub mod Hashes
pub mod Game
pub mod Resync
pub mod Lane
pub mod Startup
pub mod Play
pub mod Later
pub mod History
pub mod Replacement
pub mod Handlers
pub mod Lifetime
pub mod Playing
pub mod Agreement
pub mod Acceptance
pub mod Restoration
pub mod Transfer
pub mod Delivery
use tslib.Common.{
  ℕ, zero, suc, ◌+◌, String, Bool, true, false, ◌&&◌, Option, none, some, List, [], ◌∷◌, ◌++◌,
  length, eqb, ltb, ◌==◌, if◌then◌else◌,
}
use Prim.Native.Nat.{◌%◌}
use mathlib.Core.Option.{bind}

pub record TurnRecord (Move : Type 0) : Type 0 where
  pub index : ℕ
  pub move : Move
  pub by : String
  pub hash : String

abbrev pub zero_hash : String
zero_hash = "0000000000000000000000000000000000000000000000000000000000000000"

-- What is not in the code. `hash` is `hashJson` of the previous hash, an index, a player and a
-- move, and
-- `apply` applies a move of a player; both may throw. `bytes` is the length of the JSON of records.
pub record Rules (Move State : Type 0) : Type 0 where
  pub hash : String → ℕ → String → Move → Option String
  pub apply : State → Move → String → Option State
  pub initial : State
  pub players : List String
  pub bytes : List (TurnRecord Move) → ℕ

module _ {ℓ} {A : Type ℓ} where
  abbrev pub get_elem? : List A → ℕ → Option A
  get_elem? [] n = none
  get_elem? (x ∷ xs) zero = some x
  get_elem? (x ∷ xs) (suc n) = get_elem? xs n

  -- The elements before the last of `x ∷ xs`, and the last.
  abbrev pub last : A → List A → A
  last x [] = x
  last x (y ∷ xs) = last y xs

unfoldable pub is_text : Option String → String → Bool
is_text none text = false
is_text (some t) text = text == t

module _ {Move : Type 0} where
  unfoldable pub prepend :
      List (TurnRecord Move)
      → Option (List (List (TurnRecord Move)))
      → Option (List (List (TurnRecord Move)))
  prepend part none = none
  prepend part (some parts) = some (part ∷ parts)

  -- `if (part.length) result.push(part)`
  unfoldable pub last_part : List (TurnRecord Move) → List (List (TurnRecord Move))
  last_part [] = []
  last_part (r ∷ part) = (r ∷ part) ∷ []

  -- `records.at(-1)?.hash ?? zeroHash`
  abbrev pub final_hash : List (TurnRecord Move) → String
  final_hash [] = zero_hash
  final_hash (r ∷ records) = (last r records).hash

module _ {Move State : Type 0} (rules : Rules Move State) where
  -- The chunks of the records that are left, with the part collected so far: none where a
  -- record alone
  -- is too large, as the source throws.
  unfoldable pub chunks_from :
      ℕ → List (TurnRecord Move) → List (TurnRecord Move) → Option (List (List (TurnRecord Move)))
  unfolding prepend last_part
  chunks_from limit part [] = some (last_part part)
  chunks_from limit part (r ∷ records) =
      let is_full = ltb limit (rules.bytes (part ++ (r ∷ []))) in
      let rest = chunks_from limit (if is_full then r ∷ [] else part ++ (r ∷ [])) records in
      if ltb limit (rules.bytes (r ∷ [])) then none else if is_full then prepend part rest else rest

  unfoldable pub chunks : ℕ → List (TurnRecord Move) → Option (List (List (TurnRecord Move)))
  unfolding chunks_from
  chunks limit records = chunks_from limit [] records

  -- `players[index % players.length]`
  unfoldable pub player_at : ℕ → Option String
  player_at index = get_elem? rules.players (index % length rules.players)

  -- Whether a record stands at its index and is by the player whose turn it is there.
  unfoldable pub is_in_turn : ℕ → TurnRecord Move → Bool
  unfolding is_text player_at
  is_in_turn index item = eqb item.index index && is_text (player_at index) item.by

  -- Whether a record may follow the records whose last hash is given.
  unfoldable pub fits : String → ℕ → TurnRecord Move → Bool
  unfolding is_text is_in_turn
  fits previous index item =
      is_in_turn index item && is_text (rules.hash previous index item.by item.move) item.hash

  -- `validate`: the state that the moves of a log lead to, none where the source throws.
  unfoldable pub validate_from : String → ℕ → State → List (TurnRecord Move) → Option State
  unfolding fits bind
  validate_from previous index state [] = some state
  validate_from previous index state (item ∷ log) =
      if fits previous index item
      then bind (rules.apply state item.move item.by)
          (λ rebuilt. validate_from item.hash (suc index) rebuilt log)
      else none

  unfoldable pub validate : List (TurnRecord Move) → Option State
  unfolding validate_from
  validate log = validate_from zero_hash 0 rules.initial log

  -- Whether `validate` throws `mismatch`: an `apply` that throws before a record that does not fit
  -- makes it throw another error.
  unfoldable pub is_mismatch_from : String → ℕ → State → List (TurnRecord Move) → Bool
  unfolding fits
  is_mismatch_from previous index state [] = false
  is_mismatch_from previous index state (item ∷ log) =
      if fits previous index item
      then elim (rules.apply state item.move item.by) [
        | none ↦ false
        | some rebuilt ↦ is_mismatch_from item.hash (suc index) rebuilt log
      ]
      else true

  unfoldable pub is_mismatch : List (TurnRecord Move) → Bool
  unfolding is_mismatch_from
  is_mismatch log = is_mismatch_from zero_hash 0 rules.initial log
