-- ===== src/Repository/Memory.antt =====
-- packages/repository/src/memory.ts. `Date.now()` is the state's `now`, and the sha1 of the JSON
-- text is the parameter `token_of`. A time to live is a natural number: what the code does with a
-- negative one is what it does with 0.
pub mod Laws
pub mod Cas
use tslib.Common.{
  ℕ, ◌+◌, String, Bool, true, false, Option, none, some, ◌&&◌, same_text, ltb, if◌then◌else◌,
}
use tslib.Common.Map
use tslib.Common.Map.{Map}
use mathlib.Core.Option

-- repository.ts, `Revision<T>`.
pub record Revision (V : Type 0) : Type 0 where
  pub value : V
  pub token : String

pub record ExpirableEntry (V : Type 0) : Type 0 where
  pub expired : ℕ
  pub value : V
  pub token : String

pub record Memory (V : Type 0) : Type 0 where
  pub store : Map (ExpirableEntry V)
  pub now : ℕ

-- `expiresInMillis !== undefined && expiresInMillis > 0 ? Date.now() + expiresInMillis : 0`.
unfoldable pub deadline : ℕ → Option ℕ → ℕ
deadline now none = 0
deadline now (some millis) = if ltb 0 millis then now + millis else 0

module _ {V : Type 0} where
  unfoldable pub is_expired : ExpirableEntry V → ℕ → Bool
  is_expired entry now = ltb 0 entry.expired && ltb entry.expired now

  unfoldable pub unless_expired : Option (ExpirableEntry V) → ℕ → Option (ExpirableEntry V)
  unfolding is_expired
  unless_expired none now = none
  unless_expired (some entry) now = if is_expired entry now then none else some entry

  unfoldable pub live : Memory V → String → Option (ExpirableEntry V)
  unfolding unless_expired
  live m key = unless_expired (Map.get m.store key) m.now

  unfoldable pub get : Memory V → String → Option V
  get m key = Option.map (λ e. e.value) (live m key)

  unfoldable pub get_revision : Memory V → String → Option (Revision V)
  get_revision m key = Option.map (λ e. record { value = e.value; token = e.token }) (live m key)

  unfoldable pub delete : Memory V → String → Memory V
  delete m key = record m { store = Map.delete m.store key }

module _ {V : Type 0} (token_of : V → String) where
  abbrev pub entry_at : ℕ → V → Option ℕ → ExpirableEntry V
  entry_at now value expires_in_millis = record {
    expired = deadline now expires_in_millis;
    value = value;
    token = token_of value;
  }

  unfoldable pub write : Memory V → String → V → Option ℕ → Memory V
  unfolding deadline
  write m key value expires_in_millis = record m {
    store = Map.set m.store key (entry_at m.now value expires_in_millis);
  }

  unfoldable pub set : Memory V → String → V → Memory V
  unfolding write
  set m key value = write m key value none

  unfoldable pub set_with_expire : Memory V → String → V → ℕ → Memory V
  unfolding write
  set_with_expire m key value millis = write m key value (some millis)

  unfoldable pub compare_and_set :
      Memory V → String → Option String → V → Option ℕ → Bool × Memory V
  compare_and_set m key expected value expires =
      if same_text (Option.map (λ e. e.token) (live m key)) expected
      then (true, write m key value expires)
      else (false, m)
