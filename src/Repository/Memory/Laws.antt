-- ===== src/Repository/Memory/Laws.antt =====
-- How long packages/repository/src/memory.ts shows a value.
use tslib.Common.{
  ℕ, ◌+◌, ◌≡◌, String, ◌||◌, Option, none, some, ◌==◌, eq_iff, leb, eqb, if◌then◌else◌, arith,
}
use tslib.Common.Map.{get-set}
use tslib.Repository.Memory.{Memory, is_expired, live, get, entry_at, write}

abbrev pub get_or : Option ℕ → ℕ → ℕ
get_or none d = d
get_or (some n) d = n

module _ {V : Type 0} where
  -- The clock at a later time.
  abbrev pub at_time : Memory V → ℕ → Memory V
  at_time m t = record m { now = t }

  module _ (token_of : V → String) where
    -- A write with a time to live is read back until the deadline, that instant included, and one
    -- with none or with 0 is read back for ever. Any other key reads as it would without the write.
    pub get-write :
        (m : Memory V) (k j : String) (v : V) (expires : Option ℕ) (t : ℕ)
        → get (at_time (write token_of m k v expires) t) j ≡ (
            if k == j
            then (if eqb (get_or expires 0) 0 || leb t (m.now + get_or expires 0)
                then some v
                else none)
            else get (at_time m t) j)
    unfolding get live write is_expired
    get-write m k j v none t =
        ground (arith, get-set m.store k j (entry_at token_of m.now v none), eq_iff k j)
    get-write m k j v (some ms) t =
        ground (arith, get-set m.store k j (entry_at token_of m.now v (some ms)), eq_iff k j)
