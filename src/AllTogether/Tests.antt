-- ===== src/AllTogether/Tests.antt =====
-- Runs of packages/gamebase-all-together/src/services.
use tslib.Common.{
  zero, none, suc, ◌+◌, ◌*◌, ◌<◌, All, ℕ, String, ◌≡◌, ◌≢◌, ◌≤◌, length, true, false, some, List,
  [], ◌∷◌, arith, eq_iff, ◌==◌, refl,
}
use tslib.Common.Map
use tslib.Common.Map.{get-empty}
use tslib.AllTogether.{
  User, BaseGameContext, Request, enter, leave, other, process_all, connected_count,
  is_all_connected,
}
use tslib.AllTogether.Bindings.{IsBound, IsNamed}
use tslib.AllTogether.Counts.{AllBound, process_all-counted}
use tslib.AllTogether.Stage.{do_in_stage_wait}
use tslib.AllTogether.Stage.Starts.{Ended, do_in_stage_wait-Ended}
use tslib.AllTogether.Members.{process_all-IsBound}

abbrev member : String → User
member id = record { connection_id = ""; member_id = id; load = false }

abbrev party : BaseGameContext
party = record { users = member "ann" ∷ member "bob" ∷ []; observers = []; connected_users = [] }

-- A member that comes back on a second connection before the `leave` of the first.
abbrev requests : List Request
requests = enter "c1" "ann" ∷ other ∷ enter "c2" "bob" ∷ enter "c3" "ann" ∷ leave "c1" ∷ []

named : (c : String) → (c == "") ≡ false → c ≢ ""
named c h e = ground (arith, eq_iff c "")

party-IsBound : IsBound party
party-IsBound k i h = ground (arith, get-empty {V = ℕ} k)

abbrev context_after : BaseGameContext
context_after = process_all (λ c. false) (λ c. false) requests party

process_all-IsBound_example :
    IsBound context_after
    × ((j k : String) (i : ℕ)
        → Map.get context_after.connected_users j ≡ some i
        → Map.get context_after.connected_users k ≡ some i
        → j ≡ k)
process_all-IsBound_example =
    process_all-IsBound (λ c. false) (λ c. false) requests party
      (named "c1" refl, (tt, (named "c2" refl, (named "c3" refl, (named "c1" refl, tt)))))
      party-IsBound

process_all-counted_example :
    (connected_count context_after ≤ length context_after.users)
    × (is_all_connected context_after ≡ true → AllBound context_after)
process_all-counted_example =
    process_all-counted (λ c. false) (λ c. false) requests party
      (named "c1" refl, (tt, (named "c2" refl, (named "c3" refl, (named "c1" refl, tt)))))
      party-IsBound tt

-- The requests come in the second round; a round takes 400 milliseconds.
abbrev polled : ℕ → List Request
polled zero = []
polled (suc zero) = requests
polled (suc (suc n)) = []

abbrev now : ℕ → ℕ
now n = 1000 + n * 400

polled-AreNamed : (n : ℕ) → All (λ m. IsNamed m) (polled n)
polled-AreNamed zero = tt
polled-AreNamed (suc zero) =
    (named "c1" refl, (tt, (named "c2" refl, (named "c3" refl, (named "c1" refl, tt)))))
polled-AreNamed (suc (suc n)) = tt

now-Sleeps : (n : ℕ) → now n < 1000 + 5000 → now n < now (suc n)
now-Sleeps n h = omega arith

do_in_stage_wait-Ended_example :
    Ended
      (λ c. false)
      (λ c. false)
      1000
      5000
      true
      polled
      now
      (λ n. n)
      (λ n c. [])
      none
      party
      (do_in_stage_wait
        (λ c. false)
        (λ c. false)
        1000
        5000
        true
        polled
        now
        (λ n. n)
        (λ n c. [])
        5001
        none
        party)
do_in_stage_wait-Ended_example =
    do_in_stage_wait-Ended (λ c. false) (λ c. false) 1000 5000 true polled now (λ n. n) (λ n c. [])
      5001 none party polled-AreNamed now-Sleeps (omega arith) (omega arith) party-IsBound tt
