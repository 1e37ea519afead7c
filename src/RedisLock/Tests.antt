-- ===== src/RedisLock/Tests.antt =====
-- Runs of packages/actor-system-redis/src/lock.ts on a server that is a map: time is a step of the
-- cluster's, so the server keeps no deadlines.
use tslib.Common.{
  ℕ, suc, String, ◌≡◌, ◌≢◌, refl, subst, false, Bool, Option, some, [], ◌∷◌, ◌&&◌, ◌==◌, arith,
  if◌then◌else◌,
}
use tslib.Common.Map
use tslib.Common.Map.{Map, get, get-set, get-delete, get-empty, set}
use tslib.RedisLock.{
  Server, is_absent, answered, reply_lost, try_acquire, release, release_with, after_release,
  compare_and_delete, after_acquire, lease, send,
}
use tslib.RedisLock.Effects.{Call, renews, acquires, releases, operate}
use tslib.RedisLock.Cluster.{Cluster, after, Reach, here, next, calls, Holds, IsFresh}
use tslib.RedisLock.Ownership.{LeavesAll, stays, then_leaves, other_call, own_call, Holds-lasts}
use tslib.RedisLock.Replies.{operate-answers, verdict, held, held_after}

map_set_nx : Map String → String → String → Option ℕ → Bool × Map String
map_set_nx s k v ms =
    (is_absent (Map.get s k), if is_absent (Map.get s k) then Map.set s k v else s)

map_del : Map String → String → ℕ × Map String
map_del s k = (if is_absent (Map.get s k) then 0 else 1, Map.delete s k)

map_pexpire : Map String → String → ℕ → ℕ × Map String
map_pexpire s k ms = (if is_absent (Map.get s k) then 0 else 1, s)

get-map_set_nx :
    (s : Map String) (k v : String) (ms : Option ℕ) (j : String)
    → Map.get (map_set_nx s k v ms).1 j
      ≡ (if is_absent (Map.get s k) && (k == j) then some v else Map.get s j)
unfolding map_set_nx
get-map_set_nx s k v ms j = ground (arith, get-set s k j v)

map_redis : Server (Map String)
unfolding map_set_nx map_del map_pexpire
map_redis = record {
  get = Map.get;
  set_nx = map_set_nx;
  del = map_del;
  pexpire = map_pexpire;
  set_nx_reply = λ s k v ms. refl;
  get_set_nx = get-map_set_nx;
  del_reply = λ s k. refl;
  get_del = get-delete;
  pexpire_reply = λ s k ms h. refl;
  get_pexpire = λ s k ms j h. refl;
}

abbrev IsNoRelease : Call → Type 0
IsNoRelease (acquires actor token) = Unit
IsNoRelease (releases actor) = ⊥
IsNoRelease (renews actor) = Unit

abbrev started : Cluster (Map String)
started = record { server = []; tokens = λ q. [] }

abbrev lease_millis : ℕ → ℕ
lease_millis p = 30000

abbrev first_taken : Cluster (Map String)
first_taken = after map_redis "lock:" lease_millis 0 (acquires "room" "t0") answered started

drawn_first : IsFresh started (acquires "room" "t0")
drawn_first q b h = ground (arith, get-empty {V = String} b)

taken-Reach : Reach map_redis "lock:" lease_millis started first_taken
taken-Reach = next here (calls 0 (acquires "room" "t0") answered drawn_first)

taken-Holds : Holds map_redis "lock:" lease_millis first_taken 0 "room"
unfolding map_redis map_set_nx get set try_acquire after_acquire lease send
taken-Holds = ("t0", refl, refl)

abbrev holder : ℕ
holder = 0

not_same : suc holder ≢ 0
not_same e = ground arith

-- Another holder tries to release the lock, and the holder renews it; the answer is lost.
abbrev later : Cluster (Map String)
later =
    after map_redis "lock:" lease_millis 0 (renews "room") reply_lost
      (after map_redis "lock:" lease_millis 1 (releases "room") answered first_taken)

no_release : renews "room" ≢ releases "room"
no_release e = subst IsNoRelease e tt

later-LeavesAll : LeavesAll map_redis "lock:" lease_millis 0 "room" first_taken later
later-LeavesAll =
    then_leaves (then_leaves stays (other_call 1 (releases "room") answered tt not_same))
      (own_call 0 (renews "room") reply_lost tt refl no_release)

Holds-lasts_example :
    Holds map_redis "lock:" lease_millis later 0 "room"
    × ((p : ℕ) (token : String)
        → (operate map_redis "lock:" 30000
            (acquires "room" token)
            answered
            (later.tokens p)
            later.server).0
          ≡ some false)
Holds-lasts_example =
    Holds-lasts map_redis "lock:" lease_millis [] first_taken later 0 "room" taken-Reach taken-Holds
      later-LeavesAll

operate-answers_example :
    ((operate map_redis "lock:" 30000 (acquires "room" "t1") answered [] []).0
      ≡ some (verdict map_redis "lock:" 30000 (acquires "room" "t1") [] []))
    × (held map_redis "lock:" 30000
          (operate map_redis "lock:" 30000 (acquires "room" "t1") answered [] []).2
          "room"
          (operate map_redis "lock:" 30000 (acquires "room" "t1") answered [] []).1
        ≡ held_after map_redis "lock:" 30000 (acquires "room" "t1") [] [])
operate-answers_example = operate-answers map_redis "lock:" 30000 (acquires "room" "t1") [] []

-- A holder that lost its lease releases nothing.
lost_lease :
    (operate map_redis "lock:" 30000
      (releases "room")
      answered
      (("room", "t0") ∷ [])
      (("lock:room", "t1") ∷ [])).1
    ≡ (("lock:room", "t1") ∷ [])
unfolding release release_with after_release get send compare_and_delete map_redis
lost_lease = refl
