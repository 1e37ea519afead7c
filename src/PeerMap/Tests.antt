-- ===== src/PeerMap/Tests.antt =====
-- Runs of packages/gamebase-client/src/peer-map.ts.
use tslib.Common.{ℕ, String, ◌≡◌, refl, none, some, List, [], ◌∷◌}
use tslib.Common.Map
use tslib.PeerMap.{Peer, PeerMapFrame, PeerMap, snapshot, enter, leave, pos, reset, run, apply}
use tslib.PeerMap.Slice.{slice, steps, run-slice}
use tslib.PeerMap.Reports.{reported, reports-apply}
use tslib.PeerMap.Gone.{run-gone}

abbrev peer_at : String → ℕ → Peer ℕ ℕ
peer_at user x = record { user_id = user; x = x; y = 0; dir = none }

-- The receiver, a neighbour that moves and leaves, and a late `pos` for it.
abbrev frames : List (PeerMapFrame ℕ ℕ)
frames =
    snapshot "plaza" (peer_at "me" 1 ∷ peer_at "ann" 2 ∷ [])
    ∷ enter "plaza" (peer_at "bob" 3)
    ∷ pos "plaza" (peer_at "ann" 5 ∷ peer_at "me" 9 ∷ [])
    ∷ leave "plaza" "bob"
    ∷ []

abbrev late : List (PeerMapFrame ℕ ℕ)
late = pos "plaza" (peer_at "bob" 4 ∷ []) ∷ leave "plaza" "ann" ∷ []

abbrev plaza : PeerMap ℕ ℕ
plaza = record { zone = some "plaza"; peers = ("ann", peer_at "ann" 5) ∷ [] }

run-slice_example :
    slice "me" "ann" (run "me" frames reset) ≡ steps "me" "ann" frames (slice "me" "ann" reset)
run-slice_example = run-slice "me" "ann" frames reset

reports-apply_example :
    (apply "me" plaza (pos "plaza" (peer_at "bob" 4 ∷ []))).reports
    ≡ reported "me" plaza (pos "plaza" (peer_at "bob" 4 ∷ []))
reports-apply_example = reports-apply "me" plaza (pos "plaza" (peer_at "bob" 4 ∷ []))

run-gone_example :
    ((run "me" late plaza).zone ≡ some "plaza") × (Map.get (run "me" late plaza).peers "bob" ≡ none)
unfolding Map.get
run-gone_example = run-gone "me" "bob" late plaza (refl, (refl, tt)) refl
