-- ===== src/PeerMap/Reports.antt =====
-- What packages/gamebase-client/src/peer-map.ts reports, and what it never brings back.
use tslib.Common.{
  String, ◌≡◌, refl, Bool, not, ◌&&◌, Option, none, some, List, [], ◌∷◌, ◌==◌, eq_iff, arith,
  if◌then◌else◌, filter, map,
}
use tslib.Common.Map
use tslib.Common.Map.{Map, get-set, has-get}
use tslib.PeerMap.{
  Peer, Moves, PeerMapFrame, PeerMap, ViewViolation, on_pos, on_leave, snapshot, enter, leave, pos,
  moved_peer, moved_map, move_one, move, apply_enter, apply_leave, apply_pos, apply_snapshot,
  is_current, apply,
}

-- The violations that a frame should report, from the state before it.
module _ {N D : Type 0} (self : String) where
  -- A `pos` of another user that the map does not hold.
  abbrev pub is_unknown : Map (Peer N D) → Peer N D → Bool
  is_unknown m p = not (p.user_id == self) && not (Map.has m p.user_id)

  pub unknown : String → List (Peer N D) → Map (Peer N D) → List ViewViolation
  unknown zone ps m =
      map (λ p. record { kind = on_pos; user_id = p.user_id; zone = zone })
        (filter (is_unknown m) ps)

  pub reported : PeerMap N D → PeerMapFrame N D → List ViewViolation
  unfolding unknown
  reported state (snapshot zone ps) = []
  reported state (enter zone p) = []
  reported state (leave zone user) =
      if is_current state zone && not (Map.has state.peers user)
      then record { kind = on_leave; user_id = user; zone = zone } ∷ []
      else []
  reported state (pos zone ps) = if is_current state zone then unknown zone ps state.peers else []

  -- An update does not change whom the map holds.
  has-moved_map :
      (m : Map (Peer N D)) (p : Peer N D) (o : Option (Peer N D)) (user : String)
      → Map.get m p.user_id ≡ o
      → Map.has (moved_map m p o) user ≡ Map.has m user
  unfolding moved_map
  has-moved_map m p none user h = refl
  has-moved_map m p (some e) user h = ground (
    arith,
    eq_iff p.user_id user,
    get-set m p.user_id user (moved_peer e p),
    has-get m user,
    has-get (Map.set m p.user_id (moved_peer e p)) user,
  )

  unknown-same :
      (zone : String) (ps : List (Peer N D)) (m m' : Map (Peer N D))
      → ((user : String) → Map.has m' user ≡ Map.has m user)
      → unknown zone ps m' ≡ unknown zone ps m
  unfolding unknown
  unknown-same zone [] m m' h = refl
  unknown-same zone (p ∷ ps) m m' h = ground (arith, h p.user_id, unknown-same zone ps m m' h)

  reports-move_one :
      (zone : String) (p : Peer N D) (m : Map (Peer N D)) (o : Option (Peer N D)) (rest : Moves N D)
      → Map.get m p.user_id ≡ o
      → (move_one zone p o rest).reports ≡ (
          if Map.has m p.user_id
          then rest.reports
          else record { kind = on_pos; user_id = p.user_id; zone = zone } ∷ rest.reports)
  unfolding move_one
  reports-move_one zone p m none rest h = ground (arith, has-get m p.user_id)
  reports-move_one zone p m (some e) rest h = ground (arith, has-get m p.user_id)

  reports-move :
      (zone : String) (ps : List (Peer N D)) (m : Map (Peer N D))
      → (move self zone ps m).reports ≡ unknown zone ps m
  unfolding move unknown
  reports-move zone [] m = refl
  reports-move zone (p ∷ ps) m =
      let found = Map.get m p.user_id in
      let rest = move self zone ps (moved_map m p found) in
      ground (
        arith,
        reports-move zone ps m,
        reports-move zone ps (moved_map m p found),
        reports-move_one zone p m found rest refl,
        unknown-same zone ps m (moved_map m p found) (λ u. has-moved_map m p found u refl),
      )

  -- A frame reports exactly the `leave` or the `pos` of users that the map does not hold, in the
  -- current zone, in the frame's order, and never the receiver's own `pos`.
  pub reports-apply :
      (state : PeerMap N D) (frame : PeerMapFrame N D)
      → (apply self state frame).reports ≡ reported state frame
  unfolding apply apply_enter apply_leave apply_pos apply_snapshot reported
  reports-apply state (snapshot zone ps) = refl
  reports-apply state (enter zone p) = ground arith
  reports-apply state (leave zone user) = ground arith
  reports-apply state (pos zone ps) = ground (arith, reports-move zone ps state.peers)
