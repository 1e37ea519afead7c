-- ===== src/PeerMap.antt =====
-- packages/gamebase-client/src/peer-map.ts, `createPeerMap`. Coordinates and directions are
-- parameters; all peers that go out are copies, so they are values here. The calls of
-- `onViewViolation`, whose exceptions are swallowed, are outputs.
pub mod Slice
pub mod Reports
pub mod Gone
mod Tests
use tslib.Common.{
  ℕ, String, Bool, true, false, not, Option, none, some, List, [], ◌∷◌, ◌==◌, if◌then◌else◌,
}
use tslib.Common.Map
use tslib.Common.Map.{Map}

pub record Peer (N D : Type 0) : Type 0 where
  pub user_id : String
  pub x : N
  pub y : N
  pub dir : Option D

pub data PeerMapFrame (N D : Type 0) : Type 0 where
  snapshot : (zone : String) (peers : List (Peer N D)) → PeerMapFrame N D
  enter : (zone : String) (peer : Peer N D) → PeerMapFrame N D
  leave : (zone : String) (user_id : String) → PeerMapFrame N D
  pos : (zone : String) (peers : List (Peer N D)) → PeerMapFrame N D

pub data PeerChange (N D : Type 0) : Type 0 where
  shown : String → List (Peer N D) → PeerChange N D
  entered : Peer N D → PeerChange N D
  left : String → PeerChange N D
  moved : List (Peer N D) → PeerChange N D

pub data Kind : Type 0 where
  on_leave on_pos : Kind

pub record ViewViolation : Type 0 where
  pub kind : Kind
  pub user_id : String
  pub zone : String

pub record PeerMap (N D : Type 0) : Type 0 where
  pub zone : Option String
  pub peers : Map (Peer N D)

-- What one frame changes, returns and reports.
pub record Applied (N D : Type 0) : Type 0 where
  pub state : PeerMap N D
  pub change : Option (PeerChange N D)
  pub reports : List ViewViolation

-- The loop over the peers of a `pos` frame: the map, what it moved, what it reported.
pub record Moves (N D : Type 0) : Type 0 where
  pub peers : Map (Peer N D)
  pub moved : List (Peer N D)
  pub reports : List ViewViolation

module _ {N D : Type 0} where
  pub get : PeerMap N D → String → Option (Peer N D)
  get state user_id = Map.get state.peers user_id

  pub all : PeerMap N D → List (Peer N D)
  all state = Map.values state.peers

  abbrev pub reset : PeerMap N D
  reset = record { zone = none; peers = [] }

  -- `existing` after the update; a missing `dir` keeps the old one.
  pub moved_peer : Peer N D → Peer N D → Peer N D
  moved_peer existing update = record existing {
    x = update.x;
    y = update.y;
    dir = elim update.dir [ none ↦ existing.dir | some d ↦ some d ];
  }

  -- What is done for one update, with what `peers.get` found, before the rest of the loop.
  pub move_one : String → Peer N D → Option (Peer N D) → Moves N D → Moves N D
  unfolding moved_peer
  move_one zone update none rest = record rest {
    reports = record { kind = on_pos; user_id = update.user_id; zone = zone } ∷ rest.reports;
  }
  move_one zone update (some existing) rest = record rest {
    moved = moved_peer existing update ∷ rest.moved;
  }

  pub moved_map : Map (Peer N D) → Peer N D → Option (Peer N D) → Map (Peer N D)
  unfolding moved_peer
  moved_map m update none = m
  moved_map m update (some existing) = Map.set m update.user_id (moved_peer existing update)

  abbrev unchanged : PeerMap N D → Applied N D
  unchanged state = record { state = state; change = none; reports = [] }

  -- `moved.length === 0 ? undefined : …`
  abbrev move_change : List (Peer N D) → Option (PeerChange N D)
  move_change [] = none
  move_change (p ∷ ps) = some (moved (p ∷ ps))

  pub apply_leave : PeerMap N D → String → String → Applied N D
  apply_leave state zone user_id =
      if Map.has state.peers user_id
      then record {
        state = record state { peers = Map.delete state.peers user_id };
        change = some (left user_id);
        reports = [];
      }
      else record {
        state = state;
        change = none;
        reports = record { kind = on_leave; user_id = user_id; zone = zone } ∷ [];
      }

  -- `zone !== undefined && frame.zone === zone`
  abbrev pub is_current : PeerMap N D → String → Bool
  is_current state zone = elim state.zone [ none ↦ false | some current ↦ zone == current ]

  module _ (self_user_id : String) where
    -- The loop of a snapshot.
    pub fill : List (Peer N D) → Map (Peer N D) → Map (Peer N D)
    fill [] m = m
    fill (peer ∷ peers) m =
        fill peers (if peer.user_id == self_user_id then m else Map.set m peer.user_id peer)

    pub move : String → List (Peer N D) → Map (Peer N D) → Moves N D
    unfolding move_one moved_map
    move zone [] m = record { peers = m; moved = []; reports = [] }
    move zone (update ∷ updates) m =
        let skipped = move zone updates m in
        let found = Map.get m update.user_id in
        let rest = move zone updates (moved_map m update found) in
        if update.user_id == self_user_id then skipped else move_one zone update found rest

    pub apply_enter : PeerMap N D → Peer N D → Applied N D
    apply_enter state peer = if peer.user_id == self_user_id then unchanged state else record {
      state = record state { peers = Map.set state.peers peer.user_id peer };
      change = some (entered peer);
      reports = [];
    }

    pub apply_pos : PeerMap N D → String → List (Peer N D) → Applied N D
    unfolding move
    apply_pos state zone updates =
        let moves = move zone updates state.peers in
        record {
          state = record state { peers = moves.peers };
          change = move_change moves.moved;
          reports = moves.reports;
        }

    pub filled : String → List (Peer N D) → PeerMap N D
    unfolding fill
    filled zone peers = record { zone = some zone; peers = fill peers [] }

    pub apply_snapshot : String → List (Peer N D) → Applied N D
    unfolding filled
    apply_snapshot zone peers = record {
      state = filled zone peers;
      change = some (shown zone (all (filled zone peers)));
      reports = [];
    }

    pub apply : PeerMap N D → PeerMapFrame N D → Applied N D
    unfolding apply_snapshot apply_enter apply_leave apply_pos
    apply state (snapshot zone peers) = apply_snapshot zone peers
    apply state (enter zone peer) =
        if is_current state zone then apply_enter state peer else unchanged state
    apply state (leave zone user_id) =
        if is_current state zone then apply_leave state zone user_id else unchanged state
    apply state (pos zone updates) =
        if is_current state zone then apply_pos state zone updates else unchanged state

    -- The state after frames, from the first to the last.
    pub run : List (PeerMapFrame N D) → PeerMap N D → PeerMap N D
    run [] state = state
    run (frame ∷ frames) state = run frames (apply state frame).state
