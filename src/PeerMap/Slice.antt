-- ===== src/PeerMap/Slice.antt =====
-- packages/gamebase-client/src/peer-map.ts seen from one peer: what the map holds for one user
-- depends on the frames that name this user and on the zone, and on nothing else.
use tslib.Common.{
  String, ◌≡◌, refl, ap, sym, ◌∙◌, Bool, true, false, not, ◌&&◌, Option, none, some, List, [], ◌∷◌,
  ◌==◌, eq_iff, arith, if◌then◌else◌, inl, inr, Bool-cases,
}
use tslib.Common.Map
use tslib.Common.Map.{Map, get-set, get-delete, get-empty, has-get}
use tslib.PeerMap.{
  Moves, Peer, PeerMapFrame, PeerMap, snapshot, enter, leave, pos, moved_peer, fill, moved_map,
  move_one, move, apply_enter, apply_leave, apply_pos, apply_snapshot, filled, apply, run,
}
use mathlib.Core.Option

abbrev pub in_zone : Option String → String → Bool
in_zone none zone = false
in_zone (some current) zone = zone == current

module _ (self user : String) where
  own_skipped :
      {A : Type 0} (id : String) (x o : A)
      → (id == self) ≡ true
      → (if not (user == self) && (id == user) then x else o) ≡ o
  own_skipped id x o e = ground (arith, eq_iff id self, eq_iff id user, eq_iff user self)

  other_tested :
      {A : Type 0} (id : String) (x o : A)
      → (id == self) ≡ false
      → (if id == user then x else o) ≡ (if not (user == self) && (id == user) then x else o)
  other_tested id x o e = ground (arith, eq_iff id self, eq_iff id user, eq_iff user self)

module _ {N D : Type 0} (self user : String) where
  -- A frame's peer is the last one that it names under the user.
  pub latest : List (Peer N D) → Option (Peer N D) → Option (Peer N D)
  latest [] o = o
  latest (p ∷ ps) o = latest ps (if not (user == self) && (p.user_id == user) then some p else o)

  unfoldable pub update_slice : List (Peer N D) → Option (Peer N D) → Option (Peer N D)
  unfolding moved_peer
  update_slice [] o = o
  update_slice (p ∷ ps) o =
      update_slice ps (
        if not (user == self) && (p.user_id == user) then Option.map (λ e. moved_peer e p) o else o)

  -- The zone and the user's peer, after a frame.
  unfoldable pub step :
      PeerMapFrame N D → Option String × Option (Peer N D) → Option String × Option (Peer N D)
  step (snapshot zone ps) (z, o) = (some zone, latest ps none)
  step (enter zone p) (z, o) =
      (z, if in_zone z zone && (not (user == self) && (p.user_id == user)) then some p else o)
  step (leave zone gone) (z, o) = (z, if in_zone z zone && (gone == user) then none else o)
  step (pos zone ps) (z, o) = (z, if in_zone z zone then update_slice ps o else o)

  unfoldable pub steps :
      List (PeerMapFrame N D)
      → Option String × Option (Peer N D)
      → Option String × Option (Peer N D)
  steps [] v = v
  steps (frame ∷ frames) v = steps frames (step frame v)

  abbrev pub slice : PeerMap N D → Option String × Option (Peer N D)
  slice state = (state.zone, Map.get state.peers user)

  get-fill :
      (ps : List (Peer N D)) (m : Map (Peer N D))
      → Map.get (fill self ps m) user ≡ latest ps (Map.get m user)
  unfolding fill latest
  get-fill [] m = refl
  get-fill (p ∷ ps) m =
      get-fill ps (if p.user_id == self then m else Map.set m p.user_id p)
      ∙ ap (latest ps) (
          ground (
            arith,
            get-set m p.user_id user p,
            eq_iff p.user_id self,
            eq_iff p.user_id user,
            eq_iff user self,
          ))

  get-moved_map :
      (m : Map (Peer N D)) (p : Peer N D) (o : Option (Peer N D))
      → Map.get m p.user_id ≡ o
      → Map.get (moved_map m p o) user ≡ (
          if p.user_id == user
          then Option.map (λ e. moved_peer e p) (Map.get m user)
          else Map.get m user)
  unfolding moved_map
  get-moved_map m p none h = ground (arith, eq_iff p.user_id user)
  get-moved_map m p (some e) h =
      ground (arith, eq_iff p.user_id user, get-set m p.user_id user (moved_peer e p))

  peers-move_one :
      (zone : String) (p : Peer N D) (o : Option (Peer N D)) (rest : Moves N D)
      → (move_one zone p o rest).peers ≡ rest.peers
  unfolding move_one
  peers-move_one zone p none rest = refl
  peers-move_one zone p (some e) rest = refl

  get-move :
      (zone : String) (ps : List (Peer N D)) (m : Map (Peer N D))
      → Map.get (move self zone ps m).peers user ≡ update_slice ps (Map.get m user)
  unfolding move update_slice
  get-move zone [] m = refl
  get-move zone (p ∷ ps) m =
      let o = Map.get m user in
      let found = Map.get m p.user_id in
      let rest = move self zone ps (moved_map m p found) in
      elim (Bool-cases (p.user_id == self)) [
        | inl e ↦ rw e (
            get-move zone ps m
            ∙ ap (update_slice ps)
                (sym (own_skipped self user p.user_id (Option.map (λ e. moved_peer e p) o) o e)))
        | inr e ↦ rw e (
            ap (λ x. Map.get x user) (peers-move_one zone p found rest)
            ∙ get-move zone ps (moved_map m p found)
            ∙ ap (update_slice ps) (
                get-moved_map m p found refl
                ∙ other_tested self user p.user_id (Option.map (λ e. moved_peer e p) o) o e))
      ]

  enter-slice :
      (state : PeerMap N D) (zone : String) (p : Peer N D)
      → slice (apply self state (enter zone p)).state ≡ step (enter zone p) (slice state)
  unfolding apply step apply_enter
  enter-slice state zone p = ground (
    arith,
    eq_iff p.user_id self,
    eq_iff p.user_id user,
    eq_iff user self,
    get-set state.peers p.user_id user p,
  )

  leave-slice :
      (state : PeerMap N D) (zone gone : String)
      → slice (apply self state (leave zone gone)).state ≡ step (leave zone gone) (slice state)
  unfolding apply step apply_leave
  leave-slice state zone gone =
      ground (arith, eq_iff gone user, get-delete state.peers gone user, has-get state.peers gone)

  pos-slice :
      (state : PeerMap N D) (zone : String) (ps : List (Peer N D))
      → slice (apply self state (pos zone ps)).state ≡ step (pos zone ps) (slice state)
  unfolding apply step apply_pos
  pos-slice state zone ps = ground (arith, get-move zone ps state.peers)

  snapshot-slice :
      (state : PeerMap N D) (zone : String) (ps : List (Peer N D))
      → slice (apply self state (snapshot zone ps)).state ≡ step (snapshot zone ps) (slice state)
  unfolding apply step apply_snapshot filled
  snapshot-slice state zone ps = ground (arith, get-fill ps [], get-empty {V = Peer N D} user)

  apply-slice :
      (state : PeerMap N D) (frame : PeerMapFrame N D)
      → slice (apply self state frame).state ≡ step frame (slice state)
  apply-slice state (snapshot zone ps) = snapshot-slice state zone ps
  apply-slice state (enter zone p) = enter-slice state zone p
  apply-slice state (leave zone gone) = leave-slice state zone gone
  apply-slice state (pos zone ps) = pos-slice state zone ps

  -- After any frames the map holds for a user what the frames about this user leave, in the current
  -- zone.
  pub run-slice :
      (frames : List (PeerMapFrame N D)) (state : PeerMap N D)
      → slice (run self frames state) ≡ steps frames (slice state)
  unfolding run steps
  run-slice [] state = refl
  run-slice (frame ∷ frames) state =
      run-slice frames (apply self state frame).state ∙ ap (steps frames) (apply-slice state frame)
