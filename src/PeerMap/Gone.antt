-- ===== src/PeerMap/Gone.antt =====
-- packages/gamebase-client/src/peer-map.ts: what does not bring a peer back.
use tslib.Common.{
  String, ◌≡◌, refl, ap, ◌∙◌, Bool, true, false, Option, none, List, [], ◌∷◌, ◌==◌, arith, All,
}
use tslib.Common.Map
use tslib.PeerMap.{Peer, PeerMapFrame, PeerMap, snapshot, enter, leave, pos, run}
use tslib.PeerMap.Slice.{update_slice, step, steps, run-slice}

module _ {N D : Type 0} (self user : String) where
  -- The frames that may introduce the user.
  abbrev pub introduces : PeerMapFrame N D → Bool
  introduces (snapshot zone ps) = true
  introduces (enter zone p) = p.user_id == user
  introduces (leave zone gone) = false
  introduces (pos zone ps) = false

  update_slice-none : (ps : List (Peer N D)) → update_slice self user ps none ≡ none
  unfolding update_slice
  update_slice-none [] = refl
  update_slice-none (p ∷ ps) = ground (arith, update_slice-none ps)

  step-gone :
      (current : Option String) (frame : PeerMapFrame N D)
      → introduces frame ≡ false
      → step self user frame (current, none) ≡ (current, none)
  unfolding step
  step-gone current (snapshot z ps) h = ground arith
  step-gone current (enter z p) h = ground arith
  step-gone current (leave z gone) h = ground arith
  step-gone current (pos z ps) h = ground (arith, update_slice-none ps)

  steps-gone :
      (zone : Option String) (frames : List (PeerMapFrame N D))
      → All (λ f. introduces f ≡ false) frames
      → steps self user frames (zone, none) ≡ (zone, none)
  unfolding steps
  steps-gone current [] h = refl
  steps-gone current (frame ∷ frames) h =
      ap (steps self user frames) (step-gone current frame h.0) ∙ steps-gone current frames h.1

  -- A peer that is not in the map stays out until a snapshot or an `enter` of it: no `pos` and no
  -- `leave`, late or not, brings it back, and the zone stays as it is.
  pub run-gone :
      (frames : List (PeerMapFrame N D)) (state : PeerMap N D)
      → All (λ f. introduces f ≡ false) frames
      → Map.get state.peers user ≡ none
      → ((run self frames state).zone ≡ state.zone)
        × (Map.get (run self frames state).peers user ≡ none)
  run-gone frames state h n =
      let e =
        run-slice self user frames state
        ∙ ap (λ o. steps self user frames (state.zone, o)) n
        ∙ steps-gone state.zone frames h in
      (ap (λ v. v.0) e, ap (λ v. v.1) e)
