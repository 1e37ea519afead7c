-- ===== src/GameKit/Turns/Agreement.antt =====
-- packages/game-kit/src/turns.ts: what a log becomes, and what the logs of two players have in
-- common.
use tslib.Common.{
  ℕ, suc, ◌≡◌, refl, ap, ◌∙◌, subst, String, true, Option, some, List, [], ◌∷◌, ◌++◌, length,
  eq_iff, arith,
}
use tslib.GameKit.Turns.{TurnRecord, Rules, zero_hash, final_hash, validate_from, validate}
use tslib.GameKit.Turns.Game.{Room, Env}
use tslib.GameKit.Turns.Resync.{begins}
use tslib.GameKit.Turns.Startup.{Saved, begin}
use tslib.GameKit.Turns.Play.{Event, run}
use tslib.GameKit.Turns.Lifetime.{run-Later}
use tslib.GameKit.Turns.Playing.{run-IsPlayed}
use tslib.GameKit.Turns.Validity.{IsInjective, validated, fits-facts, same_record, validate-agrees}

module _ {Move State : Type 0} (rules : Rules Move State) where
  -- A valid log whose hashes begin with those of a valid log begins with its records.
  same_beginning :
      IsInjective rules
      → (previous : String) (index : ℕ) (state state' final final' : State)
        (a b : List (TurnRecord Move))
      → validate_from rules previous index state a ≡ some final
      → validate_from rules previous index state' b ≡ some final'
      → begins a b ≡ true
      → (rest : List (TurnRecord Move)) × (b ≡ a ++ rest)
  same_beginning inj p index s s' f f' [] b v w h = (b, refl)
  same_beginning inj p index s s' f f' (x ∷ a) [] v w h = absurd (ground (arith, h))
  same_beginning inj p index s s' f f' (x ∷ a) (y ∷ b) v w h =
      let (fx, (nx, ax, vx)) = validated rules p index s f x a v in
      let (fy, (ny, ay, vy)) = validated rules p index s' f' y b w in
      let (ix, px, hx) = fits-facts rules p index x fx in
      let (iy, py, hy) = fits-facts rules p index y fy in
      let e : y.hash ≡ x.hash = ground (arith, h, eq_iff y.hash x.hash) in
      let (q, by, move) = inj p p index index y.by x.by y.move x.move x.hash (hy ∙ ap some e) hx in
      let same = same_record rules y x index (iy, ix) (by, move, e) in
      let (rest, r) =
        same_beginning inj x.hash (suc index) nx ny f f' a b vx
          (subst (λ k. validate_from rules k (suc index) ny b ≡ some f') e vy)
          (ground (arith, h)) in
      (rest, ap (λ (r : TurnRecord Move). r ∷ b) same ∙ ap (λ l. x ∷ l) r)

module _ {Move State : Type 0} (env : Env Move State) where
  -- If no two moves have one hash: whatever happens to a game that has begun, records are
  -- added after those
  -- that are there, and none is changed or taken away; a frozen game stays frozen, and a
  -- finished game keeps
  -- its result.
  pub run-extends :
      IsInjective env.rules
      → (room : Room) (saved : Option (Saved Move)) (before after : List (Event Move))
      → ((rest : List (TurnRecord Move)) × ((run env after
              (run env before (begin env room saved))).records
            ≡ (run env before (begin env room saved)).records ++ rest))
        × ((run env before (begin env room saved)).frozen ≡ true
            → (run env after (run env before (begin env room saved))).frozen ≡ true)
        × ((run env before (begin env room saved)).finished ≡ true
            → ((run env after (run env before (begin env room saved))).finished ≡ true)
              × ((run env after (run env before (begin env room saved))).finish_result
                  ≡ (run env before (begin env room saved)).finish_result))
  unfolding validate
  run-extends inj room saved before after =
      let s = run env before (begin env room saved) in
      let t = run env after s in
      let played = run-IsPlayed env room saved before in
      let later = run-Later env after s in
      (
        same_beginning env.rules inj zero_hash 0 env.rules.initial env.rules.initial s.state t.state
            s.records t.records played (later.played played) later.history,
        later.stays_frozen,
        later.stays_finished,
      )

  -- If no two moves have one hash: two players of one game, each with its own room, saved log
  -- and events,
  -- who have as many records and the same final hash, have the same records and the same state.
  pub runs-agree :
      IsInjective env.rules
      → (env' : Env Move State) → env'.rules ≡ env.rules
      → (room room' : Room) (saved saved' : Option (Saved Move)) (es es' : List (Event Move))
      → length (run env es (begin env room saved)).records
        ≡ length (run env' es' (begin env' room' saved')).records
      → final_hash (run env es (begin env room saved)).records
        ≡ final_hash (run env' es' (begin env' room' saved')).records
      → ((run env es (begin env room saved)).records
          ≡ (run env' es' (begin env' room' saved')).records)
        × ((run env es (begin env room saved)).state
            ≡ (run env' es' (begin env' room' saved')).state)
  runs-agree inj env' same room room' saved saved' es es' n h =
      let s = run env es (begin env room saved) in
      let t = run env' es' (begin env' room' saved') in
      validate-agrees env.rules inj s.records t.records s.state t.state
        (run-IsPlayed env room saved es)
        (subst (λ r. validate r t.records ≡ some t.state) same (run-IsPlayed env' room' saved' es'))
        n h
