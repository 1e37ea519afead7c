-- ===== src/AllTogether/Stage.antt =====
-- packages/gamebase-all-together/src/services/doInStageWait.ts with the default announcement of
-- createStageAnnouncer.ts and broadcastStage.ts, and the ticker of
-- packages/lambda-gamebase/src/support/createTicker.ts. What the polls of round `n` return, the
-- times and
-- what a broadcast reaches are parameters; the announcement does not throw.
pub mod Users
pub mod Starts
use tslib.Common.{
  ℕ, zero, suc, ◌+◌, String, Bool, true, false, not, ◌&&◌, Option, none, some, List, [], ◌∷◌, ltb,
  leb, eqb, length, if◌then◌else◌,
}
use tslib.Common.Map
use tslib.AllTogether.{
  BaseGameContext, Request, leave_user, process_all, connected_count, is_all_connected,
}
use mathlib.Core.Option

-- pruneUndeliveredUsers: the connections that a broadcast did not reach are unbound.
pub prune : List (String × Bool) → BaseGameContext → BaseGameContext
prune [] context = context
prune ((connection_id, delivered) ∷ rest) context = prune rest (
    if delivered
    then context
    else leave_user context connection_id (Map.get context.connected_users connection_id))

-- minPlayers ?? context.users.length
pub required_players : Option ℕ → BaseGameContext → ℕ
required_players none context = length context.users
required_players (some min_players) context = min_players

module _ (drop_throws : String → Bool) (hook_throws : String → Bool) (start alive_millis : ℕ)
    (drop_undelivered : Bool) (polled : ℕ → List Request) (now age : ℕ → ℕ)
    (delivered : ℕ → BaseGameContext → List (String × Bool)) where
  -- createStageAnnouncer, without a hook.
  pub announce : ℕ → BaseGameContext → BaseGameContext
  unfolding prune
  announce n context = if drop_undelivered then prune (delivered n context) context else context

  -- checkAgeChanged: no age before the first check.
  pub check_age_changed : ℕ → Option ℕ → BaseGameContext → BaseGameContext
  unfolding announce
  check_age_changed n none context = announce n context
  check_age_changed n (some age_before) context =
      if eqb age_before (age n) then context else announce n context

  -- ticker.isAlive()
  pub is_alive : ℕ → Bool
  is_alive n = ltb (now n) (start + alive_millis)

  -- The loop from round `n` on; nothing when the fuel runs out.
  pub wait_from : ℕ → ℕ → Option ℕ → BaseGameContext → Option BaseGameContext
  unfolding check_age_changed is_alive
  wait_from zero n age_before context = none
  wait_from (suc fuel) n age_before context =
      let processed = process_all drop_throws hook_throws (polled n) context in
      let rest = wait_from fuel (suc n) (some (age n)) (check_age_changed n age_before processed) in
      if is_alive n && not (is_all_connected context) then rest else some context

  -- The context after the stage, and whether the game starts.
  pub do_in_stage_wait : ℕ → Option ℕ → BaseGameContext → Option (BaseGameContext × Bool)
  unfolding wait_from required_players
  do_in_stage_wait fuel min_players context =
      Option.map (λ c. (c, leb (required_players min_players context) (connected_count c)))
        (wait_from fuel 0 none context)
