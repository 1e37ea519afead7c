-- ===== src/AllTogether.antt =====
-- packages/gamebase-all-together/src/services: the members of a game, `processEnter`,
-- `processLeave`, `processEnterLeave`. The objects of `context.users` are shared with the values of
-- `context.connectedUsers`: a value is an index of `users` here.
pub mod Bindings
pub mod Members
pub mod Occurrences
pub mod Counts
pub mod Stage
mod Tests
use tslib.Common.{
  ℕ, zero, suc, ◌+◌, String, Bool, true, false, not, ◌&&◌, Option, none, some, List, [], ◌∷◌, ◌==◌,
  eqb, length, if◌then◌else◌,
}
use tslib.Common.Map
use tslib.Common.Map.{Map}

pub record User : Type 0 where
  pub connection_id : String
  pub member_id : String
  pub load : Bool

pub record Observer : Type 0 where
  pub connection_id : String
  pub member_id : String

pub record BaseGameContext : Type 0 where
  pub users : List User
  pub observers : List Observer
  pub connected_users : Map ℕ

pub data Request : Type 0 where
  enter : (connection_id member_id : String) → Request
  leave : (connection_id : String) → Request
  -- A request of any other type.
  other : Request

-- What one request leaves: the context, the connections that were dropped, the members that were
-- announced, and whether a call threw.
pub record Processed : Type 0 where
  pub context : BaseGameContext
  pub dropped : List String
  pub announced : List String
  pub thrown : Bool

-- users.find((u) => u.memberId === memberId): the first one, with its index from `i`.
abbrev pub find_user : String → ℕ → List User → Option (ℕ × User)
find_user member_id i [] = none
find_user member_id i (u ∷ us) =
    let rest = find_user member_id (suc i) us in
    if u.member_id == member_id then some (i, u) else rest

abbrev pub any_observer : (Observer → Bool) → List Observer → Bool
any_observer p [] = false
any_observer p (o ∷ os) = if p o then true else any_observer p os

-- The first observer that passes gets the connection.
abbrev pub set_observer : (Observer → Bool) → String → List Observer → List Observer
set_observer p connection_id [] = []
set_observer p connection_id (o ∷ os) =
    let rest = set_observer p connection_id os in
    if p o then record o { connection_id = connection_id } ∷ os else o ∷ rest

-- The connection of a user is set, and its `load` is reset.
abbrev pub rebind : ℕ → String → List User → List User
rebind i connection_id [] = []
rebind zero connection_id (u ∷ us) = record u { connection_id = connection_id; load = false } ∷ us
rebind (suc i) connection_id (u ∷ us) = u ∷ rebind i connection_id us

abbrev pub is_bound_to : Option ℕ → ℕ → Bool
is_bound_to none i = false
is_bound_to (some j) i = eqb j i

-- Whether an older connection of the user has to go.
pub is_superseded : BaseGameContext → ℕ → String → String → Bool
is_superseded context i previous connection_id =
    not (previous == "")
    && (not (previous == connection_id) && is_bound_to (Map.get context.connected_users previous) i)

pub unbind : BaseGameContext → String → BaseGameContext
unbind context connection_id = record context {
  connected_users = Map.delete context.connected_users connection_id;
}

pub bind : BaseGameContext → ℕ → String → BaseGameContext
bind context i connection_id = record context {
  users = rebind i connection_id context.users;
  connected_users = Map.set context.connected_users connection_id i;
}

pub leave_user : BaseGameContext → String → Option ℕ → BaseGameContext
leave_user context connection_id none = context
leave_user context connection_id (some i) = record context {
  users = rebind i "" context.users;
  connected_users = Map.delete context.connected_users connection_id;
}

pub process_leave : BaseGameContext → String → BaseGameContext
unfolding leave_user
process_leave context connection_id =
    if any_observer (λ o. o.connection_id == connection_id) context.observers
    then record context {
      observers = set_observer (λ o. o.connection_id == connection_id) "" context.observers;
    }
    else leave_user context connection_id (Map.get context.connected_users connection_id)

-- doInStageWait: `Object.keys(context.connectedUsers).length`, and whether it is the number of users.
abbrev pub connected_count : BaseGameContext → ℕ
connected_count context = Map.size context.connected_users

abbrev pub is_all_connected : BaseGameContext → Bool
is_all_connected context = eqb (connected_count context) (length context.users)

-- `drop_throws` and `hook_throws` are what `dropConnection` and `onMemberEntered` do.
module _ (drop_throws : String → Bool) (hook_throws : String → Bool) where
  pub announced_with : BaseGameContext → List String → ℕ → String → String → Processed
  unfolding bind
  announced_with context dropped i connection_id member_id = record {
    context = bind context i connection_id;
    dropped = dropped;
    announced = member_id ∷ [];
    thrown = hook_throws connection_id;
  }

  pub enter_user : BaseGameContext → String → String → Option (ℕ × User) → Processed
  unfolding is_superseded unbind announced_with
  enter_user context connection_id member_id none = record {
    context = context;
    dropped = [];
    announced = [];
    thrown = false;
  }
  enter_user context connection_id member_id (some (i, newbie)) =
      let previous = newbie.connection_id in
      if is_superseded context i previous connection_id
      then (if drop_throws previous
          then record {
            context = unbind context previous;
            dropped = previous ∷ [];
            announced = [];
            thrown = true;
          }
          else announced_with (unbind context previous) (previous ∷ []) i connection_id member_id)
      else announced_with context [] i connection_id member_id

  pub process_enter : BaseGameContext → String → String → Processed
  unfolding enter_user
  process_enter context connection_id member_id =
      if any_observer (λ o. o.member_id == member_id) context.observers
      then record {
        context = record context {
          observers = set_observer (λ o. o.member_id == member_id) connection_id context.observers;
        };
        dropped = [];
        announced = [];
        thrown = false;
      }
      else enter_user context connection_id member_id (find_user member_id 0 context.users)

  pub process_enter_leave : BaseGameContext → Request → Processed
  unfolding process_enter process_leave
  process_enter_leave context (enter connection_id member_id) =
      process_enter context connection_id member_id
  process_enter_leave context (leave connection_id) = record {
    context = process_leave context connection_id;
    dropped = [];
    announced = [];
    thrown = false;
  }
  process_enter_leave context other = record {
    context = context;
    dropped = [];
    announced = [];
    thrown = false;
  }

  -- doInStageWait, the loop over the messages: a call that throws is logged, and the loop goes on.
  pub process_all : List Request → BaseGameContext → BaseGameContext
  process_all [] context = context
  process_all (message ∷ messages) context =
      process_all messages (process_enter_leave context message).context
