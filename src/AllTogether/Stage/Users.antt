-- ===== src/AllTogether/Stage/Users.antt =====
-- Requests and announcements leave the number of users alone.
use tslib.Common.{
  ℕ, zero, suc, String, ◌≡◌, refl, ap, ◌∙◌, Bool, true, false, Option, none, some, List, [], ◌∷◌,
  length, ◌==◌, Bool-cases, inl, inr,
}
use tslib.Common.Map
use tslib.AllTogether.{
  User, BaseGameContext, Request, enter, leave, other, find_user, rebind, any_observer,
  is_superseded, unbind, bind, announced_with, enter_user, process_enter, leave_user, process_leave,
  process_enter_leave, process_all,
}

abbrev pub user_count : BaseGameContext → ℕ
user_count context = length context.users

length-rebind : (i : ℕ) (c : String) (users : List User) → length (rebind i c users) ≡ length users
length-rebind i c [] = refl
length-rebind zero c (u ∷ us) = refl
length-rebind (suc i) c (u ∷ us) = ap suc (length-rebind i c us)

pub user_count-leave_user :
    (context : BaseGameContext) (c : String) (o : Option ℕ)
    → user_count (leave_user context c o) ≡ user_count context
unfolding leave_user
user_count-leave_user context c none = refl
user_count-leave_user context c (some i) = length-rebind i "" context.users

user_count-leave :
    (context : BaseGameContext) (c : String)
    → user_count (process_leave context c) ≡ user_count context
unfolding process_leave
user_count-leave context c =
    elim (Bool-cases (any_observer (λ o. o.connection_id == c) context.observers)) [
      | inl y ↦ rw y refl
      | inr y ↦ rw y (user_count-leave_user context c (Map.get context.connected_users c))
    ]

user_count-bind :
    (context : BaseGameContext) (i : ℕ) (c : String)
    → user_count (bind context i c) ≡ user_count context
unfolding bind
user_count-bind context i c = length-rebind i c context.users

module _ (drop_throws : String → Bool) (hook_throws : String → Bool) where
  user_count-entered :
      (context : BaseGameContext) (c member_id : String) (i : ℕ) (u : User) (s d : Bool)
      → is_superseded context i u.connection_id c ≡ s
      → drop_throws u.connection_id ≡ d
      → user_count (enter_user drop_throws hook_throws context c member_id (some (i, u))).context
        ≡ user_count context
  unfolding enter_user announced_with unbind
  user_count-entered context c member_id i u false d s t = rw s (user_count-bind context i c)
  user_count-entered context c member_id i u true true s t = rw (s, t) refl
  user_count-entered context c member_id i u true false s t =
      rw (s, t) (user_count-bind (unbind context u.connection_id) i c)

  user_count-enter_user :
      (context : BaseGameContext) (c member_id : String) (o : Option (ℕ × User))
      → user_count (enter_user drop_throws hook_throws context c member_id o).context
        ≡ user_count context
  unfolding enter_user
  user_count-enter_user context c member_id none = refl
  user_count-enter_user context c member_id (some (i, u)) =
      user_count-entered context c member_id i u (is_superseded context i u.connection_id c)
        (drop_throws u.connection_id) refl refl

  user_count-step :
      (context : BaseGameContext) (message : Request)
      → user_count (process_enter_leave drop_throws hook_throws context message).context
        ≡ user_count context
  unfolding process_enter_leave process_enter
  user_count-step context (enter c member_id) =
      elim (Bool-cases (any_observer (λ o. o.member_id == member_id) context.observers)) [
        | inl y ↦ rw y refl
        | inr y ↦
            rw y (user_count-enter_user context c member_id (find_user member_id 0 context.users))
      ]
  user_count-step context (leave c) = user_count-leave context c
  user_count-step context other = refl

  pub user_count-process_all :
      (messages : List Request) (context : BaseGameContext)
      → user_count (process_all drop_throws hook_throws messages context) ≡ user_count context
  unfolding process_all
  user_count-process_all [] context = refl
  user_count-process_all (m ∷ ms) context =
      user_count-process_all ms (process_enter_leave drop_throws hook_throws context m).context
      ∙ user_count-step context m
