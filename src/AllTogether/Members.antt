-- ===== src/AllTogether/Members.antt =====
-- packages/gamebase-all-together/src/services: bindings through the requests of the wait stage.
use tslib.Common.{
  ℕ, All, subst, String, ◌≡◌, ◌≢◌, refl, Bool, true, false, Option, none, some, List, [], ◌∷◌, ◌==◌,
  eqb_iff, eq_iff, arith, Bool-cases, inl, inr,
}
use tslib.Common.Map
use tslib.Common.Map.{Map, get-set, get-delete, get-empty}
use tslib.AllTogether.{
  User, BaseGameContext, Request, enter, leave, other, find_user, any_observer, is_superseded,
  unbind, announced_with, enter_user, process_enter, leave_user, process_leave, process_enter_leave,
  process_all,
}
use tslib.AllTogether.Bindings.{
  connection_at, IsBound, IsNamed, connection_at-rebind, unbind-IsBound, bind-IsBound,
  connection_at-find_user, superseded-IsFree, kept-IsFree,
}

pub leave_user-IsBound :
    (context : BaseGameContext) (c : String) (o : Option ℕ)
    → Map.get context.connected_users c ≡ o
    → IsBound context
    → IsBound (leave_user context c o)
unfolding leave_user
leave_user-IsBound context c none e b k j h = b k j h
leave_user-IsBound context c (some i) e b k j h =
    let old : Map.get context.connected_users k ≡ some j =
      ground (arith, get-delete context.connected_users c k) in
    (
      (b k j old).0,
      ground (
        arith,
        (b k j old).1,
        (b c i e).1,
        get-delete context.connected_users c k,
        eq_iff c k,
        eqb_iff i j,
        connection_at-rebind i j "" c context.users (b c i e).1,
      ),
    )

leave-IsBound :
    (context : BaseGameContext) (c : String) → IsBound context → IsBound (process_leave context c)
unfolding process_leave
leave-IsBound context c b =
    elim (Bool-cases (any_observer (λ o. o.connection_id == c) context.observers)) [
      | inl y ↦ rw y b
      | inr y ↦ rw y (leave_user-IsBound context c (Map.get context.connected_users c) refl b)
    ]

module _ (drop_throws : String → Bool) (hook_throws : String → Bool) where
  enter_found :
      (context : BaseGameContext) (c member_id : String) (i : ℕ) (u : User) (s d : Bool)
      → is_superseded context i u.connection_id c ≡ s
      → drop_throws u.connection_id ≡ d
      → c ≢ ""
      → connection_at context.users i ≡ some u.connection_id
      → IsBound context
      → IsBound (enter_user drop_throws hook_throws context c member_id (some (i, u))).context
  unfolding enter_user announced_with unbind
  enter_found context c member_id i u false d s t n h b = rw s (
      bind-IsBound context i c u.connection_id n h (kept-IsFree context i c u.connection_id b h s)
        b)
  enter_found context c member_id i u true true s t n h b =
      rw (s, t) (unbind-IsBound context u.connection_id b)
  enter_found context c member_id i u true false s t n h b =
      rw (s, t)
        (bind-IsBound (unbind context u.connection_id) i c u.connection_id n h
          (superseded-IsFree context i c u.connection_id b h s)
          (unbind-IsBound context u.connection_id b))

  enter_user-IsBound :
      (context : BaseGameContext) (c member_id : String) (o : Option (ℕ × User))
      → find_user member_id 0 context.users ≡ o
      → c ≢ ""
      → IsBound context
      → IsBound (enter_user drop_throws hook_throws context c member_id o).context
  unfolding enter_user
  enter_user-IsBound context c member_id none e n b = b
  enter_user-IsBound context c member_id (some (i, u)) e n b =
      let (d, p, q) = connection_at-find_user member_id i 0 u context.users e in
      let same : d ≡ i = omega (arith, p) in
      enter_found context c member_id i u (is_superseded context i u.connection_id c)
        (drop_throws u.connection_id) refl refl n
        (subst (λ x. connection_at context.users x ≡ some u.connection_id) same q) b

  enter-IsBound :
      (context : BaseGameContext) (c member_id : String)
      → c ≢ ""
      → IsBound context
      → IsBound (process_enter drop_throws hook_throws context c member_id).context
  unfolding process_enter
  enter-IsBound context c member_id n b =
      elim (Bool-cases (any_observer (λ o. o.member_id == member_id) context.observers)) [
        | inl y ↦ rw y b
        | inr y ↦
            rw y (
              enter_user-IsBound context c member_id (find_user member_id 0 context.users) refl n b)
      ]

  step-IsBound :
      (context : BaseGameContext) (message : Request)
      → IsNamed message
      → IsBound context
      → IsBound (process_enter_leave drop_throws hook_throws context message).context
  unfolding process_enter_leave
  step-IsBound context (enter c member_id) n b = enter-IsBound context c member_id n b
  step-IsBound context (leave c) n b = leave-IsBound context c b
  step-IsBound context other n b = b

  -- Whatever members enter and leave, on connections with a name, and whatever calls throw: each
  -- connection in the map stands for a user that has it, so no user has two.
  pub process_all-IsBound :
      (messages : List Request) (context : BaseGameContext)
      → All (λ m. IsNamed m) messages
      → IsBound context
      → IsBound (process_all drop_throws hook_throws messages context)
        × ((j k : String) (i : ℕ)
            → Map.get (process_all drop_throws hook_throws messages context).connected_users j
              ≡ some i
            → Map.get (process_all drop_throws hook_throws messages context).connected_users k
              ≡ some i
            → j ≡ k)
  unfolding process_all
  process_all-IsBound [] context n b = (b, λ j k i x y. ground (arith, (b j i x).1, (b k i y).1))
  process_all-IsBound (m ∷ ms) context n b =
      process_all-IsBound ms (process_enter_leave drop_throws hook_throws context m).context n.1
        (step-IsBound context m n.0 b)
