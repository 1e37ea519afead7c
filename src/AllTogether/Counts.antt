-- ===== src/AllTogether/Counts.antt =====
-- packages/gamebase-all-together/src/services/doInStageWait.ts: what the number of the
-- connections says.
use tslib.Common.{
  ℕ, zero, suc, ◌≤◌, ◌<◌, String, ◌≡◌, ◌≢◌, refl, ◌∙◌, Bool, true, false, Option, none, some, List,
  [], ◌∷◌, length, eqb_iff, ◌==◌, arith, All, Bool-cases, inl, inr,
}
use tslib.Common.Map
use tslib.Common.Map.{Map, Unique, set-Unique, delete-Unique}
use tslib.AllTogether.{
  User, BaseGameContext, Request, enter, leave, other, find_user, any_observer, is_superseded,
  unbind, bind, announced_with, enter_user, process_enter, leave_user, process_leave,
  process_enter_leave, process_all, connected_count, is_all_connected,
}
use tslib.AllTogether.Bindings.{connection_at, IsBound, IsNamed}
use tslib.AllTogether.Members.{process_all-IsBound}
use tslib.AllTogether.Occurrences.{pigeons, key_of, occurrences-values, values-All, length-values}

abbrev pub HasUniqueKeys : BaseGameContext → Type 0
HasUniqueKeys context = Unique context.connected_users

below : (users : List User) (i : ℕ) (c : String) → connection_at users i ≡ some c → i < length users
below [] i c h = ground arith
below (u ∷ us) zero c h = omega arith
below (u ∷ us) (suc i) c h = omega (arith, below us i c h)

pub leave_user-HasUniqueKeys :
    (context : BaseGameContext) (c : String) (o : Option ℕ)
    → HasUniqueKeys context
    → HasUniqueKeys (leave_user context c o)
unfolding leave_user
leave_user-HasUniqueKeys context c none u = u
leave_user-HasUniqueKeys context c (some i) u = delete-Unique context.connected_users c u

leave-HasUniqueKeys :
    (context : BaseGameContext) (c : String)
    → HasUniqueKeys context
    → HasUniqueKeys (process_leave context c)
unfolding process_leave
leave-HasUniqueKeys context c u =
    elim (Bool-cases (any_observer (λ o. o.connection_id == c) context.observers)) [
      | inl y ↦ rw y u
      | inr y ↦ rw y (leave_user-HasUniqueKeys context c (Map.get context.connected_users c) u)
    ]

bind-HasUniqueKeys :
    (context : BaseGameContext) (i : ℕ) (c : String)
    → HasUniqueKeys context
    → HasUniqueKeys (bind context i c)
unfolding bind
bind-HasUniqueKeys context i c u = set-Unique context.connected_users c i u

unbind-HasUniqueKeys :
    (context : BaseGameContext) (c : String)
    → HasUniqueKeys context
    → HasUniqueKeys (unbind context c)
unfolding unbind
unbind-HasUniqueKeys context c u = delete-Unique context.connected_users c u

module _ (drop_throws : String → Bool) (hook_throws : String → Bool) where
  entered-HasUniqueKeys :
      (context : BaseGameContext) (c member_id : String) (i : ℕ) (u : User) (s d : Bool)
      → is_superseded context i u.connection_id c ≡ s
      → drop_throws u.connection_id ≡ d
      → HasUniqueKeys context
      → HasUniqueKeys (enter_user drop_throws hook_throws context c member_id (some (i, u))).context
  unfolding enter_user announced_with
  entered-HasUniqueKeys context c member_id i u false d s t k =
      rw s (bind-HasUniqueKeys context i c k)
  entered-HasUniqueKeys context c member_id i u true true s t k =
      rw (s, t) (unbind-HasUniqueKeys context u.connection_id k)
  entered-HasUniqueKeys context c member_id i u true false s t k =
      rw (s, t)
        (bind-HasUniqueKeys (unbind context u.connection_id) i c
          (unbind-HasUniqueKeys context u.connection_id k))

  enter_user-HasUniqueKeys :
      (context : BaseGameContext) (c member_id : String) (o : Option (ℕ × User))
      → HasUniqueKeys context
      → HasUniqueKeys (enter_user drop_throws hook_throws context c member_id o).context
  unfolding enter_user
  enter_user-HasUniqueKeys context c member_id none k = k
  enter_user-HasUniqueKeys context c member_id (some (i, u)) k =
      entered-HasUniqueKeys context c member_id i u (is_superseded context i u.connection_id c)
        (drop_throws u.connection_id) refl refl k

  step-HasUniqueKeys :
      (context : BaseGameContext) (message : Request)
      → HasUniqueKeys context
      → HasUniqueKeys (process_enter_leave drop_throws hook_throws context message).context
  unfolding process_enter_leave process_enter
  step-HasUniqueKeys context (enter c member_id) k =
      elim (Bool-cases (any_observer (λ o. o.member_id == member_id) context.observers)) [
        | inl y ↦ rw y k
        | inr y ↦
            rw y
              (enter_user-HasUniqueKeys context c member_id (find_user member_id 0 context.users) k)
      ]
  step-HasUniqueKeys context (leave c) k = leave-HasUniqueKeys context c k
  step-HasUniqueKeys context other k = k

  pub process_all-HasUniqueKeys :
      (messages : List Request) (context : BaseGameContext)
      → HasUniqueKeys context
      → HasUniqueKeys (process_all drop_throws hook_throws messages context)
  unfolding process_all
  process_all-HasUniqueKeys [] context k = k
  process_all-HasUniqueKeys (m ∷ ms) context k =
      process_all-HasUniqueKeys ms (process_enter_leave drop_throws hook_throws context m).context
        (step-HasUniqueKeys context m k)

-- Each user has a connection with a name that stands for it.
abbrev pub AllBound : BaseGameContext → Type 0
AllBound context =
    (i : ℕ)
    → i < length context.users
    → (c : String) × (c ≢ "")
      × (Map.get context.connected_users c ≡ some i)
      × (connection_at context.users i ≡ some c)

pub counted :
    (context : BaseGameContext)
    → HasUniqueKeys context
    → IsBound context
    → ((j k : String) (i : ℕ)
        → Map.get context.connected_users j ≡ some i
        → Map.get context.connected_users k ≡ some i
        → j ≡ k)
    → (connected_count context ≤ length context.users)
      × (is_all_connected context ≡ true → AllBound context)
counted context u b inj =
    let m = context.connected_users in
    let n = length context.users in
    let p =
      pigeons n (Map.values m)
        (values-All (λ i. i < n) m u (λ k i e. below context.users i k (b k i e).1))
        (λ i. occurrences-values m i u (λ j k. inj j k i)) in
    (
      omega (arith, p.0, length-values m),
      λ e i l.
          let once = p.1 i (length-values m ∙ (eqb_iff (Map.size m) n).0 e) l in
          let (c, h) = key_of m i u (λ z. omega (arith, z, once)) in
          (c, (b c i h).0, h, (b c i h).1),
    )

module _ (drop_throws : String → Bool) (hook_throws : String → Bool) where
  -- After any requests on connections with a name there are at most as many connections as users,
  -- and the wait stage takes all users for connected only if each has a connection of its own.
  pub process_all-counted :
      (messages : List Request) (context : BaseGameContext)
      → All (λ m. IsNamed m) messages
      → IsBound context
      → HasUniqueKeys context
      → let result = process_all drop_throws hook_throws messages context in
        (connected_count result ≤ length result.users)
        × (is_all_connected result ≡ true → AllBound result)
  process_all-counted messages context n b k =
      let (b', inj) = process_all-IsBound drop_throws hook_throws messages context n b in
      counted (process_all drop_throws hook_throws messages context)
        (process_all-HasUniqueKeys drop_throws hook_throws messages context k) b' inj
