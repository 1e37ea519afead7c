-- ===== src/AllTogether/Bindings.antt =====
-- packages/gamebase-all-together/src/services/processEnter.ts and processLeave.ts: the two sides of a
-- binding, a user's connection and the map of the connections, agree.
use tslib.Common.{
  ℕ, zero, suc, ◌+◌, String, ◌≡◌, ◌≢◌, refl, sym, ap, ◌∙◌, true, false, Option, none, some, List,
  [], ◌∷◌, ◌==◌, eqb, eqb_iff, eq_iff, arith, if◌then◌else◌, Bool-cases, inl, inr,
}
use tslib.Common.Map
use tslib.Common.Map.{Map, get-set, get-delete, get-empty}
use tslib.AllTogether.{
  User, BaseGameContext, Request, enter, leave, other, find_user, rebind, is_superseded, unbind,
  bind,
}

-- The connection of the user with index `i`.
abbrev pub connection_at : List User → ℕ → Option String
connection_at [] i = none
connection_at (u ∷ us) zero = some u.connection_id
connection_at (u ∷ us) (suc i) = connection_at us i

-- Each connection in the map is a real one, and the user that it stands for has it.
abbrev pub IsBound : BaseGameContext → Type 0
IsBound context =
    (connection_id : String) (i : ℕ)
    → Map.get context.connected_users connection_id ≡ some i
    → (connection_id ≢ "") × (connection_at context.users i ≡ some connection_id)

-- The connection of the request has a name.
abbrev pub IsNamed : Request → Type 0
IsNamed (enter connection_id member_id) = connection_id ≢ ""
IsNamed (leave connection_id) = connection_id ≢ ""
IsNamed other = Unit

pub connection_at-rebind :
    (i j : ℕ) (connection_id previous : String) (users : List User)
    → connection_at users i ≡ some previous
    → connection_at (rebind i connection_id users) j
      ≡ (if eqb i j then some connection_id else connection_at users j)
connection_at-rebind i j c p [] h = ground arith
connection_at-rebind zero zero c p (u ∷ us) h = refl
connection_at-rebind zero (suc j) c p (u ∷ us) h = ground arith
connection_at-rebind (suc i) zero c p (u ∷ us) h = ground arith
connection_at-rebind (suc i) (suc j) c p (u ∷ us) h =
    ground (arith, connection_at-rebind i j c p us h, eqb_iff i j, eqb_iff (suc i) (suc j))

pub unbind-IsBound :
    (context : BaseGameContext) (connection_id : String)
    → IsBound context
    → IsBound (unbind context connection_id)
unfolding unbind
unbind-IsBound context c b k i h =
    b k i (ground (arith, get-delete context.connected_users c k, eq_iff c k))

-- What a new binding of a user needs: no other connection stands for it.
abbrev pub IsFree : BaseGameContext → ℕ → String → Type 0
IsFree context i connection_id =
    (k : String) → Map.get context.connected_users k ≡ some i → k ≡ connection_id

bound_elsewhere :
    (context : BaseGameContext) (i : ℕ) (connection_id previous : String)
    → connection_at context.users i ≡ some previous
    → IsFree context i connection_id
    → IsBound context
    → (k : String) (j : ℕ) → (connection_id == k) ≡ false
    → Map.get context.connected_users k ≡ some j
    → (k ≢ "") × (connection_at (rebind i connection_id context.users) j ≡ some k)
bound_elsewhere context i c p h free b k j y e =
    let other : i ≢ j = λ z. ground (arith, free k (e ∙ ap some (sym z)), eq_iff c k) in
    (
      (b k j e).0,
      ground (arith, connection_at-rebind i j c p context.users h, eqb_iff i j, other, (b k j e).1),
    )

pub bind-IsBound :
    (context : BaseGameContext) (i : ℕ) (connection_id previous : String)
    → connection_id ≢ ""
    → connection_at context.users i ≡ some previous
    → IsFree context i connection_id
    → IsBound context
    → IsBound (bind context i connection_id)
unfolding bind
bind-IsBound context i c p n h free b k j e = elim (Bool-cases (c == k)) [
  | inl y ↦ (
    λ z. n ((eq_iff c k).0 y ∙ z),
    ground (
      arith,
      get-set context.connected_users c k i,
      connection_at-rebind i j c p context.users h,
      eqb_iff i j,
      eq_iff c k,
    ),
  )
  | inr y ↦
      bound_elsewhere context i c p h free b k j y
        (ground (arith, get-set context.connected_users c k i))
]

abbrev pub hit : ℕ → User → Option (ℕ × User)
hit i u = some (i, u)

found_here :
    (i n : ℕ) (u x : User) (xs : List User)
    → hit n x ≡ hit i u
    → (i ≡ n + 0) × (connection_at (x ∷ xs) 0 ≡ some u.connection_id)
found_here i n u x xs e = ground arith

-- A user found has the index that it is found at.
pub connection_at-find_user :
    (member_id : String) (i n : ℕ) (u : User) (users : List User)
    → find_user member_id n users ≡ hit i u
    → (d : ℕ) × (i ≡ n + d) × (connection_at users d ≡ some u.connection_id)
connection_at-find_user member_id i n u [] h = ground arith
connection_at-find_user member_id i n u (x ∷ xs) h = elim (Bool-cases (x.member_id == member_id)) [
  | inl y ↦ let (p, q) = found_here i n u x xs (rw y at h) in (0, p, q)
  | inr y ↦
      let (d, p, q) = connection_at-find_user member_id i (suc n) u xs (rw y at h) in
      (suc d, omega arith, q)
]

pub superseded-IsFree :
    (context : BaseGameContext) (i : ℕ) (connection_id previous : String)
    → IsBound context
    → connection_at context.users i ≡ some previous
    → is_superseded context i previous connection_id ≡ true
    → IsFree (unbind context previous) i connection_id
unfolding unbind
superseded-IsFree context i c p b h s k e =
    let old : Map.get context.connected_users k ≡ some i =
      ground (arith, get-delete context.connected_users p k) in
    ground (arith, (b k i old).1, get-delete context.connected_users p k, eq_iff p k)

pub kept-IsFree :
    (context : BaseGameContext) (i : ℕ) (connection_id previous : String)
    → IsBound context
    → connection_at context.users i ≡ some previous
    → is_superseded context i previous connection_id ≡ false
    → IsFree context i connection_id
unfolding is_superseded
kept-IsFree context i c p b h s k e = ground (arith, b k i e, eq_iff p "", eq_iff p c, eqb_iff i i)
