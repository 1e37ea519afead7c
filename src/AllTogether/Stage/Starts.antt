-- ===== src/AllTogether/Stage/Starts.antt =====
-- How the wait stage of packages/gamebase-all-together/src/services/doInStageWait.ts ends.
use tslib.Common.{
  ℕ, zero, suc, ◌+◌, ◌≤◌, ◌<◌, String, ◌≡◌, refl, ◌∙◌, subst, Bool, true, false, Option, none, some,
  List, [], ◌∷◌, length, eqb, eqb_iff, ltb, leb, leb→le, ltb→lt, arith, All, Bool-cases, inl, inr,
  ◌⊎◌,
}
use tslib.Common.Map
use tslib.AllTogether.{
  BaseGameContext, Request, leave_user, process_all, connected_count, is_all_connected,
}
use tslib.AllTogether.Bindings.{IsBound, IsNamed}
use tslib.AllTogether.Members.{process_all-IsBound, leave_user-IsBound}
use tslib.AllTogether.Counts.{
  HasUniqueKeys, AllBound, leave_user-HasUniqueKeys, process_all-HasUniqueKeys, counted,
}
use tslib.AllTogether.Stage.{
  prune, announce, check_age_changed, is_alive, wait_from, required_players, do_in_stage_wait,
}
use tslib.AllTogether.Stage.Users.{user_count, user_count-leave_user, user_count-process_all}

-- The two sides of the bindings agree, no key stands twice, and there are `k` users.
abbrev pub IsSound : ℕ → BaseGameContext → Type 0
IsSound k c = IsBound c × HasUniqueKeys c × (user_count c ≡ k)

leave_user-IsSound :
    (k : ℕ) (c : BaseGameContext) (id : String)
    → IsSound k c
    → IsSound k (leave_user c id (Map.get c.connected_users id))
leave_user-IsSound k c id (b, u, e) =
    let o = Map.get c.connected_users id in
    (
      leave_user-IsBound c id o refl b,
      leave_user-HasUniqueKeys c id o u,
      user_count-leave_user c id o ∙ e,
    )

prune-IsSound :
    (k : ℕ) (l : List (String × Bool)) (c : BaseGameContext) → IsSound k c → IsSound k (prune l c)
unfolding prune
prune-IsSound k [] c s = s
prune-IsSound k ((id, true) ∷ l) c s = prune-IsSound k l c s
prune-IsSound k ((id, false) ∷ l) c s =
    prune-IsSound k l (leave_user c id (Map.get c.connected_users id)) (leave_user-IsSound k c id s)

-- Two keys of one user are one.
one_key :
    (c : BaseGameContext)
    → IsBound c
    → (j k : String) (i : ℕ) → Map.get c.connected_users j ≡ some i
    → Map.get c.connected_users k ≡ some i
    → j ≡ k
one_key c b j k i x y = ground (arith, (b j i x).1, (b k i y).1)

module _ (drop_throws : String → Bool) (hook_throws : String → Bool) (start alive_millis : ℕ)
    (drop_undelivered : Bool) (polled : ℕ → List Request) (now age : ℕ → ℕ)
    (delivered : ℕ → BaseGameContext → List (String × Bool)) where
  -- All requests are on connections with a name.
  abbrev pub AreNamed : Type 0
  AreNamed = (n : ℕ) → All (λ m. IsNamed m) (polled n)

  -- While the stage is alive, the clock moves on from one round to the next: the loop sleeps.
  abbrev pub Sleeps : Type 0
  Sleeps = (n : ℕ) → now n < start + alive_millis → now n < now (suc n)

  abbrev pub round : ℕ → Option ℕ → BaseGameContext → BaseGameContext
  round n age_before c =
      check_age_changed drop_throws hook_throws start alive_millis drop_undelivered polled now age
        delivered n age_before (process_all drop_throws hook_throws (polled n) c)

  announce-IsSound :
      (k n : ℕ) (c : BaseGameContext)
      → IsSound k c
      → IsSound k (
          announce drop_throws hook_throws start alive_millis drop_undelivered polled now age
            delivered n c)
  unfolding announce
  announce-IsSound k n c s = elim (Bool-cases drop_undelivered) [
    | inl e ↦ rw e (prune-IsSound k (delivered n c) c s)
    | inr e ↦ rw e s
  ]

  check-IsSound :
      (k n : ℕ) (o : Option ℕ) (c : BaseGameContext)
      → IsSound k c
      → IsSound k (
          check_age_changed drop_throws hook_throws start alive_millis drop_undelivered polled now
            age delivered n o c)
  unfolding check_age_changed
  check-IsSound k n none c s = announce-IsSound k n c s
  check-IsSound k n (some a) c s = elim (Bool-cases (eqb a (age n))) [
    | inl e ↦ rw e s
    | inr e ↦ rw e (announce-IsSound k n c s)
  ]

  round-IsSound :
      (k n : ℕ) (o : Option ℕ) (c : BaseGameContext)
      → AreNamed
      → IsSound k c
      → IsSound k (round n o c)
  round-IsSound k n o c a (b, u, e) =
      check-IsSound k n o (process_all drop_throws hook_throws (polled n) c) (
        (process_all-IsBound drop_throws hook_throws (polled n) c (a n) b).0,
        process_all-HasUniqueKeys drop_throws hook_throws (polled n) c u,
        user_count-process_all drop_throws hook_throws (polled n) c ∙ e,
      )

  -- The context after so many rounds from round `n` on, whatever the loop tests.
  abbrev pub rounds_from : ℕ → ℕ → Option ℕ → BaseGameContext → BaseGameContext
  rounds_from zero n age_before c = c
  rounds_from (suc j) n age_before c = rounds_from j (suc n) (some (age n)) (round n age_before c)

  -- Neither is time up at round `n`, nor are all users connected.
  abbrev pub Waits : ℕ → BaseGameContext → Type 0
  Waits n c = (now n < start + alive_millis) × (is_all_connected c ≡ false)

  -- Either time is up at round `n`, or all users are connected.
  abbrev pub Stops : ℕ → BaseGameContext → Type 0
  Stops n c = (start + alive_millis ≤ now n) ⊎ (is_all_connected c ≡ true)

  -- The loop from round `n` on ends after `j` rounds, the first after which it has to.
  record Ends (k n : ℕ) (o : Option ℕ) (c : BaseGameContext) (r : Option BaseGameContext)
      : Type 0 where
    pub j : ℕ
    pub result : r ≡ some (rounds_from j n o c)
    pub sound : IsSound k (rounds_from j n o c)
    pub waits : (i : ℕ) → i < j → Waits (n + i) (rounds_from i n o c)
    pub stops : Stops (n + j) (rounds_from j n o c)

  at_once :
      (k n : ℕ) (o : Option ℕ) (c : BaseGameContext)
      → IsSound k c
      → Stops n c
      → Ends k n o c (some c)
  at_once k n o c i s = record {
    j = 0;
    result = refl;
    sound = i;
    waits = λ i h. absurd (omega (arith, h));
    stops = subst (λ m. Stops m c) (omega arith) s;
  }

  move : (n j : ℕ) → suc n + j ≡ n + suc j
  move n j = omega arith

  later :
      (k n : ℕ) (o : Option ℕ) (c : BaseGameContext) (r : Option BaseGameContext)
      → Waits n c
      → (e : Ends k (suc n) (some (age n)) (round n o c) r) → (i : ℕ) → i < suc e.j
      → Waits (n + i) (rounds_from i n o c)
  later k n o c r w e zero h = subst (λ m. Waits m c) (omega arith) w
  later k n o c r w e (suc i) h =
      subst (λ m. Waits m (rounds_from i (suc n) (some (age n)) (round n o c))) (move n i)
        (e.waits i (omega (arith, h)))

  one_more :
      (k n : ℕ) (o : Option ℕ) (c : BaseGameContext) (r : Option BaseGameContext)
      → Waits n c
      → Ends k (suc n) (some (age n)) (round n o c) r
      → Ends k n o c r
  one_more k n o c r w e = record {
    j = suc e.j;
    result = e.result;
    sound = e.sound;
    waits = later k n o c r w e;
    stops =
        subst (λ m. Stops m (rounds_from e.j (suc n) (some (age n)) (round n o c))) (move n e.j)
          e.stops;
  }

  wait_from-Ends :
      (k fuel n : ℕ) (o : Option ℕ) (c : BaseGameContext)
      → AreNamed
      → Sleeps
      → 0 < fuel
      → start + alive_millis < now n + fuel
      → IsSound k c
      → Ends k n o c (
          wait_from drop_throws hook_throws start alive_millis drop_undelivered polled now age
            delivered fuel n o c)
  unfolding wait_from is_alive
  wait_from-Ends k zero n o c a s z f i = absurd (omega (arith, z))
  wait_from-Ends k (suc fuel) n o c a s z f i =
      elim (Bool-cases (ltb (now n) (start + alive_millis))) [
        | inl e ↦
            let l = ltb→lt (now n) (start + alive_millis) e in
            elim (Bool-cases (is_all_connected c)) [
              | inl x ↦ rw (e, x) (at_once k n o c i (inr x))
              | inr x ↦
                  rw (e, x)
                    (one_more k n o c _ (l, x)
                      (wait_from-Ends k fuel (suc n) (some (age n)) (round n o c) a s
                        (omega (arith, f, l)) (omega (arith, f, s n l))
                        (round-IsSound k n o c a i)))
            ]
        | inr e ↦ rw e (at_once k n o c i (inl (ground (arith, e))))
      ]

  -- What the end of the stage says, after `j` rounds in context `c`.
  pub record EndedAfter (min_players : Option ℕ) (context : BaseGameContext) (j : ℕ)
      (c : BaseGameContext) (started : Bool) : Type 0 where
    pub context_is : c ≡ rounds_from j 0 none context
    pub waits : (i : ℕ) → i < j → Waits i (rounds_from i 0 none context)
    pub stops : Stops j c
    pub bound : IsBound c
    pub same_users : user_count c ≡ user_count context
    pub starts : started ≡ leb (required_players min_players context) (connected_count c)
    pub all_there : min_players ≡ none → started ≡ true → AllBound c
    pub in_time : min_players ≡ none → started ≡ false → start + alive_millis ≤ now j

  abbrev pub Ended : Option ℕ → BaseGameContext → Option (BaseGameContext × Bool) → Type 0
  Ended min_players context r =
      (j : ℕ) × (c : BaseGameContext) × (started : Bool) × (r ≡ some (c, started))
      × EndedAfter min_players context j c started

  all_bound : (c : BaseGameContext) (k : ℕ) → IsSound k c → k ≤ connected_count c → AllBound c
  all_bound c k (b, u, e) h =
      let (l, f) = counted c u b (one_key c b) in
      f ((eqb_iff (connected_count c) (length c.users)).1 (omega (arith, l, h, e)))

  time_up :
      (c : BaseGameContext) (k n : ℕ)
      → IsSound k c
      → leb k (connected_count c) ≡ false
      → Stops n c
      → start + alive_millis ≤ now n
  time_up c k n (b, u, e) h (inl t) = t
  time_up c k n (b, u, e) h (inr x) =
      let same : connected_count c ≡ length c.users =
        (eqb_iff (connected_count c) (length c.users)).0 x in
      absurd (ground (arith, same, e, h))

  from_zero : (n : ℕ) → 0 + n ≡ n
  from_zero n = omega arith

  -- With a round of fuel for each millisecond of the stage and a clock that moves on while it
  -- sleeps, the wait stage ends, with bindings that agree and the same users. It ends after the
  -- first round at which time is up or all users are connected, and not before, in the context of
  -- that round. The game starts exactly if the players that are required are connected: with
  -- `minPlayers`, that many; without it all users, and then each has a connection of its own, and
  -- the stage is given up only if time is up at the very round at which it ends.
  pub do_in_stage_wait-Ended :
      (fuel : ℕ) (min_players : Option ℕ) (context : BaseGameContext)
      → AreNamed
      → Sleeps
      → alive_millis < fuel
      → start ≤ now 0
      → IsBound context
      → HasUniqueKeys context
      → Ended min_players context (
          do_in_stage_wait drop_throws hook_throws start alive_millis drop_undelivered polled now
            age delivered fuel min_players context)
  unfolding do_in_stage_wait required_players
  do_in_stage_wait-Ended fuel min_players context a s f t b u =
      let k = user_count context in
      let e =
        wait_from-Ends k fuel 0 none context a s (omega (arith, f)) (omega (arith, f, t))
          (b, u, refl) in
      let c = rounds_from e.j 0 none context in
      let required = required_players min_players context in
      (
        e.j,
        c,
        leb required (connected_count c),
        rw e.result refl,
        record {
          context_is = refl;
          waits = λ i h.
              subst (λ m. Waits m (rounds_from i 0 none context)) (from_zero i) (e.waits i h);
          stops = subst (λ m. Stops m c) (from_zero e.j) e.stops;
          bound = e.sound.0;
          same_users = e.sound.2;
          starts = refl;
          all_there = λ n h. all_bound c k e.sound (
              leb→le k (connected_count c)
                (subst (λ o. leb (required_players o context) (connected_count c) ≡ true) n h));
          in_time = λ n h.
              time_up c k e.j e.sound
                (subst (λ o. leb (required_players o context) (connected_count c) ≡ false) n h)
                (subst (λ m. Stops m c) (from_zero e.j) e.stops);
        },
      )
