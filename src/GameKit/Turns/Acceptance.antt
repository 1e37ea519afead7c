-- ===== src/GameKit/Turns/Acceptance.antt =====
-- packages/game-kit/src/turns.ts: what becomes of a record that is next in the log.
use tslib.Common.{
  ℕ, ◌≤◌, ◌≡◌, ◌≢◌, refl, sym, subst, String, Bool, true, false, not, ◌&&◌, ◌||◌, Option, none,
  some, [], ◌∷◌, ◌++◌, length, eqb_iff, ltb, ◌==◌, eq_iff, same_text, if_cases, ◌⊎◌, arith,
}
use tslib.GameKit.Turns.{TurnRecord, final_hash, player_at, is_text, is_in_turn, fits}
use tslib.GameKit.Turns.Game.{
  TurnMessage, Room, error, turn, Env, TurnGame, is_some, put, emit, fail, await, caught, persist,
  apply_next, extend, accept,
}
use tslib.GameKit.Turns.Later.{Same, Same-refl, Same-trans, emit-Same, await-Same, persist-Same}
use tslib.GameKit.Turns.History.{accept-fits}

module _ {Move State : Type 0} (env : Env Move State) where
  -- A game that takes moves, and a message with its next record.
  pub record IsAwaited (message : TurnMessage Move) (s : TurnGame Move State) : Type 0 where
    pub game_is : same_text message.game_id s.game_id ≡ true
    pub not_frozen : s.frozen ≡ false
    pub not_finished : s.finished ≡ false
    pub no_request : s.request_id ≡ none
    pub is_next : message.item.index ≡ length s.records

  accept-extend :
      (room : Room) (from : String) (message : TurnMessage Move) (s : TurnGame Move State)
      → IsAwaited message s
      → accept env room from message s ≡ extend env from message.item s
  unfolding accept
  accept-extend room from message s h =
      let P = λ (r : Bool × TurnGame Move State). r ≡ extend env from message.item s in
      if_cases P (not (same_text message.game_id s.game_id) || s.frozen || s.finished)
        (λ e. absurd (ground (arith, e, h)))
        (λ e.
          if_cases P (is_some s.request_id) (λ r. absurd (ground (arith, r, h)))
            (λ r.
              if_cases P (ltb message.item.index (length s.records))
                (λ l. absurd (ground (arith, l, h)))
                (λ l.
                  if_cases P (ltb (length s.records) message.item.index)
                    (λ g. absurd (ground (arith, g, h))) (λ g. refl))))

  -- The next record, by its sender, whose turn it is, with the right hash.
  abbrev pub IsFair : String → TurnRecord Move → TurnGame Move State → Type 0
  IsFair from item s =
      (item.by ≡ from) × (fits env.rules (final_hash s.records) (length s.records) item ≡ true)

  -- The log and the state have grown by the record.
  pub record IsAppended (item : TurnRecord Move) (next : State) (s t : TurnGame Move State)
      : Type 0 where
    pub records_are : t.records ≡ s.records ++ (item ∷ [])
    pub state_is : t.state ≡ next
    pub frozen_is : t.frozen ≡ s.frozen

  IsAppended-Same :
      (item : TurnRecord Move) (next : State) (s t u : TurnGame Move State)
      → IsAppended item next s t
      → Same env t u
      → IsAppended item next s u
  IsAppended-Same item next s t u h k = ground (arith, h, k)

  pub caught-Same :
      (s : TurnGame Move State) (r : Bool × TurnGame Move State)
      → Same env s r.1
      → Same env s (caught env r)
  unfolding caught
  caught-Same s (true, t) h = Same-trans env s t (emit env error t) h (emit-Same env error t)
  caught-Same s (false, t) h = h

  applied-IsAppended :
      (from : String) (item : TurnRecord Move) (next : State) (s : TurnGame Move State)
      → env.rules.bytes (s.records ++ (item ∷ [])) ≤ env.max_bytes
      → ((apply_next env from item (some next) s).0 ≡ false)
        × IsAppended item next s (apply_next env from item (some next) s).1
  unfolding apply_next
  applied-IsAppended from item next s h =
      let t = record s {
        state = next;
        records = s.records ++ (item ∷ []);
        persistence_dirty = env.persists;
      } in
      let o = turn item.index item.by in
      let a : IsAppended item next s t = record {
        records_are = refl;
        state_is = refl;
        frozen_is = refl;
      } in
      if_cases (λ (r : Bool × TurnGame Move State). (r.0 ≡ false) × IsAppended item next s r.1)
        (ltb env.max_bytes (env.rules.bytes (s.records ++ (item ∷ []))))
        (λ e. absurd (ground (arith, e, h)))
        (λ e. (
          refl,
          IsAppended-Same item next s t (caught env (persist env (emit env o t))) a (
              Same-trans env t (emit env o t) (caught env (persist env (emit env o t)))
                (emit-Same env o t)
                (caught-Same (emit env o t) (persist env (emit env o t))
                  (persist-Same env (emit env o t)))),
        ))

  awaited-IsAppended :
      (item : TurnRecord Move) (next : State) (s s1 t : TurnGame Move State)
      → Same env s s1
      → IsAppended item next s1 t
      → IsAppended item next s t
  awaited-IsAppended item next s s1 t k h = ground (arith, h, k)

  fits-tests :
      (from : String) (item : TurnRecord Move) (s : TurnGame Move State)
      → IsFair from item s
      → ((item.by == from && is_text (player_at env.rules (length s.records)) item.by) ≡ true)
        × (is_text (env.rules.hash (final_hash s.records) item.index item.by item.move) item.hash
            ≡ true)
  unfolding fits is_in_turn
  fits-tests from item s (b, f) =
      let e : item.index ≡ length s.records =
        ground (arith, f, eqb_iff item.index (length s.records)) in
      (
        ground (arith, b, f, eq_iff item.by from),
        subst
            (λ i.
              is_text (env.rules.hash (final_hash s.records) i item.by item.move) item.hash ≡ true)
            (sym e) (ground (arith, f)),
      )

  -- A game that takes moves takes the next one: sent by its player, whose turn it is, with the
  -- right hash,
  -- one that can be applied and leaves the log within its limit, it becomes the last record,
  -- its state
  -- becomes the state, and the game is not frozen. Whether the log can be stored does not matter.
  pub accept-IsAppended :
      (room : Room) (from : String) (message : TurnMessage Move) (s : TurnGame Move State)
      (next : State)
      → IsAwaited message s
      → IsFair from message.item s
      → env.rules.apply s.state message.item.move message.item.by ≡ some next
      → env.rules.bytes (s.records ++ (message.item ∷ [])) ≤ env.max_bytes
      → ((accept env room from message s).0 ≡ false)
        × IsAppended message.item next s (accept env room from message s).1
  unfolding extend
  accept-IsAppended room from message s next w f a b =
      let item = message.item in
      let P = λ (r : Bool × TurnGame Move State). (r.0 ≡ false) × IsAppended item next s r.1 in
      let s1 = await env s in
      let same = await-Same env s in
      let (p, q) = fits-tests from item s f in
      let applied : env.rules.apply s1.state item.move item.by ≡ some next =
        subst (λ z. env.rules.apply z item.move item.by ≡ some next) (sym same.same_state) a in
      let short =
        subst (λ l. env.rules.bytes (l ++ (item ∷ [])) ≤ env.max_bytes) (sym same.same_records) b in
      let (done, grown) = applied-IsAppended from item next s1 short in
      subst P (sym (accept-extend room from message s w)) (
        if_cases P (item.by == from && is_text (player_at env.rules (length s.records)) item.by)
          (λ e.
            if_cases P
              (is_text (env.rules.hash (final_hash s.records) item.index item.by item.move)
                item.hash)
              (λ g.
                subst (λ o. P (apply_next env from item o s1)) (sym applied)
                  (
                    done,
                    awaited-IsAppended item next s s1 (apply_next env from item (some next) s1).1
                        same grown,
                  ))
              (λ g. absurd (ground (arith, g, q))))
          (λ e. absurd (ground (arith, e, p))))

  -- The game is frozen, with its log and its state as they were.
  pub record IsRefused (s t : TurnGame Move State) : Type 0 where
    pub is_frozen : t.frozen ≡ true
    pub records_stay : t.records ≡ s.records
    pub state_stays : t.state ≡ s.state

  fail-IsRefused :
      (i : ℕ) (by : String) (s s1 : TurnGame Move State)
      → Same env s s1
      → IsRefused s (fail env i by s1)
  unfolding fail emit put
  fail-IsRefused i by s s1 h = ground (arith, h)

  -- What is wrong with a record: its sender is not its player, it does not fit, or it cannot
  -- be applied.
  abbrev pub IsUnfair : String → TurnRecord Move → TurnGame Move State → Type 0
  IsUnfair from item s =
      (item.by ≢ from)
      ⊎ (fits env.rules (final_hash s.records) (length s.records) item ≡ false)
      ⊎ (env.rules.apply s.state item.move item.by ≡ none)

  apply_next-IsRefused :
      (from : String) (item : TurnRecord Move) (o : Option State) (s s1 : TurnGame Move State)
      → Same env s s1
      → o ≡ none
      → ((apply_next env from item o s1).0 ≡ false) × IsRefused s (apply_next env from item o s1).1
  unfolding apply_next
  apply_next-IsRefused from item none s s1 h e = (refl, fail-IsRefused item.index from s s1 h)
  apply_next-IsRefused from item (some next) s s1 h e = absurd (ground (arith, e))

  unfair-none :
      (from : String) (item : TurnRecord Move) (s : TurnGame Move State)
      → IsUnfair from item s
      → item.index ≡ length s.records
      → (item.by == from && is_text (player_at env.rules (length s.records)) item.by) ≡ true
      → is_text (env.rules.hash (final_hash s.records) item.index item.by item.move) item.hash
        ≡ true
      → env.rules.apply s.state item.move item.by ≡ none
  unfair-none from item s u e p q = ground (
    arith,
    u,
    p,
    accept-fits env (final_hash s.records) from (length s.records) item p q e,
    eq_iff item.by from,
  )

  -- A game that takes moves is frozen by a next record that another sends than its player,
  -- that is out of
  -- turn, that has a wrong hash or that cannot be applied. Its log and its state stay as they were.
  pub accept-IsRefused :
      (room : Room) (from : String) (message : TurnMessage Move) (s : TurnGame Move State)
      → IsAwaited message s
      → IsUnfair from message.item s
      → ((accept env room from message s).0 ≡ false)
        × IsRefused s (accept env room from message s).1
  unfolding extend
  accept-IsRefused room from message s w u =
      let item = message.item in
      let P = λ (r : Bool × TurnGame Move State). (r.0 ≡ false) × IsRefused s r.1 in
      let s1 = await env s in
      let same = await-Same env s in
      subst P (sym (accept-extend room from message s w)) (
        if_cases P (item.by == from && is_text (player_at env.rules (length s.records)) item.by)
          (λ p.
            if_cases P
              (is_text (env.rules.hash (final_hash s.records) item.index item.by item.move)
                item.hash)
              (λ q.
                apply_next-IsRefused from item (env.rules.apply s1.state item.move item.by) s s1
                  same
                  (subst (λ z. env.rules.apply z item.move item.by ≡ none) (sym same.same_state)
                    (unfair-none from item s u w.is_next p q)))
              (λ q. (refl, fail-IsRefused (length s1.records) from s s1 same)))
          (λ p. (refl, fail-IsRefused (length s.records) from s s (Same-refl env s))))
