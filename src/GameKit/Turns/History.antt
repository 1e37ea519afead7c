-- ===== src/GameKit/Turns/History.antt =====
-- packages/game-kit/src/turns.ts: what `accept` and the assembly of a log do to the log.
use tslib.Common.{
  ℕ, ◌≡◌, refl, sym, subst, String, Bool, true, false, not, ◌&&◌, ◌||◌, Option, none, some, [], ◌∷◌,
  ◌++◌, length, eqb_iff, ltb, ◌==◌, same_text, if◌then◌else◌, if_cases, arith,
}
use tslib.GameKit.Turns.{TurnRecord, get_elem?, final_hash, player_at, is_text, is_in_turn, fits}
use tslib.GameKit.Turns.Game.{
  TurnMessage, Room, turn, Env, TurnGame, is_some, emit, fail, await, and_next, caught, persist,
  request_log, buffer, apply_next, extend, compare_known, accept,
}
use tslib.GameKit.Turns.Later.{
  begins-append, Later, Same, Same-Later, Later-refl, Later-trans, emit-Same, await-Same,
  fail-Later, and_next-Same, try_persist-Later, request_log-Same,
}
use tslib.GameKit.Turns.Validity.{validate-append}

module _ {Move State : Type 0} (env : Env Move State) where
  -- A value of a handler that changes nothing, and a fault.
  abbrev Leads : TurnGame Move State → Bool × TurnGame Move State → Type 0
  Leads s r = Later env s r.1

  appended-Later :
      (item : TurnRecord Move) (next : State) (s : TurnGame Move State)
      → fits env.rules (final_hash s.records) (length s.records) item ≡ true
      → env.rules.apply s.state item.move item.by ≡ some next
      → Later env s (record s {
        state = next;
        records = s.records ++ (item ∷ []);
        persistence_dirty = env.persists;
      })
  appended-Later item next s f a = record {
    played = λ p. validate-append env.rules s.records item s.state next p f a;
    history = begins-append s.records (item ∷ []);
    stays_frozen = λ h. h;
    stays_finished = λ h. (h, refl);
  }

  apply_next-Later :
      (from : String) (item : TurnRecord Move) (o : Option State) (s : TurnGame Move State)
      → env.rules.apply s.state item.move item.by ≡ o
      → fits env.rules (final_hash s.records) (length s.records) item ≡ true
      → Leads s (apply_next env from item o s)
  unfolding apply_next
  apply_next-Later from item none s e f = fail-Later env item.index from s
  apply_next-Later from item (some next) s e f =
      let t = record s {
        state = next;
        records = s.records ++ (item ∷ []);
        persistence_dirty = env.persists;
      } in
      let o = turn item.index item.by in
      if_cases (Leads s) (ltb env.max_bytes (env.rules.bytes (s.records ++ (item ∷ []))))
        (λ h. Later-refl env s)
        (λ h.
          Later-trans env s t (caught env (persist env (emit env o t)))
            (appended-Later item next s f e)
            (Later-trans env t (emit env o t) (caught env (persist env (emit env o t)))
              (Same-Later env t (emit env o t) (emit-Same env o t))
              (try_persist-Later env (emit env o t))))

  -- The tests of `accept` are those of `validate`.
  pub accept-fits :
      (previous from : String) (n : ℕ) (item : TurnRecord Move)
      → (item.by == from && is_text (player_at env.rules n) item.by) ≡ true
      → is_text (env.rules.hash previous item.index item.by item.move) item.hash ≡ true
      → item.index ≡ n
      → fits env.rules previous n item ≡ true
  unfolding fits is_in_turn
  accept-fits previous from n item p q e =
      let h : is_text (env.rules.hash previous n item.by item.move) item.hash ≡ true =
        subst (λ i. is_text (env.rules.hash previous i item.by item.move) item.hash ≡ true) e q in
      ground (arith, p, h, e, eqb_iff item.index n)

  extend-Later :
      (from : String) (item : TurnRecord Move) (s : TurnGame Move State)
      → item.index ≡ length s.records
      → Leads s (extend env from item s)
  unfolding extend
  extend-Later from item s e =
      let s1 = await env s in
      let same = await-Same env s in
      if_cases (Leads s)
        (item.by == from && is_text (player_at env.rules (length s.records)) item.by)
        (λ p.
          if_cases (Leads s)
            (is_text (env.rules.hash (final_hash s.records) item.index item.by item.move) item.hash)
            (λ q.
              Later-trans env s s1
                (apply_next env from item (env.rules.apply s1.state item.move item.by) s1).1
                (Same-Later env s s1 same)
                (apply_next-Later from item (env.rules.apply s1.state item.move item.by) s1 refl (
                  subst (λ l. fits env.rules (final_hash l) (length l) item ≡ true)
                    (sym same.same_records)
                    (accept-fits (final_hash s.records) from (length s.records) item p q e))))
            (λ q.
              Later-trans env s s1 (fail env (length s1.records) from s1) (Same-Later env s s1 same)
                (fail-Later env (length s1.records) from s1)))
        (λ p. fail-Later env (length s.records) from s)

  compare_known-Later :
      (from : String) (item : TurnRecord Move) (o : Option (TurnRecord Move))
      (s : TurnGame Move State)
      → Later env s (compare_known env from item o s)
  unfolding compare_known
  compare_known-Later from item none s = fail-Later env item.index from s
  compare_known-Later from item (some known) s =
      if_cases (Later env s) (known.hash == item.hash && item.by == from) (λ h. Later-refl env s)
        (λ h. fail-Later env item.index from s)

  buffer-Same :
      (from : String) (message : TurnMessage Move) (s : TurnGame Move State)
      → Same env s (buffer env from message s)
  unfolding buffer
  buffer-Same from message s = ground arith

  buffered-Later :
      (from : String) (message : TurnMessage Move) (s : TurnGame Move State)
      → Later env s (
          if ltb env.max_bytes (env.buffered_bytes (buffer env from message s).buffered)
          then fail env
              (length (buffer env from message s).records)
              from
              (buffer env from message s)
          else buffer env from message s)
  buffered-Later from message s =
      let s1 = buffer env from message s in
      let h = Same-Later env s s1 (buffer-Same from message s) in
      if_cases (Later env s) (ltb env.max_bytes (env.buffered_bytes s1.buffered))
        (λ e.
          Later-trans env s s1 (fail env (length s1.records) from s1) h
            (fail-Later env (length s1.records) from s1))
        (λ e. h)

  pub accept-Later :
      (room : Room) (from : String) (message : TurnMessage Move) (s : TurnGame Move State)
      → Leads s (accept env room from message s)
  unfolding accept
  accept-Later room from message s =
      let item = message.item in
      if_cases (Leads s) (not (same_text message.game_id s.game_id) || s.frozen || s.finished)
        (λ e. Later-refl env s)
        (λ e.
          if_cases (Leads s) (is_some s.request_id) (λ r. buffered-Later from message s)
            (λ r.
              if_cases (Leads s) (ltb item.index (length s.records))
                (λ lt. compare_known-Later from item (get_elem? s.records item.index) s)
                (λ ge.
                  if_cases (Leads s) (ltb (length s.records) item.index)
                    (λ gt.
                      Same-Later env s
                        (and_next env (request_log env room s)
                          (λ t. (false, buffer env from message t))).1
                        (and_next-Same env s (request_log env room s)
                          (λ t. (false, buffer env from message t)) (request_log-Same env room s)
                          (buffer-Same from message)))
                    (λ le. extend-Later from item s (ground (arith, ge, le))))))
