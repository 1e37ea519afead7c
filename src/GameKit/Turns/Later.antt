-- ===== src/GameKit/Turns/Later.antt =====
-- packages/game-kit/src/turns.ts: how a turn game may change, and the building blocks of its
-- handlers.
use tslib.Common.{
  ℕ, suc, ◌≡◌, refl, sym, ap, ◌∙◌, subst, String, Bool, true, false, ◌&&◌, ◌||◌, Option, none, some,
  List, [], ◌∷◌, ◌++◌, length, eq_iff, eq_refl, if_cases, arith,
}
use tslib.GameKit.Turns.{TurnRecord, chunks, final_hash, validate}
use tslib.GameKit.Turns.Game.{
  Room, Output, error, asked, stored_chunk, stored_manifest, Happening, quiet, expires, disposes,
  Env, TurnGame, is_some, put, emit, fail, dispose, expire_from, happen, await, call, and_next,
  caught, store_parts, store_manifest, persist_parts, persist, ask, responder_for, request_log,
}
use tslib.GameKit.Turns.Resync.{begins}

module _ {Move : Type 0} where
  pub begins_refl : (l : List (TurnRecord Move)) → begins l l ≡ true
  begins_refl [] = refl
  begins_refl (r ∷ l) = ground (arith, eq_refl r.hash, begins_refl l)

  pub begins_trans :
      (a b c : List (TurnRecord Move)) → begins a b ≡ true → begins b c ≡ true → begins a c ≡ true
  begins_trans [] b c h k = refl
  begins_trans (x ∷ a) [] c h k = absurd (ground (arith, h))
  begins_trans (x ∷ a) (y ∷ b) [] h k = absurd (ground (arith, k))
  begins_trans (x ∷ a) (y ∷ b) (z ∷ c) h k = ground (
    arith,
    h,
    k,
    eq_iff y.hash x.hash,
    eq_iff z.hash y.hash,
    eq_iff z.hash x.hash,
    begins_trans a b c,
  )

  pub begins-append : (a b : List (TurnRecord Move)) → begins a (a ++ b) ≡ true
  begins-append [] b = refl
  begins-append (r ∷ a) b = ground (arith, eq_refl r.hash, begins-append a b)

module _ {Move State : Type 0} (env : Env Move State) where
  -- The state is what the moves of the log lead to, and the log is valid.
  abbrev pub IsPlayed : TurnGame Move State → Type 0
  IsPlayed s = validate env.rules s.records ≡ some s.state

  -- From one game to another the log keeps its records, a game that is frozen or finished
  -- stays so, and its
  -- result stands.
  pub record Later (s t : TurnGame Move State) : Type 0 where
    pub played : IsPlayed s → IsPlayed t
    pub history : begins s.records t.records ≡ true
    pub stays_frozen : s.frozen ≡ true → t.frozen ≡ true
    pub stays_finished :
        s.finished ≡ true → (t.finished ≡ true) × (t.finish_result ≡ s.finish_result)

  -- Nothing of this changes.
  pub record Same (s t : TurnGame Move State) : Type 0 where
    pub same_records : t.records ≡ s.records
    pub same_state : t.state ≡ s.state
    pub same_frozen : t.frozen ≡ s.frozen
    pub same_finished : t.finished ≡ s.finished
    pub same_result : t.finish_result ≡ s.finish_result

  pub Same-refl : (s : TurnGame Move State) → Same s s
  Same-refl s = ground arith

  pub Same-trans : (s t u : TurnGame Move State) → Same s t → Same t u → Same s u
  Same-trans s t u h k = ground (arith, h, k)

  pub Same-Later : (s t : TurnGame Move State) → Same s t → Later s t
  Same-Later s t h = record {
    played = λ p. ap (validate env.rules) h.same_records ∙ (p ∙ ap some (sym h.same_state));
    history = subst (λ l. begins s.records l ≡ true) (sym h.same_records) (begins_refl s.records);
    stays_frozen = λ f. h.same_frozen ∙ f;
    stays_finished = λ f. (h.same_finished ∙ f, h.same_result);
  }

  pub Later-refl : (s : TurnGame Move State) → Later s s
  Later-refl s = Same-Later s s (Same-refl s)

  pub Later-trans : (s t u : TurnGame Move State) → Later s t → Later t u → Later s u
  Later-trans s t u h k = record {
    played = λ p. k.played (h.played p);
    history = begins_trans s.records t.records u.records h.history k.history;
    stays_frozen = λ f. k.stays_frozen (h.stays_frozen f);
    stays_finished =
        λ f. let (a, b) = h.stays_finished f in let (c, d) = k.stays_finished a in (c, d ∙ b);
  }

  pub emit-Same : (o : Output Move) (s : TurnGame Move State) → Same s (emit env o s)
  unfolding emit put
  emit-Same o s = ground arith

  pub happen-Same : (h : Happening) (s : TurnGame Move State) → Same s (happen env h s)
  unfolding happen expire_from dispose emit put
  happen-Same quiet s = Same-refl s
  happen-Same disposes s = ground arith
  happen-Same expires s = ground arith

  pub await-Same : (s : TurnGame Move State) → Same s (await env s)
  unfolding await
  await-Same s =
      let h = happen-Same (env.happening s.awaits) (record s { awaits = suc s.awaits }) in
      record {
        same_records = h.same_records;
        same_state = h.same_state;
        same_frozen = h.same_frozen;
        same_finished = h.same_finished;
        same_result = h.same_result;
      }

  pub fail-Later : (i : ℕ) (by : String) (s : TurnGame Move State) → Later s (fail env i by s)
  unfolding fail emit put
  fail-Later i by s = ground (arith, begins_refl s.records)

  pub put-Same : (o : Output Move) (s : TurnGame Move State) → Same s (put env o s)
  unfolding put
  put-Same o s = ground arith

  pub call-Same : (s : TurnGame Move State) → Same s (call env s).1
  unfolding call
  call-Same s = await-Same s

  -- An awaited call after something is put on the trace.
  pub told-Same : (o : Output Move) (s : TurnGame Move State) → Same s (call env (put env o s)).1
  told-Same o s =
      Same-trans s (put env o s) (call env (put env o s)).1 (put-Same o s) (call-Same (put env o s))

  pub and_next-Same :
      (s : TurnGame Move State) (r : Bool × TurnGame Move State)
      (f : TurnGame Move State → Bool × TurnGame Move State)
      → Same s r.1
      → ((t : TurnGame Move State) → Same t (f t).1)
      → Same s (and_next env r f).1
  unfolding and_next
  and_next-Same s (true, t) f h k = h
  and_next-Same s (false, t) f h k = Same-trans s t (f t).1 h (k t)

  pub and_next-Later :
      (s : TurnGame Move State) (r : Bool × TurnGame Move State)
      (f : TurnGame Move State → Bool × TurnGame Move State)
      → Later s r.1
      → ((t : TurnGame Move State) → Later t (f t).1)
      → Later s (and_next env r f).1
  unfolding and_next
  and_next-Later s (true, t) f h k = h
  and_next-Later s (false, t) f h k = Later-trans s t (f t).1 h (k t)

  pub caught-Later :
      (s : TurnGame Move State) (r : Bool × TurnGame Move State)
      → Later s r.1
      → Later s (caught env r)
  unfolding caught
  caught-Later s (true, t) h =
      Later-trans s t (emit env error t) h (Same-Later t (emit env error t) (emit-Same error t))
  caught-Later s (false, t) h = h

  store_parts-Same :
      (parts : List (List (TurnRecord Move))) (s : TurnGame Move State)
      → Same s (store_parts env parts s).1
  unfolding store_parts
  store_parts-Same [] s = Same-refl s
  store_parts-Same (part ∷ parts) s =
      if_cases (λ (r : Bool × TurnGame Move State). Same s r.1) (s.disposed || s.frozen)
        (λ e. Same-refl s)
        (λ e.
          and_next-Same s (call env (put env (stored_chunk part) s)) (λ t. store_parts env parts t)
            (told-Same (stored_chunk part) s) (store_parts-Same parts))

  stored-Same : (t : TurnGame Move State) → Same t (record t { persistence_dirty = false })
  stored-Same t = ground arith

  store_manifest-Same : (s : TurnGame Move State) → Same s (store_manifest env s).1
  unfolding store_manifest
  store_manifest-Same s =
      let o = stored_manifest (length s.records) (final_hash s.records) in
      if_cases (λ (r : Bool × TurnGame Move State). Same s r.1) (s.disposed || s.frozen)
        (λ e. Same-refl s)
        (λ e.
          and_next-Same s (call env (put env o s))
            (λ t. (false, record t { persistence_dirty = false })) (told-Same o s) stored-Same)

  persist_parts-Same :
      (parts : Option (List (List (TurnRecord Move)))) (s : TurnGame Move State)
      → Same s (persist_parts env parts s).1
  unfolding persist_parts
  persist_parts-Same none s = Same-refl s
  persist_parts-Same (some parts) s =
      and_next-Same s (store_parts env parts s) (store_manifest env) (store_parts-Same parts s)
        store_manifest-Same

  pub persist-Same : (s : TurnGame Move State) → Same s (persist env s).1
  unfolding persist
  persist-Same s =
      if_cases (λ (r : Bool × TurnGame Move State). Same s r.1) (env.persists && is_some s.game_id)
        (λ e. persist_parts-Same (chunks env.rules 15000 s.records) s) (λ e. Same-refl s)

  pub try_persist-Later : (s : TurnGame Move State) → Later s (caught env (persist env s))
  try_persist-Later s =
      caught-Later s (persist env s) (Same-Later s (persist env s).1 (persist-Same s))

  ask-Same : (target : Option String) (s : TurnGame Move State) → Same s (ask env target s).1
  unfolding ask
  ask-Same none s = Same-refl s
  ask-Same (some target) s =
      let id = some (env.uuid s.drawn) in
      let h = told-Same (asked target (env.uuid s.drawn)) (record s {
        requested_from = some target;
        request_id = id;
        replay_request_id = id;
        assembly = none;
        buffered = [];
        timer = id;
        drawn = suc s.drawn;
      }) in
      record {
        same_records = h.same_records;
        same_state = h.same_state;
        same_frozen = h.same_frozen;
        same_finished = h.same_finished;
        same_result = h.same_result;
      }

  pub request_log-Same : (room : Room) (s : TurnGame Move State) → Same s (request_log env room s).1
  unfolding request_log
  request_log-Same room s =
      if_cases (λ (r : Bool × TurnGame Move State). Same s r.1) (s.disposed || is_some s.request_id)
        (λ e. Same-refl s) (λ e. ask-Same (responder_for env room env.me) s)
