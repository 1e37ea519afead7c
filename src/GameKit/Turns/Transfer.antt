-- ===== src/GameKit/Turns/Transfer.antt =====
-- packages/game-kit/src/turns.ts: a log that one player sends arrives at another.
use tslib.Common.{
  ℕ, zero, suc, ◌+◌, ◌≤◌, ◌<◌, ◌≡◌, ◌≢◌, refl, sym, ap, ◌∙◌, subst, String, Bool, true, false, not,
  ◌&&◌, ◌||◌, none, some, List, [], ◌∷◌, ◌++◌, length, eqb, ltb, leb, ◌==◌, eq_refl, same_text,
  if_cases, arith,
}
use mathlib.Core.Option.{bind}
use tslib.GameKit.Turns.{TurnRecord, zero_hash, get_elem?, final_hash, validate_from, validate}
use tslib.GameKit.Turns.Game.{
  Manifest, Assembly, Room, quiet, Env, TurnGame, happen, await, and_next, caught, persist,
}
use tslib.GameKit.Turns.Resync.{
  max_safe, get_part, log_from, begins, validate_now, accept_all, finish_pending, replace_log,
  commit_log, commit_from, commit_assembly,
}
use tslib.GameKit.Turns.Lane.{Chunk, is_empty, add_part, chunk_for, on_chunk}
use tslib.GameKit.Turns.Play.{Event, sends_chunk}
use tslib.GameKit.Turns.Later.{Same, persist-Same}
use tslib.GameKit.Turns.Validity.{validated}
use tslib.GameKit.Turns.Acceptance.{caught-Same}
use tslib.GameKit.Turns.Chunks.{concat}
use tslib.GameKit.Turns.Restoration.{not-empty, contradiction}

module _ {Move : Type 0} where
  -- The parts under their numbers.
  abbrev pub numbered : ℕ → List (List (TurnRecord Move)) → List (ℕ × List (TurnRecord Move))
  numbered i [] = []
  numbered i (part ∷ parts) = (i, part) ∷ numbered (suc i) parts

  numbered-append :
      (i : ℕ) (parts : List (List (TurnRecord Move))) (part : List (TurnRecord Move))
      → numbered i (parts ++ (part ∷ [])) ≡ numbered i parts ++ ((i + length parts, part) ∷ [])
  numbered-append i [] part = ap (λ k. (k, part) ∷ []) (omega arith)
  numbered-append i (p ∷ parts) part =
      ap (λ l. (i, p) ∷ l)
        (numbered-append (suc i) parts part
          ∙ ap (λ k. numbered (suc i) parts ++ ((k, part) ∷ [])) (omega arith))

  length-numbered :
      (i : ℕ) (parts : List (List (TurnRecord Move))) → length (numbered i parts) ≡ length parts
  length-numbered i [] = refl
  length-numbered i (p ∷ parts) = ap suc (length-numbered (suc i) parts)

  get_part-numbered :
      (i : ℕ) (parts : List (List (TurnRecord Move))) (k : ℕ)
      → get_part (numbered i parts) (i + k) ≡ get_elem? parts k
  get_part-numbered i [] k = refl
  get_part-numbered i (p ∷ parts) zero =
      if_cases (λ o. o ≡ some p) (eqb i (i + 0)) (λ e. refl) (λ e. absurd (ground (arith, e)))
  get_part-numbered i (p ∷ parts) (suc k) =
      if_cases (λ o. o ≡ get_elem? parts k) (eqb i (i + suc k)) (λ e. absurd (ground (arith, e)))
        (λ e.
          ap (get_part (numbered (suc i) parts)) (omega arith) ∙ get_part-numbered (suc i) parts k)

  past_end : (parts : List (List (TurnRecord Move))) → get_elem? parts (length parts) ≡ none
  past_end [] = refl
  past_end (p ∷ parts) = past_end parts

  log_from-parts :
      (rows : List (ℕ × List (TurnRecord Move))) (i : ℕ) (parts : List (List (TurnRecord Move)))
      → ((k : ℕ) → get_part rows (i + k) ≡ get_elem? parts k)
      → log_from rows i (length parts) ≡ some (concat parts)
  log_from-parts rows i [] r = refl
  log_from-parts rows i (p ∷ parts) r =
      let first : get_part rows i ≡ some p =
        subst (λ k. get_part rows k ≡ some p) (omega arith) (r 0) in
      let rest : log_from rows (suc i) (length parts) ≡ some (concat parts) =
        log_from-parts rows (suc i) parts
          (λ k. subst (λ j. get_part rows j ≡ get_elem? parts k) (omega arith) (r (suc k))) in
      ground (arith, first, rest)

no_guard :
    (i n k : ℕ) (e : Bool)
    → i < n
    → n ≤ k
    → e ≡ false
    → (ltb k i || (not (ltb i n) || e)) ≡ true
    → ⊥
no_guard i n k e l m f h = ground arith

module _ {Move State : Type 0} (env : Env Move State) where
  -- Nothing happens while something is awaited.
  abbrev pub IsQuiet : Type 0
  IsQuiet = (n : ℕ) → env.happening n ≡ quiet

  quiet_await :
      IsQuiet → (s : TurnGame Move State) → await env s ≡ record s { awaits = suc s.awaits }
  unfolding await happen
  quiet_await q s = ap (λ h. happen env h (record s { awaits = suc s.awaits })) (q s.awaits)

  quiet_validate :
      IsQuiet
      → (previous : String) (index : ℕ) (state final : State) (log : List (TurnRecord Move))
        (s : TurnGame Move State)
      → validate_from env.rules previous index state log ≡ some final
      → (a : ℕ) × (validate_now env previous index state log s
          ≡ (some final, record s { awaits = a }))
  unfolding validate_now validate_from bind
  quiet_validate q previous index state final [] s v = (s.awaits, ap (λ o. (o, s)) v)
  quiet_validate q previous index state final (item ∷ log) s v =
      let (f, (next, e, w)) = validated env.rules previous index state final item log v in
      let (a, r) =
        quiet_validate q item.hash (suc index) next final log (record s { awaits = suc s.awaits })
          w in
      (a, rw (f, e, quiet_await q s) r)

  -- A game that has asked for a log and waits for it.
  pub record IsWaiting (id game_id from : String) (log : List (TurnRecord Move))
      (s : TurnGame Move State) : Type 0 where
    pub request_is : s.request_id ≡ some id
    pub game_is : s.game_id ≡ some game_id
    pub sender_is : s.requested_from ≡ some from
    pub no_assembly : s.assembly ≡ none
    pub no_moves : s.buffered ≡ []
    pub no_finish : s.pending_finish ≡ none
    pub is_active : s.disposed ≡ false
    pub log_begins : begins s.records log ≡ true

  -- The game has the log and its state.
  pub record HasLog (log : List (TurnRecord Move)) (final : State) (s t : TurnGame Move State)
      : Type 0 where
    pub log_is : t.records ≡ log
    pub state_is : t.state ≡ final
    pub frozen_stays : t.frozen ≡ s.frozen

  begins-length : (a b : List (TurnRecord Move)) → begins a b ≡ true → length a ≤ length b
  begins-length [] b h = omega arith
  begins-length (x ∷ a) [] h = absurd (ground (arith, h))
  begins-length (x ∷ a) (y ∷ b) h = omega (arith, begins-length a b (ground (arith, h)))

  pub HasLog-Same :
      (log : List (TurnRecord Move)) (final : State) (s t u : TurnGame Move State)
      → HasLog log final s t
      → Same env t u
      → HasLog log final s u
  HasLog-Same log final s t u h k = ground (arith, h, k)

  pub HasLog-from :
      (log : List (TurnRecord Move)) (final : State) (s u t : TurnGame Move State)
      → u.frozen ≡ s.frozen
      → HasLog log final u t
      → HasLog log final s t
  HasLog-from log final s u t e h = ground (arith, h, e)

  -- The end of an assembly, where no moves and no finish wait.
  replace_log-HasLog :
      (room : Room) (from : String) (log : List (TurnRecord Move)) (final : State)
      (s : TurnGame Move State)
      → s.disposed ≡ false
      → s.buffered ≡ []
      → s.pending_finish ≡ none
      → ((replace_log env room from log (some final, s)).0 ≡ false)
        × HasLog log final s (replace_log env room from log (some final, s)).1
  unfolding replace_log and_next accept_all finish_pending
  replace_log-HasLog room from log final s d b p =
      let Q = λ (r : Bool × TurnGame Move State). (r.0 ≡ false) × HasLog log final s r.1 in
      let t = record s {
        records = log;
        persistence_dirty = env.persists;
        state = final;
        request_id = none;
        assembly = none;
        timer = none;
        buffered = [];
      } in
      let rest = λ (u : TurnGame Move State). finish_pending env from u.pending_finish u in
      let done : Q (false, caught env (persist env t)) = (
        refl,
        HasLog-Same log final s t (caught env (persist env t))
            (record { log_is = refl; state_is = refl; frozen_stays = refl })
            (caught-Same env t (persist env t) (persist-Same env t)),
      ) in
      if_cases Q s.disposed (λ y. absurd (contradiction (sym d ∙ y)))
        (λ y.
          subst (λ w. Q (and_next env (accept_all env room w t) rest)) (sym b)
            (subst (λ f. Q (finish_pending env from f t)) (sym p) done))

  -- The manifest that `replyLog` sends, and an assembly of the first parts.
  abbrev pub manifest_of : String → String → List (TurnRecord Move) → ℕ → Manifest
  manifest_of id game_id log n = record {
    game_id = game_id;
    request_id = id;
    count = length log;
    final_hash = final_hash log;
    chunks = n;
  }

  abbrev pub gathered :
      Manifest
      → String
      → List (List (TurnRecord Move))
      → ℕ
      → TurnGame Move State
      → TurnGame Move State
  gathered m from parts total s = record s {
    assembly =
        some (record { manifest = m; from = from; parts = numbered 0 parts; total_bytes = total });
  }

  -- An assembly that is complete is committed.
  pub committed :
      IsQuiet
      → (room : Room) (id game_id from : String) (log : List (TurnRecord Move)) (final : State)
        (parts : List (List (TurnRecord Move))) (s : TurnGame Move State) (total : ℕ)
      → IsWaiting id game_id from log s
      → validate env.rules log ≡ some final
      → concat parts ≡ log
      → HasLog log final s
          (commit_assembly env room
            (gathered (manifest_of id game_id log (length parts)) from parts total s)).1
  unfolding commit_assembly commit_from commit_log validate
  committed q room id game_id from log final parts s total w v e =
      let m = manifest_of id game_id log (length parts) in
      let u = gathered m from parts total s in
      let a : Assembly Move = record {
        manifest = m;
        from = from;
        parts = numbered 0 parts;
        total_bytes = total;
      } in
      let Q = λ (r : Bool × TurnGame Move State). HasLog log final s r.1 in
      let assembled : log_from (numbered 0 parts) 0 (length parts) ≡ some log =
        log_from-parts (numbered 0 parts) 0 parts (get_part-numbered 0 parts) ∙ ap some e in
      let (n, checked) = quiet_validate q zero_hash 0 env.rules.initial final log u v in
      let done =
        (replace_log-HasLog room from log final (record u { awaits = n }) w.is_active w.no_moves
          w.no_finish).1 in
      if_cases Q (eqb (length (numbered 0 parts)) (length parts))
        (λ y.
          subst (λ o. Q (commit_log env room a o u)) (sym assembled)
            (if_cases Q
              (eqb (length log) (length log)
                && (final_hash log == final_hash log
                    && (leb (length s.records) (length log) && begins s.records log)))
              (λ z.
                subst (λ r. Q (replace_log env room from log r)) (sym checked)
                  (HasLog-from log final s (record u { awaits = n })
                    (replace_log env room from log (some final, record u { awaits = n })).1 refl
                    done))
              (λ z. absurd (
                ground (
                  arith,
                  z,
                  eq_refl (final_hash log),
                  w.log_begins,
                  begins-length s.records log w.log_begins,
                )))))
        (λ y. absurd (ground (arith, y, length-numbered 0 parts)))

  abbrev pub chunk_of : String → String → ℕ → List (TurnRecord Move) → Chunk Move
  chunk_of id game_id i part = record {
    game_id = game_id;
    request_id = id;
    part = i;
    records = part;
  }

  -- A part that is not there yet is added.
  pub added :
      (room : Room) (id game_id from : String) (log : List (TurnRecord Move)) (n : ℕ)
      (got : List (List (TurnRecord Move))) (p : List (TurnRecord Move)) (s : TurnGame Move State)
      (total : ℕ)
      → IsWaiting id game_id from log s
      → length got < n
      → n ≤ max_safe
      → p ≢ []
      → total + env.rules.bytes p ≤ env.max_bytes
      → on_chunk env room from
          (chunk_of id game_id (length got) p)
          (gathered (manifest_of id game_id log n) from got total s)
        ≡ commit_assembly env room (
            gathered
              (manifest_of id game_id log n)
              from
              (got ++ (p ∷ []))
              (total + env.rules.bytes p)
              s)
  unfolding on_chunk chunk_for add_part
  added room id game_id from log n got p s total w l k f b =
      let m = manifest_of id game_id log n in
      let u = gathered m from got total s in
      let v = chunk_of id game_id (length got) p in
      let a : Assembly Move = record {
        manifest = m;
        from = from;
        parts = numbered 0 got;
        total_bytes = total;
      } in
      let end =
        commit_assembly env room
          (gathered m from (got ++ (p ∷ [])) (total + env.rules.bytes p) s) in
      let Q = λ (r : Bool × TurnGame Move State). r ≡ end in
      let game : same_text s.game_id (some game_id) ≡ true =
        ap (λ o. same_text o (some game_id)) w.game_is ∙ eq_refl game_id in
      let request : same_text s.request_id (some id) ≡ true =
        ap (λ o. same_text o (some id)) w.request_is ∙ eq_refl id in
      let absent : get_part (numbered 0 got) (length got) ≡ none =
        ap (get_part (numbered 0 got)) (omega arith)
        ∙ (get_part-numbered 0 got (length got) ∙ past_end got) in
      let grown : numbered 0 got ++ ((length got, p) ∷ []) ≡ numbered 0 (got ++ (p ∷ [])) =
        ap (λ j. numbered 0 got ++ ((j, p) ∷ [])) (omega arith) ∙ sym (numbered-append 0 got p) in
      if_cases Q
        (not (from == from)
          || (not (same_text s.game_id (some game_id)) || not (same_text s.request_id (some id))))
        (λ y. absurd (ground (arith, y, eq_refl from, game, request)))
        (λ y.
          if_cases Q (ltb max_safe (length got) || (not (ltb (length got) n) || is_empty p))
            (λ z. absurd (no_guard (length got) n max_safe (is_empty p) l k (not-empty p f) z))
            (λ z.
              subst (λ o. Q (add_part env room from v a o u)) (sym absent)
                (if_cases Q (ltb env.max_bytes (total + env.rules.bytes p))
                  (λ g. absurd (ground (arith, g, b)))
                  (λ g.
                    ap
                      (λ l. commit_assembly env room (record s {
                        assembly = some (record {
                          manifest = m;
                          from = from;
                          parts = l;
                          total_bytes = total + env.rules.bytes p;
                        });
                      }))
                      grown))))

  -- While a part is missing nothing is committed.
  pub unfinished :
      (room : Room) (m : Manifest) (from : String) (got : List (List (TurnRecord Move)))
      (s : TurnGame Move State) (total : ℕ)
      → length got < m.chunks
      → commit_assembly env room (gathered m from got total s)
        ≡ (false, gathered m from got total s)
  unfolding commit_assembly commit_from
  unfinished room m from got s total l =
      if_cases (λ (r : Bool × TurnGame Move State). r ≡ (false, gathered m from got total s))
        (eqb (length (numbered 0 got)) m.chunks)
        (λ y. absurd (ground (arith, y, length-numbered 0 got, l))) (λ y. refl)

  abbrev pub chunk_events :
      Room → String → String → String → ℕ → List (List (TurnRecord Move)) → List (Event Move)
  chunk_events room id game_id from i [] = []
  chunk_events room id game_id from i (p ∷ parts) =
      sends_chunk room from (chunk_of id game_id i p)
      ∷ chunk_events room id game_id from (suc i) parts

  abbrev pub total_of : List (List (TurnRecord Move)) → ℕ
  total_of [] = 0
  total_of (p ∷ parts) = env.rules.bytes p + total_of parts
