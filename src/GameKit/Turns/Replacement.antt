-- ===== src/GameKit/Turns/Replacement.antt =====
-- packages/game-kit/src/turns.ts: what the assembly of a log and the end of a game do to the log.
use tslib.Common.{
  ℕ, suc, ◌≡◌, refl, sym, subst, String, Bool, true, false, not, ◌&&◌, ◌||◌, Option, none, some,
  List, [], ◌∷◌, length, eqb, leb, ◌==◌, same_text, if◌then◌else◌, if_cases, Bool-cases,
  Option-cases, inl, inr, arith,
}
use mathlib.Core.Option.{bind}
use tslib.GameKit.Turns.{
  TurnRecord, zero_hash, chunks, final_hash, is_in_turn, fits, validate_from, validate,
}
use tslib.GameKit.Turns.Game.{
  Buffered, Assembly, Finish, Room, answered, announced, stored_result, Env, TurnGame, is_some, put,
  fail, await, call, and_next, caught, persist, responder_for, accept,
}
use tslib.GameKit.Turns.Resync.{
  begins, log_from, announce, reply_with, reply_in, reply_log, validate_now, save_result,
  finish_once, finish_local, accept_all, finish_pending, replace_log, commit_log, commit_from,
  commit_assembly,
}
use tslib.GameKit.Turns.Later.{
  begins_refl, Later, Same, Same-refl, Same-trans, Same-Later, Later-refl, Later-trans, await-Same,
  fail-Later, told-Same, and_next-Same, and_next-Later, persist-Same, try_persist-Later,
}
use tslib.GameKit.Turns.History.{accept-Later}

module _ {Move State : Type 0} (env : Env Move State) where
  abbrev pub Leads : TurnGame Move State → Bool × TurnGame Move State → Type 0
  Leads s r = Later env s r.1

  -- `validate` as it runs gives what it gives at once, and only awaits.
  pub validate_now-validates :
      (previous : String) (index : ℕ) (state : State) (log : List (TurnRecord Move))
      (s : TurnGame Move State)
      → ((validate_now env previous index state log s).0
          ≡ validate_from env.rules previous index state log)
        × Same env s (validate_now env previous index state log s).1
  unfolding validate_now validate_from bind
  validate_now-validates previous index state [] s = (refl, Same-refl env s)
  validate_now-validates previous index state (item ∷ log) s =
      elim (Bool-cases (fits env.rules previous index item)) [
        | inl f ↦ rw f (elim (Option-cases (env.rules.apply state item.move item.by)) [
          | inl e ↦ rw e (refl, await-Same env s)
          | inr (rebuilt, e) ↦
              let (v, h) = validate_now-validates item.hash (suc index) rebuilt log (await env s) in
              let t = (validate_now env item.hash (suc index) rebuilt log (await env s)).1 in
              rw e (v, Same-trans env s (await env s) t (await-Same env s) h)
        ])
        | inr f ↦ rw f (
          refl,
          if_cases (Same env s) (is_in_turn env.rules index item) (λ e. await-Same env s)
              (λ e. Same-refl env s),
        )
      ]

  finish_once-Later :
      (result : String) (s : TurnGame Move State) → Later env s (finish_once env result s)
  unfolding finish_once
  finish_once-Later result s = ground (arith, begins_refl s.records)

  saved-Same : (s : TurnGame Move State) → Same env s (record s { result_saved = true })
  saved-Same s = ground arith

  save_result-Same : (s : TurnGame Move State) → Same env s (save_result env s).1
  unfolding save_result
  save_result-Same s =
      and_next-Same env s
        (if env.saves_result
          then call env (put env (stored_result s.finish_result (final_hash s.records)) s)
          else (false, s))
        (λ t. (false, record t { result_saved = true }))
        (if_cases (λ (r : Bool × TurnGame Move State). Same env s r.1) env.saves_result
          (λ e. told-Same env (stored_result s.finish_result (final_hash s.records)) s)
          (λ e. Same-refl env s))
        saved-Same

  pub finish_local-Later :
      (result : String) (s : TurnGame Move State) → Leads s (finish_local env result s)
  unfolding finish_local
  finish_local-Later result s =
      let s1 = finish_once env result s in
      let r : Bool × TurnGame Move State =
        if s1.persistence_dirty then persist env s1 else (false, s1) in
      let same : Same env s1 r.1 =
        if_cases (λ (r : Bool × TurnGame Move State). Same env s1 r.1) s1.persistence_dirty
          (λ e. persist-Same env s1) (λ e. Same-refl env s1) in
      if_cases (Leads s) s.result_saved (λ e. Later-refl env s)
        (λ e.
          Later-trans env s s1 (and_next env r (save_result env)).1 (finish_once-Later result s) (
            Same-Later env s1 (and_next env r (save_result env)).1
              (and_next-Same env s1 r (save_result env) same save_result-Same)))

  accept_all-Later :
      (room : Room) (waiting : List (Buffered Move)) (s : TurnGame Move State)
      → Leads s (accept_all env room waiting s)
  unfolding accept_all
  accept_all-Later room [] s = Later-refl env s
  accept_all-Later room (b ∷ waiting) s =
      and_next-Later env s (accept env room b.from b.payload s) (λ t. accept_all env room waiting t)
        (accept-Later env room b.from b.payload s) (accept_all-Later room waiting)

  finish_pending-Later :
      (from : String) (pending : Option Finish) (s : TurnGame Move State)
      → Leads s (finish_pending env from pending s)
  unfolding finish_pending
  finish_pending-Later from none s = try_persist-Later env s
  finish_pending-Later from (some f) s =
      let s1 = record s { pending_finish = none } in
      let h : Later env s s1 = ground (arith, begins_refl s.records) in
      if_cases (Leads s) s.frozen (λ e. try_persist-Later env s)
        (λ e.
          if_cases (Leads s)
            (not (eqb f.count (length s.records)) || not (f.final_hash == final_hash s.records))
            (λ m.
              Later-trans env s s1 (fail env (length s.records) from s1) h
                (fail-Later env (length s.records) from s1))
            (λ m.
              Later-trans env s s1
                (and_next env (finish_local env f.result s1)
                  (λ t. (false, caught env (persist env t)))).1
                h
                (and_next-Later env s1 (finish_local env f.result s1)
                  (λ t. (false, caught env (persist env t))) (finish_local-Later f.result s1)
                  (try_persist-Later env))))

  -- The log that takes the place of the records begins with them and is valid.
  replaced-Later :
      (log : List (TurnRecord Move)) (rebuilt : State) (s : TurnGame Move State)
      → validate env.rules log ≡ some rebuilt
      → begins s.records log ≡ true
      → Later env s (record s {
        records = log;
        persistence_dirty = env.persists;
        state = rebuilt;
        request_id = none;
        assembly = none;
        timer = none;
        buffered = [];
      })
  replaced-Later log rebuilt s v b = record {
    played = λ p. v;
    history = b;
    stays_frozen = λ h. h;
    stays_finished = λ h. (h, refl);
  }

  replace_log-Later :
      (room : Room) (from : String) (log : List (TurnRecord Move)) (o : Option State)
      (s : TurnGame Move State)
      → validate env.rules log ≡ o
      → begins s.records log ≡ true
      → Leads s (replace_log env room from log (o, s))
  unfolding replace_log
  replace_log-Later room from log none s v b = fail-Later env (length s.records) from s
  replace_log-Later room from log (some rebuilt) s v b =
      let t = record s {
        records = log;
        persistence_dirty = env.persists;
        state = rebuilt;
        request_id = none;
        assembly = none;
        timer = none;
        buffered = [];
      } in
      let rest = λ (u : TurnGame Move State). finish_pending env from u.pending_finish u in
      if_cases (Leads s) s.disposed (λ e. Later-refl env s)
        (λ e.
          Later-trans env s t (and_next env (accept_all env room s.buffered t) rest).1
            (replaced-Later log rebuilt s v b)
            (and_next-Later env t (accept_all env room s.buffered t) rest
              (accept_all-Later room s.buffered t)
              (λ u. finish_pending-Later from u.pending_finish u)))

  commit_log-Later :
      (room : Room) (a : Assembly Move) (o : Option (List (TurnRecord Move)))
      (s : TurnGame Move State)
      → Leads s (commit_log env room a o s)
  unfolding commit_log validate
  commit_log-Later room a none s = Later-refl env s
  commit_log-Later room a (some log) s =
      let r = validate_now env zero_hash 0 env.rules.initial log s in
      let (v, same) = validate_now-validates zero_hash 0 env.rules.initial log s in
      if_cases (Leads s)
        (eqb (length log) a.manifest.count
          && (final_hash log == a.manifest.final_hash
              && (leb (length s.records) (length log) && begins s.records log)))
        (λ e.
          Later-trans env s r.1 (replace_log env room a.from log r).1 (Same-Later env s r.1 same) (
            replace_log-Later room a.from log r.0 r.1 (sym v)
              (subst (λ l. begins l log ≡ true) (sym same.same_records) (ground (arith, e)))))
        (λ e. fail-Later env (length s.records) a.from s)

  commit_from-Later :
      (room : Room) (o : Option (Assembly Move)) (s : TurnGame Move State)
      → Leads s (commit_from env room o s)
  unfolding commit_from
  commit_from-Later room none s = Later-refl env s
  commit_from-Later room (some a) s =
      if_cases (Leads s) (eqb (length a.parts) a.manifest.chunks)
        (λ e. commit_log-Later room a (log_from a.parts 0 a.manifest.chunks) s)
        (λ e. Later-refl env s)

  pub commit_assembly-Later :
      (room : Room) (s : TurnGame Move State) → Leads s (commit_assembly env room s)
  unfolding commit_assembly
  commit_assembly-Later room s = commit_from-Later room s.assembly s

  announce-Same :
      (target : Option String) (s : TurnGame Move State) → Same env s (announce env target s).1
  unfolding announce
  announce-Same target s =
      if_cases (λ (r : Bool × TurnGame Move State). Same env s r.1) (is_some s.game_id)
        (λ e. told-Same env (announced target) s) (λ e. Same-refl env s)

  pub announce-Later :
      (target : Option String) (s : TurnGame Move State) → Leads s (announce env target s)
  announce-Later target s = Same-Later env s (announce env target s).1 (announce-Same target s)

  reply_with-Later :
      (from request_id game_id : String) (parts : Option (List (List (TurnRecord Move))))
      (s : TurnGame Move State)
      → Leads s (reply_with env from request_id game_id parts s)
  unfolding reply_with
  reply_with-Later from request_id game_id none s = Later-refl env s
  reply_with-Later from request_id game_id (some parts) s =
      let o =
        answered from
          (record {
            game_id = game_id;
            request_id = request_id;
            count = length s.records;
            final_hash = final_hash s.records;
            chunks = length parts;
          })
          parts in
      and_next-Later env s (announce env (some from) s) (λ t. call env (put env o t))
        (announce-Later (some from) s)
        (λ t. Same-Later env t (call env (put env o t)).1 (told-Same env o t))

  reply_in-Later :
      (o : Option String) (room : Room) (from asked_id : String) (request_id : Option String)
      (s : TurnGame Move State)
      → Leads s (reply_in env o room from asked_id request_id s)
  unfolding reply_in
  reply_in-Later none room from asked_id request_id s = Later-refl env s
  reply_in-Later (some game_id) room from asked_id none s = Later-refl env s
  reply_in-Later (some game_id) room from asked_id (some request_id) s =
      if_cases (Leads s)
        ((not (asked_id == "") && not (asked_id == game_id))
          || not (same_text (responder_for env room from) (some env.me)))
        (λ e. Later-refl env s)
        (λ e. reply_with-Later from request_id game_id (chunks env.rules 7000 s.records) s)

  pub reply_log-Later :
      (room : Room) (from asked_id : String) (request_id : Option String) (s : TurnGame Move State)
      → Leads s (reply_log env room from asked_id request_id s)
  unfolding reply_log
  reply_log-Later room from asked_id request_id s =
      reply_in-Later s.game_id room from asked_id request_id s
