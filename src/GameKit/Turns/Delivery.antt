-- ===== src/GameKit/Turns/Delivery.antt =====
-- packages/game-kit/src/turns.ts: a manifest and its chunks, in their order, bring a log to
-- another player.
use tslib.Common.{
  ℕ, suc, ◌+◌, ◌≤◌, ◌<◌, ◌≡◌, ◌≢◌, refl, sym, ap, ◌∙◌, subst, String, Bool, true, false, not, ◌&&◌,
  ◌||◌, some, List, [], ◌∷◌, ◌++◌, append_assoc, length, length-append, All, eqb, ltb, eq_refl,
  same_text, if_cases, arith,
}
use Prim.Native.Nat.{◌/◌}
use tslib.GameKit.Turns.{TurnRecord, chunks, final_hash, validate}
use tslib.GameKit.Turns.Game.{Room, Env, TurnGame, caught}
use tslib.GameKit.Turns.Hashes.{is_hash}
use tslib.GameKit.Turns.Resync.{max_safe, commit_assembly}
use tslib.GameKit.Turns.Lane.{on_manifest, is_bad_manifest, is_other_assembly, on_chunk}
use tslib.GameKit.Turns.Play.{manifests, enqueue, step, run}
use tslib.GameKit.Turns.Later.{Same-refl}
use tslib.GameKit.Turns.Acceptance.{caught-Same}
use tslib.GameKit.Turns.Chunks.{concat}
use tslib.GameKit.Turns.Restoration.{length-concat, contradiction}
use tslib.GameKit.Turns.Restoration.{chunked}
use tslib.GameKit.Turns.Transfer.{
  IsQuiet, IsWaiting, HasLog, HasLog-Same, manifest_of, gathered, committed, added, unfinished,
  chunk_of, chunk_events, total_of,
}

neither : (a b : Bool) → a ≡ true → b ≡ false → (not a || b) ≡ true → ⊥
neither a b h k e = ground arith

module _ {Move State : Type 0} (env : Env Move State) where
  enqueued :
      (f : TurnGame Move State → Bool × TurnGame Move State) (s : TurnGame Move State)
      → s.disposed ≡ false
      → enqueue env f s ≡ caught env (f s)
  unfolding enqueue
  enqueued f s d =
      if_cases (λ t. t ≡ caught env (f s)) s.disposed (λ y. absurd (contradiction (sym d ∙ y)))
        (λ y. refl)

  ended-HasLog :
      (log : List (TurnRecord Move)) (final : State) (s : TurnGame Move State)
      (r : Bool × TurnGame Move State)
      → HasLog env log final s r.1
      → HasLog env log final s (caught env r)
  ended-HasLog log final s r h =
      HasLog-Same env log final s r.1 (caught env r) h (caught-Same env r.1 r (Same-refl env r.1))

  delivered :
      IsQuiet env
      → (room : Room) (id game_id from : String) (log : List (TurnRecord Move)) (final : State)
        (parts got : List (List (TurnRecord Move))) (p : List (TurnRecord Move))
        (ps : List (List (TurnRecord Move))) (s : TurnGame Move State) (total : ℕ)
      → IsWaiting env id game_id from log s
      → validate env.rules log ≡ some final
      → concat parts ≡ log
      → parts ≡ got ++ (p ∷ ps)
      → length parts ≤ max_safe
      → All (λ part. part ≢ []) (p ∷ ps)
      → total + total_of env (p ∷ ps) ≤ env.max_bytes
      → HasLog env log final s (
          run env
            (chunk_events env room id game_id from (length got) (p ∷ ps))
            (gathered env (manifest_of env id game_id log (length parts)) from got total s))
  unfolding run step
  delivered q room id game_id from log final parts got p [] s total w v e o k (f, fs) b =
      let m = manifest_of env id game_id log (length parts) in
      let u = gathered env m from got total s in
      let all = gathered env m from (got ++ (p ∷ [])) (total + env.rules.bytes p) s in
      let fewer : length got < length parts =
        subst (λ l. length got < length l) (sym o) (omega (arith, length-append got (p ∷ []))) in
      let on = λ (t : TurnGame Move State).
        on_chunk env room from (chunk_of env id game_id (length got) p) t in
      let ends : HasLog env log final s (commit_assembly env room all).1 =
        subst
          (λ l.
            HasLog env log final s
              (commit_assembly env room (gathered env m from l (total + env.rules.bytes p) s)).1)
          o
          (committed env q room id game_id from log final parts s (total + env.rules.bytes p) w v
            e) in
      subst (HasLog env log final s)
        (sym (
          enqueued on u w.is_active
          ∙ ap (caught env) (
              added env room id game_id from log (length parts) got p s total w fewer k f
                (omega (arith, b)))))
        (ended-HasLog log final s (commit_assembly env room all) ends)
  delivered q room id game_id from log final parts got p (p' ∷ ps) s total w v e o k (f, fs) b =
      let m = manifest_of env id game_id log (length parts) in
      let u = gathered env m from got total s in
      let next = gathered env m from (got ++ (p ∷ [])) (total + env.rules.bytes p) s in
      let sum : length parts ≡ length got + suc (suc (length ps)) =
        ap length o ∙ length-append got (p ∷ (p' ∷ ps)) in
      let longer : length (got ++ (p ∷ [])) ≡ suc (length got) =
        length-append got (p ∷ []) ∙ omega arith in
      let on = λ (t : TurnGame Move State).
        on_chunk env room from (chunk_of env id game_id (length got) p) t in
      let stepped : enqueue env on u ≡ next =
        enqueued on u w.is_active
        ∙ ap (caught env) (
            added env room id game_id from log (length parts) got p s total w (omega (arith, sum)) k
              f (omega (arith, b))
            ∙ unfinished env room m from (got ++ (p ∷ [])) s (total + env.rules.bytes p)
                (omega (arith, sum, longer))) in
      subst
        (λ t.
          HasLog env log final s
            (run env (chunk_events env room id game_id from (suc (length got)) (p' ∷ ps)) t))
        (sym stepped)
        (subst
          (λ i.
            HasLog env log final s
              (run env (chunk_events env room id game_id from i (p' ∷ ps)) next))
          longer
          (delivered q room id game_id from log final parts (got ++ (p ∷ [])) p' ps s
            (total + env.rules.bytes p) w v e (o ∙ sym (append_assoc got (p ∷ []) (p' ∷ ps))) k fs
            (omega (arith, b))))

  small_enough :
      (n c k q : ℕ) (h : Bool)
      → c ≤ n
      → n ≤ q
      → n ≤ k
      → h ≡ true
      → (ltb k n || (ltb k c || (ltb n c || ((eqb n 0 && not (eqb c 0)) || (ltb q n || not h)))))
        ≡ false
  small_enough n c k q h a b d e = ground arith

  announced :
      (room : Room) (id game_id from : String) (log : List (TurnRecord Move)) (n : ℕ)
      (s : TurnGame Move State)
      → IsWaiting env id game_id from log s
      → n ≤ length log
      → length log ≤ env.max_bytes / 80
      → length log ≤ max_safe
      → is_hash (final_hash log) ≡ true
      → on_manifest env room from (manifest_of env id game_id log n) s
        ≡ commit_assembly env room (gathered env (manifest_of env id game_id log n) from [] 0 s)
  unfolding on_manifest is_bad_manifest is_other_assembly
  announced room id game_id from log n s w c b k h =
      let m = manifest_of env id game_id log n in
      let Q = λ (r : Bool × TurnGame Move State).
        r ≡ commit_assembly env room (gathered env m from [] 0 s) in
      let request : same_text s.request_id (some id) ≡ true =
        ap (λ o. same_text o (some id)) w.request_is ∙ eq_refl id in
      let game : same_text s.game_id (some game_id) ≡ true =
        ap (λ o. same_text o (some game_id)) w.game_is ∙ eq_refl game_id in
      let sender : same_text s.requested_from (some from) ≡ true =
        ap (λ o. same_text o (some from)) w.sender_is ∙ eq_refl from in
      let good : is_bad_manifest env m ≡ false =
        small_enough (length log) n max_safe (env.max_bytes / 80) (is_hash (final_hash log)) c b k
          h in
      let alone : is_other_assembly env from s.assembly ≡ false =
        ap (is_other_assembly env from) w.no_assembly in
      if_cases Q
        (not (same_text s.request_id (some id)) || not (same_text s.game_id (some game_id)))
        (λ y. absurd (ground (arith, y, request, game)))
        (λ y.
          if_cases Q (not (same_text s.requested_from (some from)) || is_bad_manifest env m)
            (λ z. absurd (
              neither (same_text s.requested_from (some from)) (is_bad_manifest env m) sender good
                z))
            (λ z.
              if_cases Q (is_other_assembly env from s.assembly)
                (λ o. absurd (contradiction (sym alone ∙ o))) (λ o. refl)))

  transferred :
      IsQuiet env
      → (room : Room) (id game_id from : String) (log : List (TurnRecord Move)) (final : State)
        (parts : List (List (TurnRecord Move))) (s : TurnGame Move State)
      → IsWaiting env id game_id from log s
      → validate env.rules log ≡ some final
      → concat parts ≡ log
      → length parts ≤ max_safe
      → All (λ part. part ≢ []) parts
      → total_of env parts ≤ env.max_bytes
      → HasLog env log final s (
          run env (chunk_events env room id game_id from 0 parts) (
            caught env (
              commit_assembly env room
                (gathered env (manifest_of env id game_id log (length parts)) from [] 0 s))))
  unfolding run
  transferred q room id game_id from log final [] s w v e k f b =
      let r =
        commit_assembly env room (gathered env (manifest_of env id game_id log 0) from [] 0 s) in
      ended-HasLog log final s r (committed env q room id game_id from log final [] s 0 w v e)
  transferred q room id game_id from log final (p ∷ ps) s w v e k f b =
      let m = manifest_of env id game_id log (length (p ∷ ps)) in
      subst
        (λ r.
          HasLog env log final s
            (run env (chunk_events env room id game_id from 0 (p ∷ ps)) (caught env r)))
        (sym (unfinished env room m from [] s 0 (omega arith)))
        (delivered q room id game_id from log final (p ∷ ps) [] p ps s 0 w v e refl k f
          (omega (arith, b)))

  -- A game that has asked another player for the log, whose records the log begins with, and
  -- that is not
  -- disturbed: where the manifest of a valid log and its chunks, as the other player splits
  -- it, arrive in
  -- their order, and are within the limits, the game ends up with the log, with the state that
  -- its moves lead to, and frozen only if it was.
  pub run-HasLog :
      IsQuiet env
      → (room : Room) (id game_id from : String) (log : List (TurnRecord Move)) (final : State)
        (parts : List (List (TurnRecord Move))) (s : TurnGame Move State)
      → IsWaiting env id game_id from log s
      → validate env.rules log ≡ some final
      → chunks env.rules 7000 log ≡ some parts
      → length log ≤ env.max_bytes / 80
      → length log ≤ max_safe
      → is_hash (final_hash log) ≡ true
      → total_of env parts ≤ env.max_bytes
      → HasLog env log final s (
          run env
            (manifests room from (manifest_of env id game_id log (length parts))
              ∷ chunk_events env room id game_id from 0 parts)
            s)
  unfolding run step
  run-HasLog q room id game_id from log final parts s w v c b k h t =
      let m = manifest_of env id game_id log (length parts) in
      let (e, filled) = chunked env 7000 log parts c in
      let fewer : length parts ≤ length log =
        subst (λ l. length parts ≤ length l) e (length-concat parts filled) in
      let on = λ (t : TurnGame Move State). on_manifest env room from m t in
      subst
        (λ x. HasLog env log final s (run env (chunk_events env room id game_id from 0 parts) x))
        (sym (
          enqueued on s w.is_active
          ∙ ap (caught env) (announced room id game_id from log (length parts) s w fewer b k h)))
        (transferred q room id game_id from log final parts s w v e (omega (arith, fewer, k)) filled
          t)
