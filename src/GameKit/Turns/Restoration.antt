-- ===== src/GameKit/Turns/Restoration.antt =====
-- packages/game-kit/src/turns.ts: what a game stores is what it restores.
use tslib.Common.{
  ℕ, suc, ◌+◌, ◌≤◌, ◌≡◌, ◌≢◌, refl, sym, ap, ◌∙◌, subst, String, true, false, not, ◌&&◌, ◌||◌,
  Option, some, List, [], ◌∷◌, ◌++◌, length, length-append, append-nil, append_assoc, All, eqb, ltb,
  ◌==◌, eq_refl, if_cases, arith,
}
use Prim.Native.Nat.{◌/◌}
use tslib.GameKit.Turns.{TurnRecord, get_elem?, chunks, final_hash}
use tslib.GameKit.Turns.Game.{Env, TurnGame}
use tslib.GameKit.Turns.Later.{IsPlayed}
use tslib.GameKit.Turns.Lane.{same_texts, is_empty}
use tslib.GameKit.Turns.Startup.{
  Saved, Restored, restored, Loaded, loaded, load_from, restore_state, restore_log, restore,
}
use tslib.GameKit.Turns.Resync.{max_safe}
use tslib.GameKit.Turns.Chunks.{concat, chunks-Splits, Splits, IsChunk}
use tslib.GameKit.Turns.Startup.{add_loaded}
use Prim.Native.Nat.{◌/◌}

module _ {A : Type 0} where
  IsFilled : List A → Type 0
  IsFilled part = part ≢ []

  pub length-concat :
      (parts : List (List A)) → All (λ part. part ≢ []) parts → length parts ≤ length (concat parts)
  length-concat [] h = omega arith
  length-concat ([] ∷ parts) (h, k) = absurd (h refl)
  length-concat ((x ∷ part) ∷ parts) (h, k) =
      omega (arith, length-append part (concat parts), length-concat parts k)

  pub not-empty : (l : List A) → l ≢ [] → is_empty l ≡ false
  not-empty [] h = absurd (h refl)
  not-empty (x ∷ l) h = refl

same_texts_refl : (l : List String) → same_texts l l ≡ true
same_texts_refl [] = refl
same_texts_refl (t ∷ l) = ground (arith, eq_refl t, same_texts_refl l)

pub contradiction : false ≡ true → ⊥
contradiction h = cc

pub in_bounds :
    (p n k q : ℕ)
    → p ≤ n
    → n ≤ q
    → n ≤ k
    → (ltb k p || (ltb k n || (ltb n p || (ltb q n || (eqb n 0 && not (eqb p 0)))))) ≡ false
in_bounds p n k q a b c = ground arith

module _ {Move State : Type 0} (env : Env Move State) where
  -- The rows that `persist` stores: the manifest and the chunks under their numbers.
  abbrev pub stored_rows : String → List (List (TurnRecord Move)) → TurnGame Move State → Saved Move
  stored_rows game_id parts s = record {
    version = 1;
    game_id = game_id;
    players = env.rules.players;
    initial_hash = env.initial_hash;
    chunks = length parts;
    count = length s.records;
    final_hash = final_hash s.records;
    parts = get_elem? parts;
  }

  -- JSON of more records is not shorter.
  abbrev pub IsMonotone : Type 0
  IsMonotone = (a b : List (TurnRecord Move)) → env.rules.bytes a ≤ env.rules.bytes (a ++ b)

  add_loaded-part :
      (log part : List (TurnRecord Move))
      → part ≢ []
      → env.rules.bytes (log ++ part) ≤ env.max_bytes
      → add_loaded env log (some part) ≡ loaded (log ++ part)
  unfolding add_loaded
  add_loaded-part log part h b =
      let P = λ (l : Loaded Move). l ≡ loaded (log ++ part) in
      if_cases P (is_empty part) (λ e. absurd (ground (arith, e, not-empty part h)))
        (λ e.
          if_cases P (ltb env.max_bytes (env.rules.bytes (log ++ part)))
            (λ g. absurd (ground (arith, g, b))) (λ g. refl))

  load_from-parts :
      IsMonotone
      → (parts : List (List (TurnRecord Move))) (row : ℕ → Option (List (TurnRecord Move))) (i : ℕ)
        (log : List (TurnRecord Move))
      → ((k : ℕ) → row (i + k) ≡ get_elem? parts k)
      → All (λ part. part ≢ []) parts
      → env.rules.bytes (log ++ concat parts) ≤ env.max_bytes
      → load_from env row i (length parts) (loaded log) ≡ loaded (log ++ concat parts)
  unfolding load_from
  load_from-parts mono [] row i log r f b = ap loaded (sym (append-nil log))
  load_from-parts mono (part ∷ parts) row i log r (f, fs) b =
      let whole : (log ++ part) ++ concat parts ≡ log ++ (part ++ concat parts) =
        append_assoc log part (concat parts) in
      let b1 : env.rules.bytes ((log ++ part) ++ concat parts) ≤ env.max_bytes =
        subst (λ l. env.rules.bytes l ≤ env.max_bytes) (sym whole) b in
      let first : row i ≡ some part = subst (λ k. row k ≡ some part) (omega arith) (r 0) in
      let one : add_loaded env log (row i) ≡ loaded (log ++ part) =
        subst (λ o. add_loaded env log o ≡ loaded (log ++ part)) (sym first)
          (add_loaded-part log part f (omega (arith, mono (log ++ part) (concat parts), b1))) in
      subst
        (λ l. load_from env row (suc i) (length parts) l ≡ loaded (log ++ (part ++ concat parts)))
        (sym one)
        (subst (λ l. load_from env row (suc i) (length parts) (loaded (log ++ part)) ≡ loaded l)
          whole
          (load_from-parts mono parts row (suc i) (log ++ part)
            (λ k. subst (λ j. row j ≡ get_elem? parts k) (omega arith) (r (suc k))) fs b1))

  pub parts_filled :
      (limit : ℕ) (parts : List (List (TurnRecord Move)))
      → All (IsChunk env.rules limit) parts
      → All (λ part. part ≢ []) parts
  parts_filled limit [] h = tt
  parts_filled limit (part ∷ parts) ((f, b), h) = (f, parts_filled limit parts h)

  pub chunked :
      (limit : ℕ) (records : List (TurnRecord Move)) (parts : List (List (TurnRecord Move)))
      → chunks env.rules limit records ≡ some parts
      → (concat parts ≡ records) × All (λ part. part ≢ []) parts
  chunked limit records parts h =
      let (e, a, b) =
        subst (Splits env.rules limit [] records) h (chunks-Splits env.rules limit records) in
      (e, parts_filled limit parts a)

  restored_log :
      (s : TurnGame Move State) (game_id : String) (parts : List (List (TurnRecord Move)))
      → IsPlayed env s
      → restore_log env (stored_rows game_id parts s) (loaded s.records)
        ≡ restored s.records s.state game_id
  unfolding restore_log restore_state
  restored_log s game_id parts p =
      if_cases (λ (r : Restored Move State). r ≡ restored s.records s.state game_id)
        (eqb (length s.records) (length s.records) && final_hash s.records == final_hash s.records)
        (λ e. rw p refl) (λ e. absurd (ground (arith, e, eq_refl (final_hash s.records))))

  -- A game whose log is played, where JSON of more records is not shorter: if its log can be
  -- split into
  -- chunks and is within the limits of a restored log, then what `persist` stores of it is
  -- restored as its log and its
  -- state, under the same game id.
  pub restore-stored_rows :
      IsMonotone
      → (s : TurnGame Move State) (game_id : String) (parts : List (List (TurnRecord Move)))
      → IsPlayed env s
      → chunks env.rules 15000 s.records ≡ some parts
      → env.rules.bytes s.records ≤ env.max_bytes
      → length s.records ≤ env.max_bytes / 80
      → length s.records ≤ max_safe
      → restore env (some (stored_rows game_id parts s)) ≡ restored s.records s.state game_id
  unfolding restore
  restore-stored_rows mono s game_id parts p c b n m =
      let (e, filled) = chunked 15000 s.records parts c in
      let fewer : length parts ≤ length s.records =
        subst (λ l. length parts ≤ length l) e (length-concat parts filled) in
      let all : load_from env (get_elem? parts) 0 (length parts) (loaded []) ≡ loaded s.records =
        load_from-parts mono parts (get_elem? parts) 0 [] (λ k. ap (get_elem? parts) (omega arith))
          filled (subst (λ l. env.rules.bytes l ≤ env.max_bytes) (sym e) b)
        ∙ ap loaded e in
      let P = λ (r : Restored Move State). r ≡ restored s.records s.state game_id in
      if_cases P
        (eqb 1 1
          && (env.initial_hash == env.initial_hash
              && same_texts env.rules.players env.rules.players))
        (λ y.
          if_cases P
            (ltb max_safe (length parts)
              || (ltb max_safe (length s.records)
                  || (ltb (length s.records) (length parts)
                      || (ltb (env.max_bytes / 80) (length s.records)
                          || (eqb (length s.records) 0 && not (eqb (length parts) 0))))))
            (λ g. absurd (
              contradiction (
                sym (
                  in_bounds (length parts) (length s.records) max_safe (env.max_bytes / 80) fewer n
                    m)
                ∙ g)))
            (λ g.
              subst (λ l. P (restore_log env (stored_rows game_id parts s) l)) (sym all)
                (restored_log s game_id parts p)))
        (λ y.
          absurd (ground (arith, y, eq_refl env.initial_hash, same_texts_refl env.rules.players)))
