-- ===== src/GameKit/Turns/Validity.antt =====
-- The check of a log of packages/game-kit/src/turns.ts.
use tslib.Common.{
  ℕ, suc, ◌+◌, ◌≡◌, refl, sym, ap, ◌∙◌, subst, String, true, Option, none, some, List, [], ◌∷◌,
  ◌++◌, length, eqb_iff, eq_iff, if_some, arith,
}
use mathlib.Core.Option.{bind, bind-eq-some_iff}
use tslib.GameKit.Turns.{
  TurnRecord, Rules, zero_hash, last, final_hash, player_at, is_text, is_in_turn, fits,
  validate_from, validate,
}

is_text_lem : (o : Option String) (t : String) → is_text o t ≡ true → o ≡ some t
unfolding is_text
is_text_lem none t h = ground (arith, h)
is_text_lem (some s) t h = ground (arith, h, eq_iff t s)

module _ {Move : Type 0} where
  -- The hash of the last record of a log, after one with the given hash.
  abbrev pub last_hash : String → List (TurnRecord Move) → String
  last_hash previous [] = previous
  last_hash previous (item ∷ log) = last_hash item.hash log

  last-last_hash :
      (r : TurnRecord Move) (log : List (TurnRecord Move))
      → (last r log).hash ≡ last_hash r.hash log
  last-last_hash r [] = refl
  last-last_hash r (x ∷ log) = last-last_hash x log

  -- The final hash of a log is that of its last record.
  pub final_hash-last_hash :
      (log : List (TurnRecord Move)) → final_hash log ≡ last_hash zero_hash log
  final_hash-last_hash [] = refl
  final_hash-last_hash (r ∷ log) = last-last_hash r log

module _ {Move State : Type 0} (rules : Rules Move State) where
  pub fits-facts :
      (previous : String) (index : ℕ) (item : TurnRecord Move)
      → fits rules previous index item ≡ true
      → (item.index ≡ index)
        × (player_at rules index ≡ some item.by)
        × (rules.hash previous index item.by item.move ≡ some item.hash)
  unfolding fits is_in_turn
  fits-facts previous index item h = ground (
    arith,
    h,
    is_text_lem (player_at rules index) item.by,
    is_text_lem (rules.hash previous index item.by item.move) item.hash,
    eqb_iff item.index index,
  )

  -- What it takes for a log to be valid: its first record fits, it can be applied, and the
  -- rest is valid.
  pub validated :
      (previous : String) (index : ℕ) (state final : State) (item : TurnRecord Move)
      (log : List (TurnRecord Move))
      → validate_from rules previous index state (item ∷ log) ≡ some final
      → (fits rules previous index item ≡ true)
        × ((next : State) × (rules.apply state item.move item.by ≡ some next)
            × (validate_from rules item.hash (suc index) next log ≡ some final))
  unfolding validate_from
  validated previous index state final item log h =
      let (f, e) =
        if_some (fits rules previous index item)
          (bind (rules.apply state item.move item.by)
            (λ rebuilt. validate_from rules item.hash (suc index) rebuilt log))
          final h in
      (
        f,
        (bind-eq-some_iff (rules.apply state item.move item.by)
              (λ rebuilt. validate_from rules item.hash (suc index) rebuilt log)).0
            e,
      )

  -- A record that fits, that can be applied and that is followed by a valid log.
  validate_from-cons :
      (previous : String) (index : ℕ) (state next final : State) (item : TurnRecord Move)
      (log : List (TurnRecord Move))
      → fits rules previous index item ≡ true
      → rules.apply state item.move item.by ≡ some next
      → validate_from rules item.hash (suc index) next log ≡ some final
      → validate_from rules previous index state (item ∷ log) ≡ some final
  unfolding validate_from bind
  validate_from-cons previous index state next final item log f a h = rw (f, a) h

  same_state : (a b : State) → validate_from rules "" 0 a [] ≡ some b → a ≡ b
  unfolding validate_from
  same_state a b h = ground (arith, h)

  -- A valid log with a record that fits after it is valid.
  validate_from-append :
      (previous : String) (index : ℕ) (state middle next : State) (log : List (TurnRecord Move))
      (item : TurnRecord Move)
      → validate_from rules previous index state log ≡ some middle
      → fits rules (last_hash previous log) (index + length log) item ≡ true
      → rules.apply middle item.move item.by ≡ some next
      → validate_from rules previous index state (log ++ (item ∷ [])) ≡ some next
  unfolding validate_from
  validate_from-append previous index state middle next [] item h f a =
      validate_from-cons previous index state next next item []
        (subst (λ k. fits rules previous k item ≡ true) (omega arith) f)
        (subst (λ z. rules.apply z item.move item.by ≡ some next) (sym (same_state state middle h))
          a)
        refl
  validate_from-append previous index state middle next (x ∷ log) item h f a =
      let (fx, (after, ax, hx)) = validated previous index state middle x log h in
      validate_from-cons previous index state after next x (log ++ (item ∷ [])) fx ax (
        validate_from-append x.hash (suc index) after middle next log item hx
          (subst (λ k. fits rules (last_hash x.hash log) k item ≡ true) (omega arith) f) a)

  -- The hash tells its arguments apart.
  abbrev pub IsInjective : Type 0
  IsInjective =
      (p p' : String) (i i' : ℕ) (b b' : String) (m m' : Move) (h : String)
      → rules.hash p i b m ≡ some h
      → rules.hash p' i' b' m' ≡ some h
      → (p ≡ p') × (b ≡ b') × (m ≡ m')

  pub same_record :
      (a b : TurnRecord Move) (index : ℕ)
      → (a.index ≡ index) × (b.index ≡ index)
      → (a.by ≡ b.by) × (a.move ≡ b.move) × (a.hash ≡ b.hash)
      → a ≡ b
  same_record a b index e f = cc

  -- Two valid logs of one length with one final hash are the same, and started from the same hash.
  same_log :
      IsInjective
      → (previous previous' : String) (index : ℕ) (state state' final final' : State)
        (a b : List (TurnRecord Move))
      → length a ≡ length b
      → last_hash previous a ≡ last_hash previous' b
      → validate_from rules previous index state a ≡ some final
      → validate_from rules previous' index state' b ≡ some final'
      → (previous ≡ previous') × (a ≡ b)
  same_log inj p p' index s s' f f' [] [] n h v w = (h, refl)
  same_log inj p p' index s s' f f' [] (y ∷ b) n h v w = absurd (omega (arith, n))
  same_log inj p p' index s s' f f' (x ∷ a) [] n h v w = absurd (omega (arith, n))
  same_log inj p p' index s s' f f' (x ∷ a) (y ∷ b) n h v w =
      let (fx, (nx, ax, vx)) = validated p index s f x a v in
      let (fy, (ny, ay, vy)) = validated p' index s' f' y b w in
      let (e, rest) =
        same_log inj x.hash y.hash (suc index) nx ny f f' a b (omega (arith, n)) h vx vy in
      let (ix, px, hx) = fits-facts p index x fx in
      let (iy, py, hy) = fits-facts p' index y fy in
      let (same, by, move) =
        inj p p' index index x.by y.by x.move y.move x.hash hx (hy ∙ ap some (sym e)) in
      (
        same,
        ap (λ (r : TurnRecord Move). r ∷ a) (same_record x y index (ix, iy) (by, move, e))
            ∙ ap (λ l. y ∷ l) rest,
      )

  -- Logs that `validate` accepts and that agree in their length and their final hash are the
  -- same, and lead
  -- to the same state, if no two moves have one hash.
  pub validate-agrees :
      IsInjective
      → (a b : List (TurnRecord Move)) (final final' : State) → validate rules a ≡ some final
      → validate rules b ≡ some final'
      → length a ≡ length b
      → final_hash a ≡ final_hash b
      → (a ≡ b) × (final ≡ final')
  unfolding validate
  validate-agrees inj a b final final' v w n h =
      let same : a ≡ b =
        (same_log inj zero_hash zero_hash 0 rules.initial rules.initial final final' a b n
          (sym (final_hash-last_hash a) ∙ (h ∙ final_hash-last_hash b)) v w).1 in
      (same, ground (arith, v, w, same))

  -- The log that a fitting record extends is valid.
  pub validate-append :
      (log : List (TurnRecord Move)) (item : TurnRecord Move) (state next : State)
      → validate rules log ≡ some state
      → fits rules (final_hash log) (length log) item ≡ true
      → rules.apply state item.move item.by ≡ some next
      → validate rules (log ++ (item ∷ [])) ≡ some next
  unfolding validate
  validate-append log item state next v f a =
      validate_from-append zero_hash 0 rules.initial state next log item v
        (subst (λ k. fits rules k (0 + length log) item ≡ true) (final_hash-last_hash log)
          (subst (λ k. fits rules (final_hash log) k item ≡ true) (omega arith) f))
        a
