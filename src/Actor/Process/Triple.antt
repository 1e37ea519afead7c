-- ===== src/Actor/Process/Triple.antt =====
-- Rules for what holds of the world after an action, one for each way to build an action.
use tslib.Common.{suc, ◌≡◌, refl, Bool, true, false, Option, none, some, ◌∷◌, ◌++◌, if◌then◌else◌}
use tslib.Actor.Process.Exec.{
  World, Env, Event, Callback, Outcome, Action, ok, thrown, out_of_fuel, continue, ◌>>=◌, ◌>>◌,
  pure, raise, emit, instant, throw_if, pause, await_queue, call, call_if_given,
}

abbrev pub Assertion : Type 0 → Type 1
Assertion T = World T → Type 0

-- `R` of the result, `Q` after a throw, `S` where the fuel ran out.
abbrev pub Ends :
    {T A : Type 0} → Assertion T → Assertion T → (A → Assertion T) → Outcome A → Assertion T
Ends Q S R (ok a) w = R a w
Ends Q S R thrown w = Q w
Ends Q S R out_of_fuel w = S w

pub record Triple {T A : Type 0} (Q S P : Assertion T) (m : Action T A) (R : A → Assertion T)
    : Type 0 where
  pub at : (w : World T) → P w → Ends Q S R (m w).0 (m w).1

module _ {T A : Type 0} {Q S P : Assertion T} where
  pub pure-Triple :
      (a : A) (R : A → Assertion T) → ((w : World T) → P w → R a w) → Triple Q S P (pure a) R
  unfolding pure
  pure-Triple a R h = record { at = h }

  pub conseq-Triple :
      {m : Action T A} {R : A → Assertion T} (P' : Assertion T)
      → ((w : World T) → P w → P' w)
      → Triple Q S P' m R
      → Triple Q S P m R
  conseq-Triple P' h t = record { at = λ w p. t.at w (h w p) }

  pub if-Triple :
      (b : Bool) {m n : Action T A} {R : A → Assertion T}
      → (b ≡ true → Triple Q S P m R)
      → (b ≡ false → Triple Q S P n R)
      → Triple Q S P (if b then m else n) R
  if-Triple true tm tn = tm refl
  if-Triple false tm tn = tn refl

module _ {T A : Type 0} where
  post-Ends :
      (Q S : Assertion T) (R R' : A → Assertion T)
      → ((a : A) (w : World T) → R a w → R' a w)
      → (r : Outcome A) (w : World T) → Ends Q S R r w
      → Ends Q S R' r w
  post-Ends Q S R R' h (ok a) w e = h a w e
  post-Ends Q S R R' h thrown w e = e
  post-Ends Q S R R' h out_of_fuel w e = e

module _ {T A : Type 0} {Q S P : Assertion T} where
  pub post-Triple :
      {m : Action T A} (R : A → Assertion T) {R' : A → Assertion T}
      → ((a : A) (w : World T) → R a w → R' a w)
      → Triple Q S P m R
      → Triple Q S P m R'
  post-Triple {m} R {R'} h t = record {
    at = λ w p. post-Ends Q S R R' h (m w).0 (m w).1 (t.at w p);
  }

module _ {T A B : Type 0} {Q S : Assertion T} where
  continue-Ends :
      (R : A → Assertion T) (f : A → Action T B) (U : B → Assertion T)
      → ((a : A) → Triple Q S (R a) (f a) U)
      → (r : Outcome A) (w : World T) → Ends Q S R r w
      → Ends Q S U (continue r f w).0 (continue r f w).1
  continue-Ends R f U tf (ok a) w h = (tf a).at w h
  continue-Ends R f U tf thrown w h = h
  continue-Ends R f U tf out_of_fuel w h = h

module _ {T A B : Type 0} {Q S P : Assertion T} where
  pub bind-Triple :
      {m : Action T A} {f : A → Action T B} {U : B → Assertion T} (R : A → Assertion T)
      → Triple Q S P m R
      → ((a : A) → Triple Q S (R a) (f a) U)
      → Triple Q S P (m >>= f) U
  unfolding ◌>>=◌
  bind-Triple {m} {f} {U} R tm tf = record {
    at = λ w h. let (r, w') = m w in continue-Ends R f U tf r w' (tm.at w h);
  }

module _ {T A B : Type 0} {Q S P : Assertion T} where
  pub seq-Triple :
      {m : Action T A} {n : Action T B} {U : B → Assertion T} (P' : Assertion T)
      → Triple Q S P m (λ _. P')
      → Triple Q S P' n U
      → Triple Q S P (m >> n) U
  seq-Triple P' tm tn = bind-Triple (λ _. P') tm (λ _. tn)

abbrev pub Keeps : {T A : Type 0} → Assertion T → Assertion T → Assertion T → Action T A → Type 0
Keeps Q S P m = Triple Q S P m (λ _. P)

module _ {T : Type 0} {Q S P : Assertion T} where
  pub instant-Keeps : Keeps Q S P instant
  unfolding instant
  instant-Keeps = record { at = λ w p. p }

  pub instant-Triple : Triple Q S P instant (λ n w. P w × (n ≡ w.now))
  unfolding instant
  instant-Triple = record { at = λ w h. (h, refl) }

  pub emit-Triple :
      (e : Event T) (R : Assertion T)
      → ((w : World T) → P w → R (record w { trace = e ∷ w.trace }))
      → Triple Q S P (emit e) (λ _. R)
  unfolding emit
  emit-Triple e R h = record { at = h }

  pub throw_if-Triple :
      (b : Bool) → ((w : World T) → b ≡ true → P w → Q w) → Keeps Q S P (throw_if b)
  unfolding raise pure
  throw_if-Triple true h = record { at = λ w p. h w refl p }
  throw_if-Triple false h = record { at = λ w p. p }

  pub throw_if-Keeps : (b : Bool) → ((w : World T) → P w → Q w) → Keeps Q S P (throw_if b)
  unfolding raise pure
  throw_if-Keeps true h = record { at = h }
  throw_if-Keeps false h = record { at = λ w p. p }

module _ {T : Type 0} {Q S P : Assertion T} (env : Env T) where
  pub pause-Triple :
      (R : Assertion T)
      → ((w : World T)
          → P w
          → R (record w { now = suc w.now; queue = w.queue ++ env.arrivals w.now }))
      → Triple Q S P (pause env) (λ _. R)
  unfolding pause
  pause-Triple R h = record { at = h }

module _ {T : Type 0} {Q S P : Assertion T} (env : Env T) where
  pub await-Triple :
      (R : Assertion T)
      → Triple Q S P (pause env) (λ _. R)
      → ((w : World T) → R w → Q w)
      → Triple Q S P (await_queue env) (λ _. R)
  unfolding await_queue
  await-Triple R t weaken =
      bind-Triple (λ _. P) instant-Keeps
        λ now. seq-Triple R t (throw_if-Keeps (env.queue_throws now) weaken)

module _ {T A : Type 0} where
  throw-Ends :
      (S Q Q' : Assertion T) (R : A → Assertion T)
      → ((w : World T) → Q w → Q' w)
      → (r : Outcome A) (w : World T) → Ends Q S R r w
      → Ends Q' S R r w
  throw-Ends S Q Q' R h (ok a) w e = e
  throw-Ends S Q Q' R h thrown w e = h w e
  throw-Ends S Q Q' R h out_of_fuel w e = e

module _ {T A : Type 0} {S P : Assertion T} where
  -- What holds after a throw may be weakened.
  pub throw-Triple :
      {m : Action T A} {R : A → Assertion T} (Q Q' : Assertion T)
      → ((w : World T) → Q w → Q' w)
      → Triple Q S P m R
      → Triple Q' S P m R
  throw-Triple {m} {R} Q Q' h t = record {
    at = λ w p. throw-Ends S Q Q' R h (m w).0 (m w).1 (t.at w p);
  }

module _ {T : Type 0} {Q S P : Assertion T} (env : Env T) where
  pub call-Triple :
      (e : Event T) (throws : Callback) (R : Assertion T)
      → Triple Q S P (emit e) (λ _. R)
      → Keeps Q S R (pause env)
      → ((w : World T) → R w → Q w)
      → Triple Q S P (call env e throws) (λ _. R)
  unfolding call
  call-Triple e throws R te tp weaken =
      bind-Triple (λ _. P) instant-Keeps
        λ now. seq-Triple R te (seq-Triple R tp (throw_if-Keeps (throws now) weaken))

module _ {T : Type 0} {Q S P : Assertion T} (env : Env T) where
  pub call_if_given-Triple :
      (e : Event T) (callback : Option Callback)
      → Keeps Q S P (emit e)
      → Keeps Q S P (pause env)
      → ((w : World T) → P w → Q w)
      → Keeps Q S P (call_if_given env e callback)
  unfolding call_if_given
  call_if_given-Triple e none te tp weaken = pure-Triple tt (λ _. P) (λ w p. p)
  call_if_given-Triple e (some throws) te tp weaken = call-Triple env e throws P te tp weaken
