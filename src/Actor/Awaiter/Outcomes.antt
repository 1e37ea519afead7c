-- ===== src/Actor/Awaiter/Outcomes.antt =====
-- How a wait of packages/actor-system/src/inMemory.ts ends.
use Prim.Native.String.{◌++◌}
use tslib.Common.{
  ℕ, ◌<◌, String, ◌≡◌, ◌≢◌, refl, subst, sym, ap, ◌∙◌, Bool, true, false, not, Option, none, some,
  List, [], ◌∷◌, eqb, eqb_iff, ◌==◌, eq_iff, arith, if◌then◌else◌, All, inl, inr, Option-cases,
  Bool-cases,
}
use mathlib.Core.List
use tslib.Common.Map
use tslib.Common.Map.{Map, get-set, get-delete, get-empty}
use tslib.Actor.Awaiter.{
  Awaiter, Event, waits, resolves, expires, finish_with, finish, wait, resolve, happen, run,
  started,
}

-- A promise keeps the first result that it gets.
abbrev pub result : ℕ → List (ℕ × Bool) → Option Bool
result n [] = none
result n ((m, b) ∷ rest) = if eqb m n then some b else result n rest

-- What the first event about the id makes of a wait for it.
abbrev pub outcome : String → List Event → Option Bool
outcome id [] = none
outcome id (waits actor_id message_id t ∷ es) = outcome id es
outcome id (resolves actor_id message_id ∷ es) =
    if actor_id ++ message_id == id then some true else outcome id es
outcome id (expires other ∷ es) = if other == id then some false else outcome id es

-- No other wait uses the id.
abbrev pub spares : String → Event → Bool
spares id (waits actor_id message_id t) = not (actor_id ++ message_id == id)
spares id (resolves actor_id message_id) = true
spares id (expires other) = true

-- All promises that the awaiter knows of have been made.
abbrev pub IsKnown : Awaiter → Type 0
IsKnown a =
    ((id : String) (n : ℕ) → Map.get a.resolvers id ≡ some n → n < a.promises)
    × ((n : ℕ) (b : Bool) → result n a.settled ≡ some b → n < a.promises)

result-append :
    (n m : ℕ) (b : Bool) (l : List (ℕ × Bool))
    → result n (List.◌++◌ l ((m, b) ∷ []))
      ≡ elim (result n l) [ none ↦ if eqb m n then some b else none | some r ↦ some r ]
result-append n m b [] = refl
result-append n m b ((k, c) ∷ l) = ground (arith, result-append n m b l)

settled_known :
    (a : Awaiter) (m : ℕ) (r : Bool)
    → m < a.promises
    → IsKnown a
    → (n : ℕ) (b : Bool) → result n (List.◌++◌ a.settled ((m, r) ∷ [])) ≡ some b
    → n < a.promises
settled_known a m r l h n b z = ground (arith, result-append n m r a.settled, h.1 n b, eqb_iff m n)

-- The wait `n` for the id is open.
abbrev IsOpen : String → ℕ → Awaiter → Type 0
IsOpen id n a =
    (Map.get a.resolvers id ≡ some n)
    × ((j : String) → Map.get a.resolvers j ≡ some n → j ≡ id)
    × (n < a.promises)
    × (result n a.settled ≡ none)

IsSettled : ℕ → Bool → Awaiter → Type 0
IsSettled n b a = result n a.settled ≡ some b

finish-IsSettled :
    (n : ℕ) (b : Bool) (a : Awaiter) (id : String) (r : Bool) (o : Option ℕ)
    → result n a.settled ≡ some b
    → result n (finish_with a id r o).settled ≡ some b
unfolding finish_with
finish-IsSettled n b a id r none h = h
finish-IsSettled n b a id r (some m) h = ground (arith, result-append n m r a.settled)

happen-IsSettled :
    (n : ℕ) (b : Bool) (a : Awaiter) (e : Event)
    → result n a.settled ≡ some b
    → result n (happen a e).settled ≡ some b
unfolding happen wait resolve finish
happen-IsSettled n b a (waits x m t) h = h
happen-IsSettled n b a (resolves x m) h =
    finish-IsSettled n b a (x ++ m) true (Map.get a.resolvers (x ++ m)) h
happen-IsSettled n b a (expires id) h = finish-IsSettled n b a id false (Map.get a.resolvers id) h

run-IsSettled :
    (n : ℕ) (b : Bool) (a : Awaiter) (es : List Event)
    → result n a.settled ≡ some b
    → result n (run es a).settled ≡ some b
unfolding run
run-IsSettled n b a [] h = h
run-IsSettled n b a (e ∷ es) h = run-IsSettled n b (happen a e) es (happen-IsSettled n b a e h)

-- The event for the id settles the wait.
finish-settles :
    (id : String) (n : ℕ) (a : Awaiter) (r : Bool)
    → IsOpen id n a
    → result n (finish a id r).settled ≡ some r
unfolding finish finish_with
finish-settles id n a r h = ground (arith, h.0, h.3, result-append n n r a.settled, eqb_iff n n)

-- Another id leaves it open.
finish-IsOpen :
    (id other : String) (n : ℕ) (a : Awaiter) (r : Bool) (o : Option ℕ)
    → Map.get a.resolvers other ≡ o
    → (other == id) ≡ false
    → IsOpen id n a
    → IsOpen id n (finish_with a other r o)
unfolding finish_with
finish-IsOpen id other n a r none e d h = h
finish-IsOpen id other n a r (some m) e d h =
    let differ : m ≢ n = λ z. ground (arith, h.1 other (e ∙ ap some z), eq_iff other id) in
    (
      ground (arith, h.0, get-delete a.resolvers other id),
      (λ j z. h.1 j (ground (arith, get-delete a.resolvers other j))),
      h.2,
      ground (arith, result-append n m r a.settled, eqb_iff m n, h.3, differ),
    )

wait-IsOpen :
    (id x m : String) (t n : ℕ) (a : Awaiter)
    → (x ++ m == id) ≡ false
    → IsOpen id n a
    → IsOpen id n (wait a x m t)
unfolding wait
wait-IsOpen id x m t n a d h = (
  ground (arith, h.0, get-set a.resolvers (x ++ m) id a.promises),
  (λ j z. h.1 j (ground (arith, h.2, get-set a.resolvers (x ++ m) j a.promises))),
  omega (arith, h.2),
  h.3,
)

finish-IsKnown :
    (a : Awaiter) (id : String) (r : Bool) (o : Option ℕ)
    → Map.get a.resolvers id ≡ o
    → IsKnown a
    → IsKnown (finish_with a id r o)
unfolding finish_with
finish-IsKnown a id r none e h = h
finish-IsKnown a id r (some m) e h = (
  (λ j n z. h.0 j n (ground (arith, get-delete a.resolvers id j))),
  (λ n b z. settled_known a m r (h.0 id m e) h n b z),
)

happen-IsKnown : (a : Awaiter) (e : Event) → IsKnown a → IsKnown (happen a e)
unfolding happen wait resolve finish
happen-IsKnown a (waits x m t) h = (
  (λ j n z. ground (arith, get-set a.resolvers (x ++ m) j a.promises, h.0 j n)),
  (λ n b z. omega (arith, h.1 n b z)),
)
happen-IsKnown a (resolves x m) h =
    finish-IsKnown a (x ++ m) true (Map.get a.resolvers (x ++ m)) refl h
happen-IsKnown a (expires id) h = finish-IsKnown a id false (Map.get a.resolvers id) refl h

run-IsKnown : (es : List Event) (a : Awaiter) → IsKnown a → IsKnown (run es a)
unfolding run
run-IsKnown [] a h = h
run-IsKnown (e ∷ es) a h = run-IsKnown es (happen a e) (happen-IsKnown a e h)

started-IsKnown : IsKnown started
started-IsKnown = ((λ j n z. ground (arith, get-empty {V = ℕ} j)), (λ n b z. ground arith))

opened-IsOpen :
    (a : Awaiter) (x m : String) (t : ℕ) → IsKnown a → IsOpen (x ++ m) a.promises (wait a x m t)
unfolding wait
opened-IsOpen a x m t h =
    let id = x ++ m in
    (
      ground (arith, get-set a.resolvers id id a.promises, eq_iff id id),
      (λ j z. ground (arith, get-set a.resolvers id j a.promises, eq_iff id j, h.0 j a.promises)),
      omega arith,
      elim (Option-cases (result a.promises a.settled)) [
        | inl e ↦ e
        | inr (b, e) ↦ absurd (omega (arith, h.1 a.promises b e))
      ],
    )

event-outcome :
    (id other : String) (n : ℕ) (a : Awaiter) (r : Bool) (es : List Event)
    → IsOpen id n a
    → (IsOpen id n (finish a other r)
        → result n (run es (finish a other r)).settled ≡ outcome id es)
    → result n (run es (finish a other r)).settled ≡ (if other == id then some r else outcome id es)
unfolding finish
event-outcome id other n a r es h rest = elim (Bool-cases (other == id)) [
  | inl y ↦ rw y (
      run-IsSettled n r (finish a other r) es (
        subst (λ k. result n (finish a k r).settled ≡ some r) (sym ((eq_iff other id).0 y))
          (finish-settles id n a r h)))
  | inr y ↦ rw y (rest (finish-IsOpen id other n a r (Map.get a.resolvers other) refl y h))
]

run-outcome :
    (id : String) (n : ℕ) (es : List Event) (a : Awaiter)
    → All (λ e. spares id e ≡ true) es
    → IsOpen id n a
    → result n (run es a).settled ≡ outcome id es
unfolding run happen resolve
run-outcome id n [] a s h = h.3
run-outcome id n (waits x m t ∷ es) a s h =
    run-outcome id n es (wait a x m t) s.1 (wait-IsOpen id x m t n a (ground (arith, s.0)) h)
run-outcome id n (resolves x m ∷ es) a s h =
    event-outcome id (x ++ m) n a true es h (run-outcome id n es (finish a (x ++ m) true) s.1)
run-outcome id n (expires other ∷ es) a s h =
    event-outcome id other n a false es h (run-outcome id n es (finish a other false) s.1)

-- After any history, the promise of a wait is settled by the first event about its id, `true` by a
-- `resolve` and `false` by a timer, and by no other and not again, as long as no later wait uses the
-- id.
pub wait-outcome :
    (history es : List Event) (actor_id message_id : String) (timeout_millis : ℕ)
    → All (λ e. spares (actor_id ++ message_id) e ≡ true) es
    → result
        (run history started).promises
        (run es (wait (run history started) actor_id message_id timeout_millis)).settled
      ≡ outcome (actor_id ++ message_id) es
wait-outcome history es x m t s =
    let a = run history started in
    run-outcome (x ++ m) a.promises es (wait a x m t) s
      (opened-IsOpen a x m t (run-IsKnown history started started-IsKnown))
