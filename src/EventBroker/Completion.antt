-- ===== src/EventBroker/Completion.antt =====
-- packages/event-broker/src/event-broker.ts: what a fire has called at any time, and in the end.
use tslib.Common.{
  ℕ, zero, suc, ◌+◌, ◌≤◌, ◌<◌, ◌≡◌, refl, sym, ap, ◌∙◌, subst, String, Bool, true, false, Option,
  none, some, List, [], ◌∷◌, length, eqb, eqb_iff, if_cases, arith,
}
use tslib.EventBroker.{
  Registration, Fire, Broker, empty, registered, nth, add, off, begin_with, fire, take_once,
  call_next, advance_from, advance, Event, ons, onces, offs, starts, goes_on, step, run,
}
use tslib.EventBroker.Dispatch.{calls_of, take, IsOn, own_call, begun_stays, ran}

-- A fire that does not exist yet has called nothing.
pub record IsFresh (s : Broker) : Type 0 where
  pub silent : (k : ℕ) → s.begun ≤ k → calls_of k s.trace ≡ []
  pub unknown : (k : ℕ) → s.begun ≤ k → s.fires k ≡ none

add-IsFresh : (n : String) (h : ℕ) (o : Bool) (s : Broker) → IsFresh s → IsFresh (add n h o s)
unfolding add
add-IsFresh n h o s p = record { silent = p.silent; unknown = p.unknown }

off-IsFresh : (n : String) (h : ℕ) (s : Broker) → IsFresh s → IsFresh (off n h s)
unfolding off
off-IsFresh n h s p = record { silent = p.silent; unknown = p.unknown }

begin_with-IsFresh :
    (n : String) (l : List Registration) (s : Broker) → IsFresh s → IsFresh (begin_with n l s)
unfolding begin_with
begin_with-IsFresh n [] s p = p
begin_with-IsFresh n (r ∷ l) s p = record {
  silent = λ k h. p.silent k (omega (arith, h));
  unknown = λ k h. ground (arith, h, p.unknown k (omega (arith, h)));
}

unknown_apart :
    (i k : ℕ) (f : Fire) (s : Broker) → s.fires i ≡ some f → s.fires k ≡ none → eqb i k ≡ true → ⊥
unknown_apart i k f s e n y =
    let known : s.fires k ≡ some f = subst (λ j. s.fires j ≡ some f) ((eqb_iff i k).0 y) e in
    ground (arith, known, n)

call_next-IsFresh :
    (i : ℕ) (f : Fire) (rejects : Bool) (o : Option Registration) (s : Broker)
    → s.fires i ≡ some f
    → IsFresh s
    → IsFresh (call_next i f rejects o s)
unfolding call_next
call_next-IsFresh i f rejects none s e p = p
call_next-IsFresh i f rejects (some r) s e p =
    let below = λ (k : ℕ) (h : (take_once f.name r s).begun ≤ k).
      subst (λ b. b ≤ k) (begun_stays f.name r s) h in
    record {
      silent = λ k h.
          if_cases (λ l. l ≡ []) (eqb i k)
            (λ y. absurd (unknown_apart i k f s e (p.unknown k (below k h)) y))
            (λ n. p.silent k (below k h));
      unknown = λ k h.
          if_cases (λ (o : Option Fire). o ≡ none) (eqb k i)
            (λ y. absurd (unknown_apart i k f s e (p.unknown k (below k h)) (ground (arith, y))))
            (λ n. p.unknown k (below k h));
    }

advance_from-IsFresh :
    (i : ℕ) (o : Option Fire) (rejects : Bool) (s : Broker)
    → s.fires i ≡ o
    → IsFresh s
    → IsFresh (advance_from i o rejects s)
unfolding advance_from
advance_from-IsFresh i none rejects s e p = p
advance_from-IsFresh i (some f) rejects s e p =
    if_cases IsFresh f.is_rejected (λ r. p)
      (λ r. call_next-IsFresh i f rejects (nth f.snapshot f.position) s e p)

step-IsFresh : (e : Event) (s : Broker) → IsFresh s → IsFresh (step e s)
unfolding step fire advance
step-IsFresh (ons n h) s p = add-IsFresh n h false s p
step-IsFresh (onces n h) s p = add-IsFresh n h true s p
step-IsFresh (offs n h) s p = off-IsFresh n h s p
step-IsFresh (starts n) s p = begin_with-IsFresh n (registered s n) s p
step-IsFresh (goes_on i rejects) s p = advance_from-IsFresh i (s.fires i) rejects s refl p

run-IsFresh : (es : List Event) (s : Broker) → IsFresh s → IsFresh (run es s)
unfolding run
run-IsFresh [] s p = p
run-IsFresh (e ∷ es) s p = run-IsFresh es (step e s) (step-IsFresh e s p)

empty-IsFresh : IsFresh empty
empty-IsFresh = record { silent = λ k h. refl; unknown = λ k h. refl }

begun-IsOn :
    (name : String) (r : Registration) (list : List Registration) (s : Broker)
    → IsFresh s
    → IsOn s.begun name
        (r ∷ list)
        (begin_with name (r ∷ list) s)
        (record { name = name; snapshot = r ∷ list; position = 0; is_rejected = false })
unfolding begin_with
begun-IsOn name r list s p = record {
  is_there = ground arith;
  named = refl;
  copied = refl;
  made = p.silent s.begun (omega arith);
  within = omega arith;
  known = omega arith;
}

-- Whatever has happened, and whatever happens after a fire of an event for which there are
-- handlers has
-- begun, also to the handlers and by other fires: the fire has called some of the first
-- registrations that
-- there were when it began, in their order, each once, and no others.
pub fire-IsOn :
    (before after : List Event) (name : String) (r : Registration) (list : List Registration)
    → registered (run before empty) name ≡ r ∷ list
    → (f : Fire) × IsOn
        (run before empty).begun
        name
        (r ∷ list)
        (run after (fire name (run before empty)))
        f
unfolding fire
fire-IsOn before after name r list e =
    let s = run before empty in
    let fresh = run-IsFresh before empty empty-IsFresh in
    let begins : (f : Fire) × IsOn s.begun name (r ∷ list) (begin_with name (registered s name) s)
          f =
      subst (λ l. (f : Fire) × IsOn s.begun name (r ∷ list) (begin_with name l s) f) (sym e)
        (
          record { name = name; snapshot = r ∷ list; position = 0; is_rejected = false },
          begun-IsOn name r list s fresh,
        ) in
    ran s.begun name (r ∷ list) after (begin_with name (registered s name) s) begins

nth-some : (l : List Registration) (n : ℕ) → n < length l → (r : Registration) × (nth l n ≡ some r)
nth-some [] n h = absurd (omega (arith, h))
nth-some (x ∷ l) zero h = (x, refl)
nth-some (x ∷ l) (suc n) h = nth-some l n (omega (arith, h))

-- The fire goes on as many times as there is a handler left.
abbrev pub going_on : ℕ → ℕ → List Event
going_on k zero = []
going_on k (suc m) = goes_on k false ∷ going_on k m

take-all : (l : List Registration) → take (length l) l ≡ l
take-all [] = refl
take-all (x ∷ l) = ap (λ l. x ∷ l) (take-all l)

pub advance-next :
    (k : ℕ) (f : Fire) (r : Registration) (s : Broker)
    → s.fires k ≡ some f
    → f.is_rejected ≡ false
    → nth f.snapshot f.position ≡ some r
    → advance k false s ≡ call_next k f false (some r) s
unfolding advance advance_from
advance-next k f r s e u n =
    let t = call_next k f false (some r) s in
    subst (λ o. advance_from k o false s ≡ t) (sym e)
      (if_cases (λ x. x ≡ t) f.is_rejected (λ y. absurd (ground (arith, y, u)))
        (λ y. ap (λ o. call_next k f false o s) n))

-- A fire none of whose handlers rejects ends: it has called all the registrations that there
-- were when it
-- began, in their order.
pub fire-completes :
    (k : ℕ) (name : String) (list : List Registration) (s : Broker) (f : Fire) (m : ℕ)
    → IsOn k name list s f
    → f.is_rejected ≡ false
    → m + f.position ≡ length list
    → calls_of k (run (going_on k m) s).trace ≡ list
unfolding run step
fire-completes k name list s f zero p u e =
    p.made ∙ (ap (λ n. take n list) (omega (arith, e)) ∙ take-all list)
fire-completes k name list s f (suc m) p u e =
    let (r, n) = nth-some list f.position (omega (arith, e)) in
    let here : nth f.snapshot f.position ≡ some r =
      subst (λ l. nth l f.position ≡ some r) (sym p.copied) n in
    let t = call_next k f false (some r) s in
    subst (λ x. calls_of k (run (going_on k m) x).trace ≡ list)
      (sym (advance-next k f r s p.is_there u here))
      (fire-completes k name list t (record f { position = suc f.position; is_rejected = false }) m
        (own_call k name list f f false r s p.is_there here p) refl (omega (arith, e)))
