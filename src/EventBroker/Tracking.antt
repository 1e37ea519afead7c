-- ===== src/EventBroker/Tracking.antt =====
-- packages/event-broker/src/event-broker.ts: each number is registered once at most, whatever is
-- registered, unregistered and fired.
use tslib.Common.{
  ℕ, suc, ◌≤◌, ◌<◌, ◌≡◌, refl, sym, ap, ◌∙◌, subst, String, ◌==◌, eq_iff, Bool, true, some, List,
  [], ◌∷◌, ◌++◌, eqb, if◌then◌else◌, if_cases, ◌⊎◌, inl, inr, arith,
}
use tslib.Common.Map.{get, set, get-set}
use tslib.EventBroker.{
  Registration, Fire, Broker, empty, registered, nth, without_handler, without_id, add, off,
  begin_with, take_once,
}
use tslib.EventBroker.Counts.{
  count, IsCalled, count-append, count-without_handler, count-without_id, count-nth,
}

-- Each number is registered once at most, for the event that `home` gives, and a registration that
-- is called once is registered no longer when it has been called.
pub record IsTracked (home : ℕ → String) (s : Broker) : Type 0 where
  pub fresh : (n : String) (j : ℕ) → s.next_id ≤ j → count j (registered s n) ≡ 0
  pub single : (n : String) (j : ℕ) → count j (registered s n) ≤ 1
  pub homed : (n : String) (j : ℕ) → 0 < count j (registered s n) → home j ≡ n
  pub carried :
      (k p : ℕ) (f : Fire) (r : Registration)
      → s.fires k ≡ some f
      → nth f.snapshot p ≡ some r
      → (home r.id ≡ f.name) × (r.id < s.next_id)
  pub spent :
      (r : Registration)
      → r.once ≡ true
      → IsCalled r s.trace
      → ((n : String) → count r.id (registered s n) ≡ 0) × (r.id < s.next_id)

pub empty-IsTracked : (home : ℕ → String) → IsTracked home empty
unfolding count registered get
empty-IsTracked home = record {
  fresh = λ n j h. refl;
  single = λ n j. omega arith;
  homed = λ n j h. absurd (omega (arith, h));
  carried = λ k p f r e. absurd (ground (arith, e));
  spent = λ r o c. absurd c;
}

-- The registrations of an event after those of one event were set.
pub registered-set :
    (s t : Broker) (name n : String) (l : List Registration)
    → t.registrations ≡ set s.registrations name l
    → registered t n ≡ (if name == n then l else registered s n)
unfolding registered
registered-set s t name n l e =
    ground (arith, ap (λ m. get m n) e, get-set s.registrations name n l)

-- Fewer registrations, and nothing else.
pub record IsLess (s t : Broker) : Type 0 where
  pub counts : (n : String) (j : ℕ) → count j (registered t n) ≤ count j (registered s n)
  pub same_next : t.next_id ≡ s.next_id
  pub same_fires : t.fires ≡ s.fires
  pub same_trace : t.trace ≡ s.trace

pub less-IsTracked :
    (home : ℕ → String) (s t : Broker) → IsLess s t → IsTracked home s → IsTracked home t
less-IsTracked home s t l h = record {
  fresh = λ n j e. omega (arith, l.counts n j, h.fresh n j (subst (λ x. x ≤ j) l.same_next e));
  single = λ n j. omega (arith, l.counts n j, h.single n j);
  homed = λ n j e. h.homed n j (omega (arith, e, l.counts n j));
  carried = λ k p f r e g.
      let (a, b) = h.carried k p f r (sym (ap (λ x. x k) l.same_fires) ∙ e) g in
      (a, subst (λ x. r.id < x) (sym l.same_next) b);
  spent = λ r o c.
      let (a, b) = h.spent r o (subst (IsCalled r) l.same_trace c) in
      ((λ n. omega (arith, l.counts n r.id, a n)), subst (λ x. r.id < x) (sym l.same_next) b);
}

set-IsLess :
    (s t : Broker) (name : String) (l : List Registration)
    → t.registrations ≡ set s.registrations name l
    → ((j : ℕ) → count j l ≤ count j (registered s name))
    → t.next_id ≡ s.next_id
    → t.fires ≡ s.fires
    → t.trace ≡ s.trace
    → IsLess s t
set-IsLess s t name l e c a b d = record {
  counts = λ n j.
      subst (λ x. count j x ≤ count j (registered s n)) (sym (registered-set s t name n l e))
        (if_cases (λ x. count j x ≤ count j (registered s n)) (name == n)
          (λ y. subst (λ m. count j l ≤ count j (registered s m)) ((eq_iff name n).0 y) (c j))
          (λ y. omega arith));
  same_next = a;
  same_fires = b;
  same_trace = d;
}

pub off-IsTracked :
    (home : ℕ → String) (name : String) (h : ℕ) (s : Broker)
    → IsTracked home s
    → IsTracked home (off name h s)
unfolding off
off-IsTracked home name h s t =
    less-IsTracked home s _
      (set-IsLess s _ name (without_handler h (registered s name)) refl
        (λ j. count-without_handler j h (registered s name)) refl refl refl)
      t

pub take_once-IsLess :
    (name : String) (r : Registration) (s : Broker) → IsLess s (take_once name r s)
unfolding take_once
take_once-IsLess name r s =
    if_cases (IsLess s) r.once
      (λ o.
        set-IsLess s _ name (without_id r.id (registered s name)) refl
          (λ j. (count-without_id j r.id (registered s name)).0) refl refl refl)
      (λ o. record {
        counts = λ n j. omega arith;
        same_next = refl;
        same_fires = refl;
        same_trace = refl;
      })

-- The number that is next belongs to the event of the registration that gets it.
abbrev pub home_with : (ℕ → String) → ℕ → String → ℕ → String
home_with home id name j = if eqb j id then name else home j

home_with-lt :
    (home : ℕ → String) (id : ℕ) (name : String) (j : ℕ)
    → j < id
    → home_with home id name j ≡ home j
home_with-lt home id name j h = ground (arith, h)

count-add :
    (name : String) (h : ℕ) (o : Bool) (s : Broker) (n : String) (j : ℕ)
    → count j (registered (add name h o s) n) ≡ (
        if name == n
        then (if eqb s.next_id j then suc (count j (registered s n)) else count j (registered s n))
        else count j (registered s n))
unfolding add
count-add name h o s n j =
    let r : Registration = record { id = s.next_id; handler = h; once = o } in
    let l = registered s name ++ (r ∷ []) in
    let c = λ (m : String).
      if eqb s.next_id j then suc (count j (registered s m)) else count j (registered s m) in
    ap (count j) (registered-set s (add name h o s) name n l refl)
    ∙ if_cases (λ x. count j x ≡ (if name == n then c n else count j (registered s n))) (name == n)
        (λ y. rw y (count-append j (registered s name) r ∙ ap c ((eq_iff name n).0 y)))
        (λ y. rw y refl)

pub add-IsTracked :
    (home : ℕ → String) (name : String) (h : ℕ) (o : Bool) (s : Broker)
    → IsTracked home s
    → IsTracked (home_with home s.next_id name) (add name h o s)
unfolding add
add-IsTracked home name h o s t = record {
  fresh = λ n j e. ground (arith, count-add name h o s n j, t.fresh n j (omega (arith, e)), e);
  single = λ n j. ground (arith, count-add name h o s n j, t.single n j, t.fresh n s.next_id);
  homed = λ n j e.
      ground (arith, count-add name h o s n j, t.homed n j, t.fresh n s.next_id, eq_iff name n, e);
  carried = λ k p f r e g.
      let (a, b) = t.carried k p f r e g in
      (home_with-lt home s.next_id name r.id b ∙ a, omega (arith, b));
  spent = λ r once c.
      let (a, b) = t.spent r once c in
      ((λ n. ground (arith, count-add name h o s n r.id, a n, b)), omega (arith, b));
}

-- A fire after another has begun.
begun-cases :
    (name : String) (x : Registration) (l : List Registration) (s : Broker) (k : ℕ) (f : Fire)
    → (begin_with name (x ∷ l) s).fires k ≡ some f
    → (s.fires k ≡ some f) ⊎ ((f.name ≡ name) × (f.snapshot ≡ x ∷ l))
unfolding begin_with
begun-cases name x l s k f g = ground (arith, g)

-- What is registered for an event belongs there.
nth-homed :
    (home : ℕ → String) (s : Broker) (name : String) (p : ℕ) (r : Registration)
    → IsTracked home s
    → nth (registered s name) p ≡ some r
    → (home r.id ≡ name) × (r.id < s.next_id)
nth-homed home s name p r t i =
    let held = count-nth (registered s name) p r i in
    (t.homed name r.id held, ground (arith, t.fresh name r.id, held))

pub begin_with-IsTracked :
    (home : ℕ → String) (name : String) (l : List Registration) (s : Broker)
    → registered s name ≡ l
    → IsTracked home s
    → IsTracked home (begin_with name l s)
unfolding begin_with registered
begin_with-IsTracked home name [] s e t = t
begin_with-IsTracked home name (x ∷ l) s e t = record {
  fresh = t.fresh;
  single = t.single;
  homed = t.homed;
  carried = λ k p f r g i. elim (begun-cases name x l s k f g) [
    | inl old ↦ t.carried k p f r old i
    | inr (named, copied) ↦
        let (a, b) = nth-homed home s name p r t (ap (λ m. nth m p) (e ∙ sym copied) ∙ i) in
        (a ∙ sym named, b)
  ];
  spent = t.spent;
}
