-- ===== src/EventBroker/Dispatch.antt =====
-- packages/event-broker/src/event-broker.ts: what a fire calls.
use tslib.Common.{
  ℕ, zero, suc, ◌≤◌, ◌<◌, ◌≡◌, ◌≢◌, refl, sym, ap, ◌∙◌, subst, String, Bool, true, false, Option,
  none, some, List, [], ◌∷◌, ◌++◌, length, eqb, eqb_iff, if◌then◌else◌, if_cases, Bool-cases, ◌⊎◌,
  inl, inr, arith,
}
use tslib.EventBroker.{
  Registration, Fire, Call, called, Broker, registered, nth, add, off, begin_with, fire, take_once,
  call_next, advance_from, advance, Event, ons, onces, offs, starts, goes_on, step, run,
}

-- The registrations that a fire has called, the first one first.
abbrev pub calls_of : ℕ → List Call → List Registration
calls_of k [] = []
calls_of k (called j r ∷ t) = if eqb j k then calls_of k t ++ (r ∷ []) else calls_of k t

abbrev pub take : ℕ → List Registration → List Registration
take zero l = []
take (suc n) [] = []
take (suc n) (x ∷ l) = x ∷ take n l

take-suc :
    (l : List Registration) (n : ℕ) (r : Registration)
    → nth l n ≡ some r
    → take n l ++ (r ∷ []) ≡ take (suc n) l
take-suc [] n r h = absurd (ground (arith, h))
take-suc (x ∷ l) zero r h = ground (arith, h)
take-suc (x ∷ l) (suc n) r h = ap (λ l. x ∷ l) (take-suc l n r h)

nth-lt : (l : List Registration) (n : ℕ) (r : Registration) → nth l n ≡ some r → suc n ≤ length l
nth-lt [] n r h = absurd (ground (arith, h))
nth-lt (x ∷ l) zero r h = omega arith
nth-lt (x ∷ l) (suc n) r h = omega (arith, nth-lt l n r h)

-- A fire that began with a list of registrations has called as many of the first of them as its
-- position
-- says.
pub record IsOn (k : ℕ) (name : String) (list : List Registration) (s : Broker) (f : Fire)
    : Type 0 where
  pub is_there : s.fires k ≡ some f
  pub named : f.name ≡ name
  pub copied : f.snapshot ≡ list
  pub made : calls_of k s.trace ≡ take f.position list
  pub within : f.position ≤ length list
  pub known : k < s.begun

pub begun_stays : (n : String) (r : Registration) (s : Broker) → (take_once n r s).begun ≡ s.begun
unfolding take_once
begun_stays n r s = ground arith

pub dec_eq : (i k : ℕ) → (i ≡ k) ⊎ (i ≢ k)
dec_eq i k = elim (Bool-cases (eqb i k)) [
  | inl e ↦ inl ((eqb_iff i k).0 e)
  | inr e ↦ inr (ground (arith, e))
]

module _ (k : ℕ) (name : String) (list : List Registration) where
  abbrev pub IsRunning : Broker → Type 0
  IsRunning s = (f : Fire) × IsOn k name list s f

  added : (n : String) (h : ℕ) (o : Bool) (s : Broker) → IsRunning s → IsRunning (add n h o s)
  unfolding add
  added n h o s (f, p) = (f, ground (arith, p))

  removed : (n : String) (h : ℕ) (s : Broker) → IsRunning s → IsRunning (off n h s)
  unfolding off
  removed n h s (f, p) = (f, ground (arith, p))

  begun_with :
      (n : String) (l : List Registration) (s : Broker) → IsRunning s → IsRunning (begin_with n l s)
  unfolding begin_with
  begun_with n [] s p = p
  begun_with n (r ∷ l) s (f, p) = (f, ground (arith, p))

  -- The fire itself calls its next handler.
  pub own_call :
      (f g : Fire) (rejects : Bool) (r : Registration) (s : Broker)
      → s.fires k ≡ some f
      → nth f.snapshot f.position ≡ some r
      → IsOn k name list s g
      → IsOn k name list
          (call_next k f rejects (some r) s)
          (record f { position = suc f.position; is_rejected = rejects })
  unfolding call_next
  own_call f g rejects r s e n p =
      let same : f ≡ g = ground (arith, e, p.is_there) in
      let here : nth list f.position ≡ some r =
        subst (λ l. nth l f.position ≡ some r) (ap (λ (x : Fire). x.snapshot) same ∙ p.copied) n in
      let made : calls_of k s.trace ≡ take f.position list =
        p.made ∙ ap (λ (x : Fire). take x.position list) (sym same) in
      record {
        is_there = ground arith;
        named = ap (λ (x : Fire). x.name) same ∙ p.named;
        copied = ap (λ (x : Fire). x.snapshot) same ∙ p.copied;
        made =
            if_cases (λ l. l ≡ take (suc f.position) list) (eqb k k)
              (λ y. ap (λ l. l ++ (r ∷ [])) made ∙ take-suc list f.position r here)
              (λ y. absurd (ground (arith, y)));
        within = nth-lt list f.position r here;
        known = subst (λ b. k < b) (sym (begun_stays f.name r s)) p.known;
      }

  -- Another fire calls its next handler.
  other_call :
      (i : ℕ) (f g : Fire) (rejects : Bool) (r : Registration) (s : Broker)
      → i ≢ k
      → IsOn k name list s g
      → IsOn k name list (call_next i f rejects (some r) s) g
  unfolding call_next
  other_call i f g rejects r s d p = record {
    is_there = ground (arith, p.is_there, d);
    named = p.named;
    copied = p.copied;
    made = ground (arith, p.made, d);
    within = p.within;
    known = subst (λ b. k < b) (sym (begun_stays f.name r s)) p.known;
  }

  called_next :
      (i : ℕ) (f : Fire) (rejects : Bool) (o : Option Registration) (s : Broker)
      → s.fires i ≡ some f
      → nth f.snapshot f.position ≡ o
      → IsRunning s
      → IsRunning (call_next i f rejects o s)
  unfolding call_next
  called_next i f rejects none s e n p = p
  called_next i f rejects (some r) s e n (g, p) = elim (dec_eq i k) [
    | inl same ↦
        subst (λ j. IsRunning (call_next j f rejects (some r) s)) (sym same)
          (
            record f { position = suc f.position; is_rejected = rejects },
            own_call f g rejects r s (subst (λ j. s.fires j ≡ some f) same e) n p,
          )
    | inr d ↦ (g, other_call i f g rejects r s d p)
  ]

  advanced :
      (i : ℕ) (o : Option Fire) (rejects : Bool) (s : Broker)
      → s.fires i ≡ o
      → IsRunning s
      → IsRunning (advance_from i o rejects s)
  unfolding advance_from
  advanced i none rejects s e p = p
  advanced i (some f) rejects s e p =
      if_cases IsRunning f.is_rejected (λ r. p)
        (λ r. called_next i f rejects (nth f.snapshot f.position) s e refl p)

  stepped : (e : Event) (s : Broker) → IsRunning s → IsRunning (step e s)
  unfolding step fire advance
  stepped (ons n h) s p = added n h false s p
  stepped (onces n h) s p = added n h true s p
  stepped (offs n h) s p = removed n h s p
  stepped (starts n) s p = begun_with n (registered s n) s p
  stepped (goes_on i rejects) s p = advanced i (s.fires i) rejects s refl p

  pub ran : (es : List Event) (s : Broker) → IsRunning s → IsRunning (run es s)
  unfolding run
  ran [] s p = p
  ran (e ∷ es) s p = ran es (step e s) (stepped e s p)
