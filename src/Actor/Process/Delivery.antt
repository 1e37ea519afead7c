-- ===== src/Actor/Process/Delivery.antt =====
-- What becomes of the messages in packages/actor-system/src/process.ts: the assertions, and how
-- events and pauses keep them. The children follow the two modes and the call as a whole.
pub mod Single
pub mod Modes
pub mod Bulk
pub mod Whole
pub mod Call
use tslib.Common.{
  ℕ, zero, suc, ◌≡◌, refl, ap, ◌∙◌, ◌⊎◌, inl, inr, Bool, true, false, List, [], ◌∷◌, ◌++◌, map, sym,
  append_assoc, arith,
}
use tslib.Actor.Message.{UserMessage, AwaiterMeta, copy_awaiter_meta}
use tslib.Actor.Process.Exec.{
  World, Env, Event, emit, pause, handled, popped, tried, prepared, committed, reported, released,
  shifted, resolved, slept,
}
use tslib.Actor.Process.Triple.{Assertion, Triple, Keeps, emit-Triple, pause-Triple}

module _ {T : Type 0} where
  -- The messages given to a handler, and those that left the queue, in their order.
  abbrev pub handled_of : List (Event T) → List (UserMessage T)
  handled_of [] = []
  handled_of (handled ms ∷ t) = handled_of t ++ ms
  handled_of (_ ∷ t) = handled_of t

  abbrev pub popped_of : List (Event T) → List (UserMessage T)
  popped_of [] = []
  popped_of (popped ms ∷ t) = popped_of t ++ ms
  popped_of (_ ∷ t) = popped_of t

  abbrev pub is_quiet : Event T → Bool
  is_quiet (handled _) = false
  is_quiet (popped _) = false
  is_quiet _ = true

  pub quiet-handled_of :
      (e : Event T) (t : List (Event T)) → is_quiet e ≡ true → handled_of (e ∷ t) ≡ handled_of t
  quiet-handled_of (handled ms) t h = cc
  quiet-handled_of _ t h = refl

  pub quiet-popped_of :
      (e : Event T) (t : List (Event T)) → is_quiet e ≡ true → popped_of (e ∷ t) ≡ popped_of t
  quiet-popped_of (popped ms) t h = cc
  quiet-popped_of _ t h = refl

module _ {T : Type 0} (env : Env T) where
  -- The messages pushed before an instant.
  abbrev pub sent : ℕ → List (UserMessage T)
  sent zero = []
  sent (suc n) = sent n ++ env.arrivals n

  -- Nothing is lost, doubled or reordered between the producers and the consumer.
  abbrev pub IsConserved : Assertion T
  IsConserved w = popped_of w.trace ++ w.queue ≡ sent w.now

  -- Between two rounds: what was handled is what left the queue, and is what `metas` tells.
  pub record Delivered (metas : List AwaiterMeta) (w : World T) : Type 0 where
    pub conserved : IsConserved w
    pub exact : handled_of w.trace ≡ popped_of w.trace
    pub told : map copy_awaiter_meta (handled_of w.trace) ≡ metas

  -- Within a round: the message at the head was handled and has not left.
  pub record Pending (metas : List AwaiterMeta) (m : UserMessage T) (w : World T) : Type 0 where
    pub conserved : IsConserved w
    pub rest : List (UserMessage T)
    pub at_head : w.queue ≡ m ∷ rest
    pub ahead : handled_of w.trace ≡ popped_of w.trace ++ m ∷ []
    pub told : map copy_awaiter_meta (popped_of w.trace) ≡ metas

  -- What holds also after a throw: nothing left the queue unhandled, and at most the message at
  -- its head was handled and is still there.
  pub record Held (w : World T) : Type 0 where
    pub conserved : IsConserved w
    pub at_least_once :
        (handled_of w.trace ≡ popped_of w.trace)
        ⊎ ((m : UserMessage T) × (rest : List (UserMessage T)) × (w.queue ≡ m ∷ rest)
            × (handled_of w.trace ≡ popped_of w.trace ++ m ∷ []))

  abbrev pub Any : Assertion T
  Any w = Unit {0}

  module _ (metas : List AwaiterMeta) where
    pub Delivered-Held : (w : World T) → Delivered metas w → Held w
    Delivered-Held w d = record { conserved = d.conserved; at_least_once = inl d.exact }

    pub Pending-Held : (m : UserMessage T) (w : World T) → Pending metas m w → Held w
    Pending-Held m w p = record {
      conserved = p.conserved;
      at_least_once = inr (m, p.rest, p.at_head, p.ahead);
    }

    pub quiet-Delivered :
        (e : Event T) → is_quiet e ≡ true → Keeps Held Any (Delivered metas) (emit e)
    quiet-Delivered e q = emit-Triple e (Delivered metas) λ w d. record {
      conserved = rw (quiet-popped_of e w.trace q) d.conserved;
      exact = rw (quiet-handled_of e w.trace q, quiet-popped_of e w.trace q) d.exact;
      told = rw (quiet-handled_of e w.trace q) d.told;
    }

    pub quiet-Pending :
        (m : UserMessage T) (e : Event T)
        → is_quiet e ≡ true
        → Keeps Held Any (Pending metas m) (emit e)
    quiet-Pending m e q = emit-Triple e (Pending metas m) λ w p. record {
      conserved = rw (quiet-popped_of e w.trace q) p.conserved;
      rest = p.rest;
      at_head = p.at_head;
      ahead = rw (quiet-handled_of e w.trace q, quiet-popped_of e w.trace q) p.ahead;
      told = rw (quiet-popped_of e w.trace q) p.told;
    }

    pause-conserved :
        (w : World T)
        → IsConserved w
        → popped_of w.trace ++ (w.queue ++ env.arrivals w.now) ≡ sent (suc w.now)
    pause-conserved w h =
        sym (append_assoc (popped_of w.trace) w.queue (env.arrivals w.now))
        ∙ ap (λ l. l ++ env.arrivals w.now) h

    pub pause-Delivered : Keeps Held Any (Delivered metas) (pause env)
    pause-Delivered =
        pause-Triple env (Delivered metas) λ w d. record {
          conserved = pause-conserved w d.conserved;
          exact = d.exact;
          told = d.told;
        }

    pub pause-Pending : (m : UserMessage T) → Keeps Held Any (Pending metas m) (pause env)
    pause-Pending m = pause-Triple env (Pending metas m) λ w p. record {
      conserved = pause-conserved w p.conserved;
      rest = p.rest ++ env.arrivals w.now;
      at_head = ap (λ l. l ++ env.arrivals w.now) p.at_head;
      ahead = p.ahead;
      told = p.told;
    }

  pub quiet-Held : (e : Event T) → is_quiet e ≡ true → Keeps Held Any Held (emit e)
  quiet-Held e q = emit-Triple e Held λ w h. record {
    conserved = rw (quiet-popped_of e w.trace q) h.conserved;
    at_least_once = rw (quiet-handled_of e w.trace q, quiet-popped_of e w.trace q) h.at_least_once;
  }

  pause-at_least_once :
      (w : World T)
      → Held w
      → (handled_of w.trace ≡ popped_of w.trace)
        ⊎ ((m : UserMessage T) × (rest : List (UserMessage T)) × (w.queue ++ env.arrivals w.now
              ≡ m ∷ rest)
            × (handled_of w.trace ≡ popped_of w.trace ++ m ∷ []))
  pause-at_least_once w h = elim h.at_least_once [
    | inl e ↦ inl e
    | inr (m, rest, e, ahead) ↦
        inr (m, rest ++ env.arrivals w.now, ap (λ l. l ++ env.arrivals w.now) e, ahead)
  ]

  pub pause-Held : Keeps Held Any Held (pause env)
  pause-Held = pause-Triple env Held λ w h. record {
    conserved = pause-conserved [] w h.conserved;
    at_least_once = pause-at_least_once w h;
  }
