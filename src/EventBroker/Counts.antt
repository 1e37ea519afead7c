-- ===== src/EventBroker/Counts.antt =====
-- packages/event-broker/src/event-broker.ts: how often a registration stands in a list.
use tslib.Common.{
  ℕ, zero, suc, ◌-◌, ◌≤◌, ◌<◌, ◌≡◌, refl, some, List, [], ◌∷◌, ◌++◌, eqb, eqb_iff, if◌then◌else◌,
  ◌⊎◌, arith,
}
use tslib.EventBroker.{Registration, Call, called, nth, without_handler, without_id}

-- How often a list holds the registration with a number.
unfoldable pub count : ℕ → List Registration → ℕ
count id [] = 0
count id (r ∷ list) = let rest = count id list in if eqb r.id id then suc rest else rest

-- A registration has been called, by whichever fire.
abbrev pub IsCalled : Registration → List Call → Type 0
IsCalled r [] = ⊥
IsCalled r (called i x ∷ trace) = (x ≡ r) ⊎ IsCalled r trace

pub count-append :
    (id : ℕ) (l : List Registration) (r : Registration)
    → count id (l ++ (r ∷ [])) ≡ (if eqb r.id id then suc (count id l) else count id l)
unfolding count
count-append id [] r = refl
count-append id (x ∷ l) r = ground (arith, count-append id l r)

pub count-without_handler :
    (id h : ℕ) (l : List Registration) → count id (without_handler h l) ≤ count id l
unfolding count without_handler
count-without_handler id h [] = omega arith
count-without_handler id h (x ∷ l) = ground (arith, count-without_handler id h l)

pub count-without_id :
    (id j : ℕ) (l : List Registration)
    → (count id (without_id j l) ≤ count id l) × (count j (without_id j l) ≡ count j l - 1)
unfolding count without_id
count-without_id id j [] = (omega arith, omega arith)
count-without_id id j (x ∷ l) = ground (arith, count-without_id id j l)

pub count-nth :
    (l : List Registration) (n : ℕ) (r : Registration) → nth l n ≡ some r → 0 < count r.id l
unfolding count
count-nth [] n r h = absurd (ground (arith, h))
count-nth (x ∷ l) zero r h = ground (arith, h, eqb_iff r.id r.id)
count-nth (x ∷ l) (suc n) r h = ground (arith, count-nth l n r h)
