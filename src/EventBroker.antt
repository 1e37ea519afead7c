-- ===== src/EventBroker.antt =====
-- packages/event-broker/src/event-broker.ts, `createEventBroker`. A registration has a number,
-- which stands for
-- its identity, and a handler is a number. A fire runs from one await of a handler to the next:
-- in between
-- registrations may change, and other fires may begin and go on.
pub mod Dispatch
pub mod Completion
pub mod Counts
pub mod Tracking
pub mod Once
mod Tests
use tslib.Common.{
  ℕ, zero, suc, String, Bool, true, false, Option, none, some, List, [], ◌∷◌, ◌++◌, eqb,
  if◌then◌else◌,
}
use tslib.Common.Map
use tslib.Common.Map.{Map, get, set}

pub record Registration : Type 0 where
  pub id : ℕ
  pub handler : ℕ
  pub once : Bool

-- A call of `fire` on its way: the registrations that it has copied, how many of them it has
-- called, and
-- whether a handler has rejected.
pub record Fire : Type 0 where
  pub name : String
  pub snapshot : List Registration
  pub position : ℕ
  pub is_rejected : Bool

-- A fire, by its number, calls the handler of a registration.
pub data Call : Type 0 where
  called : (fire : ℕ) (registration : Registration) → Call

pub record Broker : Type 0 where
  pub registrations : Map (List Registration)
  pub next_id : ℕ
  pub fires : ℕ → Option Fire
  pub begun : ℕ
  pub trace : List Call

abbrev pub no_fires : ℕ → Option Fire
no_fires k = none

abbrev pub empty : Broker
empty = record { registrations = []; next_id = 0; fires = no_fires; begun = 0; trace = [] }

abbrev pub or_empty : Option (List Registration) → List Registration
or_empty none = []
or_empty (some list) = list

-- `registrations[name] ?? []`
unfoldable pub registered : Broker → String → List Registration
registered s name = or_empty (Map.get s.registrations name)

abbrev pub nth : List Registration → ℕ → Option Registration
nth [] n = none
nth (r ∷ list) zero = some r
nth (r ∷ list) (suc n) = nth list n

-- The list without the first registration of a handler.
unfoldable pub without_handler : ℕ → List Registration → List Registration
without_handler handler [] = []
without_handler handler (r ∷ list) =
    if eqb r.handler handler then list else r ∷ without_handler handler list

-- The list without a registration.
unfoldable pub without_id : ℕ → List Registration → List Registration
without_id id [] = []
without_id id (r ∷ list) = if eqb r.id id then list else r ∷ without_id id list

unfoldable pub add : String → ℕ → Bool → Broker → Broker
unfolding registered
add name handler once s = record s {
  registrations =
      Map.set s.registrations name
        (registered s name ++ (record { id = s.next_id; handler = handler; once = once } ∷ []));
  next_id = suc s.next_id;
}

unfoldable pub off : String → ℕ → Broker → Broker
unfolding registered without_handler
off name handler s = record s {
  registrations = Map.set s.registrations name (without_handler handler (registered s name));
}

-- `fire` up to its first handler: nothing begins where there is none, and `fire` resolves to false.
unfoldable pub begin_with : String → List Registration → Broker → Broker
begin_with name [] s = s
begin_with name (r ∷ list) s = record s {
  fires = λ k.
      if eqb k s.begun
      then some (record { name = name; snapshot = r ∷ list; position = 0; is_rejected = false })
      else s.fires k;
  begun = suc s.begun;
}

unfoldable pub fire : String → Broker → Broker
unfolding begin_with registered
fire name s = begin_with name (registered s name) s

-- A registration that is called once is removed before its handler is called.
unfoldable pub take_once : String → Registration → Broker → Broker
unfolding registered without_id
take_once name r s =
    if r.once
    then record s {
      registrations = Map.set s.registrations name (without_id r.id (registered s name));
    }
    else s

-- A fire calls the handler of its next registration. The handler may reject.
unfoldable pub call_next : ℕ → Fire → Bool → Option Registration → Broker → Broker
unfolding take_once
call_next i f rejects none s = s
call_next i f rejects (some r) s =
    let t = take_once f.name r s in
    record t {
      fires = λ k.
          if eqb k i
          then some (record f { position = suc f.position; is_rejected = rejects })
          else s.fires k;
      trace = called i r ∷ s.trace;
    }

unfoldable pub advance_from : ℕ → Option Fire → Bool → Broker → Broker
unfolding call_next
advance_from i none rejects s = s
advance_from i (some f) rejects s =
    if f.is_rejected then s else call_next i f rejects (nth f.snapshot f.position) s

unfoldable pub advance : ℕ → Bool → Broker → Broker
unfolding advance_from
advance i rejects s = advance_from i (s.fires i) rejects s

pub data Event : Type 0 where
  ons onces offs : (name : String) (handler : ℕ) → Event
  starts : (name : String) → Event
  goes_on : (fire : ℕ) (rejects : Bool) → Event

unfoldable pub step : Event → Broker → Broker
unfolding add off fire advance
step (ons name handler) s = add name handler false s
step (onces name handler) s = add name handler true s
step (offs name handler) s = off name handler s
step (starts name) s = fire name s
step (goes_on i rejects) s = advance i rejects s

unfoldable pub run : List Event → Broker → Broker
unfolding step
run [] s = s
run (e ∷ es) s = run es (step e s)
