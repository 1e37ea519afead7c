-- ===== src/EventBroker/Tests.antt =====
-- Runs of packages/event-broker/src/event-broker.ts.
use tslib.Common.{◌≡◌, refl, true, false, List, [], ◌∷◌, arith}
use tslib.Common.Map.{get, set}
use tslib.EventBroker.{
  Registration, Fire, called, Broker, empty, registered, add, begin_with, fire, take_once,
  call_next, advance_from, advance, Event, ons, onces, offs, starts, goes_on, step, run,
}
use tslib.EventBroker.Dispatch.{calls_of, IsOn}
use tslib.EventBroker.Completion.{fire-IsOn, fire-completes, going_on}

-- A handler 7, and a handler 8 that listens once.
abbrev set_up : List Event
set_up = ons "data" 7 ∷ onces "data" 8 ∷ []

abbrev first : Registration
first = record { id = 0; handler = 7; once = false }

abbrev second : Registration
second = record { id = 1; handler = 8; once = true }

both_registered : registered (run set_up empty) "data" ≡ first ∷ (second ∷ [])
unfolding run step add registered get set
both_registered = refl

-- The second handler is taken away while the first one runs, and is called all the same.
abbrev meanwhile : List Event
meanwhile = goes_on 0 false ∷ offs "data" 8 ∷ goes_on 0 false ∷ []

fire-IsOn_example :
    (f : Fire) × IsOn
      (run set_up empty).begun
      "data"
      (first ∷ (second ∷ []))
      (run meanwhile (fire "data" (run set_up empty)))
      f
fire-IsOn_example = fire-IsOn set_up meanwhile "data" first (second ∷ []) both_registered

abbrev begun : Fire
begun = record {
  name = "data";
  snapshot = first ∷ (second ∷ []);
  position = 0;
  is_rejected = false;
}

begun-IsOn_data : IsOn 0 "data" (first ∷ (second ∷ [])) (fire "data" (run set_up empty)) begun
unfolding run step add registered get set fire begin_with
begun-IsOn_data = record {
  is_there = refl;
  named = refl;
  copied = refl;
  made = refl;
  within = omega arith;
  known = omega arith;
}

fire-completes_example :
    calls_of 0 (run (going_on 0 2) (fire "data" (run set_up empty))).trace ≡ first ∷ (second ∷ [])
fire-completes_example =
    fire-completes 0 "data" (first ∷ (second ∷ [])) (fire "data" (run set_up empty)) begun 2
      begun-IsOn_data refl refl

-- Two fires that have both called the first handler.
abbrev overlapping : List Event
overlapping = starts "data" ∷ starts "data" ∷ goes_on 0 false ∷ goes_on 1 false ∷ []

abbrev overlapped : Broker
overlapped = run overlapping (run set_up empty)

-- Both fires call the handler that listens once: they overlap.
abbrev overlapped_on : Broker
overlapped_on = run (goes_on 0 false ∷ goes_on 1 false ∷ []) overlapped

both_call : overlapped_on.trace ≡ called 1 second ∷ (called 0 second ∷ overlapped.trace)
unfolding run step add registered get set fire begin_with advance advance_from call_next take_once
both_call = refl

-- The handlers 7 and 8 are registered, and fired once.
abbrev fired : List Event
fired =
    ons "data" 7
    ∷ onces "data" 8
    ∷ starts "data"
    ∷ goes_on 0 false
    ∷ goes_on 0 false
    ∷ ons "data" 9
    ∷ []
