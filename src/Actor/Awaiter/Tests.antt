-- ===== src/Actor/Awaiter/Tests.antt =====
-- Runs of the awaiter of packages/actor-system/src/inMemory.ts.
use tslib.Common.Map
use tslib.Common.{◌≡◌, refl, none, List, [], ◌∷◌}
use tslib.Actor.Awaiter.{Event, waits, resolves, expires, wait, run, happen, started}
use tslib.Actor.Awaiter.Outcomes.{result, outcome, wait-outcome}
use Prim.Native.String.{◌++◌}

-- A wait is resolved; its timer, and a wait for another message, come later.
abbrev events : List Event
events = resolves "actor" "m1" ∷ waits "actor" "m2" 100 ∷ expires "actorm1" ∷ []

wait-outcome_example :
    result (run [] started).promises (run events (wait (run [] started) "actor" "m1" 100)).settled
    ≡ outcome ("actor" ++ "m1") events
wait-outcome_example = wait-outcome [] events "actor" "m1" 100 (refl, (refl, (refl, tt)))

-- The ids of two messages of two actors may be the same text: the second wait takes the resolver of
-- the first one, whose promise is never settled.
same_id :
    result 0 (run (waits "a" "bc" 0 ∷ waits "ab" "c" 0 ∷ resolves "a" "bc" ∷ []) started).settled
    ≡ none
unfolding run happen Map.get Map.set
same_id = refl
