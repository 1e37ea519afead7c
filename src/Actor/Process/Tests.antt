-- ===== src/Actor/Process/Tests.antt =====
-- Runs of packages/actor-system/src/process.ts on small inputs.
use tslib.Common.{
  ℕ, inl, inr, ◌≤◌, ◌≡◌, refl, arith, ◌*◌, true, false, none, some, List, [], ◌∷◌, eqb,
  if◌then◌else◌, arith,
}
use tslib.Actor.Message.{UserMessage, AwaitPolicy}
use tslib.Actor.Process.Exec.{Env, Handler, single, bulk}
use tslib.Actor.Process.{Options, try_to_process, limit, is_once}
use tslib.Actor.Process.Triple.{Ends}
use tslib.Actor.Process.Delivery.{Delivered, Held}
use tslib.Actor.Process.Ownership.{IsEnded, IsSettled}
use tslib.Actor.Process.Guarantees.{
  origin, IsFueled, IsSpent, try_to_process-Delivered, try_to_process-releases,
}

abbrev message : AwaitPolicy → ℕ → UserMessage ℕ
message policy n = record {
  meta = record { message_id = "m"; await_policy = policy; await_timeout_millis = 0 };
  item = n;
}

-- Two messages before the first instant is over, one later; the handler throws on 2.
abbrev pushes : ℕ → List (UserMessage ℕ)
pushes n =
    if eqb n 0
    then message AwaitPolicy.act 1 ∷ message AwaitPolicy.commit 2 ∷ []
    else if eqb n 5
    then message AwaitPolicy.forget 3 ∷ []
    else []

abbrev env_with : Handler ℕ → Env ℕ
env_with handler = record {
  handler = handler;
  on_error = some (λ _. false);
  shift = some (λ _. false);
  millis = λ n. 10 * n;
  grants = λ n. eqb n 0;
  acquire_throws = λ _. false;
  release_throws = λ _. false;
  queue_throws = λ n. eqb n 9;
  lost = λ _. false;
  arrivals = pushes;
}

abbrev one_by_one : Env ℕ
one_by_one = env_with (single (λ _ n. eqb n 2) none (some (λ _. false)))

abbrev options : Options
options = record {
  one_shot = none;
  alive_millis = some 300;
  shiftable = true;
  idle_interval_millis = 50;
}

abbrev in_bulk : Env ℕ
in_bulk = env_with (bulk (λ _ _. true))

-- A lifetime of 300 ms is over at instant 30, for which fuel 40 is enough.
lifetime-IsFueled : IsFueled in_bulk options 40
unfolding limit
lifetime-IsFueled = inl (30, (omega arith, λ k h. omega (arith, h)), (omega arith, omega arith))

-- The default options: one attempt on the lock and one drain.
abbrev default_options : Options
default_options = record {
  one_shot = none;
  alive_millis = none;
  shiftable = false;
  idle_interval_millis = 50;
}

-- Nothing is pushed from instant 6 on, three messages before.
pushes_end : (k : ℕ) → 6 ≤ k → pushes k ≡ []
pushes_end k h = ground (arith, h)

default_options-IsFueled : IsFueled one_by_one default_options 40
unfolding is_once limit
default_options-IsFueled = inr (record {
  once = refl;
  unlimited = refl;
  kept = λ k. refl;
  last = 6;
  quiet = pushes_end;
  enough = omega arith;
})

try_to_process-Delivered_example :
    Ends
      (Held one_by_one)
      (IsSpent one_by_one default_options 40)
      (Delivered one_by_one)
      (try_to_process one_by_one default_options 40 origin).0
      (try_to_process one_by_one default_options 40 origin).1
try_to_process-Delivered_example = try_to_process-Delivered one_by_one default_options 40

try_to_process-releases_example :
    Ends
      (IsEnded in_bulk)
      (IsSpent in_bulk options 40)
      (IsSettled in_bulk)
      (try_to_process in_bulk options 40 origin).0
      (try_to_process in_bulk options 40 origin).1
try_to_process-releases_example = try_to_process-releases in_bulk options 40
