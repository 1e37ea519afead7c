-- ===== src/RedisQueue/Tests.antt =====
-- Runs of packages/actor-system-redis/src/queue.ts on a server that is a function from keys to lists,
-- with texts that are sent as they are.
use Prim.Native.String.{◌++◌}
use tslib.Common.{
  suc, ◌<◌, String, ◌≡◌, refl, some, List, [], ◌∷◌, map, length, ◌==◌, arith, if◌then◌else◌,
}
use mathlib.Core.List
use tslib.RedisQueue.{ListServer, Codec, ok, drop, first, flush}
use tslib.RedisQueue.Flush.{pushes, flush-keeps_pushes}
use tslib.RedisQueue.Refinement.{
  Call, sizes, pushes_item, pops, peeks, flushes, answers, fifo_answers, answers-refine-fifo,
}

abbrev put_at : (String → List String) → String → List String → String → List String
put_at s k l j = if k == j then l else s j

list_server : ListServer (String → List String)
list_server = record {
  items = λ s k. s k;
  llen = λ s k. length (s k);
  rpush = λ s k v. (suc (length (s k)), put_at s k (List.◌++◌ (s k) (v ∷ [])));
  expire = λ s k ttl. s;
  lpop = λ s k. (first (s k), put_at s k (drop 1 (s k)));
  lindex_0 = λ s k. first (s k);
  lrange_all = λ s k. s k;
  ltrim_from = λ s k n. put_at s k (drop n (s k));
  llen_reply = λ s k. refl;
  rpush_reply = λ s k v. refl;
  items_rpush = λ s k v j. refl;
  items_expire = λ s k ttl j h. refl;
  lpop_reply = λ s k. refl;
  items_lpop = λ s k j. refl;
  lindex_reply = λ s k. refl;
  lrange_reply = λ s k. refl;
  items_ltrim = λ s k n j. refl;
}

plain : Codec String
plain = record { encode = λ x. x; decode = λ v. some v; decode-encode = λ x. refl }

abbrev two : String → List String
two k = if "q:room" == k then "m1" ∷ "m2" ∷ [] else []

positive : 0 < 60
positive = omega arith

flush-keeps_pushes_example :
    let flushed =
      flush list_server plain "q:" 60
        (pushes list_server plain "q:" 60 "room" ("m3" ∷ []))
        "room"
        two in
    (flushed.0 ≡ ok ("m1" ∷ "m2" ∷ []))
    × (list_server.items flushed.1 ("q:" ++ "room") ≡ map plain.encode ("m3" ∷ []))
unfolding list_server plain
flush-keeps_pushes_example =
    flush-keeps_pushes list_server plain "q:" 60 "room" ("m1" ∷ "m2" ∷ []) ("m3" ∷ []) two positive
      refl

abbrev calls : List (Call String)
calls =
    pushes_item "room" "m1"
    ∷ sizes "room"
    ∷ peeks "room"
    ∷ pops "room"
    ∷ pops "room"
    ∷ pushes_item "hall" "m2"
    ∷ flushes "hall"
    ∷ []

answers-refine-fifo_example :
    answers list_server plain "q:" 60 (λ k. []) calls ≡ fifo_answers "q:" (λ k. []) calls
unfolding list_server plain
answers-refine-fifo_example =
    answers-refine-fifo list_server plain "q:" 60 calls (λ k. []) (λ k. []) positive (λ k. refl)
