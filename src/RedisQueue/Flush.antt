-- ===== src/RedisQueue/Flush.antt =====
-- `flush` of packages/actor-system-redis/src/queue.ts while others push.
use Prim.Native.String.{◌++◌}
use tslib.Common.{
  ℕ, suc, ◌<◌, String, ◌≡◌, refl, sym, ap, ◌∙◌, List, [], ◌∷◌, map, length, ◌==◌, eq_iff, eq_refl,
  arith, if◌then◌else◌, append_assoc, append-nil,
}
use mathlib.Core.List
use tslib.RedisQueue.{ListServer, Codec, ok, drop, decode_all, push, flush, flush_found}

drop-append {ℓ} : {A : Type ℓ} (xs ys : List A) → drop (length xs) (List.◌++◌ xs ys) ≡ ys
drop-append [] ys = refl
drop-append (x ∷ xs) ys = drop-append xs ys

module _ {S T : Type 0} (redis : ListServer S) (codec : Codec T) where
  pub decode_all-encode : (xs : List T) → decode_all redis codec (map codec.encode xs) ≡ ok xs
  unfolding decode_all
  decode_all-encode [] = refl
  decode_all-encode (x ∷ xs) = ground (arith, decode_all-encode xs, codec.decode-encode x)

  module _ (key_prefix : String) (ttl_seconds : ℕ) where
    -- Pushes by others, one after the other.
    unfoldable pub pushes : String → List T → S → S
    pushes actor [] s = s
    pushes actor (x ∷ xs) s = pushes actor xs (push redis codec key_prefix ttl_seconds actor x s).1

    pub items-push :
        (actor : String) (x : T) (s : S) (j : String)
        → 0 < ttl_seconds
        → redis.items (push redis codec key_prefix ttl_seconds actor x s).1 j ≡ (
            if key_prefix ++ actor == j
            then List.◌++◌ (redis.items s (key_prefix ++ actor)) (codec.encode x ∷ [])
            else redis.items s j)
    unfolding push
    items-push actor x s j h =
        let key = key_prefix ++ actor in
        redis.items_expire (redis.rpush s key (codec.encode x)).1 key ttl_seconds j h
        ∙ redis.items_rpush s key (codec.encode x) j

    items-pushes :
        (actor : String) (xs : List T) (s : S)
        → 0 < ttl_seconds
        → redis.items (pushes actor xs s) (key_prefix ++ actor)
          ≡ List.◌++◌ (redis.items s (key_prefix ++ actor)) (map codec.encode xs)
    unfolding pushes
    items-pushes actor [] s h = sym (append-nil (redis.items s (key_prefix ++ actor)))
    items-pushes actor (x ∷ xs) s h =
        let key = key_prefix ++ actor in
        let s' = (push redis codec key_prefix ttl_seconds actor x s).1 in
        let here : redis.items s' key ≡ List.◌++◌ (redis.items s key) (codec.encode x ∷ []) =
          ground (arith, items-push actor x s key h, eq_refl key) in
        items-pushes actor xs s' h
        ∙ ap (λ l. List.◌++◌ l (map codec.encode xs)) here
        ∙ append_assoc (redis.items s key) (codec.encode x ∷ []) (map codec.encode xs)

    trimmed :
        (actor : String) (x : T) (xs ys : List T) (s : S)
        → 0 < ttl_seconds
        → redis.items s (key_prefix ++ actor) ≡ map codec.encode (x ∷ xs)
        → redis.items
            (redis.ltrim_from
              (pushes actor ys s)
              (key_prefix ++ actor)
              (suc (length (map codec.encode xs))))
            (key_prefix ++ actor)
          ≡ map codec.encode ys
    trimmed actor x xs ys s h e =
        let key = key_prefix ++ actor in
        let all = map codec.encode (x ∷ xs) in
        let left : redis.items (pushes actor ys s) key ≡ List.◌++◌ all (map codec.encode ys) =
          items-pushes actor ys s h ∙ ap (λ l. List.◌++◌ l (map codec.encode ys)) e in
        let cut : redis.items (redis.ltrim_from (pushes actor ys s) key (length all)) key
            ≡ drop (length all) (redis.items (pushes actor ys s) key) =
          ground (arith, redis.items_ltrim (pushes actor ys s) key (length all) key, eq_refl key) in
        cut ∙ ap (drop (length all)) left ∙ drop-append all (map codec.encode ys)

    flush-first :
        (actor : String) (xs ys : List T) (s : S)
        → 0 < ttl_seconds
        → redis.items s (key_prefix ++ actor) ≡ map codec.encode xs
        → let flushed =
            flush_found redis codec key_prefix ttl_seconds
              (pushes actor ys)
              actor
              (map codec.encode xs)
              s in
          (flushed.0 ≡ ok xs) × (redis.items flushed.1 (key_prefix ++ actor) ≡ map codec.encode ys)
    unfolding flush_found
    flush-first actor [] ys s h e =
        (refl, items-pushes actor ys s h ∙ ap (λ l. List.◌++◌ l (map codec.encode ys)) e)
    flush-first actor (x ∷ xs) ys s h e =
        rw (decode_all-encode (x ∷ xs), flush_found) (refl, trimmed actor x xs ys s h e)

    -- `flush` gives out exactly what was in the queue when it read it, and leaves exactly what others
    -- push while it runs, in their order.
    pub flush-keeps_pushes :
        (actor : String) (xs ys : List T) (s : S)
        → 0 < ttl_seconds
        → redis.items s (key_prefix ++ actor) ≡ map codec.encode xs
        → let flushed = flush redis codec key_prefix ttl_seconds (pushes actor ys) actor s in
          (flushed.0 ≡ ok xs) × (redis.items flushed.1 (key_prefix ++ actor) ≡ map codec.encode ys)
    unfolding flush
    flush-keeps_pushes actor xs ys s h e =
        rw (redis.lrange_reply s (key_prefix ++ actor) ∙ e) (flush-first actor xs ys s h e)

    drop-all : (l : List String) → drop (length l) l ≡ []
    drop-all [] = refl
    drop-all (v ∷ l) = drop-all l

    flushed-items :
        (actor : String) (xs : List T) (s : S) (j : String)
        → redis.items s (key_prefix ++ actor) ≡ map codec.encode xs
        → redis.items
            (flush_found redis codec key_prefix ttl_seconds
              (λ x. x)
              actor
              (map codec.encode xs)
              s).1
            j
          ≡ (if key_prefix ++ actor == j then [] else redis.items s j)
    unfolding flush_found
    flushed-items actor [] s j e = ground (arith, e, eq_iff (key_prefix ++ actor) j)
    flushed-items actor (x ∷ xs) s j e =
        let key = key_prefix ++ actor in
        let all = map codec.encode (x ∷ xs) in
        rw (decode_all-encode (x ∷ xs), flush_found)
          (redis.items_ltrim s key (length all) j
            ∙ ap (λ l. if key == j then l else redis.items s j)
                (ap (drop (length all)) e ∙ drop-all all))

    -- What a flush leaves, where no one else pushes.
    pub flush-items :
        (actor : String) (xs : List T) (s : S) (j : String)
        → redis.items s (key_prefix ++ actor) ≡ map codec.encode xs
        → redis.items (flush redis codec key_prefix ttl_seconds (λ x. x) actor s).1 j
          ≡ (if key_prefix ++ actor == j then [] else redis.items s j)
    unfolding flush
    flush-items actor xs s j e =
        rw (redis.lrange_reply s (key_prefix ++ actor) ∙ e) (flushed-items actor xs s j e)
