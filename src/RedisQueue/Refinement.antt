-- ===== src/RedisQueue/Refinement.antt =====
-- packages/actor-system-redis/src/queue.ts as independent FIFO lists.
use Prim.Native.String.{◌++◌}
use tslib.Common.{
  ℕ, suc, ◌<◌, String, ◌≡◌, refl, ap, ◌∙◌, Option, List, [], ◌∷◌, map, length, ◌==◌, arith,
  if◌then◌else◌,
}
use mathlib.Core.List
use tslib.RedisQueue.{
  ListServer, Codec, Result, ok, drop, first, decoded, size, push, pop, peek, flush,
}
use tslib.RedisQueue.Flush.{pushes, flush-keeps_pushes, items-push, flush-items}

pub data Call (T : Type 0) : Type 0 where
  sizes pops peeks flushes : String → Call T
  pushes_item : String → T → Call T

pub data Answer (T : Type 0) : Type 0 where
  number : ℕ → Answer T
  item : Result (Option T) → Answer T
  items : Result (List T) → Answer T

module _ {T : Type 0} (key_prefix : String) where
  -- The lists of the keys, before and after a call.
  pub put : (String → List T) → String → List T → String → List T
  put q key xs j = if key == j then xs else q j

  pub fifo_call : (String → List T) → Call T → Answer T × (String → List T)
  unfolding put
  fifo_call q (sizes a) = (number (length (q (key_prefix ++ a))), q)
  fifo_call q (pushes_item a x) = (
    number (suc (length (q (key_prefix ++ a)))),
    put q (key_prefix ++ a) (List.◌++◌ (q (key_prefix ++ a)) (x ∷ [])),
  )
  fifo_call q (pops a) = (
    item (ok (first (q (key_prefix ++ a)))),
    put q (key_prefix ++ a) (drop 1 (q (key_prefix ++ a))),
  )
  fifo_call q (peeks a) = (item (ok (first (q (key_prefix ++ a)))), q)
  fifo_call q (flushes a) = (items (ok (q (key_prefix ++ a))), put q (key_prefix ++ a) [])

  pub fifo_answers : (String → List T) → List (Call T) → List (Answer T)
  unfolding fifo_call
  fifo_answers q [] = []
  fifo_answers q (c ∷ cs) = let (answer, next) = fifo_call q c in answer ∷ fifo_answers next cs

length-map {ℓ κ} :
    {A : Type ℓ} {B : Type κ} (f : A → B) (xs : List A) → length (map f xs) ≡ length xs
length-map f [] = refl
length-map f (x ∷ xs) = ap suc (length-map f xs)

map-append_one {ℓ κ} :
    {A : Type ℓ} {B : Type κ} (f : A → B) (xs : List A) (x : A)
    → List.◌++◌ (map f xs) (f x ∷ []) ≡ map f (List.◌++◌ xs (x ∷ []))
map-append_one f [] x = refl
map-append_one f (y ∷ xs) x = ap (λ l. f y ∷ l) (map-append_one f xs x)

map-drop_one {ℓ κ} :
    {A : Type ℓ} {B : Type κ} (f : A → B) (xs : List A) → drop 1 (map f xs) ≡ map f (drop 1 xs)
map-drop_one f [] = refl
map-drop_one f (x ∷ xs) = refl

module _ {S T : Type 0} (redis : ListServer S) (codec : Codec T) (key_prefix : String)
    (ttl_seconds : ℕ) where
  -- A call while no one else uses the server.
  pub call : S → Call T → Answer T × S
  call s (sizes a) = (number (size redis codec key_prefix ttl_seconds a s), s)
  call s (pushes_item a x) =
      let (n, s') = push redis codec key_prefix ttl_seconds a x s in (number n, s')
  call s (pops a) = let (r, s') = pop redis codec key_prefix ttl_seconds a s in (item r, s')
  call s (peeks a) = (item (peek redis codec key_prefix ttl_seconds a s), s)
  call s (flushes a) =
      let (r, s') = flush redis codec key_prefix ttl_seconds (λ x. x) a s in (items r, s')

  pub answers : S → List (Call T) → List (Answer T)
  unfolding call
  answers s [] = []
  answers s (c ∷ cs) = let (answer, next) = call s c in answer ∷ answers next cs

  -- Each key has the encoded items of its list.
  abbrev pub IsEncoded : S → (String → List T) → Type 0
  IsEncoded s q = (k : String) → redis.items s k ≡ map codec.encode (q k)

  decoded-first : (xs : List T) → decoded redis codec (first (map codec.encode xs)) ≡ ok (first xs)
  unfolding decoded
  decoded-first [] = refl
  decoded-first (x ∷ xs) = ground (arith, codec.decode-encode x)

  size-IsEncoded :
      (s : S) (q : String → List T) (a : String)
      → IsEncoded s q
      → size redis codec key_prefix ttl_seconds a s ≡ length (q (key_prefix ++ a))
  unfolding size
  size-IsEncoded s q a h =
      redis.llen_reply s (key_prefix ++ a)
      ∙ ap length (h (key_prefix ++ a))
      ∙ length-map codec.encode (q (key_prefix ++ a))

  depth-IsEncoded :
      (s : S) (q : String → List T) (a : String) (x : T)
      → IsEncoded s q
      → (push redis codec key_prefix ttl_seconds a x s).0 ≡ suc (length (q (key_prefix ++ a)))
  unfolding push
  depth-IsEncoded s q a x h =
      redis.rpush_reply s (key_prefix ++ a) (codec.encode x)
      ∙ ap (λ l. suc (length l)) (h (key_prefix ++ a))
      ∙ ap suc (length-map codec.encode (q (key_prefix ++ a)))

  push-IsEncoded :
      (s : S) (q : String → List T) (a : String) (x : T)
      → 0 < ttl_seconds
      → IsEncoded s q
      → IsEncoded
          (push redis codec key_prefix ttl_seconds a x s).1
          (put {T = T} key_prefix q (key_prefix ++ a) (List.◌++◌ (q (key_prefix ++ a)) (x ∷ [])))
  unfolding put
  push-IsEncoded s q a x t h k =
      let key = key_prefix ++ a in
      items-push redis codec key_prefix ttl_seconds a x s k t
      ∙ ground (
        arith,
        h k,
        ap (λ l. List.◌++◌ l (codec.encode x ∷ [])) (h key),
        map-append_one codec.encode (q key) x,
      )

  pop-IsEncoded :
      (s : S) (q : String → List T) (a : String)
      → IsEncoded s q
      → ((pop redis codec key_prefix ttl_seconds a s).0 ≡ ok (first (q (key_prefix ++ a))))
        × IsEncoded
            (pop redis codec key_prefix ttl_seconds a s).1
            (put {T = T} key_prefix q (key_prefix ++ a) (drop 1 (q (key_prefix ++ a))))
  unfolding pop put
  pop-IsEncoded s q a h =
      let key = key_prefix ++ a in
      (
        ap (decoded redis codec) (redis.lpop_reply s key ∙ ap first (h key))
            ∙ decoded-first (q key),
        λ k.
            redis.items_lpop s key k
            ∙ ground (arith, h k, ap (drop 1) (h key), map-drop_one codec.encode (q key)),
      )

  peek-IsEncoded :
      (s : S) (q : String → List T) (a : String)
      → IsEncoded s q
      → peek redis codec key_prefix ttl_seconds a s ≡ ok (first (q (key_prefix ++ a)))
  unfolding peek
  peek-IsEncoded s q a h =
      let key = key_prefix ++ a in
      ap (decoded redis codec) (redis.lindex_reply s key ∙ ap first (h key)) ∙ decoded-first (q key)

  flush-IsEncoded :
      (s : S) (q : String → List T) (a : String)
      → 0 < ttl_seconds
      → IsEncoded s q
      → ((flush redis codec key_prefix ttl_seconds (λ x. x) a s).0 ≡ ok (q (key_prefix ++ a)))
        × IsEncoded
            (flush redis codec key_prefix ttl_seconds (λ x. x) a s).1
            (put {T = T} key_prefix q (key_prefix ++ a) [])
  unfolding put pushes
  flush-IsEncoded s q a t h =
      let key = key_prefix ++ a in
      (
        (flush-keeps_pushes redis codec key_prefix ttl_seconds a (q key) [] s t (h key)).0,
        λ k.
            flush-items redis codec key_prefix ttl_seconds a (q key) s k (h key)
            ∙ ground (arith, h k),
      )

  call-IsEncoded :
      (s : S) (q : String → List T) (c : Call T)
      → 0 < ttl_seconds
      → IsEncoded s q
      → ((call s c).0 ≡ (fifo_call key_prefix q c).0)
        × IsEncoded (call s c).1 (fifo_call key_prefix q c).1
  unfolding call fifo_call
  call-IsEncoded s q (sizes a) t h = (ap number (size-IsEncoded s q a h), h)
  call-IsEncoded s q (pushes_item a x) t h =
      (ap number (depth-IsEncoded s q a x h), push-IsEncoded s q a x t h)
  call-IsEncoded s q (pops a) t h = let (e, n) = pop-IsEncoded s q a h in (ap item e, n)
  call-IsEncoded s q (peeks a) t h = (ap item (peek-IsEncoded s q a h), h)
  call-IsEncoded s q (flushes a) t h = let (e, n) = flush-IsEncoded s q a t h in (ap items e, n)

  -- On a server that holds the encoded items of some lists, every history of calls is answered as the
  -- lists answer it, and nothing that was encoded fails to decode.
  pub answers-refine-fifo :
      (cs : List (Call T)) (s : S) (q : String → List T)
      → 0 < ttl_seconds
      → IsEncoded s q
      → answers s cs ≡ fifo_answers key_prefix q cs
  unfolding answers fifo_answers
  answers-refine-fifo [] s q t h = refl
  answers-refine-fifo (c ∷ cs) s q t h =
      let (e, n) = call-IsEncoded s q c t h in
      let rest = answers-refine-fifo cs (call s c).1 (fifo_call key_prefix q c).1 t n in
      ap (λ a. a ∷ answers (call s c).1 cs) e ∙ ap (λ l. (fifo_call key_prefix q c).0 ∷ l) rest
