-- ===== src/Repository/Document/Tests.antt =====
-- Runs of packages/repository/src/document on the in-memory repository, with a hash that has no
-- collision.
use Prim.Native.Char.{Char, code}
use tslib.Common.{
  ℕ, zero, suc, ◌+◌, ◌≤◌, ◌≡◌, refl, ap, sym, ◌∙◌, String, Bool, none, some, List, [], ◌∷◌, ◌++◌,
  ◌||◌, leb, ◌==◌, eqb, ltb, if◌then◌else◌, arith,
}
use tslib.Common.Map
use tslib.Common.Map.{Map}
use tslib.Repository.Memory.Laws.{get-write, at_time, get_or}
use tslib.Repository.Memory.{
  Memory, get, ExpirableEntry, write, compare_and_set, live, unless_expired, is_expired,
  get_revision, deadline,
}
use tslib.Repository.Memory.Cas.{memory_cas, TokensFit, write-TokensFit}
use tslib.Repository.Interface.{CasRepository}
use tslib.Repository.Document.{Versioned, edit_document, attempt_once, new_doc}
use tslib.Repository.Document.Edits.{IsAtomic, edit_document-IsAtomic, left_by_others}
use tslib.Repository.Document.Collections.{
  always, inserted, insert_or_update, map_insert_or_update, map_read, list_insert, list_read,
}
use tslib.Repository.Document.Collections.Reads.{shown, map_read-insert_or_update, list_read-insert}

-- A number in front of a text, and a key in front of a number.
enc_num : ℕ → String → String
enc_num zero s = String.◌∷◌ "e" s
enc_num (suc n) s = String.◌∷◌ "a" (enc_num n s)

enc_key : String → String → String
enc_key String.[] s = s
enc_key (String.◌∷◌ c k) s = String.◌∷◌ "c" (String.◌∷◌ c (enc_key k s))

enc : Map ℕ → String
unfolding enc_num enc_key
enc [] = String.[]
enc ((k, n) ∷ m) = enc_key k (enc_num n (enc m))

longer_key : Char → Map ℕ → Map ℕ
longer_key c [] = []
longer_key c ((k, n) ∷ m) = (String.◌∷◌ c k, n) ∷ m

one_more : Map ℕ → Map ℕ
one_more [] = []
one_more ((k, n) ∷ m) = (k, suc n) ∷ m

dec : String → Map ℕ
unfolding longer_key one_more
dec String.[] = []
dec (String.◌∷◌ t String.[]) = if eqb (code t) b'e' then ("", 0) ∷ [] else []
dec (String.◌∷◌ t (String.◌∷◌ c s)) =
    let tail = dec s in
    let rest = dec (String.◌∷◌ c s) in
    if eqb (code t) b'e'
    then ("", 0) ∷ rest
    else if eqb (code t) b'a'
    then one_more rest
    else longer_key c tail

dec-e : (s : String) → dec (String.◌∷◌ "e" s) ≡ ("", 0) ∷ dec s
unfolding dec
dec-e String.[] = refl
dec-e (String.◌∷◌ c s) = refl

dec-num : (n : ℕ) (s : String) → dec (enc_num n s) ≡ ("", n) ∷ dec s
unfolding enc_num dec
dec-num zero s = dec-e s
dec-num (suc zero) s = ap one_more (dec-e s)
dec-num (suc (suc n)) s = ap one_more (dec-num (suc n) s)

dec-key : (k : String) (n : ℕ) (s : String) → dec (enc_key k (enc_num n s)) ≡ (k, n) ∷ dec s
unfolding enc_key dec
dec-key String.[] n s = dec-num n s
dec-key (String.◌∷◌ c k) n s = ap (longer_key c) (dec-key k n s)

dec-enc : (m : Map ℕ) → dec (enc m) ≡ m
unfolding enc
dec-enc [] = unfold dec in refl
dec-enc ((k, n) ∷ m) = dec-key k n (enc m) ∙ ap (◌∷◌ (k, n)) (dec-enc m)

enc-injective : (a b : Map ℕ) → enc a ≡ enc b → a ≡ b
enc-injective a b h = sym (dec-enc a) ∙ ap dec h ∙ dec-enc b

hash : Versioned (Map ℕ) → String
hash d = enc (("", d.version) ∷ d.content)

hash-injective : (a b : Versioned (Map ℕ)) → hash a ≡ hash b → a ≡ b
unfolding hash
hash-injective a b h =
    let same = enc-injective (("", a.version) ∷ a.content) (("", b.version) ∷ b.content) h in
    ground (arith, same)

abbrev repository : CasRepository (Memory (Versioned (Map ℕ))) (Versioned (Map ℕ))
repository = memory_cas hash hash-injective

abbrev nothing : Memory (Versioned (Map ℕ))
nothing = record { store = []; now = 7 }

abbrev rival : Versioned (Map ℕ)
rival = record { version = 1; content = ("bob", 3) ∷ [] }

-- A rival gets in between during the first attempt.
rivals : ℕ → Memory (Versioned (Map ℕ)) → Memory (Versioned (Map ℕ))
rivals zero m = write hash m "scores" rival none
rivals (suc n) m = m

rivals_keep :
    (n : ℕ) (m : Memory (Versioned (Map ℕ))) → TokensFit hash m → TokensFit hash (rivals n m)
unfolding rivals
rivals_keep zero m fit = write-TokensFit hash m "scores" rival none fit
rivals_keep (suc n) m fit = fit

nothing_fits : TokensFit hash nothing
nothing_fits k e h = cc (Map.get-empty {V = ExpirableEntry (Versioned (Map ℕ))} k)

abbrev alice : Map ℕ → Map ℕ
alice m = Map.set m "alice" 10

edit_document-IsAtomic_example :
    IsAtomic always [] repository "scores" alice none 0 3 rivals nothing
      (edit_document always [] repository "scores" alice none rivals 3 nothing)
unfolding memory_cas
edit_document-IsAtomic_example =
    edit_document-IsAtomic always [] repository "scores" alice none rivals rivals_keep 3 nothing
      nothing_fits

abbrev positive : ℕ → Bool
positive n = ltb 0 n

both_scores : Versioned (Map ℕ)
both_scores = record { version = 2; content = ("bob", 3) ∷ ("alice", 10) ∷ [] }

both_stored : Memory (Versioned (Map ℕ))
unfolding hash enc both_scores
both_stored = write hash nothing "scores" both_scores none

map_read-insert_or_update_example :
    (n : ℕ) × (n ≤ 3)
    × ((map_read repository "scores" both_stored).version
        ≡ (map_read repository "scores" (left_by_others rivals 0 n nothing)).version + 1)
    × ((j : String)
        → Map.get (map_read repository "scores" both_stored).content j ≡ (
            if "alice" == j
            then shown positive (some 10)
            else Map.get
                (map_read repository "scores" (left_by_others rivals 0 n nothing)).content
                j))
unfolding memory_cas both_stored rivals map_insert_or_update edit_document attempt_once new_doc
    insert_or_update compare_and_set live write unless_expired is_expired get_revision deadline
    Map.get Map.set
map_read-insert_or_update_example =
    map_read-insert_or_update "scores" none 3 rivals repository rivals_keep positive "alice"
      (some 10) nothing both_stored both_scores nothing_fits refl

-- A list of numbers as a map, for its hash.
numbered : List ℕ → Map ℕ
numbered [] = []
numbered (n ∷ ns) = ("", n) ∷ numbered ns

numbered-injective : (a b : List ℕ) → numbered a ≡ numbered b → a ≡ b
unfolding numbered
numbered-injective [] [] h = refl
numbered-injective [] (n ∷ ns) h = cc
numbered-injective (n ∷ ns) [] h = cc
numbered-injective (n ∷ ns) (m ∷ ms) h =
    let same = numbered-injective ns ms (ground arith) in ground (arith, same)

hash_list : Versioned (List ℕ) → String
hash_list d = enc (("", d.version) ∷ numbered d.content)

hash_list-injective : (a b : Versioned (List ℕ)) → hash_list a ≡ hash_list b → a ≡ b
unfolding hash_list
hash_list-injective a b h =
    let same =
      enc-injective (("", a.version) ∷ numbered a.content) (("", b.version) ∷ numbered b.content)
        h in
    ground (arith, same, numbered-injective a.content b.content)

abbrev lists : CasRepository (Memory (Versioned (List ℕ))) (Versioned (List ℕ))
lists = memory_cas hash_list hash_list-injective

abbrev no_list : Memory (Versioned (List ℕ))
no_list = record { store = []; now = 7 }

no_list_fits : TokensFit hash_list no_list
no_list_fits k e h = cc (Map.get-empty {V = ExpirableEntry (Versioned (List ℕ))} k)

rival_inserts : ℕ → Memory (Versioned (List ℕ)) → Memory (Versioned (List ℕ))
rival_inserts zero m = write hash_list m "list" (record { version = 1; content = 4 ∷ [] }) none
rival_inserts (suc n) m = m

rival_inserts_keep :
    (n : ℕ) (m : Memory (Versioned (List ℕ)))
    → TokensFit hash_list m
    → TokensFit hash_list (rival_inserts n m)
unfolding rival_inserts
rival_inserts_keep zero m fit = write-TokensFit hash_list m "list" _ none fit
rival_inserts_keep (suc n) m fit = fit

both_inserted : Versioned (List ℕ)
both_inserted = record { version = 2; content = 4 ∷ 5 ∷ [] }

list_stored : Memory (Versioned (List ℕ))
unfolding hash_list enc numbered both_inserted
list_stored = write hash_list no_list "list" both_inserted none

list_read-insert_example :
    (n : ℕ) × (n ≤ 3)
    × ((list_read lists "list" list_stored).content
        ≡ (list_read lists "list" (left_by_others rival_inserts 0 n no_list)).content ++ 5 ∷ [])
unfolding memory_cas list_stored rival_inserts list_insert inserted edit_document attempt_once
    new_doc compare_and_set live write unless_expired is_expired get_revision deadline Map.get
    Map.set
list_read-insert_example =
    list_read-insert "list" none 3 rival_inserts lists rival_inserts_keep 5 no_list list_stored
      both_inserted no_list_fits refl

-- Written at 7 for 5 milliseconds: there at 12, gone at 13.
get-write_example : get (at_time (write hash nothing "scores" rival (some 5)) 13) "scores" ≡ (
    if "scores" == "scores"
    then (if eqb (get_or (some 5) 0) 0 || leb 13 (7 + get_or (some 5) 0) then some rival else none)
    else get (at_time nothing 13) "scores")
get-write_example = get-write hash nothing "scores" "scores" rival (some 5) 13
