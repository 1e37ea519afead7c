-- ===== src/Repository/Memory/Cas.antt =====
-- packages/repository/src/memory.ts keeps the promises of `CasRepository`, if the hash has no
-- collision.
use tslib.Common.{
  ℕ, ◌≡◌, ◌≢◌, refl, sym, ◌∙◌, String, true, false, Option, none, some, eq_iff, eq_refl, same_text,
  arith, Option-cases, Bool-cases, inl, inr,
}
use tslib.Common.Map
use tslib.Common.Map.{get-set}
use tslib.Repository.Memory.{
  Revision, ExpirableEntry, Memory, is_expired, unless_expired, live, get_revision, entry_at, write,
  compare_and_set,
}
use tslib.Repository.Interface.{CasRepository}
use mathlib.Core.Option

module _ {V : Type 0} (token_of : V → String) where
  -- Every token is that of the value beside it.
  abbrev pub TokensFit : Memory V → Type 0
  TokensFit m =
      (k : String) (e : ExpirableEntry V) → Map.get m.store k ≡ some e → e.token ≡ token_of e.value

  pub write-TokensFit :
      (m : Memory V) (k : String) (v : V) (x : Option ℕ)
      → TokensFit m
      → TokensFit (write token_of m k v x)
  unfolding write
  write-TokensFit m k v x fit j e h =
      ground (arith, get-set m.store k j (entry_at token_of m.now v x), fit j e)

  unless_expired-some :
      (o : Option (ExpirableEntry V)) (t : ℕ) (e : ExpirableEntry V)
      → unless_expired o t ≡ some e
      → o ≡ some e
  unfolding unless_expired
  unless_expired-some o t e h = ground arith

  pub revision-fits :
      (m : Memory V) (k : String) (r : Revision V)
      → TokensFit m
      → get_revision m k ≡ some r
      → r.token ≡ token_of r.value
  unfolding get_revision live
  revision-fits m k r fit h = elim (Option-cases (live m k)) [
    | inl e ↦ ground arith
    | inr (x, e) ↦ ground (arith, fit k x (unless_expired-some (Map.get m.store k) m.now x e))
  ]

  written-live :
      (m : Memory V) (k : String) (v : V) (x : Option ℕ)
      → live (write token_of m k v x) k ≡ some (entry_at token_of m.now v x)
  unfolding live write is_expired
  written-live m k v none =
      ground (arith, get-set m.store k k (entry_at token_of m.now v none), eq_refl k)
  written-live m k v (some ms) =
      ground (arith, get-set m.store k k (entry_at token_of m.now v (some ms)), eq_refl k)

  elsewhere-live :
      (m : Memory V) (k j : String) (v : V) (x : Option ℕ)
      → k ≢ j
      → live (write token_of m k v x) j ≡ live m j
  unfolding live write
  elsewhere-live m k j v x h =
      ground (arith, get-set m.store k j (entry_at token_of m.now v x), eq_iff k j)

  module _ (m : Memory V) (k : String) (t : Option String) (v : V) (x : Option ℕ) where
    pub cas-tests :
        (compare_and_set token_of m k t v x).0
        ≡ same_text (Option.map (λ r. r.token) (get_revision m k)) t
    unfolding compare_and_set get_revision
    cas-tests = ground arith

    pub cas-refused :
        (compare_and_set token_of m k t v x).0 ≡ false → (compare_and_set token_of m k t v x).1 ≡ m
    unfolding compare_and_set
    cas-refused h = ground arith

    pub cas-written :
        (compare_and_set token_of m k t v x).0 ≡ true
        → (compare_and_set token_of m k t v x).1 ≡ write token_of m k v x
    unfolding compare_and_set
    cas-written h = ground arith

  pub written-value :
      (m : Memory V) (k : String) (v : V) (x : Option ℕ)
      → Option.map (λ r. r.value) (get_revision (write token_of m k v x) k) ≡ some v
  unfolding get_revision
  written-value m k v x = rw (written-live m k v x)

  pub elsewhere :
      (m : Memory V) (k j : String) (v : V) (x : Option ℕ)
      → k ≢ j
      → get_revision (write token_of m k v x) j ≡ get_revision m j
  unfolding get_revision
  elsewhere m k j v x h = rw (elsewhere-live m k j v x h)

  -- What a write has, and the state as it was has, either outcome has.
  pub either_way :
      (P : Memory V → Type 0) (m : Memory V) (k : String) (t : Option String) (v : V) (x : Option ℕ)
      → P m
      → P (write token_of m k v x)
      → P (compare_and_set token_of m k t v x).1
  either_way P m k t v x same written = elim (Bool-cases (compare_and_set token_of m k t v x).0) [
    | inl e ↦ rw (cas-written m k t v x e) written
    | inr e ↦ rw (cas-refused m k t v x e) same
  ]

  module _ (collision_free : (a b : V) → token_of a ≡ token_of b → a ≡ b) where
    unfoldable pub memory_cas : CasRepository (Memory V) V
    memory_cas = record {
      IsValid = TokensFit;
      get_revision = get_revision;
      compare_and_set = compare_and_set token_of;
      cas_tests = cas-tests;
      cas_refused = cas-refused;
      cas_written = λ m k t v x h. rw (cas-written m k t v x h) (written-value m k v x);
      cas_elsewhere = λ m k j t v x h.
          either_way (λ m'. get_revision m' j ≡ get_revision m j) m k t v x refl
            (elsewhere m k j v x h);
      cas_valid = λ m k t v x fit. either_way TokensFit m k t v x fit (write-TokensFit m k v x fit);
      token_exact = λ s s' k r r' fit fit' h h' e.
          collision_free r.value r'.value
            (sym (revision-fits s k r fit h) ∙ e ∙ revision-fits s' k r' fit' h');
    }
