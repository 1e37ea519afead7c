-- ===== src/Repository/Interface.antt =====
-- packages/repository/src/repository.ts, `CasRepository`: the operations that the documents rest on,
-- with what its comments promise of them.
use tslib.Common.{ℕ, String, ◌≡◌, ◌≢◌, Bool, true, false, Option, some, same_text}
use tslib.Repository.Memory.{Revision}
use mathlib.Core.Option

-- The store's state `S` holds the time too. `IsValid` is what the store keeps of itself.
pub record CasRepository (S V : Type 0) : Type 1 where
  pub IsValid : S → Type 0
  pub get_revision : S → String → Option (Revision V)
  pub compare_and_set : S → String → Option String → V → Option ℕ → Bool × S
  pub cas_tests :
      (s : S) (k : String) (t : Option String) (v : V) (e : Option ℕ)
      → (compare_and_set s k t v e).0 ≡ same_text (Option.map (λ r. r.token) (get_revision s k)) t
  pub cas_refused :
      (s : S) (k : String) (t : Option String) (v : V) (e : Option ℕ)
      → (compare_and_set s k t v e).0 ≡ false
      → (compare_and_set s k t v e).1 ≡ s
  pub cas_written :
      (s : S) (k : String) (t : Option String) (v : V) (e : Option ℕ)
      → (compare_and_set s k t v e).0 ≡ true
      → Option.map (λ r. r.value) (get_revision (compare_and_set s k t v e).1 k) ≡ some v
  pub cas_elsewhere :
      (s : S) (k j : String) (t : Option String) (v : V) (e : Option ℕ)
      → k ≢ j
      → get_revision (compare_and_set s k t v e).1 j ≡ get_revision s j
  pub cas_valid :
      (s : S) (k : String) (t : Option String) (v : V) (e : Option ℕ)
      → IsValid s
      → IsValid (compare_and_set s k t v e).1
  -- A token identifies the stored version.
  pub token_exact :
      (s s' : S) (k : String) (r r' : Revision V)
      → IsValid s
      → IsValid s'
      → get_revision s k ≡ some r
      → get_revision s' k ≡ some r'
      → r.token ≡ r'.token
      → r.value ≡ r'.value
