-- ===== src/Repository/Document/Edits.antt =====
-- editDocument of packages/repository/src/document/write.ts is atomic on a `CasRepository`.
use tslib.Common.{
  ℕ, zero, suc, ◌+◌, ◌≤◌, ◌≡◌, ◌≢◌, refl, ap, sym, subst, ◌∙◌, String, Bool, true, Option, none,
  some, same_text_iff, arith, Bool-cases, inl, inr,
}
use tslib.Repository.Memory.{Revision}
use tslib.Repository.Interface.{CasRepository}
use tslib.Repository.Document.{
  Versioned, Result, ok, concurrent_modification, or_retry, new_doc, attempt_once, retry,
  edit_document,
}
use mathlib.Core.Option

-- The store as the other writers leave it, one attempt after the other, from attempt `first` on.
abbrev pub left_by_others : {S : Type 0} → (ℕ → S → S) → ℕ → ℕ → S → S
left_by_others others first zero s = others first s
left_by_others others first (suc n) s = left_by_others others (suc first) n (others first s)

abbrev pub value_at : {S V : Type 0} → CasRepository S V → S → String → Option V
value_at repository s k = Option.map (λ r. r.value) (repository.get_revision s k)

module _ {C : Type 0} (truthy : C → Bool) (empty : C) {S : Type 0}
    (repository : CasRepository S (Versioned C)) (key : String) (modifier : C → C)
    (expires_in_millis : Option ℕ) where
  -- A document that was written on top of what `s` holds, and the state after it.
  pub record Applied (s : S) (doc : Versioned C) (s' : S) : Type 0 where
    pub on_current : doc ≡ new_doc truthy empty modifier (value_at repository s key)
    pub stored : value_at repository s' key ≡ some doc
    pub elsewhere :
        (j : String) → key ≢ j → repository.get_revision s' j ≡ repository.get_revision s j

  -- What an edit from `s` comes to.
  abbrev pub IsAtomic : ℕ → ℕ → (ℕ → S → S) → S → Result (Versioned C) × S → Type 0
  IsAtomic first retries others s (ok doc, s') =
      (n : ℕ) × (n ≤ retries) × Applied (left_by_others others first n s) doc s'
  IsAtomic first retries others s (concurrent_modification n, s') =
      (n ≡ first + retries + 1) × (s' ≡ left_by_others others first retries s)

  same_version :
      (s s' : S) (a b : Option (Revision (Versioned C)))
      → repository.IsValid s
      → repository.IsValid s'
      → repository.get_revision s key ≡ a
      → repository.get_revision s' key ≡ b
      → Option.map (λ r. r.token) b ≡ Option.map (λ r. r.token) a
      → Option.map (λ r. r.value) b ≡ Option.map (λ r. r.value) a
  same_version s s' none none v v' h h' e = refl
  same_version s s' none (some r') v v' h h' e = cc
  same_version s s' (some r) none v v' h h' e = cc
  same_version s s' (some r) (some r') v v' h h' e =
      ap some (repository.token_exact s' s key r' r v' v h' h (cc))

  module _ (others : ℕ → S → S)
      (keeps : (n : ℕ) (s : S) → repository.IsValid s → repository.IsValid (others n s)) where
    abbrev once : ℕ → S → Result (Versioned C) × S
    once = attempt_once truthy empty repository key modifier expires_in_millis others

    -- The write of an attempt was accepted: no other writer changed the document since its read.
    module _ (first : ℕ) (s : S) (valid : repository.IsValid s) where
      current : S
      current = others first s

      token : Option String
      token = Option.map (λ r. r.token) (repository.get_revision s key)

      doc : Versioned C
      doc = new_doc truthy empty modifier (value_at repository s key)

      result : Bool × S
      unfolding current token doc
      result = repository.compare_and_set current key token doc expires_in_millis

      unchanged : result.0 ≡ true → value_at repository s key ≡ value_at repository current key
      unfolding result
      unchanged e =
          let tested = repository.cas_tests current key token doc expires_in_millis in
          sym (
            same_version s current _ _ valid (keeps first s valid) refl refl
              ((same_text_iff _ _).0 (sym tested ∙ e)))

      applied : result.0 ≡ true → Applied current doc result.1
      unfolding result
      applied e = record {
        on_current = ap (new_doc truthy empty modifier) (unchanged e);
        stored = repository.cas_written _ _ _ _ _ e;
        elsewhere = λ j h. repository.cas_elsewhere _ _ _ _ _ _ h;
      }

      once-IsAtomic : IsAtomic first 0 others s (once first s)
      unfolding result attempt_once
      once-IsAtomic = elim (Bool-cases result.0) [
        | inl e ↦ rw e (0, omega arith, applied e)
        | inr e ↦ rw e (omega arith, repository.cas_refused _ _ _ _ _ e)
      ]

    step_back :
        (left first : ℕ) (s s' : S)
        → s' ≡ others first s
        → (r : Result (Versioned C) × S) → IsAtomic (suc first) left others s' r
        → IsAtomic first (suc left) others s r
    step_back left first s s' e (ok doc, s'') (n, h, a) = (
      suc n,
      omega arith,
      subst (λ x. Applied (left_by_others others (suc first) n x) doc s'') e a,
    )
    step_back left first s s' e (concurrent_modification n, s'') (h, same) =
        (omega arith, same ∙ ap (left_by_others others (suc first) left) e)

    next-IsAtomic :
        (left first : ℕ) (s : S) (r : Result (Versioned C) × S)
        → IsAtomic first 0 others s r
        → ((s' : S)
            → s' ≡ others first s
            → IsAtomic (suc first) left others s' (
                retry truthy empty repository key modifier expires_in_millis others left
                  (suc first)
                  s'))
        → IsAtomic first (suc left) others s (
            or_retry r (
              retry truthy empty repository key modifier expires_in_millis others left (suc first)))
    next-IsAtomic left first s (ok doc, s') h go = (h.0, omega arith, h.2)
    next-IsAtomic left first s (concurrent_modification n, s') h go =
        step_back left first s s' h.1 _ (go s' h.1)

    retry-IsAtomic :
        (left first : ℕ) (s : S)
        → repository.IsValid s
        → IsAtomic first left others s
            (retry truthy empty repository key modifier expires_in_millis others left first s)
    unfolding retry
    retry-IsAtomic zero first s valid = once-IsAtomic first s valid
    retry-IsAtomic (suc left) first s valid =
        next-IsAtomic left first s (once first s) (once-IsAtomic first s valid) λ s' e.
          retry-IsAtomic left (suc first) s'
            (subst repository.IsValid (sym e) (keeps first s valid))

    -- Whatever the other writers do between the reads and the writes, as long as the repository
    -- keeps its promises: an edit that returns a document has applied its modifier to the content
    -- that the store held at the very moment of the write, with the next version, has stored that
    -- document and left every other key alone, after at most `max_retries` lost races. An edit that
    -- throws has lost `max_retries + 1` races and has written nothing.
    pub edit_document-IsAtomic :
        (max_retries : ℕ) (s : S)
        → repository.IsValid s
        → IsAtomic 0 max_retries others s (
            edit_document truthy empty repository key modifier expires_in_millis others max_retries
              s)
    unfolding edit_document
    edit_document-IsAtomic max_retries s valid = retry-IsAtomic max_retries 0 s valid
