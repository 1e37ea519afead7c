-- ===== src/Repository/Document.antt =====
-- packages/repository/src/document: versioned documents in a repository (write.ts, versioned.ts).
-- Between the reads and the writes of an edit other writers and the clock change the store: in
-- attempt `n` by `others n`. `truthy` is the language's test of a content.
pub mod Edits
pub mod Collections
mod Tests
use tslib.Common.{ℕ, zero, suc, ◌+◌, String, Bool, true, false, Option, none, some, if◌then◌else◌}
use tslib.Repository.Memory.{Revision}
use tslib.Repository.Interface.{CasRepository}
use mathlib.Core.Option

pub record Versioned (C : Type 0) : Type 0 where
  pub version : ℕ
  pub content : C

abbrev pub default_max_retries : ℕ
default_max_retries = 3

-- The error tells the number of attempts.
pub data Result (A : Type 0) : Type 0 where
  ok : A → Result A
  concurrent_modification : ℕ → Result A

-- `if (written) { return newDoc; }`, or the next attempt.
abbrev pub or_retry : {A S : Type 0} → Result A × S → (S → Result A × S) → Result A × S
or_retry (ok doc, s) next = (ok doc, s)
or_retry (concurrent_modification n, s) next = next s

module _ {C : Type 0} (truthy : C → Bool) (empty : C) where
  unfoldable pub ensure_document : Option (Versioned C) → Versioned C
  ensure_document none = record { version = 0; content = empty }
  ensure_document (some doc) = record {
    version = doc.version;
    content = if truthy doc.content then doc.content else empty;
  }

  unfoldable pub new_doc : (C → C) → Option (Versioned C) → Versioned C
  unfolding ensure_document
  new_doc modifier found =
      let doc = ensure_document found in
      record { content = modifier doc.content; version = doc.version + 1 }

  -- editDocument on a `CasRepository`.
  module _ {S : Type 0} (repository : CasRepository S (Versioned C)) (key : String)
      (modifier : C → C) (expires_in_millis : Option ℕ) (others : ℕ → S → S) where
    -- One attempt, from its read to its write.
    unfoldable pub attempt_once : ℕ → S → Result (Versioned C) × S
    attempt_once attempt s =
        let revision = repository.get_revision s key in
        let doc = new_doc modifier (Option.map (λ r. r.value) revision) in
        let (written, s') =
          repository.compare_and_set (others attempt s) key (Option.map (λ r. r.token) revision) doc
            expires_in_millis in
        (if written then ok doc else concurrent_modification (attempt + 1), s')

    -- What follows an attempt, with the retries that are left.
    unfoldable pub retry : ℕ → ℕ → S → Result (Versioned C) × S
    retry zero attempt s = attempt_once attempt s
    retry (suc left) attempt s = or_retry (attempt_once attempt s) (retry left (suc attempt))

    unfoldable pub edit_document : ℕ → S → Result (Versioned C) × S
    unfolding retry
    edit_document max_retries s = retry max_retries 0 s

-- A `Repository` without `compareAndSet`; `set_with_expire` is there if it can expire.
pub record PlainRepository (S V : Type 0) : Type 0 where
  pub get : S → String → Option V
  pub set : S → String → V → S
  pub set_with_expire : Option (S → String → V → ℕ → S)

-- `repository.setWithExpire` if there is a time to live and the repository can expire.
unfoldable pub put_plain : {S V : Type 0} → PlainRepository S V → S → String → V → Option ℕ → S
put_plain repository s key value none = repository.set s key value
put_plain repository s key value (some millis) = elim repository.set_with_expire [
  | none ↦ repository.set s key value
  | some set_with_expire ↦ set_with_expire s key value millis
]

-- editDocument on any other repository: the last writer wins. `others` is what happens between the
-- read and the write.
unfoldable pub edit_plain :
    {C S : Type 0} (truthy : C → Bool) (empty : C) (repository : PlainRepository S (Versioned C))
    (key : String) (modifier : C → C) (expires_in_millis : Option ℕ) (others : S → S)
    → S
    → Versioned C × S
unfolding put_plain new_doc
edit_plain truthy empty repository key modifier expires_in_millis others s =
    let doc = new_doc truthy empty modifier (repository.get s key) in
    (doc, put_plain repository (others s) key doc expires_in_millis)
