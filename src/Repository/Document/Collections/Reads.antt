-- ===== src/Repository/Document/Collections/Reads.antt =====
-- What packages/repository/src/document/list.ts and map.ts read back after an edit.
use tslib.Common.{
  ℕ, ◌+◌, ◌≤◌, ◌≡◌, ap, subst, String, Bool, Option, none, some, List, [], ◌∷◌, ◌++◌, ◌==◌,
  if◌then◌else◌, arith,
}
use tslib.Common.Map
use tslib.Common.Map.{Map, get-set, get-delete}
use tslib.Repository.Interface.{CasRepository}
use tslib.Repository.Document.{Versioned, ok, ensure_document, new_doc, edit_document}
use tslib.Repository.Document.Edits.{IsAtomic, value_at, left_by_others, edit_document-IsAtomic}
use tslib.Repository.Document.Collections.{
  always, inserted, insert_or_update, list_insert, list_read, map_insert_or_update, map_read,
}

-- What a map shows for a value that was put into it.
abbrev pub shown : {V : Type 0} → (V → Bool) → Option V → Option V
shown truthy none = none
shown truthy (some value) = if truthy value then some value else none

get-insert_or_update :
    {V : Type 0} (truthy : V → Bool) (k : String) (value : Option V) (m : Map V) (j : String)
    → Map.get (insert_or_update truthy k value m) j
      ≡ (if k == j then shown truthy value else Map.get m j)
unfolding insert_or_update
get-insert_or_update truthy k none m j = get-delete m k j
get-insert_or_update truthy k (some v) m j = ground (arith, get-delete m k j, get-set m k j v)

module _ {C S : Type 0} (empty : C) (repository : CasRepository S (Versioned C)) (key : String)
    (modifier : C → C) (expires_in_millis : Option ℕ) (max_retries : ℕ) (others : ℕ → S → S)
    (keeps : (n : ℕ) (s : S) → repository.IsValid s → repository.IsValid (others n s)) where
  abbrev read : S → Versioned C
  read s = ensure_document always empty (value_at repository s key)

  abbrev Edited : S → S → Type 0
  Edited before after =
      ((read after).content ≡ modifier (read before).content)
      × ((read after).version ≡ (read before).version + 1)

  pub edit-Edited :
      (s s' : S) (doc : Versioned C)
      → repository.IsValid s
      → edit_document always empty repository key modifier expires_in_millis others max_retries s
        ≡ (ok doc, s')
      → (n : ℕ) × (n ≤ max_retries) × Edited (left_by_others others 0 n s) s'
  unfolding ensure_document new_doc
  edit-Edited s s' doc valid h =
      let (n, small, a) =
        subst
          (IsAtomic always empty repository key modifier expires_in_millis 0 max_retries others s) h
          (edit_document-IsAtomic always empty repository key modifier expires_in_millis others
            keeps max_retries s valid) in
      (
        n,
        small,
        (
          rw a.stored (ap (λ d. d.content) a.on_current),
          rw a.stored (ap (λ d. d.version) a.on_current),
        ),
      )

module _ {V S : Type 0} (key : String) (expires_in_millis : Option ℕ) (max_retries : ℕ)
    (others : ℕ → S → S) where
  -- An entry that was put into a map is read back, whatever other writers did before the write,
  -- and every other entry reads as it did at the moment of the write; the version grows by one. A
  -- value that is not truthy removes its entry.
  pub map_read-insert_or_update :
      (repository : CasRepository S (Versioned (Map V)))
      → ((n : ℕ) (s : S) → repository.IsValid s → repository.IsValid (others n s))
      → (truthy : V → Bool) (k : String) (value : Option V) (s s' : S) (doc : Versioned (Map V))
      → repository.IsValid s
      → map_insert_or_update repository key expires_in_millis max_retries others truthy k value s
        ≡ (ok doc, s')
      → (n : ℕ) × (n ≤ max_retries)
        × ((map_read repository key s').version
            ≡ (map_read repository key (left_by_others others 0 n s)).version + 1)
        × ((j : String)
            → Map.get (map_read repository key s').content j ≡ (
                if k == j
                then shown truthy value
                else Map.get (map_read repository key (left_by_others others 0 n s)).content j))
  unfolding map_insert_or_update map_read
  map_read-insert_or_update repository keeps truthy k value s s' doc valid h =
      let (n, small, (content, version)) =
        edit-Edited [] repository key (insert_or_update truthy k value) expires_in_millis
          max_retries others keeps s s' doc valid h in
      (n, small, version, λ j. rw content (get-insert_or_update truthy k value _ j))

  -- The same for a list: what was inserted stands at the end of what the list held at the moment
  -- of the write, so no insertion of another writer is lost.
  pub list_read-insert :
      (repository : CasRepository S (Versioned (List V)))
      → ((n : ℕ) (s : S) → repository.IsValid s → repository.IsValid (others n s))
      → (value : V) (s s' : S) (doc : Versioned (List V)) → repository.IsValid s
      → list_insert repository key expires_in_millis max_retries others value s ≡ (ok doc, s')
      → (n : ℕ) × (n ≤ max_retries)
        × ((list_read repository key s').content
            ≡ (list_read repository key (left_by_others others 0 n s)).content ++ value ∷ [])
  unfolding list_insert list_read inserted
  list_read-insert repository keeps value s s' doc valid h =
      let (n, small, edited) =
        edit-Edited [] repository key (inserted value) expires_in_millis max_retries others keeps s
          s' doc valid h in
      (n, small, edited.0)
