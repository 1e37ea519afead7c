-- ===== src/Repository/Document/Collections.antt =====
-- packages/repository/src/document/list.ts and map.ts. An array or an object is truthy; a value of
-- a map is tested by `truthy`.
pub mod Reads
use tslib.Common.{
  ℕ, ◌≤◌, ◌≡◌, refl, ap, String, Bool, true, false, not, Option, none, some, List, [], ◌∷◌, ◌++◌,
  filter, ◌==◌, if◌then◌else◌, arith, eq_iff,
}
use tslib.Common.Map
use tslib.Common.Map.{Map, get-set, get-delete}
use tslib.Repository.Interface.{CasRepository}
use tslib.Repository.Document.{
  Versioned, Result, ok, concurrent_modification, ensure_document, new_doc, edit_document,
}
use tslib.Repository.Document.Edits.{
  Applied, IsAtomic, value_at, left_by_others, edit_document-IsAtomic,
}

abbrev pub always : {A : Type 0} → A → Bool
always _ = true

module _ {V : Type 0} where
  unfoldable pub inserted : V → List V → List V
  inserted value values = values ++ value ∷ []

  unfoldable pub without : (V → Bool) → List V → List V
  without drop values = filter (λ v. not (drop v)) values

  -- A value that is not truthy stands for a deletion, as `undefined` does.
  unfoldable pub insert_or_update : (V → Bool) → String → Option V → Map V → Map V
  insert_or_update truthy key none values = Map.delete values key
  insert_or_update truthy key (some value) values =
      if truthy value then Map.set values key value else Map.delete values key

-- createListDocument
unfoldable pub list_read :
    {V S : Type 0} → CasRepository S (Versioned (List V)) → String → S → Versioned (List V)
list_read repository key s = ensure_document always [] (value_at repository s key)

module _ {V S : Type 0} (repository : CasRepository S (Versioned (List V))) (key : String)
    (expires_in_millis : Option ℕ) (max_retries : ℕ) (others : ℕ → S → S) where
  unfoldable pub list_edit : (List V → List V) → S → Result (Versioned (List V)) × S
  list_edit modifier s =
      edit_document always [] repository key modifier expires_in_millis others max_retries s

  unfoldable pub list_insert : V → S → Result (Versioned (List V)) × S
  unfolding list_edit
  list_insert value = list_edit (inserted value)

  unfoldable pub list_delete_if : (V → Bool) → S → Result (Versioned (List V)) × S
  unfolding list_edit
  list_delete_if drop = list_edit (without drop)

-- createMapDocument
unfoldable pub map_read :
    {V S : Type 0} → CasRepository S (Versioned (Map V)) → String → S → Versioned (Map V)
map_read repository key s = ensure_document always [] (value_at repository s key)

module _ {V S : Type 0} (repository : CasRepository S (Versioned (Map V))) (key : String)
    (expires_in_millis : Option ℕ) (max_retries : ℕ) (others : ℕ → S → S) where
  unfoldable pub map_edit : (Map V → Map V) → S → Result (Versioned (Map V)) × S
  map_edit modifier s =
      edit_document always [] repository key modifier expires_in_millis others max_retries s

  unfoldable pub map_insert_or_update :
      (V → Bool) → String → Option V → S → Result (Versioned (Map V)) × S
  unfolding map_edit
  map_insert_or_update truthy k value = map_edit (insert_or_update truthy k value)

  unfoldable pub map_delete : (V → Bool) → String → S → Result (Versioned (Map V)) × S
  unfolding map_insert_or_update
  map_delete truthy k = map_insert_or_update truthy k none
