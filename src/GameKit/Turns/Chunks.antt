-- ===== src/GameKit/Turns/Chunks.antt =====
-- The chunks of a log of packages/game-kit/src/turns.ts.
use tslib.Common.{
  ℕ, ◌≤◌, ◌≡◌, ◌≢◌, refl, ap, ◌∙◌, true, false, Option, none, some, List, [], ◌∷◌, ◌++◌,
  append_assoc, All, ltb, if_cases, Bool-cases, inl, inr, arith,
}
use tslib.GameKit.Turns.{TurnRecord, Rules, prepend, last_part, chunks_from, chunks}

abbrev pub concat {ℓ} : {A : Type ℓ} → List (List A) → List A
concat [] = []
concat (xs ∷ parts) = xs ++ concat parts

module _ {Move State : Type 0} (rules : Rules Move State) where
  -- A chunk is not empty and within the limit.
  abbrev pub IsChunk : ℕ → List (TurnRecord Move) → Type 0
  IsChunk limit part = (part ≢ []) × (rules.bytes part ≤ limit)

  -- A record that fits in a chunk of its own.
  abbrev pub IsShort : ℕ → TurnRecord Move → Type 0
  IsShort limit r = rules.bytes (r ∷ []) ≤ limit

  -- What is to come of splitting `records`, with `part` collected so far.
  abbrev pub Splits :
      ℕ
      → List (TurnRecord Move)
      → List (TurnRecord Move)
      → Option (List (List (TurnRecord Move)))
      → Type 0
  Splits limit part records none = All (IsShort limit) records → ⊥
  Splits limit part records (some parts) =
      (concat parts ≡ part ++ records) × All (IsChunk limit) parts × All (IsShort limit) records

  last_part-Splits :
      (limit : ℕ) (part : List (TurnRecord Move))
      → (part ≢ [] → rules.bytes part ≤ limit)
      → Splits limit part [] (some (last_part part))
  unfolding last_part
  last_part-Splits limit [] p = (refl, tt, tt)
  last_part-Splits limit (r ∷ part) p =
      (refl, (((λ h. ground (arith, h)), p (λ h. ground (arith, h))), tt), tt)

  prepend-Splits :
      (limit : ℕ) (part : List (TurnRecord Move)) (r : TurnRecord Move)
      (records : List (TurnRecord Move)) (rest : Option (List (List (TurnRecord Move))))
      → IsChunk limit part
      → IsShort limit r
      → Splits limit (r ∷ []) records rest
      → Splits limit part (r ∷ records) (prepend part rest)
  unfolding prepend
  prepend-Splits limit part r records none c f h = λ (a, b). h b
  prepend-Splits limit part r records (some parts) c f (e, a, b) =
      (ap (λ x. part ++ x) e, (c, a), (f, b))

  appended-Splits :
      (limit : ℕ) (part : List (TurnRecord Move)) (r : TurnRecord Move)
      (records : List (TurnRecord Move)) (rest : Option (List (List (TurnRecord Move))))
      → IsShort limit r
      → Splits limit (part ++ (r ∷ [])) records rest
      → Splits limit part (r ∷ records) rest
  appended-Splits limit part r records none f h = λ (a, b). h b
  appended-Splits limit part r records (some parts) f (e, a, b) =
      (e ∙ append_assoc part (r ∷ []) records, a, (f, b))

  full-part :
      (limit : ℕ) (part : List (TurnRecord Move)) (r : TurnRecord Move)
      → ltb limit (rules.bytes (part ++ (r ∷ []))) ≡ true
      → ltb limit (rules.bytes (r ∷ [])) ≡ false
      → part ≢ []
  full-part limit [] r h k = λ e. ground (arith, h, k)
  full-part limit (x ∷ part) r h k = λ e. ground (arith, e)

  chunks_from-Splits :
      (limit : ℕ) (part records : List (TurnRecord Move))
      → (part ≢ [] → rules.bytes part ≤ limit)
      → Splits limit part records (chunks_from rules limit part records)
  unfolding chunks_from
  chunks_from-Splits limit part [] p = last_part-Splits limit part p
  chunks_from-Splits limit part (r ∷ records) p =
      if_cases (Splits limit part (r ∷ records)) (ltb limit (rules.bytes (r ∷ [])))
        (λ long. λ (a, b). ground (arith, long, a))
        (λ short. elim (Bool-cases (ltb limit (rules.bytes (part ++ (r ∷ []))))) [
          | inl full ↦
              let c = full-part limit part r full short in
              rw full (
                prepend-Splits limit part r records (chunks_from rules limit (r ∷ []) records)
                  (c, p c) (ground (arith, short))
                  (chunks_from-Splits limit (r ∷ []) records (λ e. ground (arith, short))))
          | inr room ↦ rw room (
              appended-Splits limit part r records
                (chunks_from rules limit (part ++ (r ∷ [])) records) (ground (arith, short))
                (chunks_from-Splits limit (part ++ (r ∷ [])) records (λ e. ground (arith, room))))
        ])

  -- The chunks of records, together, are the records in their order; none is empty or larger than the
  -- limit. There are none exactly where a record alone is larger than the limit.
  pub chunks-Splits :
      (limit : ℕ) (records : List (TurnRecord Move))
      → Splits limit [] records (chunks rules limit records)
  unfolding chunks
  chunks-Splits limit records = chunks_from-Splits limit [] records (λ e. absurd (e refl))
