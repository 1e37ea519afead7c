-- ===== src/RedisPush/Waiting.antt =====
-- packages/naive-redis/src/subscriber/pushFrame.ts waits for the rest of what a server sends.
use tslib.Common.{
  ℕ, suc, ◌+◌, ◌≤◌, ◌≡◌, ◌≢◌, refl, sym, ap, ◌∙◌, subst, ◌&&◌, some, List, [], ◌∷◌, ◌++◌,
  append_assoc, All, eqb, if_cases, ◌⊎◌, inl, inr, arith,
}
use tslib.RedisPush.{
  Text, Numeral, whole, incomplete, done, starts_lf, longer, read_line, utf8_length,
  characters_for_bytes, closed_bulk, sized_bulk, dropped_marker, starts_with, bulk_after, read_bulk,
  read_inline, read_element, cons_read, and_then, read_elements, framed, counted_frame,
  headed_frame, parse_push_frame,
}
use tslib.RedisPush.Printing.{
  Glyph, single, pair, IsGlyph, encode, byte_length, line, bulk, message_glyphs, print_message,
}
use tslib.RedisPush.Parsing.{
  IsLine, read_line-append, single_step, pair_step, characters-encode, utf8_length-positive,
  IsDecimal, bulk-read, message_glyphs-IsGlyph,
}

-- The beginning of a text, without its end.
abbrev pub IsCut : Text → Text → Type 0
IsCut text cut = (missing : Text) × (missing ≢ []) × (cut ++ missing ≡ text)

not_cut : (cut : Text) → IsCut [] cut → ⊥
not_cut [] (m, n, e) = n e
not_cut (a ∷ cut) (m, n, e) = ground (arith, e)

cut_one : (a : ℕ) (cut : Text) → IsCut (a ∷ []) cut → cut ≡ []
cut_one a [] c = refl
cut_one a (b ∷ cut) (m, n, e) = absurd (not_cut cut (m, n, cc))

-- A text of two parts is cut in the first one, or after it in the second one.
IsCut-append :
    (first second cut : Text)
    → IsCut (first ++ second) cut
    → IsCut first cut ⊎ ((rest : Text) × (cut ≡ first ++ rest) × IsCut second rest)
IsCut-append [] second cut c = inr (cut, refl, c)
IsCut-append (a ∷ first) second [] c = inl (a ∷ first, (λ e. ground (arith, e)), refl)
IsCut-append (a ∷ first) second (b ∷ cut) (m, n, e) =
    let same : b ≡ a = cc in
    elim (IsCut-append first second cut (m, n, cc)) [
      | inl (k, l, f) ↦ inl (k, l, ap (λ (x : ℕ). x ∷ (cut ++ k)) same ∙ ap (λ t. a ∷ t) f)
      | inr (rest, f, c) ↦ inr (rest, ap (λ (x : ℕ). x ∷ cut) same ∙ ap (λ t. a ∷ t) f, c)
    ]

read_line-cut :
    (text cut : Text)
    → IsLine text
    → IsCut (text ++ (13 ∷ (10 ∷ []))) cut
    → read_line cut ≡ incomplete
unfolding read_line
read_line-cut text [] h c = refl
read_line-cut [] (a ∷ cut) h (m, n, e) =
    let empty = cut_one 10 cut (m, n, cc) in
    subst (λ t. read_line (a ∷ t) ≡ incomplete) (sym empty) (ground arith)
read_line-cut (b ∷ text) (a ∷ cut) (d, h) (m, n, e) =
    let same : a ≡ b = cc in
    if_cases (λ r. r ≡ incomplete) (eqb a 13 && starts_lf cut)
      (λ y. absurd (ground (arith, y, d, same)))
      (λ y. ap (longer a) (read_line-cut text cut h (m, n, cc)))

utf8_length-le : (a : ℕ) → utf8_length a ≤ 3
unfolding utf8_length
utf8_length-le a = ground arith

characters-cut :
    (gs : List Glyph) (cut : Text)
    → All IsGlyph gs
    → IsCut (encode gs) cut
    → characters_for_bytes cut (byte_length gs) ≡ incomplete
unfolding characters_for_bytes byte_length
characters-cut [] cut h c = absurd (not_cut cut c)
characters-cut (single a ∷ gs) [] h c = ground (arith, utf8_length-positive a)
characters-cut (single a ∷ gs) (b ∷ cut) (g, h) (m, n, e) =
    let same : b ≡ a = cc in
    subst (λ x. characters_for_bytes (x ∷ cut) (utf8_length a + byte_length gs) ≡ incomplete)
      (sym same)
      (single_step a cut (byte_length gs) g ∙ ap (longer a) (characters-cut gs cut h (m, n, cc)))
characters-cut (pair a b ∷ gs) [] h c = ground arith
characters-cut (pair a b ∷ gs) (x ∷ []) h c = ground (arith, utf8_length-le x)
characters-cut (pair a b ∷ gs) (x ∷ (y ∷ cut)) (g, h) (m, n, e) =
    let first : x ≡ a = cc in
    let second : y ≡ b = cc in
    subst (λ x. characters_for_bytes (x ∷ (y ∷ cut)) (4 + byte_length gs) ≡ incomplete) (sym first)
      (subst (λ y. characters_for_bytes (a ∷ (y ∷ cut)) (4 + byte_length gs) ≡ incomplete)
        (sym second)
        (pair_step a b cut (byte_length gs) g
          ∙ ap (λ r. longer a (longer b r)) (characters-cut gs cut h (m, n, cc))))

closed_bulk-cut :
    (value cut : Text) → IsCut (13 ∷ (10 ∷ [])) cut → closed_bulk (done value cut) ≡ incomplete
unfolding closed_bulk
closed_bulk-cut value [] c = refl
closed_bulk-cut value (a ∷ []) c = refl
closed_bulk-cut value (a ∷ (b ∷ cut)) (m, n, e) =
    let empty : b ∷ cut ≡ [] = cut_one 10 (b ∷ cut) (m, n, cc) in absurd (ground (arith, empty))

body-cut :
    (gs : List Glyph) (cut : Text)
    → All IsGlyph gs
    → IsCut (encode gs ++ (13 ∷ (10 ∷ []))) cut
    → closed_bulk (characters_for_bytes cut (byte_length gs)) ≡ incomplete
unfolding closed_bulk
body-cut gs cut h c = elim (IsCut-append (encode gs) (13 ∷ (10 ∷ [])) cut c) [
  | inl d ↦ ap closed_bulk (characters-cut gs cut h d)
  | inr (rest, f, d) ↦
      subst (λ t. closed_bulk (characters_for_bytes t (byte_length gs)) ≡ incomplete) (sym f)
        (ap closed_bulk (characters-encode gs rest h) ∙ closed_bulk-cut (encode gs) rest d)
]

module _ (number : Text → Numeral) (digits : ℕ → Text) where
  -- Bulks, one after another.
  abbrev bulks : List (List Glyph) → Text
  bulks [] = []
  bulks (gs ∷ parts) = bulk digits gs (bulks parts)

  unread : (cut : Text) → read_line cut ≡ incomplete → read_element number cut ≡ incomplete
  unfolding read_element read_bulk read_inline bulk_after dropped_marker
  unread cut h =
      if_cases (λ r. r ≡ incomplete) (starts_with 36 cut) (λ y. ap (bulk_after number) h)
        (λ y. ap dropped_marker h)

  header_line : (text rest : Text) → line digits text rest ≡ (text ++ (13 ∷ (10 ∷ []))) ++ rest
  header_line text rest = sym (append_assoc text (13 ∷ (10 ∷ [])) rest)

  marked-IsLine : IsDecimal number digits → (a n : ℕ) → a ≢ 13 → IsLine (a ∷ digits n)
  marked-IsLine d a n h = (h, d.is_line n)

  bulk-cut :
      IsDecimal number digits
      → (gs : List Glyph) (cut : Text) → All IsGlyph gs
      → IsCut (bulk digits gs []) cut
      → read_element number cut ≡ incomplete
  unfolding read_element read_bulk bulk_after sized_bulk
  bulk-cut d gs cut h c =
      let mark = 36 ∷ digits (byte_length gs) in
      let body = encode gs ++ (13 ∷ (10 ∷ [])) in
      let is_line = marked-IsLine d 36 (byte_length gs) (λ e. absurd (omega (arith, e))) in
      elim (IsCut-append (mark ++ (13 ∷ (10 ∷ []))) body cut
        (subst (λ t. IsCut t cut) (header_line mark body) c)) [
          | inl k ↦ unread cut (read_line-cut mark cut is_line k)
          | inr (rest, f, k) ↦
              let sized : sized_bulk (number (digits (byte_length gs))) rest ≡ incomplete =
                subst (λ n. sized_bulk n rest ≡ incomplete) (sym (d.reads (byte_length gs)))
                  (body-cut gs rest h k) in
              subst (λ t. read_element number t ≡ incomplete)
                (sym (f ∙ sym (header_line mark rest)))
                (ap (bulk_after number) (read_line-append mark rest is_line) ∙ sized)
        ]

  bulk-append : (gs : List Glyph) (rest : Text) → bulk digits gs [] ++ rest ≡ bulk digits gs rest
  bulk-append gs rest =
      let mark = 36 ∷ digits (byte_length gs) in
      append_assoc mark (13 ∷ (10 ∷ line digits (encode gs) [])) rest
      ∙ ap (λ t. mark ++ (13 ∷ (10 ∷ t))) (append_assoc (encode gs) (13 ∷ (10 ∷ [])) rest)

  abbrev count : List (List Glyph) → ℕ
  count [] = 0
  count (gs ∷ parts) = suc (count parts)

  bulks-cut :
      IsDecimal number digits
      → (parts : List (List Glyph)) (cut : Text) → All (λ gs. All IsGlyph gs) parts
      → IsCut (bulks parts) cut
      → read_elements number (count parts) cut ≡ incomplete
  unfolding read_elements and_then cons_read
  bulks-cut d [] cut h c = absurd (not_cut cut c)
  bulks-cut d (gs ∷ parts) cut (g, h) c =
      let f = λ (rest : Text). read_elements number (count parts) rest in
      elim (IsCut-append (bulk digits gs []) (bulks parts) cut
        (subst (λ t. IsCut t cut) (sym (bulk-append gs (bulks parts))) c)) [
          | inl k ↦ ap (λ r. and_then number r f) (bulk-cut d gs cut g k)
          | inr (rest, e, k) ↦
              let whole_part : read_element number cut ≡ done (some (encode gs)) rest =
                ap (read_element number) (e ∙ bulk-append gs rest)
                ∙ bulk-read number digits d gs rest g in
              ap (λ r. and_then number r f) whole_part
              ∙ ap (cons_read number (some (encode gs))) (bulks-cut d parts rest h k)
        ]

  -- While the end of what a server sends for a message is missing, however much of it, what is
  -- there is not
  -- read as a frame and nothing is thrown: the reader waits.
  pub parse-cut :
      IsDecimal number digits
      → (channel payload : List Glyph) (cut : Text) → All IsGlyph channel
      → All IsGlyph payload
      → IsCut (print_message digits channel payload []) cut
      → parse_push_frame number cut ≡ incomplete
  unfolding parse_push_frame headed_frame counted_frame framed
  parse-cut d channel payload cut c p k =
      let mark = 42 ∷ digits 3 in
      let body = bulks (message_glyphs ∷ (channel ∷ (payload ∷ []))) in
      let is_line = marked-IsLine d 42 3 (λ e. absurd (omega (arith, e))) in
      elim (IsCut-append (mark ++ (13 ∷ (10 ∷ []))) body cut
        (subst (λ t. IsCut t cut) (header_line mark body) k)) [
          | inl l ↦ ap (headed_frame number) (read_line-cut mark cut is_line l)
          | inr (rest, f, l) ↦
              let elements : counted_frame number (whole 3) rest ≡ incomplete = ap (framed number) (
                bulks-cut d (message_glyphs ∷ (channel ∷ (payload ∷ []))) rest
                  (message_glyphs-IsGlyph, (c, (p, tt))) l) in
              subst (λ t. parse_push_frame number t ≡ incomplete)
                (sym (f ∙ sym (header_line mark rest)))
                (ap (headed_frame number) (read_line-append mark rest is_line)
                  ∙ (ap (λ n. counted_frame number n rest) (d.reads 3) ∙ elements))
        ]
