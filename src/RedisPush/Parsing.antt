-- ===== src/RedisPush/Parsing.antt =====
-- packages/naive-redis/src/subscriber/pushFrame.ts reads back what a server sends.
use tslib.Common.{
  ℕ, ◌+◌, ◌<◌, ◌≡◌, ◌≢◌, refl, sym, ap, ◌∙◌, subst, true, false, ◌&&◌, some, List, [], ◌∷◌, ◌++◌,
  All, eqb, ltb, if_cases, arith,
}
use tslib.RedisPush.{
  Text, Numeral, whole, message, done, message_text, starts_lf, longer, read_line, is_high, is_low,
  utf8_length, pair_or_unit, characters_for_bytes, closed_bulk, sized_bulk, bulk_after, read_bulk,
  read_element, cons_read, and_then, read_elements, to_frame, framed, counted_frame, headed_frame,
  parse_push_frame,
}
use tslib.RedisPush.Printing.{
  Glyph, single, pair, IsGlyph, encode, byte_length, line, bulk, message_glyphs, print_message,
}

-- A line holds no carriage return.
abbrev pub IsLine : Text → Type 0
IsLine text = All (λ (a : ℕ). a ≢ 13) text

pub read_line-append :
    (text rest : Text) → IsLine text → read_line (text ++ (13 ∷ (10 ∷ rest))) ≡ done text rest
unfolding read_line
read_line-append [] rest h = refl
read_line-append (a ∷ text) rest (n, h) =
    if_cases (λ r. r ≡ done (a ∷ text) rest) (eqb a 13 && starts_lf (text ++ (13 ∷ (10 ∷ rest))))
      (λ e. absurd (ground (arith, e, n))) (λ e. ap (longer a) (read_line-append text rest h))

none_missing : (l : Text) → characters_for_bytes l 0 ≡ done [] l
unfolding characters_for_bytes
none_missing [] = refl
none_missing (a ∷ []) = refl
none_missing (a ∷ (b ∷ l)) = refl

pub utf8_length-positive : (a : ℕ) → 0 < utf8_length a
unfolding utf8_length
utf8_length-positive a = ground arith

pub single_step :
    (a : ℕ) (l : Text) (m : ℕ)
    → is_high a ≡ false
    → characters_for_bytes (a ∷ l) (utf8_length a + m) ≡ longer a (characters_for_bytes l m)
unfolding characters_for_bytes pair_or_unit
single_step a [] m h = ground (arith, h, utf8_length-positive a)
single_step a (b ∷ l) m h =
    let alone : is_high a && is_low b ≡ false = ground (arith, h) in
    let w = utf8_length a in
    let r = longer a (characters_for_bytes (b ∷ l) m) in
    if_cases (λ x. x ≡ r) (eqb (w + m) 0) (λ z. absurd (ground (arith, z, utf8_length-positive a)))
      (λ z.
        subst
          (λ c.
            pair_or_unit c a b (w + m) (characters_for_bytes l) (characters_for_bytes (b ∷ l)) ≡ r)
          (sym alone)
          (if_cases (λ x. x ≡ r) (ltb (w + m) w) (λ y. absurd (ground (arith, y)))
            (λ y. ap (λ k. longer a (characters_for_bytes (b ∷ l) k)) (omega arith))))

pub pair_step :
    (a b : ℕ) (l : Text) (m : ℕ)
    → (is_high a ≡ true) × (is_low b ≡ true)
    → characters_for_bytes (a ∷ (b ∷ l)) (4 + m) ≡ longer a (longer b (characters_for_bytes l m))
unfolding characters_for_bytes pair_or_unit
pair_step a b l m h =
    let both : is_high a && is_low b ≡ true = ground (arith, h) in
    let r = longer a (longer b (characters_for_bytes l m)) in
    if_cases (λ x. x ≡ r) (eqb (4 + m) 0) (λ z. absurd (ground (arith, z)))
      (λ z.
        subst
          (λ c.
            pair_or_unit c a b (4 + m) (characters_for_bytes l) (characters_for_bytes (b ∷ l)) ≡ r)
          (sym both)
          (if_cases (λ x. x ≡ r) (ltb (4 + m) 4) (λ y. absurd (ground (arith, y)))
            (λ y. ap (λ k. longer a (longer b (characters_for_bytes l k))) (omega arith))))

pub characters-encode :
    (gs : List Glyph) (rest : Text)
    → All IsGlyph gs
    → characters_for_bytes (encode gs ++ rest) (byte_length gs) ≡ done (encode gs) rest
unfolding byte_length
characters-encode [] rest h = none_missing rest
characters-encode (single a ∷ gs) rest (g, h) =
    single_step a (encode gs ++ rest) (byte_length gs) g
    ∙ ap (longer a) (characters-encode gs rest h)
characters-encode (pair a b ∷ gs) rest (g, h) =
    pair_step a b (encode gs ++ rest) (byte_length gs) g
    ∙ ap (λ r. longer a (longer b r)) (characters-encode gs rest h)

pub message_glyphs-IsGlyph : All IsGlyph message_glyphs
message_glyphs-IsGlyph = (refl, (refl, (refl, (refl, (refl, (refl, (refl, tt)))))))

module _ (number : Text → Numeral) (digits : ℕ → Text) where
  -- `Number` reads the digits of a number, and they are a line.
  pub record IsDecimal : Type 0 where
    pub reads : (n : ℕ) → number (digits n) ≡ whole n
    pub is_line : (n : ℕ) → IsLine (digits n)

  pub bulk-read :
      IsDecimal
      → (gs : List Glyph) (rest : Text) → All IsGlyph gs
      → read_element number (bulk digits gs rest) ≡ done (some (encode gs)) rest
  unfolding read_element read_bulk bulk_after sized_bulk closed_bulk
  bulk-read d gs rest h =
      let l = line digits (encode gs) rest in
      let header : read_line (bulk digits gs rest) ≡ done (36 ∷ digits (byte_length gs)) l =
        read_line-append (36 ∷ digits (byte_length gs)) l
          ((λ e. absurd (omega (arith, e))), d.is_line (byte_length gs)) in
      let sized : sized_bulk (number (digits (byte_length gs))) l ≡ done (some (encode gs)) rest =
        subst (λ k. sized_bulk k l ≡ done (some (encode gs)) rest) (sym (d.reads (byte_length gs)))
          (ap closed_bulk (characters-encode gs (13 ∷ (10 ∷ rest)) h)) in
      ap (bulk_after number) header ∙ sized

  three_parts :
      IsDecimal
      → (channel payload : List Glyph) (rest : Text) → All IsGlyph channel
      → All IsGlyph payload
      → read_elements number 3
          (bulk digits message_glyphs (bulk digits channel (bulk digits payload rest)))
        ≡ done (some message_text ∷ (some (encode channel) ∷ (some (encode payload) ∷ []))) rest
  unfolding read_elements and_then cons_read
  three_parts d channel payload rest c p =
      rw
        (
          bulk-read d message_glyphs (bulk digits channel (bulk digits payload rest))
              message_glyphs-IsGlyph,
          bulk-read d channel (bulk digits payload rest) c,
          bulk-read d payload rest p,
        )
        refl

  -- What a server sends for a message, with anything after it, is read as the message, and
  -- exactly what the
  -- server sent for it is consumed: the payload may hold line ends and characters of any length.
  pub parse-print_message :
      IsDecimal
      → (channel payload : List Glyph) (rest : Text) → All IsGlyph channel
      → All IsGlyph payload
      → parse_push_frame number (print_message digits channel payload rest)
        ≡ done (message (encode channel) (encode payload)) rest
  unfolding parse_push_frame headed_frame counted_frame framed to_frame
  parse-print_message d channel payload rest c p =
      let l = bulk digits message_glyphs (bulk digits channel (bulk digits payload rest)) in
      let header : read_line (line digits (42 ∷ digits 3) l) ≡ done (42 ∷ digits 3) l =
        read_line-append (42 ∷ digits 3) l ((λ e. absurd (omega (arith, e))), d.is_line 3) in
      let result = done (message (encode channel) (encode payload)) rest in
      let counted : counted_frame number (number (digits 3)) l ≡ result =
        subst (λ k. counted_frame number k l ≡ result) (sym (d.reads 3))
          (ap (framed number) (three_parts d channel payload rest c p)) in
      ap (headed_frame number) header ∙ counted
