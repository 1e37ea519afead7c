-- ===== src/RedisPush/Printing.antt =====
-- What a Redis server sends to a subscriber (RESP): a text is made of characters, and a bulk
-- tells how many
-- bytes of UTF-8 it has.
use tslib.Common.{ℕ, ◌+◌, ◌≡◌, true, false, List, [], ◌∷◌, ◌++◌, map}
use tslib.RedisPush.{Text, utf8_length, is_high, is_low, message_text}

-- A character of one unit, or of two.
pub data Glyph : Type 0 where
  single : (a : ℕ) → Glyph
  pair : (high low : ℕ) → Glyph

-- A unit that stands alone begins no pair.
abbrev pub IsGlyph : Glyph → Type 0
IsGlyph (single a) = is_high a ≡ false
IsGlyph (pair high low) = (is_high high ≡ true) × (is_low low ≡ true)

abbrev pub encode : List Glyph → Text
encode [] = []
encode (single a ∷ gs) = a ∷ encode gs
encode (pair high low ∷ gs) = high ∷ (low ∷ encode gs)

unfoldable pub byte_length : List Glyph → ℕ
unfolding utf8_length
byte_length [] = 0
byte_length (single a ∷ gs) = utf8_length a + byte_length gs
byte_length (pair high low ∷ gs) = 4 + byte_length gs

abbrev pub message_glyphs : List Glyph
message_glyphs = map single message_text

-- The decimal digits of a number are a parameter.
module _ (digits : ℕ → Text) where
  abbrev pub line : Text → Text → Text
  line text rest = text ++ (13 ∷ (10 ∷ rest))

  abbrev pub bulk : List Glyph → Text → Text
  bulk gs rest = line (36 ∷ digits (byte_length gs)) (line (encode gs) rest)

  -- A message of a channel, and what the server sends after it.
  abbrev pub print_message : List Glyph → List Glyph → Text → Text
  print_message channel payload rest =
      line (42 ∷ digits 3) (bulk message_glyphs (bulk channel (bulk payload rest)))
