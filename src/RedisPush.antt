-- ===== src/RedisPush.antt =====
-- packages/naive-redis/src/subscriber/pushFrame.ts, `parsePushFrame`. A text is the list of its
-- UTF-16 code
-- units, and a position in the buffer is what follows it.
pub mod Printing
pub mod Parsing
pub mod Waiting
mod Tests
use tslib.Common.{
  ℕ, zero, suc, ◌+◌, ◌-◌, ◌*◌, Bool, true, false, not, ◌&&◌, ◌||◌, Option, none, some, List, [],
  ◌∷◌, ◌++◌, eqb, leb, ltb, if◌then◌else◌,
}

abbrev pub Text : Type 0
Text = List ℕ

-- What `Number` makes of a text, as far as the code looks.
pub data Numeral : Type 0 where
  not_integer negative : Numeral
  whole : (n : ℕ) → Numeral

pub data PushFrame : Type 0 where
  message : (channel payload : Text) → PushFrame
  subscription : (is_subscribe : Bool) (channel : Text) (count : Numeral) → PushFrame
  other : PushFrame

-- A part that is read and what follows it; a buffer that ends too early; an exception.
pub data Read (A : Type 0) : Type 0 where
  incomplete faulty : Read A
  done : (value : A) (rest : Text) → Read A

abbrev pub same_units : Text → Text → Bool
same_units [] [] = true
same_units (a ∷ s) (b ∷ t) = eqb a b && same_units s t
same_units _ _ = false

abbrev pub message_text : Text
message_text = 109 ∷ 101 ∷ 115 ∷ 115 ∷ 97 ∷ 103 ∷ 101 ∷ []

abbrev pub subscribe_text : Text
subscribe_text = 115 ∷ 117 ∷ 98 ∷ 115 ∷ 99 ∷ 114 ∷ 105 ∷ 98 ∷ 101 ∷ []

abbrev pub unsubscribe_text : Text
unsubscribe_text = 117 ∷ 110 ∷ subscribe_text

abbrev pub starts_lf : Text → Bool
starts_lf [] = false
starts_lf (b ∷ l) = eqb b 10

-- `slice(1)`
abbrev pub tail : Text → Text
tail [] = []
tail (a ∷ l) = l

abbrev pub longer : ℕ → Read Text → Read Text
longer a incomplete = incomplete
longer a faulty = faulty
longer a (done value rest) = done (a ∷ value) rest

-- The line up to the first `\r\n`.
unfoldable pub read_line : Text → Read Text
read_line [] = incomplete
read_line (a ∷ l) =
    let rest = read_line l in if eqb a 13 && starts_lf l then done [] (tail l) else longer a rest

abbrev pub is_high : ℕ → Bool
is_high a = leb 55296 a && leb a 56319

abbrev pub is_low : ℕ → Bool
is_low a = leb 56320 a && leb a 57343

-- The UTF-8 length of one unit that stands alone; a pair of surrogates has four bytes.
unfoldable pub utf8_length : ℕ → ℕ
utf8_length a = if ltb a 128 then 1 else (if ltb a 2048 then 2 else 3)

-- A code point of two units or of one, with what reads on after it.
unfoldable pub pair_or_unit : Bool → ℕ → ℕ → ℕ → (ℕ → Read Text) → (ℕ → Read Text) → Read Text
unfolding utf8_length
pair_or_unit true a b missing after_pair after_unit =
    if ltb missing 4 then faulty else longer a (longer b (after_pair (missing - 4)))
pair_or_unit false a b missing after_pair after_unit =
    if ltb missing (utf8_length a) then faulty else longer a (after_unit (missing - utf8_length a))

-- The units that encode as many bytes as are missing, by walking code points. A pair of
-- surrogates is one
-- code point of four bytes.
unfoldable pub characters_for_bytes : Text → ℕ → Read Text
unfolding utf8_length pair_or_unit
characters_for_bytes [] missing = if eqb missing 0 then done [] [] else incomplete
characters_for_bytes (a ∷ []) missing =
    if eqb missing 0
    then done [] (a ∷ [])
    else if ltb missing (utf8_length a)
    then faulty
    else longer a (characters_for_bytes [] (missing - utf8_length a))
characters_for_bytes (a ∷ (b ∷ l)) missing =
    if eqb missing 0
    then done [] (a ∷ (b ∷ l))
    else pair_or_unit (is_high a && is_low b) a b missing (characters_for_bytes l)
        (characters_for_bytes (b ∷ l))

-- The two units after a bulk, whatever they are.
unfoldable pub closed_bulk : Read Text → Read (Option Text)
closed_bulk incomplete = incomplete
closed_bulk faulty = faulty
closed_bulk (done value []) = incomplete
closed_bulk (done value (a ∷ [])) = incomplete
closed_bulk (done value (a ∷ (b ∷ rest))) = done (some value) rest

unfoldable pub sized_bulk : Numeral → Text → Read (Option Text)
unfolding closed_bulk characters_for_bytes
sized_bulk not_integer l = faulty
sized_bulk negative l = done none l
sized_bulk (whole n) l = closed_bulk (characters_for_bytes l n)

unfoldable pub dropped_marker : Read Text → Read (Option Text)
dropped_marker incomplete = incomplete
dropped_marker faulty = faulty
dropped_marker (done line rest) = done (some (tail line)) rest

abbrev pub starts_with : ℕ → Text → Bool
starts_with a [] = false
starts_with a (b ∷ l) = eqb a b

-- `Number` is a parameter.
module _ (number : Text → Numeral) where
  unfoldable pub bulk_after : Read Text → Read (Option Text)
  unfolding sized_bulk
  bulk_after incomplete = incomplete
  bulk_after faulty = faulty
  bulk_after (done header rest) = sized_bulk (number (tail header)) rest

  unfoldable pub read_bulk : Text → Read (Option Text)
  unfolding bulk_after read_line
  read_bulk l = bulk_after (read_line l)

  unfoldable pub read_inline : Text → Read (Option Text)
  unfolding dropped_marker read_line
  read_inline l = dropped_marker (read_line l)

  unfoldable pub read_element : Text → Read (Option Text)
  unfolding read_bulk read_inline
  read_element l = if starts_with 36 l then read_bulk l else read_inline l

  unfoldable pub cons_read : Option Text → Read (List (Option Text)) → Read (List (Option Text))
  cons_read part incomplete = incomplete
  cons_read part faulty = faulty
  cons_read part (done parts rest) = done (part ∷ parts) rest

  unfoldable pub and_then :
      Read (Option Text) → (Text → Read (List (Option Text))) → Read (List (Option Text))
  unfolding cons_read
  and_then incomplete f = incomplete
  and_then faulty f = faulty
  and_then (done part rest) f = cons_read part (f rest)

  -- The loop over the elements of an array.
  unfoldable pub read_elements : ℕ → Text → Read (List (Option Text))
  unfolding and_then read_element
  read_elements zero l = done [] l
  read_elements (suc n) l = and_then (read_element l) (λ rest. read_elements n rest)

  unfoldable pub count_of : List (Option Text) → Numeral
  count_of [] = whole 0
  count_of (none ∷ parts) = whole 0
  count_of (some third ∷ parts) = number third

  unfoldable pub subscribed : Text → Text → List (Option Text) → PushFrame
  unfolding count_of
  subscribed kind channel parts =
      if same_units kind subscribe_text
      then subscription true channel (count_of parts)
      else if same_units kind unsubscribe_text
      then subscription false channel (count_of parts)
      else other

  unfoldable pub to_frame : List (Option Text) → PushFrame
  unfolding subscribed
  to_frame (some kind ∷ (some channel ∷ (some payload ∷ parts))) =
      if same_units kind message_text
      then message channel payload
      else subscribed kind channel (some payload ∷ parts)
  to_frame (some kind ∷ (some channel ∷ (none ∷ parts))) = subscribed kind channel (none ∷ parts)
  to_frame (some kind ∷ (some channel ∷ [])) = subscribed kind channel []
  to_frame _ = other

  unfoldable pub framed : Read (List (Option Text)) → Read PushFrame
  unfolding to_frame
  framed incomplete = incomplete
  framed faulty = faulty
  framed (done parts rest) = done (to_frame parts) rest

  unfoldable pub counted_frame : Numeral → Text → Read PushFrame
  unfolding framed read_elements
  counted_frame not_integer l = faulty
  counted_frame negative l = done other l
  counted_frame (whole n) l = framed (read_elements n l)

  unfoldable pub headed_frame : Read Text → Read PushFrame
  unfolding counted_frame
  headed_frame incomplete = incomplete
  headed_frame faulty = faulty
  headed_frame (done header rest) =
      if starts_with 42 header then counted_frame (number (tail header)) rest else done other rest

  unfoldable pub parse_push_frame : Text → Read PushFrame
  unfolding headed_frame read_line
  parse_push_frame buffer = headed_frame (read_line buffer)
