-- ===== src/RedisPush/Tests.antt =====
-- Messages read by packages/naive-redis/src/subscriber/pushFrame.ts. A number is written as so
-- many ones.
use tslib.Common.{ℕ, zero, suc, ◌≡◌, refl, ap, List, [], ◌∷◌, arith}
use tslib.RedisPush.{Text, Numeral, whole, message, incomplete, done, parse_push_frame, utf8_length}
use tslib.RedisPush.Printing.{Glyph, single, pair, encode, byte_length, print_message}
use tslib.RedisPush.Waiting.{IsCut, parse-cut}
use tslib.RedisPush.Parsing.{IsLine, IsDecimal, parse-print_message}

ones : ℕ → Text
ones zero = []
ones (suc n) = 49 ∷ ones n

count_ones : Text → ℕ
count_ones [] = 0
count_ones (a ∷ l) = suc (count_ones l)

number_of : Text → Numeral
unfolding count_ones
number_of l = whole (count_ones l)

count_ones-ones : (n : ℕ) → count_ones (ones n) ≡ n
unfolding count_ones ones
count_ones-ones zero = refl
count_ones-ones (suc n) = ap suc (count_ones-ones n)

ones-IsLine : (n : ℕ) → IsLine (ones n)
unfolding ones
ones-IsLine zero = tt
ones-IsLine (suc n) = ((λ e. absurd (omega (arith, e))), ones-IsLine n)

ones-IsDecimal : IsDecimal number_of ones
unfolding number_of
ones-IsDecimal = record { reads = λ n. ap whole (count_ones-ones n); is_line = ones-IsLine }

-- A line end and a pair of surrogates in the payload.
abbrev odd_payload : List Glyph
odd_payload = single 13 ∷ single 10 ∷ pair 55357 56832 ∷ single 233 ∷ []

parse-print_message_example :
    parse_push_frame number_of (print_message ones (single 99 ∷ []) odd_payload (43 ∷ []))
    ≡ done (message (99 ∷ []) (encode odd_payload)) (43 ∷ [])
parse-print_message_example =
    parse-print_message number_of ones ones-IsDecimal (single 99 ∷ []) odd_payload (43 ∷ [])
      (refl, tt) (refl, (refl, ((refl, refl), (refl, tt))))

abbrev take : ℕ → Text → Text
take zero l = []
take (suc n) [] = []
take (suc n) (a ∷ l) = a ∷ take n l

abbrev drop : ℕ → Text → Text
drop zero l = l
drop (suc n) [] = []
drop (suc n) (a ∷ l) = drop n l

abbrev whole_message : Text
whole_message = print_message ones (single 99 ∷ []) odd_payload []

-- Cut between two surrogates.
half_way : IsCut whole_message (take 46 whole_message)
unfolding ones byte_length utf8_length
half_way = (drop 46 whole_message, (λ e. ground (arith, e)), refl)

parse-cut_example : parse_push_frame number_of (take 46 whole_message) ≡ incomplete
parse-cut_example =
    parse-cut number_of ones ones-IsDecimal (single 99 ∷ []) odd_payload (take 46 whole_message)
      (refl, tt) (refl, (refl, ((refl, refl), (refl, tt)))) half_way
