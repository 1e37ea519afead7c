-- ===== src/GameKit/Letters.antt =====
-- A game for the tests of packages/game-kit/src/turns.ts: two players who name letters in turn,
-- with a hash
-- that tells its arguments apart.
use tslib.Common.{
  ℕ, suc, ◌*◌, ◌∙◌, eq_iff, ◌≡◌, ◌≢◌, refl, sym, ap, String, true, false, Option, none, some, [],
  ◌∷◌, arith, length, if◌then◌else◌, ◌==◌,
}
use Prim.Native.Char.{Char}
use Prim.Native.String as Str
use tslib.GameKit.Turns.{Rules}
use tslib.GameKit.Turns.Game.{Env, Room, quiet}
use tslib.GameKit.Turns.Validity.{IsInjective}

abbrev mark : Char
mark = Str.char_at "1" 0

abbrev stop_mark : Char
stop_mark = Str.char_at "0" 0

marks_differ : mark ≢ stop_mark
marks_differ e = ground (arith, eq_iff "1" "0", ap (λ (c : Char). Str.◌∷◌ c Str.[]) e)

-- Two texts in one: each character of the first has a mark before it.
unfoldable pub mix : String → String → String
mix Str.[] t = Str.◌∷◌ stop_mark t
mix (Str.◌∷◌ c s) t = Str.◌∷◌ mark (Str.◌∷◌ c (mix s t))

heads : (c d : Char) (s t : String) → Str.◌∷◌ c s ≡ Str.◌∷◌ d t → (c ≡ d) × (s ≡ t)
heads c d s t e = (cc, cc)

mix_injective : (s s' t t' : String) → mix s t ≡ mix s' t' → (s ≡ s') × (t ≡ t')
unfolding mix
mix_injective Str.[] Str.[] t t' e = (refl, (heads stop_mark stop_mark t t' e).1)
mix_injective Str.[] (Str.◌∷◌ c s') t t' e =
    absurd (marks_differ (sym (heads stop_mark mark t (Str.◌∷◌ c (mix s' t')) e).0))
mix_injective (Str.◌∷◌ c s) Str.[] t t' e =
    absurd (marks_differ (heads mark stop_mark (Str.◌∷◌ c (mix s t)) t' e).0)
mix_injective (Str.◌∷◌ c s) (Str.◌∷◌ d s') t t' e =
    let (m, r) = heads mark mark (Str.◌∷◌ c (mix s t)) (Str.◌∷◌ d (mix s' t')) e in
    let (h, k) = heads c d (mix s t) (mix s' t') r in
    let (a, b) = mix_injective s s' t t' k in
    (ap (λ (x : Char). Str.◌∷◌ x s) h ∙ ap (λ x. Str.◌∷◌ d x) a, b)

abbrev pub letter_hash : String → ℕ → String → String → Option String
letter_hash p i b m = some (mix b (mix m p))

-- An empty move cannot be applied.
abbrev pub letter_apply : ℕ → String → String → Option ℕ
letter_apply n m b = if m == "" then none else some (suc n)

abbrev pub letters : Rules String ℕ
letters = record {
  hash = letter_hash;
  apply = letter_apply;
  initial = 0;
  players = "ann" ∷ "bob" ∷ [];
  bytes = λ l. 100 * length l;
}

some_injective : (a b : String) → ◌≡◌ {A = Option String} (some a) (some b) → a ≡ b
some_injective a b e = cc

pub letters-IsInjective : IsInjective letters
letters-IsInjective p p' i i' b b' m m' h e f =
    let (x, y) =
      mix_injective b b' (mix m p) (mix m' p')
        (some_injective (mix b (mix m p)) h e ∙ sym (some_injective (mix b' (mix m' p')) h f)) in
    let (z, w) = mix_injective m m' p p' y in (w, x, z)

abbrev pub env_of : String → Env String ℕ
env_of me = record {
  rules = letters;
  me = me;
  max_bytes = 100000;
  persists = false;
  saves_result = false;
  initial_hash = "i";
  buffered_bytes = λ l. 100 * length l;
  same = λ a b. true;
  uuid = λ n. "id";
  happening = λ n. quiet;
  fails = λ n. false;
}

abbrev pub lobby_room : Room
lobby_room = record { host = some "ann"; members = ("ann", true) ∷ ("bob", true) ∷ [] }
