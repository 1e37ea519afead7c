-- ===== src/GameKit/Turns/Hashes.antt =====
-- The test of a hash of packages/game-kit/src/turns.ts: 64 characters, each of them a digit or
-- one of the
-- letters a to f.
use tslib.Common.{Bool, true, ◌&&◌, ◌||◌, eqb, leb}
use Prim.Native.Char.{Char, code}
use Prim.Native.String.{String, [], ◌∷◌, count}

abbrev pub is_hex : Char → Bool
is_hex c = (leb 48 (code c) && leb (code c) 57) || (leb 97 (code c) && leb (code c) 102)

unfoldable pub all_hex : String → Bool
all_hex [] = true
all_hex (c ∷ s) = is_hex c && all_hex s

unfoldable pub is_hash : String → Bool
unfolding all_hex
is_hash s = eqb (count s) 64 && all_hex s
