-- ===== src/Common/Map.antt =====
-- The standard library's `Map` with string keys: an association list in insertion order.
use Prim.Native.Nat.{ℕ, suc}
use Prim.Native.String.{String}
use mathlib.Core.Path.{◌≡◌, refl}
use mathlib.Core.Bool.{Bool, true, false}
use mathlib.Core.Option.{Option, none, some}
use mathlib.Core.List.{List, [], ◌∷◌}
use native.Mathlib.Omega.{arith}
use text.Mathlib.Text.{◌==◌}
use text.Mathlib.TextEquality.{eq_iff}
use tslib.Common.Tests.{if◌then◌else◌}

abbrev pub Map {ℓ} : Type ℓ → Type ℓ
Map V = List (String × V)

module _ {ℓ} {V : Type ℓ} where
  unfoldable pub get : Map V → String → Option V
  get [] k = none
  get ((j, v) ∷ m) k = if j == k then some v else get m k

  unfoldable pub has : Map V → String → Bool
  has [] k = false
  has ((j, v) ∷ m) k = if j == k then true else has m k

  -- A key that is there keeps its place.
  unfoldable pub set : Map V → String → V → Map V
  set [] k v = (k, v) ∷ []
  set ((j, w) ∷ m) k v = if j == k then (j, v) ∷ m else (j, w) ∷ set m k v

  unfoldable pub delete : Map V → String → Map V
  delete [] k = []
  delete ((j, w) ∷ m) k = let rest = delete m k in if j == k then rest else (j, w) ∷ rest

  abbrev pub keys : Map V → List String
  keys [] = []
  keys ((j, v) ∷ m) = j ∷ keys m

  abbrev pub values : Map V → List V
  values [] = []
  values ((j, v) ∷ m) = v ∷ values m

  abbrev pub size : Map V → ℕ
  size [] = 0
  size ((j, v) ∷ m) = suc (size m)

  pub get-set :
      (m : Map V) (k j : String) (v : V) → get (set m k v) j ≡ (if k == j then some v else get m j)
  unfolding get set
  get-set [] k j v = refl
  get-set ((i, w) ∷ m) k j v = ground (arith, eq_iff i k, eq_iff i j, eq_iff k j, get-set m k j v)

  pub get-delete :
      (m : Map V) (k j : String) → get (delete m k) j ≡ (if k == j then none else get m j)
  unfolding get delete
  get-delete [] k j = ground arith
  get-delete ((i, w) ∷ m) k j = ground (arith, eq_iff i k, eq_iff i j, eq_iff k j, get-delete m k j)

  pub get-empty : (k : String) → get [] k ≡ none
  unfolding get
  get-empty k = refl

  pub has-get : (m : Map V) (k : String) → has m k ≡ elim (get m k) [ none ↦ false | some _ ↦ true ]
  unfolding get has
  has-get [] k = refl
  has-get ((j, v) ∷ m) k = ground (arith, has-get m k)

  -- No key stands twice.
  abbrev pub Unique : Map V → Type ℓ
  Unique [] = Unit
  Unique ((j, v) ∷ m) = (get m j ≡ none) × Unique m

  pub set-Unique : (m : Map V) (k : String) (v : V) → Unique m → Unique (set m k v)
  unfolding set get
  set-Unique [] k v u = (refl, tt)
  set-Unique ((j, w) ∷ m) k v u =
      ground (arith, set-Unique m k v u.1, get-set m k j v, eq_iff j k, eq_iff k j)

  pub delete-Unique : (m : Map V) (k : String) → Unique m → Unique (delete m k)
  unfolding delete
  delete-Unique [] k u = tt
  delete-Unique ((j, w) ∷ m) k u = ground (arith, delete-Unique m k u.1, get-delete m k j)

pub ruleset map_laws = (get-set, get-delete, get-empty)
