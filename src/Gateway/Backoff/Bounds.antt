-- ===== src/Gateway/Backoff/Bounds.antt =====
-- How many delays packages/gamebase-client/src/backoff.ts gives, and how long they are.
use tslib.Common.{
  ℕ, zero, suc, ◌+◌, ◌-◌, ◌*◌, ◌≤◌, ◌<◌, ◌≡◌, sym, ap, ◌∙◌, min, Bool, true, false, Option, none,
  some, List, [], ◌∷◌, leb, arith, Bool-cases, inl, inr, leb→le,
}
use Prim.Native.Nat.{◌^◌}
use native.Mathlib.Nat.{div-add-mod, mod-lt, mul-pos, mul-le-mul_right, le_of_mul-le-mul_right}
use tslib.Gateway.Backoff.{BackoffOptions, is_exhausted, base_delay, round, jittered, next, delays}

-- The delays that are given, of a list of answers.
abbrev pub granted : List (Option ℕ) → ℕ
granted [] = 0
granted (none ∷ r) = granted r
granted (some d ∷ r) = suc (granted r)

min-le : (a b : ℕ) → min a b ≤ a
min-le a b = omega arith

less : (m k : ℕ) → leb m k ≡ true → m ≤ k
less m k h = leb→le m k h

more : (m k : ℕ) → leb m k ≡ false → suc k ≤ m
more m k h = ground (arith, h)

base_delay-le : (o : BackoffOptions) (k : ℕ) → base_delay o k ≤ o.max_ms
unfolding base_delay
base_delay-le o k = min-le o.max_ms (o.initial_ms * o.factor ^ k)

-- The delay differs from the base by the fraction `jitter` of it at most, and by a half for the
-- rounding.
pub record IsNear (o : BackoffOptions) (base d : ℕ) : Type 0 where
  pub above : 2 * o.jitter_den * d ≤ 2 * (base * (o.jitter_den + o.jitter_num)) + o.jitter_den
  pub below : 2 * (base * (o.jitter_den - o.jitter_num)) ≤ 2 * o.jitter_den * d + o.jitter_den

double : (d : ℕ) → 0 < d → 0 < 2 * d
double d h = omega (arith, h)

round-above : (n d : ℕ) → 2 * d * round n d ≤ 2 * n + d
unfolding round
round-above n d = omega (arith, div-add-mod (2 * n + d) (2 * d))

round-below : (n d : ℕ) → 0 < d → 2 * n ≤ 2 * d * round n d + d
unfolding round
round-below n d h = omega (arith, div-add-mod (2 * n + d) (2 * d), mod-lt (2 * n + d) (double d h))

-- The same over a common factor of the bounds.
above-scaled :
    (b den num c u r d : ℕ)
    → c + num ≡ den
    → r ≤ u
    → 2 * (den * u) * d ≤ 2 * (b * c * u + r * (b * num) * 2) + den * u
    → (2 * den * d) * u ≤ (2 * (b * (den + num)) + den) * u
above-scaled b den num c u r d e h l =
    let m : r * (b * num) ≤ u * (b * num) = mul-le-mul_right (b * num) h in
    omega (arith, l, m, ap (λ x. b * x * u) e)

below-scaled :
    (b den c num u r d : ℕ)
    → 2 * (b * c * u + r * (b * num) * 2) ≤ 2 * (den * u) * d + den * u
    → (2 * (b * c)) * u ≤ (2 * den * d + den) * u
below-scaled b den c num u r d l = omega (arith, l)

jittered-IsNear :
    (o : BackoffOptions) (r base : ℕ)
    → o.jitter_num ≤ o.jitter_den
    → 0 < o.jitter_den
    → r < o.resolution
    → IsNear o base (jittered o r base)
unfolding jittered
jittered-IsNear o r base j z h =
    let u = o.resolution in
    let c = o.jitter_den - o.jitter_num in
    let n = base * c * u + r * (base * o.jitter_num) * 2 in
    let d = round n (o.jitter_den * u) in
    record {
      above =
          le_of_mul-le-mul_right
            (above-scaled base o.jitter_den o.jitter_num c u r d (omega (arith, j))
              (omega (arith, h)) (round-above n (o.jitter_den * u)))
            (omega (arith, h));
      below =
          le_of_mul-le-mul_right
            (below-scaled base o.jitter_den c o.jitter_num u r d
              (round-below n (o.jitter_den * u) (mul-pos z (omega (arith, h)))))
            (omega (arith, h));
    }

limited :
    (m : Option ℕ) (k n : ℕ)
    → m ≡ some n
    → elim m as (λ (x : Option ℕ). Bool) [ none ↦ false | some l ↦ leb l k ] ≡ leb n k
limited none k n e = absurd (ground (arith, e))
limited (some l) k n e = ground (arith, e)

-- Each delay of a list is near the base for its number of attempts, from `k` on.
abbrev pub AreNear : BackoffOptions → ℕ → List (Option ℕ) → Type 0
AreNear o k [] = Unit
AreNear o k (none ∷ l) = AreNear o k l
AreNear o k (some d ∷ l) = IsNear o (base_delay o k) d × AreNear o (suc k) l

module _ (o : BackoffOptions) (random : ℕ → ℕ) where
  delays-AreNear :
      o.jitter_num ≤ o.jitter_den
      → 0 < o.jitter_den
      → ((k : ℕ) → random k < o.resolution)
      → (n k : ℕ) → AreNear o k (delays o random n k)
  unfolding delays next
  delays-AreNear j z h zero k = tt
  delays-AreNear j z h (suc n) k = elim (Bool-cases (is_exhausted o k)) [
    | inl y ↦ rw y (delays-AreNear j z h n k)
    | inr y ↦
        rw y
          (jittered-IsNear o (random k) (base_delay o k) j z (h k), delays-AreNear j z h n (suc k))
  ]

  is_exhausted-limit : (m k : ℕ) → o.max_attempts ≡ some m → is_exhausted o k ≡ leb m k
  unfolding is_exhausted
  is_exhausted-limit m k e = limited o.max_attempts k m e

  granted-delays :
      (m : ℕ) → o.max_attempts ≡ some m → (n k : ℕ) → granted (delays o random n k) ≡ min n (m - k)
  unfolding delays next
  granted-delays m e zero k = omega arith
  granted-delays m e (suc n) k =
      let x = is_exhausted-limit m k e in
      elim (Bool-cases (is_exhausted o k)) [
        | inl y ↦ rw y (omega (arith, granted-delays m e n k, less m k (sym x ∙ y)))
        | inr y ↦ rw y (omega (arith, granted-delays m e n (suc k), more m k (sym x ∙ y)))
      ]

  -- With a `jitter` of at most 1 and random numbers below 1: however many delays are asked for
  -- without a `reset`, `maxAttempts` of them are given at most, and all of them if fewer are asked
  -- for. Each is within the fraction `jitter` of `initialMs * factor ^ attempts`, or of `maxMs` if
  -- that is less, up to half a millisecond for the rounding, above and below.
  pub delays-limit :
      (m : ℕ)
      → o.max_attempts ≡ some m
      → o.jitter_num ≤ o.jitter_den
      → 0 < o.jitter_den
      → ((k : ℕ) → random k < o.resolution)
      → (n : ℕ) → (granted (delays o random n 0) ≡ min n m) × AreNear o 0 (delays o random n 0)
  delays-limit m e j z h n = (omega (arith, granted-delays m e n 0), delays-AreNear j z h n 0)
