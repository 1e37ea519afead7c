-- ===== src/AllTogether/Occurrences.antt =====
-- Counting the values of a map below a bound: how many there are when none stands twice.
use tslib.Common.{
  ℕ, zero, suc, ◌+◌, ◌≤◌, ◌<◌, String, ◌≡◌, ◌≢◌, refl, ap, ◌∙◌, subst, some, List, [], ◌∷◌, length,
  eqb, eqb_iff, eq_iff, eq_refl, arith, if◌then◌else◌, All, inl, inr, Bool-cases,
}
use tslib.Common.Map
use tslib.Common.Map.{Map, Unique, values, get}

abbrev pub occurrences : ℕ → List ℕ → ℕ
occurrences i [] = 0
occurrences i (x ∷ xs) = if eqb x i then suc (occurrences i xs) else occurrences i xs

-- All occurrences of the numbers below `n`.
abbrev total : ℕ → List ℕ → ℕ
total zero xs = 0
total (suc n) xs = total n xs + occurrences n xs

total-nil : (n : ℕ) → total n [] ≡ 0
total-nil zero = refl
total-nil (suc n) = omega (arith, total-nil n)

total-above : (n x : ℕ) (xs : List ℕ) → n ≤ x → total n (x ∷ xs) ≡ total n xs
total-above zero x xs h = refl
total-above (suc n) x xs h = ground (arith, total-above n x xs (omega (arith, h)), eqb_iff x n)

total-cons : (n x : ℕ) (xs : List ℕ) → x < n → total n (x ∷ xs) ≡ suc (total n xs)
total-cons zero x xs h = omega (arith, h)
total-cons (suc n) x xs h = elim (Bool-cases (eqb x n)) [
  | inl y ↦ ground (arith, total-above n x xs (omega (arith, (eqb_iff x n).0 y)), eqb_iff x n)
  | inr y ↦ ground (arith, total-cons n x xs (ground (arith, eqb_iff x n)))
]

total-length : (n : ℕ) (xs : List ℕ) → All (λ x. x < n) xs → total n xs ≡ length xs
total-length n [] h = total-nil n
total-length n (x ∷ xs) h = total-cons n x xs h.0 ∙ ap suc (total-length n xs h.1)

total-bound : (n : ℕ) (xs : List ℕ) → ((i : ℕ) → occurrences i xs ≤ 1) → total n xs ≤ n
total-bound zero xs h = omega arith
total-bound (suc n) xs h = omega (arith, total-bound n xs h, h n)

total-full :
    (n i : ℕ) (xs : List ℕ)
    → ((j : ℕ) → occurrences j xs ≤ 1)
    → total n xs ≡ n
    → i < n
    → occurrences i xs ≡ 1
total-full zero i xs h e l = omega (arith, l)
total-full (suc n) i xs h e l = elim (Bool-cases (eqb i n)) [
  | inl y ↦ ground (arith, (eqb_iff i n).0 y, total-bound n xs h, h n)
  | inr y ↦
      total-full n i xs h (omega (arith, total-bound n xs h, h n, e)) (ground (arith, eqb_iff i n))
]

-- A list of numbers below `n`, none of them twice, has at most `n`, and all of them if it has `n`.
pub pigeons :
    (n : ℕ) (xs : List ℕ)
    → All (λ x. x < n) xs
    → ((i : ℕ) → occurrences i xs ≤ 1)
    → (length xs ≤ n) × ((i : ℕ) → length xs ≡ n → i < n → occurrences i xs ≡ 1)
pigeons n xs b h = (
  omega (arith, total-length n xs b, total-bound n xs h),
  λ i e l. total-full n i xs h (total-length n xs b ∙ e) l,
)

pub lifted :
    (k : String) (v : ℕ) (m : Map ℕ) (j : String) (i : ℕ)
    → Unique ((k, v) ∷ m)
    → Map.get m j ≡ some i
    → Map.get ((k, v) ∷ m) j ≡ some i
unfolding get
lifted k v m j i u e = ground (arith, u.0, eq_iff k j)

-- A value of a map has a key.
pub key_of :
    (m : Map ℕ) (i : ℕ)
    → Unique m
    → occurrences i (values m) ≢ 0
    → (k : String) × (Map.get m k ≡ some i)
unfolding get
key_of [] i u h = absurd (h refl)
key_of ((k, v) ∷ m) i u h = elim (Bool-cases (eqb v i)) [
  | inl y ↦ (k, ground (arith, eq_refl k, eqb_iff v i))
  | inr y ↦ let (j, e) = key_of m i u.1 (rw y at h) in (j, lifted k v m j i u e)
]

-- No value stands twice where no two keys have the same one.
pub occurrences-values :
    (m : Map ℕ) (i : ℕ)
    → Unique m
    → ((j k : String) → Map.get m j ≡ some i → Map.get m k ≡ some i → j ≡ k)
    → occurrences i (values m) ≤ 1
unfolding get
occurrences-values [] i u inj = omega arith
occurrences-values ((k, v) ∷ m) i u inj =
    let rest =
      occurrences-values m i u.1
        (λ a b x y. inj a b (lifted k v m a i u x) (lifted k v m b i u y)) in
    elim (Bool-cases (eqb v i)) [
      | inl y ↦ elim (Bool-cases (eqb (occurrences i (values m)) 0)) [
        | inl z ↦ ground (arith, eqb_iff (occurrences i (values m)) 0)
        | inr z ↦
            let (j, e) =
              key_of m i u.1 (λ w. ground (arith, eqb_iff (occurrences i (values m)) 0)) in
            let same : j ≡ k =
              inj j k (lifted k v m j i u e) (ground (arith, eq_refl k, eqb_iff v i)) in
            absurd (ground (arith, u.0, subst (λ x. Map.get m x ≡ some i) same e))
      ]
      | inr y ↦ rw y rest
    ]

pub values-All :
    (P : ℕ → Type 0) (m : Map ℕ)
    → Unique m
    → ((k : String) (i : ℕ) → Map.get m k ≡ some i → P i)
    → All P (values m)
unfolding get
values-All P [] u h = tt
values-All P ((k, v) ∷ m) u h =
    (h k v (ground (arith, eq_refl k)), values-All P m u.1 (λ j i e. h j i (lifted k v m j i u e)))

pub length-values : (m : Map ℕ) → length (values m) ≡ Map.size m
length-values [] = refl
length-values ((k, v) ∷ m) = omega (arith, length-values m)
