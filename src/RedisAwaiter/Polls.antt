-- ===== src/RedisAwaiter/Polls.antt =====
-- What `wait` of packages/actor-system-redis/src/awaiter.ts returns, and that it returns.
use tslib.Common.{
  ℕ, zero, suc, ◌+◌, ◌≤◌, ◌<◌, ◌≡◌, ◌≢◌, refl, sym, ap, subst, Bool, true, false, ltb, arith,
  Bool-cases, inl, inr, eqb, eqb_iff, ltb→lt,
}
use tslib.RedisAwaiter.{
  Poll, found, missing, failed, Outcome, ok, thrown, out_of_fuel, ended, polls, wait,
}

module _ (poll : ℕ → Poll) (now : ℕ → ℕ) (start timeout_millis : ℕ) where
  -- The polls before `k` did not find the value, and time remained after each.
  abbrev pub GoesOn : ℕ → Type 0
  GoesOn k = (j : ℕ) → j < k → (poll j ≢ found) × (now j < start + timeout_millis)

  -- Poll `k` was the last one, and time was up after it.
  abbrev pub TimesOut : ℕ → Type 0
  TimesOut k = (poll k ≢ found) × (start + timeout_millis ≤ now k) × GoesOn k

  -- What an outcome says of the polls.
  abbrev pub Tells : Outcome → Type 0
  Tells (ok true) = (k : ℕ) × (poll k ≡ found) × GoesOn k
  Tells (ok false) = (k : ℕ) × TimesOut k × ((i : ℕ) × (i ≤ k) × (poll i ≡ missing))
  Tells thrown = (k : ℕ) × TimesOut k × ((i : ℕ) → i ≤ k → poll i ≡ failed)
  Tells out_of_fuel = ⊥

  -- While time remains, the clock moves on from one poll to the next: the loop sleeps.
  abbrev pub Sleeps : Type 0
  Sleeps = (n : ℕ) → now n < start + timeout_millis → now n < now (suc n)

  abbrev Answered : ℕ → Bool → Type 0
  Answered n true = (i : ℕ) × (i < n) × (poll i ≡ missing)
  Answered n false = (i : ℕ) → i < n → poll i ≡ failed

  GoesOn-suc : (n : ℕ) → GoesOn n → poll n ≢ found → now n < start + timeout_millis → GoesOn (suc n)
  GoesOn-suc n g p l j h = elim (Bool-cases (eqb j n)) [
    | inl e ↦
        subst (λ x. (poll x ≢ found) × (now x < start + timeout_millis)) (sym ((eqb_iff j n).0 e))
          (p, l)
    | inr e ↦ g j (ground (arith, eqb_iff j n))
  ]

  all_failed :
      (n : ℕ)
      → ((i : ℕ) → i < n → poll i ≡ failed)
      → poll n ≡ failed
      → (i : ℕ) → i ≤ n
      → poll i ≡ failed
  all_failed n a p i h = elim (Bool-cases (eqb i n)) [
    | inl e ↦ subst (λ x. poll x ≡ failed) (sym ((eqb_iff i n).0 e)) p
    | inr e ↦ a i (ground (arith, eqb_iff i n))
  ]

  abbrev is_found : Poll → Bool
  is_found found = true
  is_found missing = false
  is_found failed = false

  not_found : (n : ℕ) → is_found (poll n) ≡ false → poll n ≢ found
  not_found n h e = ground (arith, ap is_found e)

  -- The end of a round after a poll that was answered, now or before.
  ended-answered :
      (n : ℕ) (has_error : Bool) (rest : Outcome)
      → GoesOn n
      → poll n ≢ found
      → ((i : ℕ) × (i ≤ n) × (poll i ≡ missing))
      → (now n < start + timeout_millis → Tells rest)
      → Tells (ended poll now start timeout_millis n true has_error rest)
  unfolding ended
  ended-answered n has_error rest g p a r =
      elim (Bool-cases (ltb (now n) (start + timeout_millis))) [
        | inl e ↦ rw e (r (ltb→lt (now n) (start + timeout_millis) e))
        | inr e ↦ rw e (n, (p, ground arith, g), a)
      ]

  -- The end of a round when all polls have failed.
  ended-failed :
      (n : ℕ) (rest : Outcome)
      → GoesOn n
      → poll n ≢ found
      → ((i : ℕ) → i ≤ n → poll i ≡ failed)
      → (now n < start + timeout_millis → Tells rest)
      → Tells (ended poll now start timeout_millis n false true rest)
  unfolding ended
  ended-failed n rest g p a r = elim (Bool-cases (ltb (now n) (start + timeout_millis))) [
    | inl e ↦ rw e (r (ltb→lt (now n) (start + timeout_millis) e))
    | inr e ↦ rw e (n, (p, ground arith, g), a)
  ]

  -- One round, from what the rounds after it tell.
  round-Tells :
      (fuel n : ℕ) (answered has_error : Bool) (p : Poll)
      → poll n ≡ p
      → GoesOn n
      → Answered n answered
      → ((b c : Bool)
          → GoesOn (suc n)
          → Answered (suc n) b
          → now n < start + timeout_millis
          → Tells (polls poll now start timeout_millis fuel (suc n) b c))
      → Tells (elim p [
        | found ↦ ok true
        | missing ↦
            let rest = polls poll now start timeout_millis fuel (suc n) true has_error in
            ended poll now start timeout_millis n true has_error rest
        | failed ↦
            let rest = polls poll now start timeout_millis fuel (suc n) answered true in
            ended poll now start timeout_millis n answered true rest
      ])
  round-Tells fuel n a c found e g an r = (n, e, g)
  round-Tells fuel n a c missing e g an r =
      let p = not_found n (ap is_found e) in
      ended-answered n c (polls poll now start timeout_millis fuel (suc n) true c) g p
        (n, omega arith, e) (λ l. r true c (GoesOn-suc n g p l) (n, omega arith, e) l)
  round-Tells fuel n true c failed e g (i, l, m) r =
      let p = not_found n (ap is_found e) in
      ended-answered n true (polls poll now start timeout_millis fuel (suc n) true true) g p
        (i, omega (arith, l), m) (λ t. r true true (GoesOn-suc n g p t) (i, omega (arith, l), m) t)
  round-Tells fuel n false c failed e g an r =
      let p = not_found n (ap is_found e) in
      ended-failed n (polls poll now start timeout_millis fuel (suc n) false true) g p
        (all_failed n an e)
        (λ t. r false true (GoesOn-suc n g p t) (λ i h. all_failed n an e i (omega (arith, h))) t)

  polls-Tells :
      (fuel n : ℕ) (answered has_error : Bool)
      → 0 < fuel
      → start + timeout_millis < now n + fuel
      → Sleeps
      → GoesOn n
      → Answered n answered
      → Tells (polls poll now start timeout_millis fuel n answered has_error)
  unfolding polls
  polls-Tells zero n a c z f s g an = absurd (omega (arith, z))
  polls-Tells (suc fuel) n a c z f s g an =
      round-Tells fuel n a c (poll n) refl g an (λ b d g' an' l.
        polls-Tells fuel (suc n) b d (omega (arith, f, l)) (omega (arith, f, s n l)) s g' an')

  -- With more fuel than the timeout, a positive one, and a clock that moves on while the loop sleeps,
  -- `wait` returns: `true` when a poll finds the value while time remains; `false` when time
  -- is up, no
  -- poll has found it, and one was answered; and it throws when time is up and all polls have failed.
  pub wait-Tells :
      (fuel : ℕ)
      → 0 < timeout_millis
      → timeout_millis < fuel
      → start ≤ now 0
      → Sleeps
      → Tells (wait poll now start timeout_millis fuel)
  unfolding wait
  wait-Tells fuel z f t s = elim (Bool-cases (ltb 0 timeout_millis)) [
    | inl e ↦ rw e (
        polls-Tells fuel 0 false false (omega (arith, f)) (omega (arith, f, t)) s
          (λ j h. absurd (omega (arith, h))) (λ i h. absurd (omega (arith, h))))
    | inr e ↦ absurd (ground (arith, z, e))
  ]
