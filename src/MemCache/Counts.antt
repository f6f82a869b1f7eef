-- ===== src/MemCache/Counts.antt =====
-- Counting the numbers below a bound that pass a test.
use xbook.Prelude.{
  ℕ, zero, suc, ◌+◌, ◌≤◌, ◌<◌, ◌≡◌, ◌≢◌, refl, Bool, true, false, ◌==◌, if◌then◌else◌, Bool-cases,
  inl, inr, arith,
}

abbrev pub one : Bool → ℕ
one b = if b then 1 else 0

unfoldable pub count_below : ℕ → (ℕ → Bool) → ℕ
count_below zero p = 0
count_below (suc n) p = one (p n) + count_below n p

pub count_below-le : (n : ℕ) (p : ℕ → Bool) → count_below n p ≤ n
unfolding count_below
count_below-le zero p = omega arith
count_below-le (suc n) p = ground (arith, count_below-le n p)

pub count_below_mono :
    (n : ℕ) (p q : ℕ → Bool)
    → ((i : ℕ) → i < n → p i ≡ true → q i ≡ true)
    → count_below n p ≤ count_below n q
unfolding count_below
count_below_mono zero p q h = omega arith
count_below_mono (suc n) p q h =
    ground (arith, h n, count_below_mono n p q (λ i lt. h i (omega arith)))

pub count_below-same :
    (n : ℕ) (p q : ℕ → Bool) → ((i : ℕ) → i < n → p i ≡ q i) → count_below n p ≡ count_below n q
unfolding count_below
count_below-same zero p q h = refl
count_below-same (suc n) p q h =
    ground (arith, h n (omega arith), count_below-same n p q (λ i lt. h i (omega arith)))

pub count_below-none :
    (n : ℕ) (p : ℕ → Bool) → ((i : ℕ) → i < n → p i ≡ false) → count_below n p ≡ 0
unfolding count_below
count_below-none zero p h = refl
count_below-none (suc n) p h =
    ground (arith, h n (omega arith), count_below-none n p (λ i lt. h i (omega arith)))

-- Two tests that differ at most at one number
pub count_below-change :
    (n k : ℕ) (p q : ℕ → Bool)
    → k < n
    → ((i : ℕ) → i ≢ k → p i ≡ q i)
    → count_below n p + one (q k) ≡ count_below n q + one (p k)
unfolding count_below
count_below-change zero k p q lt h = absurd (omega arith)
count_below-change (suc n) k p q lt h = elim (Bool-cases (k == n)) [
  | inl e ↦
      let at : k ≡ n = ground arith in
      let rest = count_below-same n p q (λ i below. h i (omega arith)) in
      let here : one (p n) + count_below n p + one (q n) ≡ one (q n) + count_below n q + one (p n) =
        omega arith in
      rw at here
  | inr e ↦
      let same = h n (ground arith) in
      let ih = count_below-change n k p q (ground arith) h in ground arith
]

-- Some number fails the test if the count is short.
pub count_below-short :
    (n : ℕ) (p : ℕ → Bool) → count_below n p < n → (i : ℕ) × (i < n) × (p i ≡ false)
unfolding count_below
count_below-short zero p h = absurd (omega arith)
count_below-short (suc n) p h = elim (Bool-cases (p n)) [
  | inl e ↦ let r = count_below-short n p (ground arith) in (r.0, omega (arith, r.1), r.2)
  | inr e ↦ (n, omega arith, e)
]

pub count_below-pos : (n k : ℕ) (p : ℕ → Bool) → k < n → p k ≡ true → 0 < count_below n p
unfolding count_below
count_below-pos zero k p lt h = absurd (omega arith)
count_below-pos (suc n) k p lt h = elim (Bool-cases (k == n)) [
  | inl e ↦ let at : k ≡ n = ground arith in let here : p n ≡ true = rw (← at) h in ground arith
  | inr e ↦ let ih = count_below-pos n k p (ground arith) h in omega arith
]
