-- ===== src/Bits/Laws.antt =====
-- What the word operations do to each bit.
use Prim.Native.Nat.{max, min, bit_and, bit_or, bit_xor, differ, bit_and-bitwise}
use native.Mathlib.Nat.{pow-suc, one-le-pow}
use xbook.Prelude.{
  ℕ, zero, suc, ◌-◌, ◌/◌, ◌%◌, ◌^◌, ◌<◌, ◌≤◌, ◌≡◌, refl, ◌∙◌, Bool, true, false, not, ◌&&◌, ◌||◌,
  arith, ◌==◌,
}
use xbook.Bits.{testbit, complement}
use xbook.Bits.Step.{bit_and_step, bit_or_step, bit_xor_step}

-- Exclusive or of two bits.
abbrev differs : Bool → Bool → Bool
differs true b = not b
differs false b = b

max_digits : (x y : ℕ) → x < 2 → y < 2 → (max x y == 1) ≡ ((x == 1) || (y == 1))
max_digits x y p q = ground arith

min_digits : (x y : ℕ) → x < 2 → y < 2 → (min x y == 1) ≡ ((x == 1) && (y == 1))
min_digits x y p q = ground arith

differ_digits : (x y : ℕ) → x < 2 → y < 2 → differ x y < 2
differ_digits zero y p q = q
differ_digits (suc zero) zero p q = p
differ_digits (suc zero) (suc zero) p q = omega arith
differ_digits (suc zero) (suc (suc y)) p q = absurd (omega arith)
differ_digits (suc (suc x)) y p q = absurd (omega arith)

differ_bits : (x y : ℕ) → x < 2 → y < 2 → (differ x y == 1) ≡ differs (x == 1) (y == 1)
differ_bits zero y p q = refl
differ_bits (suc zero) zero p q = refl
differ_bits (suc zero) (suc zero) p q = refl
differ_bits (suc zero) (suc (suc y)) p q = absurd (omega arith)
differ_bits (suc (suc x)) y p q = absurd (omega arith)

bit_and-half : (a b : ℕ) → bit_and a b / 2 ≡ bit_and (a / 2) (b / 2)
bit_and-half a b = omega (arith, bit_and_step a b)

bit_or-half : (a b : ℕ) → bit_or a b / 2 ≡ bit_or (a / 2) (b / 2)
bit_or-half a b = omega (arith, bit_or_step a b)

bit_xor-half : (a b : ℕ) → bit_xor a b / 2 ≡ bit_xor (a / 2) (b / 2)
bit_xor-half a b =
    omega (arith, bit_xor_step a b, differ_digits (a % 2) (b % 2) (omega arith) (omega arith))

bit_xor-mod : (a b : ℕ) → bit_xor a b % 2 ≡ differ (a % 2) (b % 2)
bit_xor-mod a b =
    omega (arith, bit_xor_step a b, differ_digits (a % 2) (b % 2) (omega arith) (omega arith))

bit_and-mod : (a b : ℕ) → bit_and a b % 2 ≡ min (a % 2) (b % 2)
bit_and-mod a b = omega (arith, bit_and_step a b)

bit_or-mod : (a b : ℕ) → bit_or a b % 2 ≡ max (a % 2) (b % 2)
bit_or-mod a b = omega (arith, bit_or_step a b)

pub testbit-bit_and : (a b n : ℕ) → testbit (bit_and a b) n ≡ (testbit a n && testbit b n)
unfolding testbit
testbit-bit_and a b zero =
    rw (bit_and-mod a b) (min_digits (a % 2) (b % 2) (omega arith) (omega arith))
testbit-bit_and a b (suc n) = rw (bit_and-half a b) (testbit-bit_and (a / 2) (b / 2) n)

pub testbit-bit_or : (a b n : ℕ) → testbit (bit_or a b) n ≡ (testbit a n || testbit b n)
unfolding testbit
testbit-bit_or a b zero =
    rw (bit_or-mod a b) (max_digits (a % 2) (b % 2) (omega arith) (omega arith))
testbit-bit_or a b (suc n) = rw (bit_or-half a b) (testbit-bit_or (a / 2) (b / 2) n)

pub testbit-bit_xor : (a b n : ℕ) → testbit (bit_xor a b) n ≡ differs (testbit a n) (testbit b n)
unfolding testbit
testbit-bit_xor a b zero =
    rw (bit_xor-mod a b) (differ_bits (a % 2) (b % 2) (omega arith) (omega arith))
testbit-bit_xor a b (suc n) = rw (bit_xor-half a b) (testbit-bit_xor (a / 2) (b / 2) n)

testbit-zero : (n : ℕ) → testbit 0 n ≡ false
unfolding testbit
testbit-zero zero = refl
testbit-zero (suc n) = testbit-zero n

-- `1 << n` has bit `n` set and no other.
pub testbit-pow : (n m : ℕ) → testbit (2 ^ n) m ≡ (n == m)
unfolding testbit
testbit-pow zero zero = refl
testbit-pow zero (suc m) = testbit-zero m ∙ ground arith
testbit-pow (suc n) zero = ground (arith, pow-suc 2 n)
testbit-pow (suc n) (suc m) =
    let half : 2 ^ suc n / 2 ≡ 2 ^ n = omega (arith, pow-suc 2 n) in
    rw half (testbit-pow n m ∙ ground arith)

-- `~` flips each bit of the word.
pub testbit-complement :
    (w x n : ℕ) → x < 2 ^ w → n < w → testbit (complement w x) n ≡ not (testbit x n)
unfolding testbit complement
testbit-complement zero x n p q = elim q [ ]
testbit-complement (suc w) x zero p q = ground (arith, pow-suc 2 w, one-le-pow w 2)
testbit-complement (suc w) x (suc n) p q =
    let half : (2 ^ suc w - 1 - x) / 2 ≡ 2 ^ w - 1 - x / 2 = omega (arith, pow-suc 2 w) in
    rw half (testbit-complement w (x / 2) n (omega (arith, pow-suc 2 w)) (omega arith))

complement-lt : (w x : ℕ) → complement w x < 2 ^ w
unfolding complement
complement-lt w x = omega (arith, one-le-pow w 2)

-- No bit beyond the width of a word is set.
pub testbit_of_lt : (w x n : ℕ) → x < 2 ^ w → w ≤ n → testbit x n ≡ false
unfolding testbit
testbit_of_lt zero x n p q = let e : x ≡ 0 = omega arith in rw e (testbit-zero n)
testbit_of_lt (suc w) x zero p q = absurd (omega arith)
testbit_of_lt (suc w) x (suc n) p q =
    testbit_of_lt w (x / 2) n (omega (arith, pow-suc 2 w)) (omega arith)

pub bit_or-lt : (w a b : ℕ) → a < 2 ^ w → b < 2 ^ w → bit_or a b < 2 ^ w
bit_or-lt zero a b p q =
    let e : a ≡ 0 = omega arith in let e' : b ≡ 0 = omega arith in rw (e, e') (omega arith)
bit_or-lt (suc w) a b p q = omega (
  arith,
  bit_or_step a b,
  pow-suc 2 w,
  bit_or-lt w (a / 2) (b / 2) (omega (arith, pow-suc 2 w)) (omega (arith, pow-suc 2 w)),
)

pub zero-bit_and : (b : ℕ) → bit_and 0 b ≡ 0
zero-bit_and b = bit_and-bitwise 0 b

pub bit_and-lt : (w a b : ℕ) → a < 2 ^ w → bit_and a b < 2 ^ w
bit_and-lt zero a b p = let e : a ≡ 0 = omega arith in rw (e, zero-bit_and b) (omega arith)
bit_and-lt (suc w) a b p = omega (
  arith,
  bit_and_step a b,
  pow-suc 2 w,
  bit_and-lt w (a / 2) (b / 2) (omega (arith, pow-suc 2 w)),
)
