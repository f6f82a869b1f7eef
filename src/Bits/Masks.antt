-- ===== src/Bits/Masks.antt =====
-- Tests of one bit, low masks, and words that agree in every bit.
use Prim.Native.Nat.{bit_and}
use native.Mathlib.Nat.{
  pow-suc, one-le-pow, mul-add-mod_self_right, mod-eq_of_lt, div-add-mod', mod-lt,
}
use xbook.Prelude.{
  ℕ, zero, suc, ◌+◌, ◌-◌, ◌*◌, ◌/◌, ◌%◌, ◌^◌, ◌<◌, ◌≡◌, refl, sym, ap, ◌∙◌, not, arith, ◌==◌,
  if◌then◌else◌, Bool-cases, inl, inr,
}
use xbook.Bits.{testbit}
use xbook.Bits.Step.{bit_and_step}

bit_and-half : (a b : ℕ) → bit_and a b / 2 ≡ bit_and (a / 2) (b / 2)
bit_and-half a b = omega (arith, bit_and_step a b)

bit_and-zero : (w a : ℕ) → a < 2 ^ w → bit_and a 0 ≡ 0
bit_and-zero zero a p = let e : a ≡ 0 = omega arith in rw e
bit_and-zero (suc w) a p =
    omega (arith, bit_and_step a 0, bit_and-zero w (a / 2) (omega (arith, pow-suc 2 w)))

lt_pow : (a : ℕ) → a < 2 ^ a
lt_pow zero = omega arith
lt_pow (suc a) = omega (arith, pow-suc 2 a, lt_pow a)

and-zero : (a : ℕ) → bit_and a 0 ≡ 0
and-zero a = bit_and-zero a a (lt_pow a)

-- `x & (1 << n)` is the bit in its place, or 0.
pub bit_and-pow : (n a : ℕ) → bit_and a (2 ^ n) ≡ (if testbit a n then 2 ^ n else 0)
unfolding testbit
bit_and-pow zero a = ground (arith, bit_and_step a 1, and-zero (a / 2))
bit_and-pow (suc n) a =
    let half : 2 ^ suc n / 2 ≡ 2 ^ n = omega (arith, pow-suc 2 n) in
    let step : bit_and a (2 ^ suc n) ≡ bit_and (a / 2) (2 ^ n) * 2 =
      omega (arith, bit_and_step a (2 ^ suc n), pow-suc 2 n, ap (λ k. bit_and (a / 2) k) half) in
    ground (arith, step, pow-suc 2 n, bit_and-pow n (a / 2))

-- So the C test `x & (1 << n)` is a test of the bit.
pub and_pow_test : (n a : ℕ) → (bit_and a (2 ^ n) == 0) ≡ not (testbit a n)
and_pow_test n a = elim (Bool-cases (testbit a n)) [
  | inl e ↦ rw (bit_and-pow n a, e) (ground (arith, one-le-pow n 2))
  | inr e ↦ rw (bit_and-pow n a, e) refl
]

mod_double : (m q r b : ℕ) → r < m → b < 2 → ((q * m + r) * 2 + b) % (2 * m) ≡ r * 2 + b
mod_double m q r b p p' =
    let shape : (q * m + r) * 2 + b ≡ q * (2 * m) + (r * 2 + b) = grind arith in
    rw shape (mul-add-mod_self_right q (2 * m) (r * 2 + b) ∙ mod-eq_of_lt (omega arith))

-- A mask of the low bits is a remainder.
pub bit_and-mask : (w a : ℕ) → bit_and a (2 ^ w - 1) ≡ a % 2 ^ w
bit_and-mask zero a = omega (arith, and-zero a)
bit_and-mask (suc w) a =
    let half : (2 ^ suc w - 1) / 2 ≡ 2 ^ w - 1 = omega (arith, pow-suc 2 w, one-le-pow w 2) in
    let step : bit_and a (2 ^ suc w - 1) ≡ bit_and (a / 2) (2 ^ w - 1) * 2 + a % 2 = omega (
      arith,
      bit_and_step a (2 ^ suc w - 1),
      pow-suc 2 w,
      one-le-pow w 2,
      ap (λ k. bit_and (a / 2) k) half,
    ) in
    let ih : bit_and (a / 2) (2 ^ w - 1) ≡ a / 2 % 2 ^ w = bit_and-mask w (a / 2) in
    let whole : a ≡ (a / 2 / 2 ^ w * 2 ^ w + a / 2 % 2 ^ w) * 2 + a % 2 =
      omega (arith, div-add-mod' (a / 2) (2 ^ w)) in
    let cut : a % (2 * 2 ^ w) ≡ (a / 2 % 2 ^ w) * 2 + a % 2 =
      ap (λ k. k % (2 * 2 ^ w)) whole
      ∙ mod_double (2 ^ w) (a / 2 / 2 ^ w) (a / 2 % 2 ^ w) (a % 2)
          (mod-lt (a / 2) (one-le-pow w 2 (omega arith))) (omega arith) in
    step ∙ ap (λ k. k * 2 + a % 2) ih ∙ sym cut ∙ ap (λ k. a % k) (omega (arith, pow-suc 2 w))
