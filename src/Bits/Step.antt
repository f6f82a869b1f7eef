-- ===== src/Bits/Step.antt =====
-- `&`, `|` and `^` split off their lowest binary digit. The native operations stand for `digits`,
-- which counts fuel down.
use Prim.Native.Nat.{
  min, max, differ, digits, bit_and, bit_or, bit_xor, bit_xor-bitwise, bit_or-bitwise,
  bit_and-bitwise,
}
use xbook.Prelude.{ℕ, zero, suc, ◌+◌, ◌*◌, ◌/◌, ◌%◌, ◌≤◌, ◌≡◌, refl, ap, sym, ◌∙◌, arith}

-- What remains of the second number when the first is 0, and what two digits make.
module _ (remains : ℕ → ℕ) (join : ℕ → ℕ → ℕ) where
  at_zero : (fuel y : ℕ) → digits remains join fuel 0 y ≡ remains y
  at_zero zero y = refl
  at_zero (suc fuel) y = refl

  -- Fuel beyond the first number is never used.
  spare_fuel :
      (fuel more x y : ℕ)
      → x ≤ fuel
      → fuel ≤ more
      → digits remains join more x y ≡ digits remains join fuel x y
  spare_fuel fuel more zero y p q = at_zero more y ∙ sym (at_zero fuel y)
  spare_fuel zero more (suc x) y p q = elim p [ ]
  spare_fuel (suc fuel) zero (suc x) y p q = elim q [ ]
  spare_fuel (suc fuel) (suc more) (suc x) y p q =
      ap (λ high. high * 2 + join (suc x % 2) (y % 2))
        (spare_fuel fuel more (suc x / 2) (y / 2) (omega arith) (omega arith))

  split_digit :
      (x y : ℕ)
      → digits remains join (suc x) (suc x) y
        ≡ digits remains join (suc x / 2) (suc x / 2) (y / 2) * 2 + join (suc x % 2) (y % 2)
  split_digit x y =
      ap (λ high. high * 2 + join (suc x % 2) (y % 2))
        (spare_fuel (suc x / 2) x (suc x / 2) (y / 2) (omega arith) (omega arith))

pub bit_xor_step : (x y : ℕ) → bit_xor x y ≡ bit_xor (x / 2) (y / 2) * 2 + differ (x % 2) (y % 2)
bit_xor_step zero y = simp bit_xor-bitwise (omega arith)
bit_xor_step (suc x) y = simp bit_xor-bitwise (split_digit (λ k. k) differ x y)

pub bit_and_step : (x y : ℕ) → bit_and x y ≡ bit_and (x / 2) (y / 2) * 2 + min (x % 2) (y % 2)
bit_and_step zero y = simp bit_and-bitwise (omega arith)
bit_and_step (suc x) y = simp bit_and-bitwise (split_digit (λ _. 0) min x y)

pub bit_or_step : (x y : ℕ) → bit_or x y ≡ bit_or (x / 2) (y / 2) * 2 + max (x % 2) (y % 2)
bit_or_step zero y = simp bit_or-bitwise (omega arith)
bit_or_step (suc x) y = simp bit_or-bitwise (split_digit (λ k. k) max x y)
