-- ===== src/Bits.antt =====
-- Bits of C words as native numbers: `1 << n` is `2 ^ n`, `~x` at a width is `complement`, and
-- `testbit` reads one binary digit. The children prove what `&`, `|`, `^` and `~` do to each digit.
pub mod Step
pub mod Laws
pub mod Masks
use xbook.Prelude.{ℕ, zero, suc, ◌-◌, ◌/◌, ◌%◌, ◌^◌, Bool, ◌==◌}

-- Is bit `n` of `x` set?
unfoldable pub testbit : ℕ → ℕ → Bool
testbit x zero = x % 2 == 1
testbit x (suc n) = testbit (x / 2) n

-- `~x` in a word of `w` bits
unfoldable pub complement : ℕ → ℕ → ℕ
complement w x = 2 ^ w - 1 - x
