-- ===== src/VmSpace/Pages.antt =====
-- Page alignment as arithmetic.
use Prim.Native.Nat.{bit_and}
use xbook.Prelude.{
  ℕ, ◌+◌, ◌-◌, ◌*◌, ◌/◌, ◌%◌, ◌^◌, ◌<◌, ◌≡◌, ap, not, ltb, ◌==◌, if◌then◌else◌, arith,
}
use xbook.Bits.Step.{bit_and_step}
use xbook.Bits.Masks.{bit_and-mask}
use xbook.VmSpace.{add32, page_size, page_align, is_unaligned}

bit_and_even : (a c : ℕ) → bit_and a (2 * c) ≡ bit_and (a / 2) c * 2
bit_and_even a c = omega (arith, bit_and_step a (2 * c), ap (λ k. bit_and (a / 2) k) half)
  where
    half : 2 * c / 2 ≡ c
    half = omega arith

bit_and_nibble : (a c : ℕ) → bit_and a (16 * c) ≡ bit_and (a / 16) c * 16
bit_and_nibble a c = omega (
  arith,
  ap (λ k. bit_and a k) regroup,
  bit_and_even a (2 * (2 * (2 * c))),
  bit_and_even (a / 2) (2 * (2 * c)),
  bit_and_even (a / 2 / 2) (2 * c),
  bit_and_even (a / 2 / 2 / 2) c,
  ap (λ k. bit_and k c) fourth,
)
  where
    regroup : 16 * c ≡ 2 * (2 * (2 * (2 * c)))
    regroup = omega arith

    fourth : a / 2 / 2 / 2 / 2 ≡ a / 16
    fourth = omega arith

-- `x & PAGE_MASK` rounds a word down to a page.
page_down : (x : ℕ) → x < 2 ^ 32 → bit_and x 0xffff_f000 ≡ x / 4096 * 4096
page_down x h = omega (
  arith,
  bit_and_nibble x 0x0fff_ff00,
  bit_and_nibble (x / 16) 0x00ff_fff0,
  bit_and_nibble (x / 16 / 16) 0x000f_ffff,
  bit_and-mask 20 (x / 16 / 16 / 16),
)

-- `PAGE_ALIGN` is the next multiple of the page size, where that is a word; behind the last page
-- it wraps to 0.
pub page_align_lem :
    (x : ℕ)
    → x < 2 ^ 32
    → page_align x ≡ (if ltb (2 ^ 32 - 4096) x then 0 else (x + 4095) / 4096 * 4096)
unfolding page_align
page_align_lem x h =
    ground (arith, bit_and-mask 12 x, page_down x h, page_down (add32 x page_size) (omega arith))

is_unaligned_lem : (x : ℕ) → is_unaligned x ≡ not (x % 4096 == 0)
unfolding is_unaligned
is_unaligned_lem x = ground (arith, bit_and-mask 12 x)
