-- ===== src/Bitmap/Change.antt =====
-- The operations that change one bit: what every bit of memory reads afterwards.
use Prim.Native.Nat.{bit_and, bit_or, bit_xor, bit_and-bitwise}
use native.Mathlib.Nat.{pow-suc, pow-le-pow_right, one-le-pow}
use xbook.Prelude.{
  ℕ, suc, ◌+◌, ◌*◌, ◌/◌, ◌%◌, ◌^◌, ◌≤◌, ◌<◌, ◌≡◌, refl, ap, ◌⊎◌, true, false, not, ◌==◌,
  if◌then◌else◌, arith,
}
use xbook.Bits.{testbit, complement}
use xbook.Bits.Laws.{
  testbit-bit_and, testbit-bit_or, testbit-bit_xor, testbit-pow, testbit-complement, bit_and-lt,
  bit_or-lt,
}
use xbook.Bits.Masks.{and_pow_test}
use xbook.Memory.{Memory, AreBytes}
use xbook.Strings.Blocks.{memset_lem}
use xbook.Bitmap.{Bitmap, cell, mask, init, scan_test, set, change, test_and_change}

pub scan_test_bit :
    (m : Memory) (b : Bitmap) (i : ℕ) → scan_test m b i ≡ testbit (m (cell b i)) (i % 8)
unfolding scan_test
scan_test_bit m b i = rw (and_pow_test (i % 8) (m (cell b i))) (ground arith)

mask-lt : (k : ℕ) → k < 32 → 2 ^ k < 2 ^ 32
mask-lt k h = omega (
  arith,
  pow-suc 2 k,
  pow-le-pow_right {n = 2} (omega arith) {i = suc k} {j = 32} h,
  one-le-pow k 2,
)

mask-lt-byte : (k : ℕ) → k < 8 → 2 ^ k < 2 ^ 8
mask-lt-byte k h = omega (
  arith,
  pow-suc 2 k,
  pow-le-pow_right {n = 2} (omega arith) {i = suc k} {j = 8} h,
  one-le-pow k 2,
)

byte-clear :
    (x k n : ℕ)
    → k < 32
    → n < 32
    → testbit (bit_and x (complement 32 (2 ^ k))) n ≡ (if k == n then false else testbit x n)
byte-clear x k n p q =
    rw (testbit-bit_and, testbit-complement 32 (2 ^ k) n (mask-lt k p) q, testbit-pow)
      (ground arith)

byte-raise : (x k n : ℕ) → testbit (bit_or x (2 ^ k)) n ≡ (if k == n then true else testbit x n)
byte-raise x k n = rw (testbit-bit_or, testbit-pow) (ground arith)

byte-flip :
    (x k n : ℕ)
    → testbit (bit_xor x (2 ^ k)) n ≡ (if k == n then not (testbit x n) else testbit x n)
byte-flip x k n = rw (testbit-bit_xor, testbit-pow) (ground arith)

-- After `set` the bit reads as the value that was asked for, and every other bit reads as before.
pub scan_test-set :
    (m : Memory) (b : Bitmap) (i j value : ℕ)
    → scan_test (set m b i value) b j ≡ (if i == j then not (value == 0) else scan_test m b j)
unfolding set
scan_test-set m b i j value =
    rw (scan_test_bit, scan_test_bit)
      (ground (
        arith,
        byte-clear (m (cell b i)) (i % 8) (j % 8) (omega arith) (omega arith),
        byte-raise (m (cell b i)) (i % 8) (j % 8),
        ap (λ (k : ℕ). k / 8),
      ))

pub set-AreBytes : (m : Memory) (b : Bitmap) (i x : ℕ) → AreBytes m → AreBytes (set m b i x)
unfolding set
set-AreBytes m b i x bytes a = ground (
  arith,
  bytes a,
  bit_and-lt 8 (m (cell b i)) (complement 32 (mask i)) (bytes (cell b i)),
  bit_or-lt 8 (m (cell b i)) (mask i) (bytes (cell b i)) (mask-lt-byte (i % 8) (omega arith)),
)

-- `BitmapChange` flips the bit, leaves the others, and returns non-zero exactly if it is now set;
-- `BitmapTestAndChange` does the same to memory, and returns non-zero if the bit was set before.
pub scan_test-change :
    (m : Memory) (b : Bitmap) (i j : ℕ)
    → (scan_test (change m b i).0 b j ≡ (if i == j then not (scan_test m b i) else scan_test m b j))
      × (not ((change m b i).1 == 0) ≡ not (scan_test m b i))
      × ((test_and_change m b i).0 ≡ (change m b i).0)
      × (not ((test_and_change m b i).1 == 0) ≡ scan_test m b i)
unfolding change test_and_change
scan_test-change m b i j = (
  rw (scan_test_bit, scan_test_bit, scan_test_bit)
      (ground (arith, byte-flip (m (cell b i)) (i % 8) (j % 8), ap (λ (k : ℕ). k / 8))),
  rw (scan_test_bit, and_pow_test, byte-flip) (ground arith),
  refl,
  rw (scan_test_bit, and_pow_test) (ground arith),
)

pub init-AreBytes : (m : Memory) (b : Bitmap) → AreBytes m → AreBytes (init m b)
unfolding init
init-AreBytes m b bytes a = ground (arith, memset_lem m b.bits 0 b.bytes_len a, bytes a)

-- After `BitmapInit` every bit of the bitmap is clear, and no byte outside it has changed.
pub init_lem :
    (m : Memory) (b : Bitmap) (i a : ℕ)
    → i < b.bytes_len * 8
    → (a < b.bits) ⊎ (b.bits + b.bytes_len ≤ a)
    → (scan_test (init m b) b i ≡ false) × (init m b a ≡ m a)
unfolding init scan_test
init_lem m b i a inside outside = (
  ground (arith, memset_lem m b.bits 0 b.bytes_len (cell b i), bit_and-bitwise 0 (mask i)),
  ground (arith, memset_lem m b.bits 0 b.bytes_len a),
)
