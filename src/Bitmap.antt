-- ===== src/Bitmap.antt =====
-- kernel/bitmap.c and include/book/bitmap.h: a bitmap over bytes in memory. `bits` is the address
-- of the first byte; as in C nothing keeps a read or write inside the `bytes_len` bytes. An `int`
-- result of -1 is `none`.
pub mod Change
pub mod Start
pub mod Scan
mod Tests
use Prim.Native.Nat.{bit_and, bit_or, bit_xor}
use xbook.Prelude.{
  ℕ, zero, suc, ◌+◌, ◌-◌, ◌*◌, ◌/◌, ◌%◌, ◌^◌, ◌≡◌, Bool, true, false, not, ◌&&◌, Option, none, some,
  ltb, ◌==◌, if◌then◌else◌,
}
use xbook.Bits.{complement}
use xbook.Memory.{Memory, store}
use xbook.Strings.{memset}

pub record Bitmap : Type 0 where
  pub bytes_len : ℕ
  pub bits : ℕ

-- `btmp->bits[bitIdx / 8]`, and `BITMAP_MASK << (bitIdx % 8)`
abbrev pub cell : Bitmap → ℕ → ℕ
cell b i = b.bits + i / 8

abbrev pub mask : ℕ → ℕ
mask i = 2 ^ (i % 8)

pub init : Memory → Bitmap → Memory
init m b = memset m b.bits 0 b.bytes_len

unfoldable pub scan_test : Memory → Bitmap → ℕ → Bool
scan_test m b i = not (bit_and (m (cell b i)) (mask i) == 0)

unfoldable pub set : Memory → Bitmap → ℕ → ℕ → Memory
set m b i value =
    if value == 0
    then store m (cell b i) (bit_and (m (cell b i)) (complement 32 (mask i)))
    else store m (cell b i) (bit_or (m (cell b i)) (mask i))

-- `BitmapChange` and `BitmapTestAndChange` return the `int` left by the mask.
pub change : Memory → Bitmap → ℕ → Memory × ℕ
change m b i =
    let byte = bit_xor (m (cell b i)) (mask i) in (store m (cell b i) byte, bit_and byte (mask i))

pub test_and_change : Memory → Bitmap → ℕ → Memory × ℕ
test_and_change m b i =
    (store m (cell b i) (bit_xor (m (cell b i)) (mask i)), bit_and (m (cell b i)) (mask i))

-- The first loop of `BitmapScan`: past the bytes that are 0xff. `bytes_len` rounds are enough.
unfoldable pub skip_full : ℕ → Memory → Bitmap → ℕ → ℕ
skip_full zero m b idx_byte = idx_byte
skip_full (suc fuel) m b idx_byte =
    let rest = skip_full fuel m b (idx_byte + 1) in
    if m (b.bits + idx_byte) == 255 && ltb idx_byte b.bytes_len then rest else idx_byte

-- The second: past the bits that are set. `(unsigned char)(1 << 8)` is 0, so 8 rounds are enough.
unfoldable pub skip_set : ℕ → ℕ → ℕ → ℕ
skip_set zero byte idx_bit = idx_bit
skip_set (suc fuel) byte idx_bit =
    let rest = skip_set fuel byte (idx_bit + 1) in
    if bit_and (2 ^ idx_bit % 256) byte == 0 then idx_bit else rest

-- The third, `while (bit_left-- > 0)`: `count` bits before `next_bit` are clear.
unfoldable pub scan_run : ℕ → Memory → Bitmap → ℕ → ℕ → ℕ → Option ℕ
scan_run zero m b cnt next_bit count = none
scan_run (suc bit_left) m b cnt next_bit count =
    let count' = if scan_test m b next_bit then 0 else count + 1 in
    let rest = scan_run bit_left m b cnt ((next_bit + 1) % 2 ^ 32) count' in
    if count' == cnt then some ((next_bit + 2 ^ 32 - cnt + 1) % 2 ^ 32) else rest

unfoldable pub scan : Memory → Bitmap → ℕ → Option ℕ
scan m b cnt =
    let idx_byte = skip_full b.bytes_len m b 0 in
    let start = (idx_byte * 8 + skip_set 8 (m (b.bits + idx_byte)) 0) % 2 ^ 32 in
    if idx_byte == b.bytes_len
    then none
    else if cnt == 1
    then some start
    else scan_run ((b.bytes_len * 8 + 2 ^ 32 - start) % 2 ^ 32) m b cnt ((start + 1) % 2 ^ 32) 1
