-- ===== src/Bitmap/Start.antt =====
-- The two first loops of `BitmapScan`: where the search starts.
use xbook.Prelude.{
  ℕ, zero, suc, ◌+◌, ◌*◌, ◌/◌, ◌%◌, ◌≤◌, ◌<◌, ◌≡◌, ◌≢◌, refl, ap, ◌∙◌, inl, inr, Bool, true, false,
  not, ◌&&◌, ◌||◌, ltb, ◌==◌, Bool-cases, arith, every, every_sound,
}
use native.Mathlib.Decide.{ℕ_discrete}
use xbook.Bits.{testbit}
use xbook.Memory.{Memory, AreBytes}
use xbook.Bitmap.{Bitmap, scan_test, skip_full, skip_set}
use xbook.Bitmap.Change.{scan_test_bit}

-- The second loop stops at the lowest clear bit of any byte but 0xff.
first_clear : ℕ → Bool
first_clear x =
    let k = skip_set 8 x 0 in x == 255 || (ltb k 8 && not (testbit x k) && every k (testbit x))

first_clear_table : every 256 first_clear ≡ true
unfolding every first_clear skip_set testbit
first_clear_table = refl

full_byte : (n : ℕ) → n < 8 → testbit 255 n ≡ true
unfolding testbit every
full_byte n h = every_sound 8 (testbit 255) n refl h

skip_set_lem :
    (x : ℕ)
    → x < 256
    → x ≢ 255
    → (skip_set 8 x 0 < 8)
      × (testbit x (skip_set 8 x 0) ≡ false)
      × ((n : ℕ) → n < skip_set 8 x 0 → testbit x n ≡ true)
unfolding first_clear
skip_set_lem x h ne =
    let t : first_clear x ≡ true = every_sound 256 first_clear x first_clear_table h in
    (
      ground arith,
      ground arith,
      λ n lt. every_sound (skip_set 8 x 0) (testbit x) n (ground arith) lt,
    )

skip_full_lem :
    (fuel : ℕ) (m : Memory) (b : Bitmap) (i : ℕ)
    → i ≤ b.bytes_len
    → b.bytes_len ≤ fuel + i
    → (i ≤ skip_full fuel m b i)
      × (skip_full fuel m b i ≤ b.bytes_len)
      × (skip_full fuel m b i ≢ b.bytes_len → m (b.bits + skip_full fuel m b i) ≢ 255)
      × ((k : ℕ) → i ≤ k → k < skip_full fuel m b i → m (b.bits + k) ≡ 255)
unfolding skip_full
skip_full_lem zero m b i p q =
    (omega arith, p, λ ne. absurd (omega arith), λ k u v. absurd (omega arith))
skip_full_lem (suc fuel) m b i p q =
    elim (Bool-cases (m (b.bits + i) == 255 && ltb i b.bytes_len)) [
      | inl full ↦
          let ih = skip_full_lem fuel m b (i + 1) (ground arith) (omega arith) in
          rw full (
            omega (arith, ih.0),
            ih.1,
            ih.2,
            λ k u v. ground (
              arith,
              λ (w : i + 1 ≤ k). ih.3 k w v,
              λ (e : i ≡ k). ap (λ (j : ℕ). m (b.bits + j)) e,
            ),
          )
      | inr stop ↦ rw stop (omega arith, p, λ ne. ground arith, λ k u v. absurd (omega arith))
    ]

at_bit :
    (m : Memory) (b : Bitmap) (i k n : ℕ)
    → i ≡ k * 8 + n
    → n < 8
    → scan_test m b i ≡ testbit (m (b.bits + k)) n
at_bit m b i k n e h =
    let byte : i / 8 ≡ k = omega arith in
    let bit : i % 8 ≡ n = omega arith in scan_test_bit m b i ∙ (rw (byte, bit))

-- Where the two first loops leave the scan.
abbrev pub first_byte : Memory → Bitmap → ℕ
first_byte m b = skip_full b.bytes_len m b 0

abbrev pub start : Memory → Bitmap → ℕ
start m b = first_byte m b * 8 + skip_set 8 (m (b.bits + first_byte m b)) 0

-- It is the lowest clear bit of the bitmap, if one is clear.
pub start_lem :
    (m : Memory) (b : Bitmap)
    → AreBytes m
    → first_byte m b ≢ b.bytes_len
    → (start m b < b.bytes_len * 8)
      × (scan_test m b (start m b) ≡ false)
      × ((i : ℕ) → i < start m b → scan_test m b i ≡ true)
start_lem m b bytes ne =
    let (_, below, stop, full) = skip_full_lem b.bytes_len m b 0 (omega arith) (omega arith) in
    let k = first_byte m b in
    let (small, clear, set_below) = skip_set_lem (m (b.bits + k)) (bytes (b.bits + k)) (stop ne) in
    (
      omega arith,
      at_bit m b (start m b) k (skip_set 8 (m (b.bits + k)) 0) refl small ∙ clear,
      λ i h. elim (ℕ_discrete (i / 8) k) [
        | yes e ↦
            at_bit m b i k (i % 8) (omega arith) (omega arith) ∙ set_below (i % 8) (omega arith)
        | no ne' ↦
            at_bit m b i (i / 8) (i % 8) (omega arith) (omega arith)
            ∙ (rw (full (i / 8) (omega arith) (omega arith)) (full_byte (i % 8) (omega arith)))
      ],
    )

-- If no byte is below 0xff, every bit is set.
pub full_lem :
    (m : Memory) (b : Bitmap) (i : ℕ)
    → first_byte m b ≡ b.bytes_len
    → i < b.bytes_len * 8
    → scan_test m b i ≡ true
full_lem m b i e h =
    let (_, _, _, full) = skip_full_lem b.bytes_len m b 0 (omega arith) (omega arith) in
    rw (scan_test_bit m b i, full (i / 8) (omega arith) (omega arith))
      (full_byte (i % 8) (omega arith))
