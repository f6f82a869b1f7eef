-- ===== src/Bitmap/Tests.antt =====
-- kernel/bitmap.c at concrete bitmaps.
use xbook.Prelude.{
  ℕ, ◌+◌, ◌≤◌, ◌<◌, ◌≡◌, refl, true, false, none, some, ◌==◌, if◌then◌else◌, arith, every,
  every_sound,
}
use xbook.Memory.{Memory, AreBytes}
use xbook.Bitmap.{Bitmap, scan_test, scan, skip_full, skip_set, scan_run}
use xbook.Bitmap.Scan.{scan_sound, scan_complete}

-- Two bytes at address 100, the first full, the second with its last bit clear.
abbrev memory : Memory
memory a = if a == 100 then 255 else if a == 101 then 127 else 0

abbrev bitmap : Bitmap
bitmap = record { bytes_len = 2; bits = 100 }

memory-AreBytes : AreBytes memory
memory-AreBytes a = ground arith

scan_three : scan memory bitmap 3 ≡ none
unfolding scan skip_full skip_set scan_run scan_test
scan_three = refl

scan_one : scan memory bitmap 1 ≡ some 15
unfolding scan skip_full skip_set
scan_one = refl

used : (i : ℕ) → i + 1 < 16 → scan_test memory bitmap i ≡ true
unfolding scan_test every
used i h = (every_sound 15 (scan_test memory bitmap) i table (omega arith))
  where
    table : every 15 (scan_test memory bitmap) ≡ true
    table = refl

scan_sound_example : ((i : ℕ) → 15 ≤ i → i < 16 → scan_test memory bitmap i ≡ false) × (16 ≤ 16)
scan_sound_example =
    scan_sound memory bitmap 1 15 memory-AreBytes (omega arith) (omega arith) scan_one

scan_complete_example : ((i : ℕ) → 14 ≤ i → i < 17 → scan_test memory bitmap i ≡ false) → ⊥
scan_complete_example =
    scan_complete memory bitmap 3 14 memory-AreBytes (omega arith) (omega arith) scan_three
      (omega arith) (omega arith)
